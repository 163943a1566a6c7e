-- ===== src/Proc/Reach.antt =====
-- The process table as the processors change it: every write is a step, in any order.
use nunix.Prelude.{
  ℕ, ◌<◌, ◌≡◌, refl, true, false, ◌||◌, not, some, inl, inr, arith, ◌==◌, Bool-cases, Option-cases,
  update,
}
use nunix.Proc.Outside.{Services}
use nunix.Proc.Table.{
  Proc, Chan, address, Procs, nproc, is_unused, is_embryo, is_running, find_proc,
}
use nunix.Proc.Family.{IsFamily, is_alive, wakeup1-Eased, Eased-IsFamily, slot-IsFamily}
use nunix.Proc.Slots.{bury-IsFamily, birth-IsFamily}
use nunix.Proc.Life.{
  leave_table-IsFamily, kill-IsFamily, sleep_on-IsFamily, tidy_up-IsFamily, yield_cpu-IsFamily,
  dispatch-IsFamily,
}
use nunix.Proc.Found.{find_proc_lem, scan-found, scan-none}
use nunix.Proc.{
  Kernel, wakeup1, kill, leave_table, sleep_on, tidy_up, yield_cpu, dispatch, allocproc, fork_into,
  inherit, wait, scan, reap,
}

module _ {W : Type 0} (services : Services W) where
  abbrev pub Runs : ℕ → Kernel W → Type 0
  Runs me k = (me < nproc) × (is_running (k.procs me).state ≡ true)

  -- What changes the table while the system runs. `fork` takes two steps, `allocproc` and the rest;
  -- `exit` and `sleep` count from the `acquire` of `ptable.lock` on, and `sleep` ends with the step `tidied`.
  -- `computed` is any other code of a running process, which writes no state and no parent, and any change of
  -- the rest of the kernel.
  pub data Step (k : Kernel W) : Kernel W → Type 0 where
    allocated : Step k (allocproc services k).1
    forked :
        (me i : ℕ)
        → Runs me k
        → i < nproc
        → is_embryo (k.procs i).state ≡ true
        → Step k (fork_into services me i k).1
    exited :
        (me : ℕ)
        → Runs me k
        → (me == k.initproc) ≡ false
        → Step k (record k { procs = leave_table me k.initproc k.procs })
    waited : (me : ℕ) → Runs me k → Step k (wait services me k).1
    slept : (me a : ℕ) → Runs me k → Step k (record k { procs = sleep_on me (address a) k.procs })
    tidied : (me : ℕ) → Runs me k → Step k (record k { procs = tidy_up me k.procs })
    yielded : (me : ℕ) → Runs me k → Step k (record k { procs = yield_cpu me k.procs })
    dispatched : (i : ℕ) (t : Procs) → dispatch i k.procs ≡ some t → Step k (record k { procs = t })
    woken : (c : Chan) → Step k (record k { procs = wakeup1 c k.procs })
    killed : (pid : ℕ) → Step k (record k { procs = (kill pid k.procs).1 })
    computed :
        (me : ℕ) (p : Proc) (w : W)
        → Runs me k
        → is_running p.state ≡ true
        → p.parent ≡ (k.procs me).parent
        → Step k (record k { procs = update k.procs me p; world = w })

  pub data Reach (k : Kernel W) : Kernel W → Type 0 where
    start : Reach k k
    step : {a b : Kernel W} → Reach k a → Step a b → Reach k b

  abbrev pub IsSettled : Kernel W → Type 0
  IsSettled k = IsFamily k.initproc k.procs

  -- A free slot becomes an EMBRYO, or stays free.
  allocproc-IsSettled : (k : Kernel W) → IsSettled k → IsSettled (allocproc services k).1
  unfolding allocproc
  allocproc-IsSettled k f =
      elim (Option-cases (find_proc (λ p. is_unused p.state) k.procs nproc 0)) [
        | inl e ↦ rw (allocproc, e) f
        | inr (i, e) ↦
            let (l, u) = find_proc_lem (λ p. is_unused p.state) k.procs nproc 0 i e in
            let dead : is_alive (k.procs i) ≡ false = ground (arith, u) in
            let orphan = f.orphans i l (ground (arith, u)) in
            elim (Bool-cases ((services.kalloc k.world).0 == 0)) [
              | inl z ↦ rw (allocproc, e, z) (bury-IsFamily i _ f dead refl orphan)
              | inr z ↦ rw (allocproc, e, z) (bury-IsFamily i _ f dead refl orphan)
            ]
      ]

  fork_into-IsSettled :
      (me i : ℕ) (k : Kernel W)
      → Runs me k
      → i < nproc
      → is_embryo (k.procs i).state ≡ true
      → IsSettled k
      → IsSettled (fork_into services me i k).1
  unfolding fork_into inherit
  fork_into-IsSettled me i k (l, r) i_in e f =
      elim (Bool-cases ((services.copyuvm (k.procs me).pgdir (k.procs me).sz k.world).0 == 0)) [
        | inl z ↦ rw z (bury-IsFamily i _ f dead refl (f.orphans i i_in (ground arith)))
        | inr z ↦ rw z (birth-IsFamily i me _ f dead refl refl l (ground arith))
      ]
    where
      dead : is_alive (k.procs i) ≡ false
      dead = ground arith

  wait-IsSettled :
      (me : ℕ) (k : Kernel W) → Runs me k → IsSettled k → IsSettled (wait services me k).1
  unfolding wait reap sleep_on
  wait-IsSettled me k (l, r) f = elim (Option-cases (scan k.procs me nproc 0 false).1) [
    | inr (i, e) ↦
        let (b, child, z) = scan-found k.procs me nproc 0 false i e in
        rw (wait, e) (bury-IsFamily i _ f (ground arith) refl refl)
    | inl e ↦ elim (Bool-cases (not (scan k.procs me nproc 0 false).0 || (k.procs me).killed)) [
      | inl q ↦ rw (wait, e, q) f
      | inr q ↦
          rw (wait, e, q)
            (slot-IsFamily me _ f (ground arith) refl refl λ c b p z.
              absurd
                (cc ((scan-none k.procs me nproc 0 false e c (omega arith) b (ground arith)).0, z)))
    ]
  ]

  step-IsSettled : {a b : Kernel W} → Step a b → IsSettled a → IsSettled b
  step-IsSettled {a} allocated f = allocproc-IsSettled a f
  step-IsSettled {a} (forked me i r l e) f = fork_into-IsSettled me i a r l e f
  step-IsSettled {a} (exited me (l, r) apart) f =
      leave_table-IsFamily me a.initproc a.procs f l apart (ground arith)
  step-IsSettled {a} (waited me r) f = wait-IsSettled me a r f
  step-IsSettled (slept me c (l, r)) f = sleep_on-IsFamily f me c r
  step-IsSettled (tidied me (l, r)) f = tidy_up-IsFamily f me r
  step-IsSettled (yielded me (l, r)) f = yield_cpu-IsFamily f me r
  step-IsSettled (dispatched i t h) f = dispatch-IsFamily f i t h
  step-IsSettled {a} (woken c) f = Eased-IsFamily (wakeup1-Eased c a.procs) f
  step-IsSettled (killed pid) f = kill-IsFamily f pid
  step-IsSettled (computed me p w (l, r) s same) f =
      slot-IsFamily me p f (ground arith) (ground arith) same (λ c l h z. ground arith)

  pub reach-IsSettled : {a b : Kernel W} → Reach a b → IsSettled a → IsSettled b
  reach-IsSettled start f = f
  reach-IsSettled (step r s) f = step-IsSettled s (reach-IsSettled r f)
