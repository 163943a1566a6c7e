-- ===== src/Proc/Parents.antt =====
-- From `userinit` on: who is there to wait for a process of the table.
use mathlib.Core.Path.{subst}
use nunix.Prelude.{
  ℕ, ◌<◌, ◌≡◌, refl, true, false, none, some, inl, inr, arith, ◌==◌, ==→eq, Bool-cases,
  Option-cases, update, ap, ok, ok-inj,
}
use nunix.Proc.Outside.{Services}
use nunix.Proc.Table.{Proc, proc_at, Procs, nproc, is_unused, is_free, is_zombie, find_proc}
use nunix.Proc.Wakeup.{sleeps_on}
use nunix.Proc.Family.{IsFamily, is_alive}
use nunix.Proc.Found.{find_proc_lem}
use nunix.Proc.Reach.{IsSettled, Reach, reach-IsSettled}
use nunix.Proc.{Kernel, allocproc, userinit}

-- the table as the kernel finds it when it starts
abbrev pub IsBlank : Procs → Type 0
IsBlank t = (i : ℕ) → i < nproc → (is_unused (t i).state ≡ true) × ((t i).parent ≡ none)

first-IsFamily :
    (t : Procs) (i : ℕ) (p : Proc)
    → ((c : ℕ)
        → c < nproc
        → (i == c) ≡ false
        → (is_unused (t c).state ≡ true) × ((t c).parent ≡ none))
    → i < nproc
    → is_alive p ≡ true
    → p.parent ≡ none
    → IsFamily i (update t i p)
first-IsFamily t i p blank l alive orphan = record {
  init_slot = l;
  init_alive = ground arith;
  init_orphan = ground arith;
  no_loop = λ c m h. cc (fatherless c m, h);
  adopted = λ c m h other. absurd (ground (arith, blank c m (ground arith)));
  parent_slot = λ c q m h. absurd (cc (fatherless c m, h));
  parent_alive = λ c q m h. absurd (cc (fatherless c m, h));
  orphans = λ c m h. fatherless c m;
  attentive = λ c q m h z. absurd (cc (fatherless c m, h));
}
  where
    fatherless : (c : ℕ) → c < nproc → (update t i p c).parent ≡ none
    fatherless c m = elim (Bool-cases (i == c)) [
      | inl e ↦ rw e orphan
      | inr e ↦ rw e (blank c m e).1
    ]

module _ {W : Type 0} (services : Services W) where
  pub userinit-IsSettled :
      (k k0 : Kernel W) → IsBlank k.procs → userinit services k ≡ ok k0 → IsSettled services k0
  unfolding userinit allocproc
  userinit-IsSettled k k0 blank h =
      elim (Option-cases (find_proc (λ p. is_unused p.state) k.procs nproc 0)) [
        | inl e ↦ absurd (cc (rw (userinit, allocproc, e) at h))
        | inr (i, e) ↦ elim (Bool-cases ((services.kalloc k.world).0 == 0)) [
          | inl z ↦ absurd (cc (rw (userinit, allocproc, e, z) at h))
          | inr z ↦ elim (Bool-cases ((services.setupkvm (services.kalloc k.world).1).0 == 0)) [
            | inl y ↦ absurd (cc (rw (userinit, allocproc, e, z, allocproc, e, z, y) at h))
            | inr y ↦
                let (l, u) = find_proc_lem (λ p. is_unused p.state) k.procs nproc 0 i e in
                subst (IsSettled services)
                  (ok-inj (rw (userinit, allocproc, e, z, allocproc, e, z, y) at h))
                  (first-IsFamily _ i _ (λ c m other. rw other (blank c m)) l refl
                    (ground (arith, blank i l)))
          ]
        ]
      ]

  -- In every state that the system reaches by steps of its processors after `userinit` on a blank table, each process of the table but
  -- `init` has a parent, in the table, that is alive.
  pub parents_live :
      (k k0 k1 : Kernel W)
      → IsBlank k.procs
      → userinit services k ≡ ok k0
      → Reach services k0 k1
      → (c : ℕ) → c < nproc
      → is_free (k1.procs c).state ≡ false
      → (c == k1.initproc) ≡ false
      → (q : ℕ) × ((k1.procs c).parent ≡ some q) × (q < nproc) × (is_alive (k1.procs q) ≡ true)
  parents_live k k0 k1 blank boot r c l busy other =
      let f = reach-IsSettled services r (userinit-IsSettled k k0 blank boot) in
      elim (Option-cases (k1.procs c).parent) [
        | inl e ↦ absurd (ground (arith, f.adopted c l busy other))
        | inr (q, e) ↦ (q, e, f.parent_slot c q l e, f.parent_alive c q l e)
      ]

  -- In every state that the system reaches by steps of its processors after `userinit` on a blank table, a dead process of the table has a
  -- parent, in the table, that is alive and does not sleep in `wait`.
  pub dead_are_awaited :
      (k k0 k1 : Kernel W)
      → IsBlank k.procs
      → userinit services k ≡ ok k0
      → Reach services k0 k1
      → (c : ℕ) → c < nproc
      → is_zombie (k1.procs c).state ≡ true
      → (q : ℕ) × ((k1.procs c).parent ≡ some q)
        × (q < nproc)
        × (is_alive (k1.procs q) ≡ true)
        × (sleeps_on (proc_at q) (k1.procs q) ≡ false)
  dead_are_awaited k k0 k1 blank boot r c l dead =
      let f = reach-IsSettled services r (userinit-IsSettled k k0 blank boot) in
      let (q, e, m, alive) =
        parents_live k k0 k1 blank boot r c l (ground arith) (not_init f (ground arith)) in
      (q, e, m, alive, f.attentive c q l e dead)
    where
      not_init :
          IsFamily k1.initproc k1.procs → is_alive (k1.procs c) ≡ false → (c == k1.initproc) ≡ false
      not_init f a = elim (Bool-cases (c == k1.initproc)) [
        | inl e ↦
            absurd (cc (f.init_alive, a, ap (λ j. is_alive (k1.procs j)) (==→eq c k1.initproc e)))
        | inr e ↦ e
      ]
