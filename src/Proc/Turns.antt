-- ===== src/Proc/Turns.antt =====
-- What `wait`, `exit` and `kill` do, on every branch.
use nunix.Prelude.{
  ℕ, ◌<◌, ◌≡◌, refl, Bool, true, false, ◌&&◌, ◌||◌, not, Option, some, ◌⊎◌, inl, inr, arith, ◌==◌,
  if◌then◌else◌, Bool-cases, Option-cases, update, sym, ◌∙◌, lt→ltb, ltb,
}
use nunix.Proc.Outside.{Services}
use nunix.Proc.Table.{proc_at, Procs, nproc, is_zombie, is_sleeping, is_parent, find_proc, zombie}
use nunix.Proc.Family.{update-parent}
use nunix.Proc.Found.{find_proc_lem, find_proc-none, scan-found, scan-none, scan-child}
use nunix.Proc.Exit.{abandon-Abandoned}
use nunix.Proc.Life.{wakeup_parent-Eased, leave_table-IsFamily}
use nunix.Proc.Reach.{IsSettled, Runs}
use nunix.Proc.{
  Kernel, WaitTurn, reaped, no_child, sleeps, scan, reap, sleep_on, wait, leave_table,
  wakeup_parent, kill, kill_proc, abandon,
}

-- `kill` against the table: the process with the pid is killed and does not sleep, or there is none.
pub data Killed (pid : ℕ) (t : Procs) : Bool × Procs → Type 0 where
  hit :
      (i : ℕ) (u : Procs)
      → i < nproc
      → ((t i).pid == pid) ≡ true
      → (u i).killed ≡ true
      → is_sleeping (u i).state ≡ false
      → ((j : ℕ) → (i == j) ≡ false → u j ≡ t j)
      → Killed pid t (true, u)
  miss : ((i : ℕ) → i < nproc → ((t i).pid == pid) ≡ false) → Killed pid t (false, t)

-- `kill` returns 0 exactly when a process has the pid; that process is then killed and does not sleep, and no other changes.
kill-Killed : (pid : ℕ) (t : Procs) → Killed pid t (kill pid t)
unfolding kill kill_proc
kill-Killed pid t = elim (Option-cases (find_proc (λ p. p.pid == pid) t nproc 0)) [
  | inl e ↦
      rw (kill, e) (miss (λ i l. find_proc-none (λ p. p.pid == pid) t nproc 0 e i (omega arith) l))
  | inr (i, e) ↦
      let (l, y) = find_proc_lem (λ p. p.pid == pid) t nproc 0 i e in
      rw (kill, e) (hit i _ l y (ground arith) (ground arith) (λ j other. rw other))
]

module _ {W : Type 0} (services : Services W) (me : ℕ) (k : Kernel W) where
  abbrev NoneDead : Type 0
  NoneDead =
      (c : ℕ)
      → c < nproc
      → is_parent (k.procs c).parent me ≡ true
      → is_zombie (k.procs c).state ≡ false

  -- How a turn of `wait` ends.
  pub data Waited : WaitTurn × Kernel W → Type 0 where
    found :
        (i : ℕ)
        → i < nproc
        → is_parent (k.procs i).parent me ≡ true
        → is_zombie (k.procs i).state ≡ true
        → Waited (
          reaped (k.procs i).pid,
          record k {
            procs = update k.procs i (reap (k.procs i));
            world = services.freevm (k.procs i).pgdir (services.kfree (k.procs i).kstack k.world);
          },
        )
    gave_up :
        NoneDead
        → (((c : ℕ) → c < nproc → is_parent (k.procs c).parent me ≡ false)
            ⊎ ((k.procs me).killed ≡ true))
        → Waited (no_child, k)
    asleep :
        (c : ℕ)
        → NoneDead
        → c < nproc
        → is_parent (k.procs c).parent me ≡ true
        → (k.procs me).killed ≡ false
        → Waited (sleeps, record k { procs = sleep_on me (proc_at me) k.procs })

  -- A turn of `wait` reaps a dead child if there is one, gives up if there is no child or the process is killed, and else sleeps, with a child and none of them dead.
  pub wait-Waited : Waited (wait services me k)
  unfolding wait
  wait-Waited = elim (Option-cases (scan k.procs me nproc 0 false).1) [
    | inr (i, e) ↦
        let (b, child, z) = scan-found k.procs me nproc 0 false i e in
        rw (wait, e) (found i b child z)
    | inl e ↦
        let none_dead : NoneDead =
          λ c b p. (scan-none k.procs me nproc 0 false e c (omega arith) b p).0 in
        elim (Bool-cases (not (scan k.procs me nproc 0 false).0 || (k.procs me).killed)) [
          | inl q ↦
              rw (wait, e, q)
                (gave_up none_dead (elim (Bool-cases (k.procs me).killed) [
                  | inl y ↦ inr y
                  | inr y ↦ inl (λ c b. elim (Bool-cases (is_parent (k.procs c).parent me)) [
                    | inl p ↦
                        absurd
                          (ground (arith, scan-none k.procs me nproc 0 false e c (omega arith) b p))
                    | inr p ↦ p
                  ])
                ]))
          | inr q ↦ elim (scan-child k.procs me nproc 0 false e (ground arith)) [
            | inl seen ↦ absurd (cc seen)
            | inr (c, b, p) ↦ rw (wait, e, q) (asleep c none_dead b p (ground arith))
          ]
        ]
  ]

died : Procs → ℕ → Procs
died u me = update u me (record (u me) { state = zombie })

died-parent : (u : Procs) (me c : ℕ) → (died u me c).parent ≡ (u c).parent
unfolding died
died-parent u me c = sym (update-parent u me (record (u me) { state = zombie }) refl c)

died-IsDead : (u : Procs) (me : ℕ) → is_zombie (died u me me).state ≡ true
unfolding died
died-IsDead u me = ground arith

-- The rule of `Kept` for a slot of the table whose parent was the same before.
kept_parent :
    (me init c : ℕ) (a o o' : Option ℕ)
    → a ≡ (if ltb c nproc && is_parent o me then some init else o)
    → o ≡ o'
    → c < nproc
    → a ≡ (if is_parent o' me then some init else o')
kept_parent me init c a o o' h same l = h ∙ rw (lt→ltb c nproc l, same)

-- The parents after the table part of `exit`: the children of `me` are `init`'s.
leave_table-parent :
    (me init : ℕ) (t : Procs)
    → init < nproc
    → (c : ℕ) → c < nproc
    → (leave_table me init t c).parent
      ≡ (if is_parent (t c).parent me then some init else (t c).parent)
unfolding leave_table died
leave_table-parent me init t in_table c l =
    let awake : Procs = wakeup_parent (t me).parent t in
    died-parent (abandon me init awake) me c
    ∙ kept_parent me init c (abandon me init awake c).parent (awake c).parent (t c).parent
        ((abandon-Abandoned me init awake in_table).0.parent c)
        (wakeup_parent-Eased (t me).parent t c).same_parent l

pub leave_table-IsDead :
    (me init : ℕ) (t : Procs) → is_zombie (leave_table me init t me).state ≡ true
unfolding leave_table died
leave_table-IsDead me init t = died-IsDead (abandon me init (wakeup_parent (t me).parent t)) me

module _ {W : Type 0} (services : Services W) (me : ℕ) (k : Kernel W) where
  -- What the last turn of `exit` leaves.
  pub record Exited (k' : Kernel W) : Type 0 where
    dead : is_zombie (k'.procs me).state ≡ true
    parents :
        (c : ℕ)
        → c < nproc
        → (k'.procs c).parent
          ≡ (if is_parent (k.procs c).parent me then some k.initproc else (k.procs c).parent)
    settled : IsSettled services k'

  -- Let `k` be the settled state in which a running process other than `init` has taken `ptable.lock` in `exit`, after its calls in the other parts of the kernel. Its turn from there
  -- to the `sched()` leaves the process dead, its children with `init` for their parent, all other parents as they were, and the table settled.
  pub leave_table-Exited :
      IsSettled services k
      → Runs services me k
      → (me == k.initproc) ≡ false
      → Exited (record k { procs = leave_table me k.initproc k.procs })
  leave_table-Exited f (l, r) apart = record {
    dead = leave_table-IsDead me k.initproc k.procs;
    parents = λ c b. leave_table-parent me k.initproc k.procs f.init_slot c b;
    settled = leave_table-IsFamily me k.initproc k.procs f l apart (ground (arith, r));
  }
