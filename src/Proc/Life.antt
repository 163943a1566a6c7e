-- ===== src/Proc/Life.antt =====
-- The writes of the process table keep the family: one lemma for each function of proc.c.
use mathlib.Core.Path.{subst}
use nunix.Prelude.{
  ℕ, ◌<◌, ◌≡◌, refl, true, false, Option, none, some, inl, inr, arith, ◌==◌, ==→eq, Bool-cases,
  Option-cases, update, sym, ◌∙◌,
}
use nunix.Proc.Table.{
  running, nowhere, proc_at, address, Procs, nproc, is_free, is_running, is_runnable, find_proc,
}
use nunix.Proc.Wakeup.{sleeps_on}
use nunix.Proc.Family.{IsFamily, Eased, Eased-IsFamily, wakeup1-Eased, slot-IsFamily}
use nunix.Proc.Slots.{die-IsFamily}
use nunix.Proc.Exit.{
  wakeup1_wakes, abandon-IsFamily, abandon-calm, childless, abandon-Abandoned, Kept,
}
use nunix.Proc.{
  wakeup_parent, abandon, leave_table, kill, kill_proc, sleep_on, tidy_up, yield_cpu, dispatch,
}

pub wakeup_parent-Eased : (o : Option ℕ) (t : Procs) (i : ℕ) → Eased i (t i) (wakeup_parent o t i)
unfolding wakeup_parent
wakeup_parent-Eased none t i = wakeup1-Eased nowhere t i
wakeup_parent-Eased (some q) t i = wakeup1-Eased (proc_at q) t i

parent_wakes :
    (o : Option ℕ) (t : Procs) (q : ℕ)
    → o ≡ some q
    → q < nproc
    → sleeps_on (proc_at q) (wakeup_parent o t q) ≡ false
unfolding wakeup_parent
parent_wakes none t q h l = absurd (cc h)
parent_wakes (some r) t q h l = rw (r_is_q) (wakeup1_wakes (proc_at q) t q l)
  where
    r_is_q : r ≡ q
    r_is_q = cc h

pub leave_table-IsFamily :
    (me init : ℕ) (t : Procs)
    → IsFamily init t
    → me < nproc
    → (me == init) ≡ false
    → is_free (t me).state ≡ false
    → IsFamily init (leave_table me init t)
unfolding leave_table
leave_table-IsFamily me init t f l apart was =
    die-IsFamily me _ (abandon-IsFamily me init awake g apart) l
      (childless me init awake g apart (abandon me init awake) kept) apart refl
      (kept.same_free me ∙ (wakeup_parent-Eased (t me).parent t me).same_free ∙ was) refl
      (λ q h.
        let p = (wakeup_parent-Eased (t me).parent t me).same_parent in
        let h' = sym p ∙ abandon-calm me init awake g apart q l h in
        kept.calmer q (parent_wakes (t me).parent t q h' (f.parent_slot me q l h')))
  where
    awake : Procs
    awake = wakeup_parent (t me).parent t

    g : IsFamily init awake
    g = Eased-IsFamily (wakeup_parent-Eased (t me).parent t) f

    kept : Kept me init awake nproc (abandon me init awake)
    kept = (abandon-Abandoned me init awake f.init_slot).0

killed-Eased : (t : Procs) (i j : ℕ) → Eased j (t j) (update t i (kill_proc (t i)) j)
unfolding kill_proc
killed-Eased t i j = elim (Bool-cases (i == j)) [
  | inl e ↦
      rw (e, ==→eq i j e)
        (record {
          same_parent = refl;
          same_free = ground arith;
          same_zombie = ground arith;
          calmer = λ h. ground arith;
        })
  | inr e ↦
      rw e (record { same_parent = refl; same_free = refl; same_zombie = refl; calmer = λ h. h })
]

module _ {init : ℕ} {t : Procs} (f : IsFamily init t) where
  pub kill-IsFamily : (pid : ℕ) → IsFamily init (kill pid t).1
  unfolding kill kill_proc
  kill-IsFamily pid = elim (Option-cases (find_proc (λ p. p.pid == pid) t nproc 0)) [
    | inl e ↦ rw (kill, e) f
    | inr (i, e) ↦ rw (kill, e) (Eased-IsFamily (killed-Eased t i) f)
  ]

  pub sleep_on-IsFamily :
      (me a : ℕ) → is_running (t me).state ≡ true → IsFamily init (sleep_on me (address a) t)
  unfolding sleep_on
  sleep_on-IsFamily me a r = slot-IsFamily me _ f (ground arith) refl refl (λ c l h z. refl)

  pub tidy_up-IsFamily : (me : ℕ) → is_running (t me).state ≡ true → IsFamily init (tidy_up me t)
  unfolding tidy_up
  tidy_up-IsFamily me r =
      slot-IsFamily me _ f (ground arith) (ground arith) refl (λ c l h z. ground arith)

  pub yield_cpu-IsFamily :
      (me : ℕ) → is_running (t me).state ≡ true → IsFamily init (yield_cpu me t)
  unfolding yield_cpu
  yield_cpu-IsFamily me r = slot-IsFamily me _ f (ground arith) refl refl (λ c l h z. refl)

  pub dispatch-IsFamily : (i : ℕ) (u : Procs) → dispatch i t ≡ some u → IsFamily init u
  unfolding dispatch
  dispatch-IsFamily i u h = elim (Bool-cases (is_runnable (t i).state)) [
    | inl r ↦ subst (IsFamily init) (dispatched r h) (
        slot-IsFamily i (record (t i) { state = running }) f (ground arith) refl refl
          (λ c l h z. refl))
    | inr r ↦ absurd (cc (rw r at h))
  ]
    where
      dispatched :
          is_runnable (t i).state ≡ true
          → dispatch i t ≡ some u
          → update t i (record (t i) { state = running }) ≡ u
      dispatched r h = cc (rw r at h)
