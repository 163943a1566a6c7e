-- ===== src/Log/Operations/Size.antt =====
-- How far the log fills: `log_write` leaves a block of it free for the header.
use mathlib.Core.Path.{subst}
use nunix.Prelude.{ℕ, ◌-◌, ◌≤◌, ◌<◌, ◌≡◌, refl, sym, ◌∙◌, ok, arith, inl, inr}
use nunix.Disk.{Block, Store}
use nunix.Log.{Log, log_write, finish_commit, absorb, commit}
use nunix.Log.Absorb.{lh_n-absorb}
use nunix.Log.Operations.{System, Step, enter, write, leave, finish, Reach, here, next}
use nunix.Log.Operations.Stored.{begin_op-some, leave_op-ok}
use nunix.Log.Operations.Sound.{log_write-ok}

-- A log of `size` blocks, with the header block to spare.
pub record IsWithin (size : ℕ) (log : Log) : Type 0 where
  pub same : log.size ≡ size
  pub within : log.lh_n ≤ size - 1

log_write-room :
    (log : Log) (s : Store) (n : ℕ) (d : Block) {r : Log × Store}
    → log_write log s n d ≡ ok r
    → log.lh_n < log.size - 1
unfolding log_write
log_write-room log s n d h = ground arith

absorb-size : (log : Log) (n : ℕ) → (absorb log n).size ≡ log.size
unfolding absorb
absorb-size log n = refl

finish_commit-IsWithin :
    (size : ℕ) (log : Log) (s : Store) → IsWithin size log → IsWithin size (finish_commit log s).0
unfolding finish_commit commit
finish_commit-IsWithin size log s w = record { same = ground arith; within = ground arith }

Step-IsWithin : (size : ℕ) {o p : System} → Step o p → IsWithin size o.log → IsWithin size p.log
Step-IsWithin size {o} (enter log h) w =
    subst (IsWithin size) (sym (begin_op-some o.log h))
      (record { same = w.same; within = w.within })
Step-IsWithin size {o} (write xs ys left n d log store e l h) w =
    let (log_is, store_is) = log_write-ok o.log o.store n d h in
    let room = log_write-room o.log o.store n d h in
    subst (IsWithin size) (sym log_is) (record {
      same = absorb-size o.log n ∙ w.same;
      within = elim (lh_n-absorb o.log n) [ inl e ↦ omega arith | inr e ↦ omega arith ];
    })
Step-IsWithin size {o} (leave xs ys left log c e h) w =
    subst (IsWithin size) (sym (leave_op-ok o.log h)) (record { same = w.same; within = w.within })
Step-IsWithin size {o} (finish h) w = finish_commit-IsWithin size o.log o.store w

pub Reach-IsWithin :
    (size : ℕ) {o p : System} → IsWithin size o.log → Reach o p → IsWithin size p.log
Reach-IsWithin size w here = w
Reach-IsWithin size w (next r st) = Step-IsWithin size st (Reach-IsWithin size w r)
