-- ===== src/Log/Operations/Stored.antt =====
-- The blocks while operations go on: homes before the log, an empty log on the disk, buffers that are
-- clean or pinned.
use mathlib.Core.Path.{subst}
use nunix.Prelude.{ℕ, ◌+◌, ◌<◌, ◌≡◌, ap, sym, ◌∙◌, Bool, some, ok, arith, Bool-cases, inl, inr, ltb}
use nunix.Disk.{Block, Store, bwrite, modify}
use nunix.Log.{
  Log, begin_op, leave_op, finish_commit, absorb, commit, head_block, install_trans, write_head,
  write_log,
}
use nunix.Log.Head.{head_block-IsHead}
use nunix.Log.Install.{update_self}
use nunix.Log.Recovery.{IsEmpty}
use nunix.Log.Absorb.{absorb_homes, logged-absorb}
use nunix.Log.Clean.{IsCoherent, IsPinned, modify-IsCoherent, commit-IsCoherent, commit_clean}

pub record IsStored (log : Log) (s : Store) : Type 0 where
  pub homes : (i : ℕ) → i < log.lh_n → log.sector i < log.start
  pub empty : IsEmpty log.start s.disk
  pub coherent : IsCoherent s
  pub pinned : IsPinned log s

pub begin_op-some :
    (log : Log) {log' : Log}
    → begin_op log ≡ some log'
    → log' ≡ record log { outstanding = log.outstanding + 1 }
unfolding begin_op
begin_op-some log h = ground arith

pub leave_op-ok :
    (log : Log) {log' : Log} {c : Bool}
    → leave_op log ≡ ok (log', c)
    → log' ≡ record log { outstanding = log'.outstanding; committing = log'.committing }
unfolding leave_op
leave_op-ok log h = ground arith

pub enter-IsStored :
    {log log' : Log} {s : Store} → begin_op log ≡ some log' → IsStored log s → IsStored log' s
enter-IsStored {log} {s} h i =
    subst (λ l. IsStored l s) (sym (begin_op-some log h))
      (record { homes = i.homes; empty = i.empty; coherent = i.coherent; pinned = i.pinned })

pub leave-IsStored :
    {log log' : Log} {s : Store} {c : Bool}
    → leave_op log ≡ ok (log', c)
    → IsStored log s
    → IsStored log' s
leave-IsStored {log} {s} h i =
    subst (λ l. IsStored l s) (sym (leave_op-ok log h))
      (record { homes = i.homes; empty = i.empty; coherent = i.coherent; pinned = i.pinned })

absorb-IsPinned :
    (log : Log) (s : Store) (n : ℕ) (d : Block)
    → IsPinned log s
    → IsPinned (absorb log n) (modify s n d)
unfolding modify
absorb-IsPinned log s n d pinned b h = ground (arith, logged-absorb log n b, pinned b)

pub absorb-IsStored :
    (log : Log) (s : Store) (n : ℕ) (d : Block)
    → n < log.start
    → IsStored log s
    → IsStored (absorb log n) (modify s n d)
unfolding absorb modify
absorb-IsStored log s n d l i = record {
  homes = absorb_homes log n i.homes l;
  empty = i.empty;
  coherent = modify-IsCoherent s n d i.coherent;
  pinned = absorb-IsPinned log s n d i.pinned;
}

commit-IsEmpty :
    (log : Log) (s : Store) → IsEmpty log.start s.disk → IsEmpty log.start (commit log s).1.disk
unfolding commit write_head bwrite
commit-IsEmpty log s e = elim (Bool-cases (ltb 0 log.lh_n)) [
  | inl h ↦
      let erased = record log { lh_n = 0 } in
      let t = install_trans log (write_head log (write_log log s)) in
      let head = head_block erased (t.view log.start) in
      rw h (
        ap (λ (b : Block). b 0) (sym (update_self t.disk log.start head))
        ∙ (head_block-IsHead erased (t.view log.start)).number)
  | inr h ↦ rw h e
]

start-commit : (log : Log) (s : Store) → (commit log s).0.start ≡ log.start
unfolding commit
start-commit log s = ground arith

lh_n-commit : (log : Log) (s : Store) → (commit log s).0.lh_n ≡ 0
unfolding commit
lh_n-commit log s = ground arith

pub finish-IsStored :
    (log : Log) (s : Store)
    → IsStored log s
    → IsStored (finish_commit log s).0 (finish_commit log s).1
unfolding finish_commit
finish-IsStored log s i = record {
  homes = λ k l. absurd (omega (arith, lh_n-commit log s));
  empty = rw (start-commit log s) (commit-IsEmpty log s i.empty);
  coherent = commit-IsCoherent log s i.coherent;
  pinned = λ b h. absurd (cc (commit_clean log s i.pinned b));
}
