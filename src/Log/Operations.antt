-- ===== src/Log/Operations.antt =====
-- File system operations between `begin_op` and `end_op`, in any interleaving.
pub mod Size
pub mod Sound
pub mod Stored
pub mod Transactions
use nunix.Prelude.{ℕ, suc, ◌+◌, ◌<◌, ◌≡◌, Bool, true, List, [], ◌∷◌, ◌++◌, some, ok}
use nunix.Disk.{Block, Disk, Store, reboot}
use nunix.Log.{Log, maxopblocks, begin_op, log_write, leave_op, finish_commit}

-- The log, the buffers, and for each operation in progress the number of blocks that it may still
-- write of the MAXOPBLOCKS that `begin_op` reserves for it.
pub record System : Type 0 where
  pub log : Log
  pub store : Store
  pub budgets : List ℕ

-- `end_op` is `leave`, and `finish` where that says to commit. In between `committing` is set, and no
-- operation is in progress.
pub data Step (o : System) : System → Type 0 where
  enter :
      (log : Log)
      → begin_op o.log ≡ some log
      → Step o (record o { log = log; budgets = maxopblocks ∷ o.budgets })
  write :
      (xs ys : List ℕ) (left n : ℕ) (d : Block) (log : Log) (store : Store)
      → o.budgets ≡ xs ++ (suc left ∷ ys)
      → n < o.log.start
      → log_write o.log o.store n d ≡ ok (log, store)
      → Step o (record { log = log; store = store; budgets = xs ++ (left ∷ ys) })
  leave :
      (xs ys : List ℕ) (left : ℕ) (log : Log) (do_commit : Bool)
      → o.budgets ≡ xs ++ (left ∷ ys)
      → leave_op o.log ≡ ok (log, do_commit)
      → Step o (record o { log = log; budgets = xs ++ ys })
  finish :
      o.log.committing ≡ true
      → Step o (record o {
        log = (finish_commit o.log o.store).0;
        store = (finish_commit o.log o.store).1;
      })

pub data Reach (o : System) : System → Type 0 where
  here : Reach o o
  next : {p q : System} → Reach o p → Step p q → Reach o q

-- the system when `initlog` has returned, over the disk that it left
abbrev pub booted : Log → Disk → System
booted log d = record { log = log; store = reboot d; budgets = [] }
