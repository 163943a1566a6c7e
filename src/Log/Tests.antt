-- ===== src/Log/Tests.antt =====
-- Runs of log.c, and the theorems about it at a concrete log and disk.
use nunix.Prelude.{
  ℕ, zero, suc, ◌<◌, ◌≡◌, refl, ◌⊎◌, false, [], ◌∷◌, arith, All, ◌==◌, if◌then◌else◌, some, ok,
  panic, Result, ◌>>=◌,
}
use nunix.Disk.{Block, Disk, Store, modify, reboot}
use nunix.Log.{
  Log, maxopblocks, begin_op, log_write, absorb, commit, recover_from_log, find_sector, read_head,
}
use nunix.Log.Recovery.{IsFull, installed}
use nunix.Log.Crash.{RecoversTo}
use nunix.Log.Restart.{recovery_restarts}
use nunix.Log.Operations.{System, enter, write, Reach, here, next, booted}
use nunix.Log.Operations.Sound.{IsBooted}
use nunix.Log.Operations.Transactions.{
  from_now, log_write_admitted, transactions_atomic, transactions_durable,
}

-- a log of the 30 blocks that mkfs.c lays out, from block 100 on, with nothing in it
abbrev idle_log : Log
idle_log = record {
  start = 100;
  size = 30;
  outstanding = 0;
  committing = false;
  lh_n = 0;
  sector = λ i. 0;
}

abbrev zeros : Disk
zeros n i = 0

idle-IsBooted : IsBooted idle_log zeros
idle-IsBooted = record { no_sectors = refl; no_operations = refl; no_commit = refl; empty = refl }

abbrev fives : Block
fives i = 5

abbrev one_inside : System
one_inside = record {
  log = record idle_log { outstanding = 1 };
  store = reboot zeros;
  budgets = maxopblocks ∷ [];
}

-- after `begin_op` and one `log_write` of block 7
abbrev one_written : System
one_written = record {
  log = absorb (record idle_log { outstanding = 1 }) 7;
  store = modify (reboot zeros) 7 fives;
  budgets = 9 ∷ [];
}

Reach-inside : Reach (booted idle_log zeros) one_inside
unfolding begin_op
Reach-inside = next here (enter (record idle_log { outstanding = 1 }) refl)

Reach-written : Reach (booted idle_log zeros) one_written
unfolding log_write
Reach-written =
    next Reach-inside
      (write [] [] 9 7 fives one_written.log one_written.store refl (omega arith) refl)

-- the same in a log of 31 blocks
abbrev wide_log : Log
wide_log = record idle_log { size = 31 }

abbrev wide_written : System
wide_written = record one_written { log = absorb (record wide_log { outstanding = 1 }) 7 }

Reach-wide_written : Reach (booted wide_log zeros) wide_written
unfolding begin_op log_write
Reach-wide_written =
    next (next here (enter (record wide_log { outstanding = 1 }) refl))
      (write [] [] 9 7 fives wide_written.log wide_written.store refl (omega arith) refl)

wide-IsBooted : IsBooted wide_log zeros
wide-IsBooted = record { no_sectors = refl; no_operations = refl; no_commit = refl; empty = refl }

log_write_admitted_example :
    log_write wide_written.log wide_written.store 8 fives
    ≡ ok (absorb wide_written.log 8, modify wide_written.store 8 fives)
log_write_admitted_example =
    log_write_admitted wide_log zeros [] [] 8 8 fives wide-IsBooted (omega arith) Reach-wide_written
      refl

transactions_atomic_example :
    All
      (λ e.
        RecoversTo one_written.log one_written.store.disk e
        ⊎ RecoversTo one_written.log one_written.store.view e)
      (commit one_written.log (from_now one_written.store)).1.history
transactions_atomic_example = transactions_atomic idle_log zeros idle-IsBooted Reach-written

transactions_durable_example :
    (commit one_written.log (from_now one_written.store)).1.disk 7 ≡ fives
unfolding modify absorb
transactions_durable_example =
    transactions_durable idle_log zeros 7 idle-IsBooted Reach-written (omega arith)

-- a disk that was cut off after the header of that transaction
abbrev cut_off : Disk
cut_off n = if n == 100 then (λ i. if i == 0 then 1 else 7) else if n == 101 then fives else zeros n

only_zero : (i : ℕ) → i < 1 → i ≡ 0
only_zero i l = omega arith

cut_off-IsFull : IsFull 100 1 (λ i. 7) (λ n. fives) cut_off
cut_off-IsFull = record {
  head = record { number = refl; sectors = λ i l. rw (only_zero i l) };
  blocks = λ i l. rw (only_zero i l);
  homes = λ i l. omega arith;
}

recovery_restarts_example :
    (r : Log × Store) × (recover_from_log idle_log (reboot cut_off) ≡ ok r)
    × All (RecoversTo idle_log (installed (λ i. 7) 1 (λ n. fives) cut_off)) r.1.history
recovery_restarts_example =
    recovery_restarts idle_log 1 (λ i. 7) (λ n. fives) cut_off cut_off-IsFull (omega arith)

-- With the 30 log blocks that mkfs.c lays out, three operations are admitted, and their 30th block
-- panics.

writes : ℕ → Result (Log × Store)
unfolding log_write absorb find_sector modify
writes zero = ok (record idle_log { outstanding = 3 }, reboot zeros)
writes (suc k) = do (log, s) ← writes k; log_write log s k fives

short_log_admits_three :
    begin_op (record idle_log { outstanding = 2 }) ≡ some (record idle_log { outstanding = 3 })
unfolding begin_op
short_log_admits_three = refl

short_log_panics : writes 30 ≡ panic "too big a transaction"
unfolding writes
short_log_panics = refl

-- A header that counts more sectors than LOGSIZE makes the recovery write past them.
long_header : recover_from_log idle_log (reboot (λ n i. 31)) ≡ panic "read_head: past log.lh.sector"
unfolding recover_from_log read_head
long_header = refl
