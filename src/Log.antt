-- ===== src/Log.antt =====
-- log.c: the write-ahead log. The operations run under `log.lock`, or with `committing` set.
pub mod Clean
pub mod Crash
pub mod Head
pub mod Install
pub mod Absorb
pub mod Room
pub mod Operations
pub mod Recovery
pub mod Restart
mod Tests
use nunix.Prelude.{
  ℕ, zero, suc, ◌+◌, ◌-◌, ◌*◌, ◌%◌, ◌^◌, Bool, true, false, ◌||◌, Option, none, some, List, [], ◌∷◌,
  ltb, leb, ◌==◌, if◌then◌else◌, update, for_upto, Result, ok, panic, ◌>>=◌,
}
use nunix.Disk.{Block, Disk, Store, bread, bwrite, modify, reboot}

abbrev pub maxopblocks : ℕ
maxopblocks = 10

abbrev pub logsize : ℕ
logsize = 30

-- `struct log` less its lock and device; `lh_n` and `sector` are `lh.n` and `lh.sector`.
pub record Log : Type 0 where
  pub start : ℕ
  pub size : ℕ
  pub outstanding : ℕ
  pub committing : Bool
  pub lh_n : ℕ
  pub sector : ℕ → ℕ

pub install_trans : Log → Store → Store
install_trans log =
    for_upto log.lh_n λ tail s. bwrite s (log.sector tail) (bread s (log.start + tail + 1))

-- What `read_head` copies out of the header: the count, and as many sectors.
pub take_head : Log → Store → Log
take_head log s =
    let buf = bread s log.start in
    record log {
      lh_n = buf 0;
      sector = for_upto (buf 0) (λ i a. update a i (buf (i + 1))) log.sector;
    }

-- `read_head`. `lh.n` is an `int`: a negative count has no entries, and is 0 here, as `recover_from_log` sets it next. `lh.sector` has LOGSIZE
-- entries: where the source would write past them the result is an error.
pub read_head : Log → Store → Result Log
unfolding take_head
read_head log s =
    let n = bread s log.start 0 in
    if leb (2 ^ 31) n
    then ok (record log { lh_n = 0 })
    else if ltb logsize n
    then panic "read_head: past log.lh.sector"
    else ok (take_head log s)

-- the header block that `write_head` makes of what the buffer holds
pub head_block : Log → Block → Block
head_block log buf =
    for_upto log.lh_n (λ i b. update b (i + 1) (log.sector i)) (update buf 0 log.lh_n)

pub write_head : Log → Store → Store
write_head log s = bwrite s log.start (head_block log (bread s log.start))

-- `recover_from_log` after its `read_head`
pub recover_with : Log → Store → Log × Store
unfolding install_trans write_head
recover_with log s =
    let s' = install_trans log s in
    let cleared = record log { lh_n = 0 } in (cleared, write_head cleared s')

pub recover_from_log : Log → Store → Result (Log × Store)
unfolding read_head recover_with
recover_from_log log s = do log' ← read_head log s; ok (recover_with log' s)

-- `initlog`: the fields that stand in the superblock, and the recovery.
pub initlog : Log → Store → Result (Log × Store)
initlog log s =
    let sb = bread s 1 in
    recover_from_log (record log { start = (sb 0 + 2 ^ 32 - sb 3) % 2 ^ 32; size = sb 3 }) s

-- A turn of `begin_op`: `none` goes to sleep on `&log` and tests again when it is woken.
pub begin_op : Log → Option Log
begin_op log =
    if log.committing || ltb logsize (log.lh_n + (log.outstanding + 1) * maxopblocks)
    then none
    else some (record log { outstanding = log.outstanding + 1 })

pub write_log : Log → Store → Store
write_log log =
    for_upto log.lh_n λ tail s. bwrite s (log.start + tail + 1) (bread s (log.sector tail))

pub commit : Log → Store → Log × Store
commit log s =
    if ltb 0 log.lh_n
    then (let committed = install_trans log (write_head log (write_log log s)) in
        let erased = record log { lh_n = 0 } in (erased, write_head erased committed))
    else (log, s)

-- The first half of `end_op`, under the lock, and whether it commits; either branch wakes `&log`
-- before `end_op` returns. `end_op` follows a `begin_op`, so `outstanding` is at least 1; at 0 the
-- source would go on with -1.
pub leave_op : Log → Result (Log × Bool)
leave_op log =
    if log.committing
    then panic "log.committing"
    else if log.outstanding == 1
    then ok (record log { outstanding = 0; committing = true }, true)
    else ok (record log { outstanding = log.outstanding - 1 }, false)

-- The second half: the commit, and the flag taken back.
pub finish_commit : Log → Store → Log × Store
finish_commit log s = let (log', s') = commit log s in (record log' { committing = false }, s')

pub end_op : Log → Store → Result (Log × Store)
end_op log s = do
  (log', do_commit) ← leave_op log
  ok (if do_commit then finish_commit log' s else (log', s))

-- The loop of `log_write`: the first of the `k` indices from `i` on whose entry is `n`, or `i + k`.
pub find_sector : (ℕ → ℕ) → ℕ → ℕ → ℕ → ℕ
find_sector sector n zero i = i
find_sector sector n (suc k) i = if sector i == n then i else find_sector sector n k (i + 1)

-- the log with the sector recorded, at its old place or a new one
pub absorb : Log → ℕ → Log
absorb log n =
    let i = find_sector log.sector n log.lh_n 0 in
    record log {
      sector = update log.sector i n;
      lh_n = if i == log.lh_n then log.lh_n + 1 else log.lh_n;
    }

-- `log_write(b)` on the buffer of block `n`, to which the caller has given the data `d`.
pub log_write : Log → Store → ℕ → Block → Result (Log × Store)
log_write log s n d =
    if leb logsize log.lh_n || leb (log.size - 1) log.lh_n
    then panic "too big a transaction"
    else if ltb log.outstanding 1
    then panic "log_write outside of trans"
    else ok (absorb log n, modify s n d)
