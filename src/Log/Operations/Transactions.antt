-- ===== src/Log/Operations/Transactions.antt =====
-- What the log promises to the file system calls that run in it.
use nunix.Prelude.{
  ℕ, suc, ◌≤◌, ◌<◌, ◌≡◌, refl, ◌∙◌, ◌⊎◌, inl, inr, List, [], ◌∷◌, ◌++◌, ok, ap, arith, All, All-map,
  length, length-append, Bool-cases,
}
use nunix.Disk.{Block, Disk, Store, modify}
use nunix.Log.{Log, logsize, log_write, absorb, commit}
use nunix.Log.Recovery.{logged}
use nunix.Log.Crash.{RecoversTo, RecoversTo-same, IsAtomic, after, commit-IsAtomic, commit_installs}
use nunix.Log.Operations.{System, Reach, booted}
use nunix.Log.Operations.Stored.{IsStored}
use nunix.Log.Operations.Size.{IsWithin, Reach-IsWithin}
use nunix.Log.Operations.Sound.{
  sum, sum-append, IsReserved, IsBooted, booted-IsSound, Reach-IsSound,
}

booted-IsWithin : {log : Log} {d : Disk} → IsBooted log d → IsWithin log.size log
booted-IsWithin {log} b = record { same = refl; within = let z = b.no_sectors in omega arith }

log_write_reserved :
    (log : Log) (s : Store) (n : ℕ) (d : Block) (xs ys budgets : List ℕ) (left : ℕ)
    → logsize < log.size
    → IsReserved log budgets
    → budgets ≡ xs ++ (suc left ∷ ys)
    → log_write log s n d ≡ ok (absorb log n, modify s n d)
unfolding log_write
log_write_reserved log s n d xs ys budgets left wide r e =
    let total = sum-append xs (suc left ∷ ys) in
    let long = length-append xs (suc left ∷ ys) in
    let spare : log.lh_n < logsize = omega (arith, r.fits, ap sum e, total) in
    let busy : 0 < log.outstanding = omega (arith, r.counted, ap length e, long) in
    ground (arith, spare, busy, wide)

-- In a log of more than LOGSIZE blocks, whatever operations ran and run beside it, an operation that
-- has written fewer than MAXOPBLOCKS blocks since its `begin_op` can call `log_write` on any buffer: the
-- call does not panic, records the sector and pins the buffer.
pub log_write_admitted :
    (log : Log) (d : Disk) {o : System} (xs ys : List ℕ) (left n : ℕ) (b : Block)
    → IsBooted log d
    → logsize < log.size
    → Reach (booted log d) o
    → o.budgets ≡ xs ++ (suc left ∷ ys)
    → log_write o.log o.store n b ≡ ok (absorb o.log n, modify o.store n b)
log_write_admitted log d {o} xs ys left n b boot wide r e =
    let size = (Reach-IsWithin log.size (booted-IsWithin boot) r).same in
    log_write_reserved o.log o.store n b xs ys o.budgets left (omega (arith, size))
      (Reach-IsSound (booted-IsSound boot) r).reserved e

-- Where a block is not logged its buffer is what the disk holds.
after-view : (log : Log) (s : Store) → IsStored log s → (b : ℕ) → after log s b ≡ s.view b
after-view log s i b = elim (Bool-cases (logged log.sector log.lh_n b)) [
  | inl e ↦ rw e
  | inr e ↦ elim (Bool-cases (s.dirty b)) [
    | inl wet ↦ absurd (cc (i.pinned b wet))
    | inr dry ↦ rw (e, i.coherent b dry)
  ]
]

abbrev pub from_now : Store → Store
from_now s = record s { history = s.disk ∷ [] }

stored_atomic :
    (log : Log) (s : Store)
    → IsStored log s
    → log.lh_n ≤ logsize
    → All
        (λ e. RecoversTo log s.disk e ⊎ RecoversTo log s.view e)
        (commit log (from_now s)).1.history
stored_atomic log s i fits =
    All-map (IsAtomic log s) (λ e. RecoversTo log s.disk e ⊎ RecoversTo log s.view e)
      (commit log (from_now s)).1.history
      (λ e a. elim a [
        | inl old ↦ inl old
        | inr new ↦
            inr (RecoversTo-same log (after log s) s.view e (λ b l. after-view log s i b) new)
      ])
      (commit-IsAtomic {log = log} {s = from_now s}
        (record { homes = i.homes; fits = fits; empty = i.empty }) refl)

-- In every state that operations reach from a booted log, a crash during `commit` is atomic: each
-- disk from its start to its end recovers, at every block before the log, to the disk from before
-- the commit, or, at every such block too, to what the buffers hold.
pub transactions_atomic :
    (log : Log) (d : Disk) {o : System}
    → IsBooted log d
    → Reach (booted log d) o
    → All
        (λ e. RecoversTo o.log o.store.disk e ⊎ RecoversTo o.log o.store.view e)
        (commit o.log (from_now o.store)).1.history
transactions_atomic log d {o} boot r =
    let i = Reach-IsSound (booted-IsSound boot) r in
    stored_atomic o.log o.store i.stored (let f = i.reserved.fits in omega arith)

-- In every state that operations reach from a booted log, a `commit` that is not cut off brings every block before the log to the disk as
-- the buffers hold it.
pub transactions_durable :
    (log : Log) (d : Disk) {o : System} (b : ℕ)
    → IsBooted log d
    → Reach (booted log d) o
    → b < o.log.start
    → (commit o.log (from_now o.store)).1.disk b ≡ o.store.view b
transactions_durable log d {o} b boot r l =
    let sound = Reach-IsSound (booted-IsSound boot) r in
    let i = sound.stored in
    commit_installs {log = o.log} {s = from_now o.store}
      (record {
        homes = i.homes;
        fits = let f = sound.reserved.fits in omega arith;
        empty = i.empty;
      })
      refl b l
    ∙ after-view o.log o.store i b
