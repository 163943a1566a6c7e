-- ===== src/Log/Room.antt =====
-- `log_write` of log.c with room in the log.
use nunix.Prelude.{ℕ, suc, ◌+◌, ◌≤◌, ◌<◌, ◌≡◌, ok, arith}
use nunix.Disk.{Block, Store, modify}
use nunix.Log.{Log, logsize, absorb, log_write}
use nunix.Log.Absorb.{lh_n-absorb}

-- The log is in a transaction and takes `n` more blocks.
pub record HasRoom (log : Log) (n : ℕ) : Type 0 where
  pub begun : 0 < log.outstanding
  pub below : log.lh_n + n ≤ logsize
  pub fits : log.lh_n + n < log.size

pub log_write-returns :
    (log : Log) (s : Store) (b : ℕ) (d : Block) (n : ℕ)
    → HasRoom log (suc n)
    → (log_write log s b d ≡ ok (absorb log b, modify s b d)) × HasRoom (absorb log b) n
unfolding log_write absorb
log_write-returns log s b d n r = (
  returns r.begun r.below r.fits,
  record { begun = kept r.begun; below = less r.below; fits = smaller r.fits },
)
  where
    returns :
        0 < log.outstanding
        → log.lh_n + suc n ≤ logsize
        → log.lh_n + suc n < log.size
        → log_write log s b d ≡ ok (absorb log b, modify s b d)
    returns x y z = ground arith

    kept : 0 < log.outstanding → 0 < (absorb log b).outstanding
    kept x = x

    less : log.lh_n + suc n ≤ logsize → (absorb log b).lh_n + n ≤ logsize
    less y = ground (arith, lh_n-absorb log b)

    smaller : log.lh_n + suc n < log.size → (absorb log b).lh_n + n < log.size
    smaller z = ground (arith, lh_n-absorb log b)
