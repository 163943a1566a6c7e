-- ===== src/Log/Recovery.antt =====
-- What recovery makes of a disk: nothing if its log is empty, the logged transaction if it is full.
use nunix.Prelude.{
  ℕ, zero, suc, ◌+◌, ◌<◌, ◌≡◌, refl, ap, ◌∙◌, Bool, false, ◌||◌, arith, ◌==◌, ==→eq, if◌then◌else◌,
  Bool-cases, inl, inr, for_upto_inv,
}
use nunix.Disk.{Disk, Store, bread, bwrite, reboot}
use nunix.Log.{Log, install_trans, take_head, write_head, recover_with}
use nunix.Log.Head.{IsHead, take_head-IsHead}

-- `b` is one of the first `k` sectors
abbrev pub logged : (ℕ → ℕ) → ℕ → ℕ → Bool
logged sector zero b = false
logged sector (suc k) b = sector k == b || logged sector k b

-- On the disk `d` the log at `start` is empty.
abbrev pub IsEmpty : ℕ → Disk → Type 0
IsEmpty start d = d start 0 ≡ 0

-- On the disk `d` the log at `start` holds `n` blocks, whose homes are `sector` and whose data are
-- those of `image` there. The homes lie before the log.
pub record IsFull (start n : ℕ) (sector : ℕ → ℕ) (image : Disk) (d : Disk) : Type 0 where
  pub head : IsHead n sector (d start)
  pub blocks : (i : ℕ) → i < n → d (start + i + 1) ≡ image (sector i)
  pub homes : (i : ℕ) → i < n → sector i < start

-- the disk `old` with the logged sectors replaced by those of `image`
abbrev pub installed : (ℕ → ℕ) → ℕ → Disk → Disk → Disk
installed sector n image old b = if logged sector n b then image b else old b

-- the state of `install_trans` after `k` rounds
record Installing (start n : ℕ) (sector : ℕ → ℕ) (image old : Disk) (k : ℕ) (t : Store)
    : Type 0 where
  blocks : (i : ℕ) → i < n → t.view (start + i + 1) ≡ image (sector i)
  disk : (b : ℕ) → t.disk b ≡ installed sector k image old b

install_one :
    (start n : ℕ) (sector : ℕ → ℕ) (image old : Disk) (k : ℕ) (t : Store)
    → ((i : ℕ) → i < n → sector i < start)
    → k < n
    → Installing start n sector image old k t
    → Installing start n sector image old (suc k) (bwrite t (sector k) (bread t (start + k + 1)))
unfolding bwrite
install_one start n sector image old k t homes l h = record {
  blocks = λ i m. ground (arith, homes k l, h.blocks i m);
  disk = λ b. elim (Bool-cases (sector k == b)) [
    | inl e ↦ rw e (h.blocks k l ∙ ap image (==→eq (sector k) b e))
    | inr e ↦ rw e (h.disk b)
  ];
}

pub install_trans-installed :
    (log : Log) (s : Store) (image : Disk)
    → ((i : ℕ) → i < log.lh_n → log.sector i < log.start)
    → ((i : ℕ) → i < log.lh_n → s.view (log.start + i + 1) ≡ image (log.sector i))
    → (b : ℕ) → (install_trans log s).disk b ≡ installed log.sector log.lh_n image s.disk b
unfolding install_trans
install_trans-installed log s image homes blocks =
    (for_upto_inv (Installing log.start log.lh_n log.sector image s.disk)
      (λ tail t. bwrite t (log.sector tail) (bread t (log.start + tail + 1))) log.lh_n
      (λ i t l h. install_one log.start log.lh_n log.sector image s.disk i t homes l h) s
      (record { blocks = blocks; disk = λ b. refl })).disk

-- the disk after a restart and the recovery of a log at `log.start`, whose header is read whole
abbrev pub recovered : Log → Disk → Disk
recovered log d = (recover_with (take_head log (reboot d)) (reboot d)).1.disk

pub logged_ext :
    (a b : ℕ → ℕ) (n x : ℕ) → ((i : ℕ) → i < n → a i ≡ b i) → logged a n x ≡ logged b n x
logged_ext a b zero x h = refl
logged_ext a b (suc n) x h = rw (h n (omega arith), logged_ext a b n x (λ i l. h i (omega arith)))

pub take_head-start : (log : Log) (s : Store) → (take_head log s).start ≡ log.start
unfolding take_head
take_head-start log s = refl

-- The header is not one of the blocks before the log.
recovered-disk :
    (log : Log) (d : Disk) (b : ℕ)
    → b < log.start
    → recovered log d b ≡ (install_trans (take_head log (reboot d)) (reboot d)).disk b
unfolding recover_with write_head bwrite
recovered-disk log d b l =
    let apart : (log.start == b) ≡ false = ground arith in
    rw (take_head-start log (reboot d), apart)

-- What the header says decides what `recover_from_log` installs.
recovered-installed :
    (log : Log) (n : ℕ) (sector : ℕ → ℕ) (image d : Disk)
    → IsHead n sector (d log.start)
    → ((i : ℕ) → i < n → d (log.start + i + 1) ≡ image (sector i))
    → ((i : ℕ) → i < n → sector i < log.start)
    → (b : ℕ) → b < log.start
    → recovered log d b ≡ installed sector n image d b
recovered-installed log n sector image d h blocks homes b l =
    let log' = take_head log (reboot d) in
    let (number, sectors) = take_head-IsHead log (reboot d) n sector h in
    let same = take_head-start log (reboot d) in
    recovered-disk log d b l
    ∙ (install_trans-installed log' (reboot d) image
          (λ i m. rw (same, sectors i (rw number at m)) (homes i (rw number at m)))
          (λ i m. rw (same, sectors i (rw number at m)) (blocks i (rw number at m))) b
        ∙ rw number
            (ap (λ t. if t then image b else d b) (logged_ext log'.sector sector n b sectors)))

-- Recovery of a full log installs it at every block before the log.
pub recovered-IsFull :
    (log : Log) (n : ℕ) (sector : ℕ → ℕ) (image d : Disk)
    → IsFull log.start n sector image d
    → (b : ℕ) → b < log.start
    → recovered log d b ≡ installed sector n image d b
recovered-IsFull log n sector image d f =
    recovered-installed log n sector image d f.head f.blocks f.homes

-- Recovery of an empty log changes no block before the log.
pub recovered-IsEmpty :
    (log : Log) (d : Disk) → IsEmpty log.start d → (b : ℕ) → b < log.start → recovered log d b ≡ d b
recovered-IsEmpty log d e =
    recovered-installed log 0 (λ i. 0) d d
      (record { number = e; sectors = λ i m. absurd (omega arith) }) (λ i m. absurd (omega arith))
      (λ i m. absurd (omega arith))
