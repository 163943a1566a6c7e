-- ===== src/Fs.antt =====
-- fs.c: what its layers share: the state, the blocks in buffers, and the parts of a block's words.
pub mod Words
pub mod Bitmap
pub mod Marks
pub mod Inodes
pub mod Content
pub mod Directories
pub mod Paths
mod Tests
use nunix.Prelude.{
  ℕ, zero, suc, ◌+◌, ◌-◌, ◌*◌, ◌/◌, ◌%◌, Bool, true, false, ◌==◌, if◌then◌else◌, update, Result, ok,
  panic, ◌>>=◌, min, Option, none, some,
}
use nunix.Disk.{Block, Store, bread}
use nunix.Log.{Log, log_write}
use Words.{bit, set_bit, clear_bit}

-- `struct inode`, with its flags I_BUSY and I_VALID; shorts are words of 16 bits.
pub record Inode : Type 0 where
  pub dev : ℕ
  pub inum : ℕ
  pub ref : ℕ
  pub busy : Bool
  pub valid : Bool
  pub type : ℕ
  pub major : ℕ
  pub minor : ℕ
  pub nlink : ℕ
  pub size : ℕ
  pub addrs : ℕ → ℕ

-- The log, the buffers with the disk under them, and `icache.inode`.
pub record Fs : Type 0 where
  pub log : Log
  pub store : Store
  pub inode : ℕ → Inode

-- the data of the buffer of a block
abbrev pub block : Fs → ℕ → Block
block s b = bread s.store b

-- The buffer of a block is changed and handed to `log_write`.
pub put_block : ℕ → Block → Fs → Result Fs
put_block b d s = do
  (log, store) ← log_write s.log s.store b d
  ok (record s { log = log; store = store })

-- `sb.size` and `sb.ninodes`, as `readsb` reads them
abbrev pub sb_size : Fs → ℕ
sb_size s = block s 1 0

abbrev pub sb_ninodes : Fs → ℕ
sb_ninodes s = block s 1 2

-- inodes in a block, and bits in a block
abbrev pub ipb : ℕ
ipb = 8

abbrev pub bpb : ℕ
bpb = 4096

abbrev pub iblock : ℕ → ℕ
iblock i = i / ipb + 2

abbrev pub bblock : ℕ → ℕ → ℕ
bblock b ninodes = b / bpb + ninodes / ipb + 3

-- `bzero`
pub bzero : ℕ → Fs → Result Fs
unfolding put_block
bzero bno s = put_block bno (λ i. 0) s

-- Bit `bi` of a bitmap block: bit `bi % 8` of byte `bi / 8`, so bit `bi % 32` of word `bi / 32`.
abbrev pub bitmap_bit : Block → ℕ → Bool
bitmap_bit d bi = bit (d (bi / 32)) (bi % 32)

-- The inner loop of `balloc`: the first of `n` bits from `bi` on that is clear.
pub find_clear : Block → ℕ → ℕ → Option ℕ
find_clear d zero bi = none
find_clear d (suc n) bi = if bitmap_bit d bi then find_clear d n (bi + 1) else some bi

-- Bit `bi` of the bitmap block for block `b` is set, and the block that it stands for is zeroed.
pub take_block : ℕ → ℕ → Fs → Result (ℕ × Fs)
unfolding bzero
take_block b bi s = do
  let bn = bblock b (sb_ninodes s)
  let d = block s bn
  s1 ← put_block bn (update d (bi / 32) (set_bit (d (bi / 32)) (bi % 32))) s
  s2 ← bzero (b + bi) s1
  ok (b + bi, s2)

-- The loop of `balloc` over `n` bitmap blocks, from the one for block `b` on.
pub balloc_from : ℕ → ℕ → Fs → Result (ℕ × Fs)
unfolding find_clear take_block
balloc_from zero b s = panic "balloc: out of blocks"
balloc_from (suc n) b s =
    let rest = balloc_from n (b + bpb) s in
    elim (find_clear (block s (bblock b (sb_ninodes s))) (min bpb (sb_size s - b)) 0) [
      | none ↦ rest
      | some bi ↦ take_block b bi s
    ]

pub balloc : Fs → Result (ℕ × Fs)
unfolding balloc_from
balloc s = balloc_from ((sb_size s + bpb - 1) / bpb) 0 s

pub bfree : ℕ → Fs → Result Fs
unfolding put_block
bfree b s =
    let bn = bblock b (sb_ninodes s) in
    let d = block s bn in
    let bi = b % bpb in
    if bitmap_bit d bi
    then put_block bn (update d (bi / 32) (clear_bit (d (bi / 32)) (bi % 32))) s
    else panic "freeing free block"
