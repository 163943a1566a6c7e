-- ===== src/Buffers.antt =====
-- bio.c: the cache of blocks, and what ide.c does for a buffer. A buffer is named by its index in `bcache.buf`, and
-- `bcache.head` by the index behind the last.
pub mod Ring
pub mod Turns
pub mod Search
pub mod View
pub mod Serve
pub mod Reads
pub mod Writes
pub mod Release
pub mod Boot
mod Tests
use nunix.Prelude.{
  ℕ, zero, suc, ◌+◌, ◌%◌, ◌^◌, Bool, true, false, not, ◌&&◌, ◌==◌, if◌then◌else◌, update, Result,
  ok, panic, ◌>>=◌, Option, none, some,
}
use nunix.Disk.{Block}

abbrev pub nbuf : ℕ
nbuf = 30

abbrev pub head : ℕ
head = nbuf

-- the device -1 of a buffer that was never used
abbrev pub no_dev : ℕ
no_dev = 4294967295

-- `struct buf`: B_BUSY, B_VALID and B_DIRTY are Booleans, and the links stand beside it.
pub record Buf : Type 0 where
  pub busy : Bool
  pub valid : Bool
  pub dirty : Bool
  pub dev : ℕ
  pub sector : ℕ
  pub block : Block

-- `bcache`
pub record Bcache : Type 0 where
  pub buf : ℕ → Buf
  pub next : ℕ → ℕ
  pub prev : ℕ → ℕ

abbrev pub set_buf : ℕ → Buf → Bcache → Bcache
set_buf b v c = record c { buf = update c.buf b v }

-- A buffer is put behind the head, and taken out of the list.
abbrev pub insert_front : ℕ → Bcache → Bcache
insert_front b c =
    let c1 = record c { next = update c.next b (c.next head); prev = update c.prev b head } in
    record c1 { prev = update c1.prev (c1.next head) b; next = update c1.next head b }

abbrev pub unlink_buf : ℕ → Bcache → Bcache
unlink_buf b c =
    let c1 = record c { prev = update c.prev (c.next b) (c.prev b) } in
    record c1 { next = update c1.next (c1.prev b) (c1.next b) }

-- The loop of `binit`, over `n` buffers from `b` on.
pub init_from : ℕ → ℕ → Bcache → Bcache
init_from zero b c = c
init_from (suc n) b c =
    init_from n (b + 1) (insert_front b (set_buf b (record (c.buf b) { dev = no_dev }) c))

pub binit : Bcache → Bcache
unfolding init_from
binit c =
    init_from nbuf 0 (record c { prev = update c.prev head head; next = update c.next head head })

abbrev pub is_block : ℕ → ℕ → Buf → Bool
is_block dev sector x = x.dev == dev && x.sector == sector

abbrev pub recyclable : Buf → Bool
recyclable x = not x.busy && not x.dirty

-- The loops of `bget`, from `b` on along the links: the first buffer that passes the test. There are `nbuf` buffers.
pub find_along : (Buf → Bool) → (ℕ → ℕ) → (ℕ → Buf) → ℕ → ℕ → Option ℕ
find_along test link buf zero b = none
find_along test link buf (suc n) b =
    if b == head then none else if test (buf b) then some b else find_along test link buf n (link b)

-- What a turn of `bget` comes to: a buffer, or a `sleep` on one that is busy, after which it starts again.
pub data Got : Type 0 where
  got : ℕ → Bcache → Got
  asleep : ℕ → Got

pub bget : ℕ → ℕ → Bcache → Result Got
unfolding find_along
bget dev sector c = elim (find_along (is_block dev sector) c.next c.buf nbuf (c.next head)) [
  | some b ↦
      if (c.buf b).busy
      then ok (asleep b)
      else ok (got b (set_buf b (record (c.buf b) { busy = true }) c))
  | none ↦ elim (find_along recyclable c.prev c.buf nbuf (c.prev head)) [
    | some b ↦ ok (
        got b (
          set_buf b
            (record {
              busy = true;
              valid = false;
              dirty = false;
              dev = dev;
              sector = sector;
              block = (c.buf b).block;
            })
            c))
    | none ↦ panic "bget: no buffers"
  ]
]

-- What ide.c finds in the machine: whether disk 1 is there, and the sectors of a disk that can be read.
pub record Drive : Type 0 where
  pub havedisk1 : Bool
  pub readable : ℕ → ℕ → Bool

-- The cache with the two disks.
pub record Blocks : Type 0 where
  pub cache : Bcache
  pub disks : ℕ → ℕ → Block

-- The disk and the sector that `idestart` asks for.
abbrev pub unit_of : Buf → ℕ
unit_of x = x.dev % 2

abbrev pub lba : Buf → ℕ
lba x = x.sector % 2 ^ 28

-- `idestart` and `ideintr` for a buffer. A sector that cannot be read leaves the data, which count as valid too.
pub transfer : Drive → ℕ → Blocks → Blocks
transfer drive b m =
    let x = m.cache.buf b in
    if x.dirty
    then record {
      cache = set_buf b (record x { valid = true; dirty = false }) m.cache;
      disks = update m.disks (unit_of x) (update (m.disks (unit_of x)) (lba x) x.block);
    }
    else record m {
      cache =
          set_buf b
            (record x {
              valid = true;
              block =
                  if drive.readable (unit_of x) (lba x)
                  then m.disks (unit_of x) (lba x)
                  else x.block;
            })
            m.cache;
    }

-- `iderw`, up to its return
pub iderw : Drive → ℕ → Blocks → Result Blocks
unfolding transfer
iderw drive b m =
    let x = m.cache.buf b in
    if not x.busy
    then panic "iderw: buf not busy"
    else if x.valid && not x.dirty
    then panic "iderw: nothing to do"
    else if not (x.dev == 0) && not drive.havedisk1
    then panic "iderw: ide disk 1 not present"
    else ok (transfer drive b m)

pub data Bread : Type 0 where
  ready : ℕ → Blocks → Bread
  waiting : ℕ → Bread

-- `bread` with the buffer that `bget` returned
pub read_buf : Drive → ℕ → Blocks → Result Bread
unfolding iderw
read_buf drive b m =
    if (m.cache.buf b).valid then ok (ready b m) else (do m1 ← iderw drive b m; ok (ready b m1))

-- A turn of `bread`.
pub bread : Drive → ℕ → ℕ → Blocks → Result Bread
unfolding bget read_buf
bread drive dev sector m = do
  g ← bget dev sector m.cache
  elim g [ asleep b ↦ ok (waiting b) | got b c ↦ read_buf drive b (record m { cache = c }) ]

pub bwrite : Drive → ℕ → Blocks → Result Blocks
unfolding iderw
bwrite drive b m =
    let x = m.cache.buf b in
    if not x.busy
    then panic "bwrite"
    else iderw drive b (record m { cache = set_buf b (record x { dirty = true }) m.cache })

-- `brelse`, which wakes those who sleep on the buffer.
pub brelse : ℕ → Bcache → Result Bcache
brelse b c =
    if not (c.buf b).busy
    then panic "brelse"
    else (let c1 = insert_front b (unlink_buf b c) in
        ok (set_buf b (record (c1.buf b) { busy = false }) c1))
