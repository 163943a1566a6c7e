-- ===== src/Disk.antt =====
-- The disk under log.c: what bio.c's `bread`, `bwrite` and a modified buffer do to it, seen from callers to whom they return. `bread` panics where
-- no buffer can be recycled; that and its other ends are in `Buffers`. The block that a buffer holds is one value for each block number of the one device.
use nunix.Prelude.{ℕ, Bool, true, false, List, [], ◌∷◌, update}

-- the 128 words of a block of `BSIZE` bytes, by index
abbrev pub Block : Type 0
Block = ℕ → ℕ

abbrev pub Disk : Type 0
Disk = ℕ → Block

-- `view n` is what a buffer for block `n` holds once `bread` returned it, `dirty n` its B_DIRTY flag.
-- `history` lists what the disk has held, newest first: what a crash may leave.
pub record Store : Type 0 where
  pub disk : Disk
  pub view : Disk
  pub dirty : ℕ → Bool
  pub history : List Disk

-- the data that a buffer for block `n` holds when `bread` returns it
abbrev pub bread : Store → ℕ → Block
bread s n = s.view n

-- The buffer of block `n` gets the data `d` and goes to the disk by `bwrite`, which clears B_DIRTY.
unfoldable pub bwrite : Store → ℕ → Block → Store
bwrite s n d = record {
  disk = update s.disk n d;
  view = update s.view n d;
  dirty = update s.dirty n false;
  history = update s.disk n d ∷ s.history;
}

-- The buffer of block `n` gets the data `d` and the flag B_DIRTY, and stays in memory.
unfoldable pub modify : Store → ℕ → Block → Store
modify s n d = record s { view = update s.view n d; dirty = update s.dirty n true }

-- the store after a restart with what the disk held
abbrev pub reboot : Disk → Store
reboot d = record { disk = d; view = d; dirty = λ n. false; history = d ∷ [] }
