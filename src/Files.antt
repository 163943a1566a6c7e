-- ===== src/Files.antt =====
-- file.c: the table of open files and their reference counts. Indices stand for the pointers into `ftable.file`.
pub mod Counts
pub mod Io
pub mod Pipes
pub mod Descriptors
pub mod Links
pub mod Empty
pub mod Create
pub mod Handlers
mod Tests
use nunix.Prelude.{
  ℕ, zero, suc, ◌+◌, ◌-◌, ◌<◌, Bool, true, false, ◌==◌, ltb, if◌then◌else◌, update, Option, none,
  some, Result, ok, panic,
}

abbrev pub nfile : ℕ
nfile = 100

pub data FileType : Type 0 where
  fd_none fd_pipe fd_inode : FileType

-- `struct file`, with addresses for its pipe and its inode
pub record File : Type 0 where
  pub type : FileType
  pub ref : ℕ
  pub readable : Bool
  pub writable : Bool
  pub pipe : ℕ
  pub ip : ℕ
  pub off : ℕ

-- The loop of `filealloc` over the `n` files from `i` on.
pub find_file : (ℕ → File) → ℕ → ℕ → Option ℕ
find_file t zero i = none
find_file t (suc n) i = if (t i).ref == 0 then some i else find_file t n (i + 1)

unfoldable pub filealloc : (ℕ → File) → Option ℕ × (ℕ → File)
unfolding find_file
filealloc t = elim (find_file t nfile 0) [
  | none ↦ (none, t)
  | some i ↦ (some i, update t i (record (t i) { ref = 1 }))
]

unfoldable pub filedup : ℕ → (ℕ → File) → Result (ℕ → File)
filedup f t =
    if ltb (t f).ref 1
    then panic "filedup"
    else ok (update t f (record (t f) { ref = (t f).ref + 1 }))

-- `fileclose` under the lock: the table, and the file whose pipe or inode is to be given up.
unfoldable pub fileclose : ℕ → (ℕ → File) → Result ((ℕ → File) × Option File)
fileclose f t =
    if ltb (t f).ref 1
    then panic "fileclose"
    else if ltb 0 ((t f).ref - 1)
    then ok (update t f (record (t f) { ref = (t f).ref - 1 }), none)
    else ok (
      update t f (record (t f) { ref = 0; type = fd_none }),
      some (record (t f) { ref = (t f).ref - 1 }),
    )

-- What follows the release of the lock. `pipeclose`, `begin_op`, `iput` and `end_op` are those of the other parts of the
-- kernel, over their state.
pub give_up : {W : Type 0} → (ℕ → Bool → W → W) → (W → W) → (ℕ → W → W) → (W → W) → File → W → W
give_up pipeclose begin_op iput end_op ff w = elim ff.type [
  | fd_pipe ↦ pipeclose ff.pipe ff.writable w
  | fd_inode ↦ end_op (iput ff.ip (begin_op w))
  | fd_none ↦ w
]
