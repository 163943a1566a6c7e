-- ===== src/Files/Io.antt =====
-- file.c: `filestat`, `fileread` and `filewrite`, over the inodes of fs.c.
use nunix.Prelude.{
  ℕ, zero, suc, ◌+◌, Bool, true, false, not, ◌==◌, if◌then◌else◌, update, Result, ok, panic, ◌>>=◌,
  min, Option, none, some, List, [], ◌∷◌, take, drop, length, ℤ, pos, negsuc,
}
use nunix.Fs.{Fs}
use nunix.Fs.Inodes.{ilock, iunlock, Stat, stati}
use nunix.Fs.Content.{Devices, readi, writei}
use nunix.Files.{File, fd_none, fd_pipe, fd_inode}

-- `if((r = ...) > 0) f->off += r`
abbrev pub moved_by : ℕ → ℤ → (ℕ → File) → ℕ → File
moved_by f (pos r) t = update t f (record (t f) { off = (t f).off + r })
moved_by f (negsuc r) t = t

-- The pipes, and `begin_op` and `end_op`, which sleep, are those of the other parts of the kernel.
pub record IoCalls : Type 0 where
  pub piperead : ℕ → ℕ → Fs → Result (ℤ × List ℕ × Fs)
  pub pipewrite : ℕ → List ℕ → Fs → Result (ℤ × Fs)
  pub begin_op : Fs → Result Fs
  pub end_op : Fs → Result Fs

module _ (devsw : Devices) (others : ℕ → Fs → Fs) (calls : IoCalls) where
  unfoldable pub filestat : ℕ → (ℕ → File) → Fs → Result (Option Stat × Fs)
  unfolding ilock iunlock
  filestat f t s = elim (t f).type [
    | fd_inode ↦ (do
      s1 ← ilock others (t f).ip s
      s2 ← iunlock (t f).ip s1
      ok (some (stati (s1.inode (t f).ip)), s2))
    | _ ↦ ok (none, s)
  ]

  -- The result, the bytes that go to `addr`, the files and the file system.
  unfoldable pub fileread : ℕ → ℕ → (ℕ → File) → Fs → Result (ℤ × List ℕ × (ℕ → File) × Fs)
  unfolding ilock readi iunlock
  fileread f n t s = if not (t f).readable then ok (negsuc 0, [], t, s) else elim (t f).type [
    | fd_pipe ↦ (do (r, bs, s1) ← calls.piperead (t f).pipe n s; ok (r, bs, t, s1))
    | fd_inode ↦ (do
      s1 ← ilock others (t f).ip s
      (r, bs, s2) ← readi devsw (t f).ip (t f).off n s1
      s3 ← iunlock (t f).ip s2
      ok (r, bs, moved_by f r t, s3))
    | fd_none ↦ panic "fileread"
  ]

  -- `max` of `filewrite`
  abbrev pub max_piece : ℕ
  max_piece = 6656

  abbrev pub is_negative_result : ℤ → Bool
  is_negative_result (pos r) = false
  is_negative_result (negsuc r) = true

  abbrev pub is_all : ℤ → ℕ → Bool
  is_all (pos r) n = r == n
  is_all (negsuc r) n = false

  -- One round of the loop of `filewrite`, for the next piece.
  pub write_piece : ℕ → List ℕ → (ℕ → File) → Fs → Result (ℤ × (ℕ → File) × Fs)
  unfolding ilock writei iunlock
  write_piece f piece t s = do
    s1 ← calls.begin_op s
    s2 ← ilock others (t f).ip s1
    (r, s3) ← writei devsw (t f).ip piece (t f).off s2
    s4 ← iunlock (t f).ip s3
    s5 ← calls.end_op s4
    ok (r, moved_by f r t, s5)

  -- The loop of `filewrite` over the bytes that are left: whether all were written.
  pub write_pieces : ℕ → ℕ → List ℕ → (ℕ → File) → Fs → Result (Bool × (ℕ → File) × Fs)
  unfolding write_piece
  write_pieces zero f rest t s = ok (true, t, s)
  write_pieces (suc fuel) f [] t s = ok (true, t, s)
  write_pieces (suc fuel) f (c ∷ cs) t s = do
    let n1 = min max_piece (length (c ∷ cs))
    (r, t1, s1) ← write_piece f (take n1 (c ∷ cs)) t s
    let rest = write_pieces fuel f (drop n1 (c ∷ cs)) t1 s1
    if is_negative_result r
        then ok (false, t1, s1)
        else if is_all r n1
        then rest
        else panic "short filewrite"

  pub filewrite : ℕ → List ℕ → (ℕ → File) → Fs → Result (ℤ × (ℕ → File) × Fs)
  unfolding write_pieces
  filewrite f addr t s = if not (t f).writable then ok (negsuc 0, t, s) else elim (t f).type [
    | fd_pipe ↦ (do (r, s1) ← calls.pipewrite (t f).pipe addr s; ok (r, t, s1))
    | fd_inode ↦ (do
      (all, t1, s1) ← write_pieces (length addr) f addr t s
      ok ((if all then pos (length addr) else negsuc 0), t1, s1))
    | fd_none ↦ panic "filewrite"
  ]
