-- ===== src/Files/Links.antt =====
-- sysfile.c: `sys_link` and `sys_unlink`. The path arguments are strings in the memory `m` of the process `p`.
use nunix.Prelude.{
  ℕ, zero, suc, ◌+◌, ◌*◌, ◌%◌, Bool, true, false, not, ◌||◌, ◌==◌, leb, ltb, if◌then◌else◌, Result,
  ok, panic, ◌>>=◌, none, some, List, [], ◌∷◌, ℤ, pos, negsuc,
}
use nunix.Memory.{Bytes}
use nunix.Proc.Table.{Proc}
use nunix.Calls.{argstr}
use nunix.Fs.{Inode, Fs}
use nunix.Fs.Inodes.{set_inode, iupdate, ilock, iunlock}
use nunix.Fs.Inodes.Trunc.{iput, iunlockput}
use nunix.Fs.Content.{Devices, t_dir, readi, writei}
use nunix.Fs.Directories.{
  dirent_size, namecmp, de_inum, is_count, is_zero, bytes_at, dirlookup, dirlink,
}
use nunix.Fs.Paths.{namei, nameiparent}
use nunix.Files.Io.{IoCalls}

-- the bytes of a string argument
abbrev pub path_of : Bytes → ℕ × ℕ → List ℕ
path_of m (a, n) = bytes_at m a n

-- `nlink` is a short.
abbrev pub one_more : Inode → Inode
one_more ip = record ip { nlink = (ip.nlink + 1) % 65536 }

abbrev pub one_less : Inode → Inode
one_less ip = record ip { nlink = (ip.nlink + 65535) % 65536 }

-- `ip->nlink < 1`
abbrev pub unlinked : Inode → Bool
unlinked ip = ip.nlink == 0 || leb 32768 ip.nlink

abbrev pub below_zero : ℤ → Bool
below_zero (pos n) = false
below_zero (negsuc n) = true

-- "." and ".."
abbrev pub dot : List ℕ
dot = 46 ∷ []

abbrev pub dot_dot : List ℕ
dot_dot = 46 ∷ 46 ∷ []

-- `de` after `memset(&de, 0, sizeof(de))`
abbrev pub empty_entry : List ℕ
empty_entry = 0 ∷ 0 ∷ 0 ∷ 0 ∷ 0 ∷ 0 ∷ 0 ∷ 0 ∷ 0 ∷ 0 ∷ 0 ∷ 0 ∷ 0 ∷ 0 ∷ 0 ∷ 0 ∷ []

-- The loop of `isdirempty` from `off` on; an entry has bytes, so the size is fuel for it.
unfoldable pub empty_from : Devices → ℕ → ℕ → ℕ → Fs → Result (Bool × Fs)
unfolding readi
empty_from devsw dp zero off s = ok (true, s)
empty_from devsw dp (suc fuel) off s = elim (ltb off (s.inode dp).size) [
  | false ↦ ok (true, s)
  | true ↦ (do
    (r, de, s1) ← readi devsw dp off dirent_size s
    let rest = empty_from devsw dp fuel (off + dirent_size) s1
    if not (is_count r dirent_size)
        then panic "isdirempty: readi"
        else if not (de_inum de == 0)
        then ok (false, s1)
        else rest)
]

unfoldable pub isdirempty : Devices → ℕ → Fs → Result (Bool × Fs)
unfolding empty_from
isdirempty devsw dp s = empty_from devsw dp (s.inode dp).size (2 * dirent_size) s

-- `stack` is what the buffers `name` and `de` hold before they are written.
module _ (devsw : Devices) (others : ℕ → Fs → Fs) (calls : IoCalls) (stack : List ℕ) where
  -- `end_op` and a result of -1
  unfoldable pub fail : Fs → Result (ℤ × Fs)
  fail s = do s1 ← calls.end_op s; ok (negsuc 0, s1)

  -- `bad` of `sys_link`
  pub link_bad : ℕ → Fs → Result (ℤ × Fs)
  unfolding ilock iupdate iunlockput fail
  link_bad ip s = do
    s1 ← ilock others ip s
    s2 ← iupdate ip (set_inode ip one_less s1)
    s3 ← iunlockput ip s2
    fail s3

  -- `sys_link` from the look-up of the new name on
  pub link_into : Proc → List ℕ → ℕ → Fs → Result (ℤ × Fs)
  unfolding nameiparent ilock dirlink iunlockput iput link_bad
  link_into p new ip s = do
    (parent, name, s1) ← nameiparent devsw others p.cwd new stack s
    elim parent [
      | none ↦ link_bad ip s1
      | some dp ↦ (do
        s2 ← ilock others dp s1
        if not ((s2.inode dp).dev == (s2.inode ip).dev)
            then (do s3 ← iunlockput dp s2; link_bad ip s3)
            else (do
              (r, s3) ← dirlink devsw stack dp name (s2.inode ip).inum s2
              s4 ← iunlockput dp s3
              if below_zero r
                  then link_bad ip s4
                  else (do s5 ← iput ip s4; s6 ← calls.end_op s5; ok (pos 0, s6))))
    ]

  pub sys_link : Proc → Bytes → Fs → Result (ℤ × Fs)
  unfolding argstr bytes_at namei ilock iunlock iupdate iunlockput fail link_into
  sys_link p m s = elim (argstr p m 0) [
    | none ↦ ok (negsuc 0, s)
    | some old ↦ elim (argstr p m 1) [
      | none ↦ ok (negsuc 0, s)
      | some new ↦ (do
        s1 ← calls.begin_op s
        (found, s2) ← namei devsw others p.cwd stack (path_of m old) s1
        elim found [
          | none ↦ fail s2
          | some ip ↦ (do
            s3 ← ilock others ip s2
            if (s3.inode ip).type == t_dir then (do s4 ← iunlockput ip s3; fail s4) else (do
              s4 ← iupdate ip (set_inode ip one_more s3)
              s5 ← iunlock ip s4
              link_into p (path_of m new) ip s5))
        ])
    ]
  ]

  -- `bad` of `sys_unlink`
  pub unlink_bad : ℕ → Fs → Result (ℤ × Fs)
  unfolding iunlockput fail
  unlink_bad dp s = do s1 ← iunlockput dp s; fail s1

  -- `sys_unlink` for the entry at `off`, which names `ip`
  pub unlink_entry : ℕ → ℕ → ℕ → Fs → Result (ℤ × Fs)
  unfolding writei iupdate iunlockput
  unlink_entry dp off ip s = do
    (r, s1) ← writei devsw dp empty_entry off s
    if not (is_count r dirent_size) then panic "unlink: writei" else (do
      s2 ← if (s1.inode ip).type == t_dir then iupdate dp (set_inode dp one_less s1) else ok s1
      s3 ← iunlockput dp s2
      s4 ← iupdate ip (set_inode ip one_less s3)
      s5 ← iunlockput ip s4
      s6 ← calls.end_op s5
      ok (pos 0, s6))

  pub sys_unlink : Proc → Bytes → Fs → Result (ℤ × Fs)
  unfolding argstr bytes_at nameiparent namecmp ilock dirlookup isdirempty iunlockput fail
      unlink_bad unlink_entry
  sys_unlink p m s = elim (argstr p m 0) [
    | none ↦ ok (negsuc 0, s)
    | some path ↦ (do
      s1 ← calls.begin_op s
      (parent, name, s2) ← nameiparent devsw others p.cwd (path_of m path) stack s1
      elim parent [
        | none ↦ fail s2
        | some dp ↦ (do
          s3 ← ilock others dp s2
          if is_zero (namecmp name dot) || is_zero (namecmp name dot_dot)
              then unlink_bad dp s3
              else (do
                (found, s4) ← dirlookup devsw dp name s3
                elim found [
                  | none ↦ unlink_bad dp s4
                  | some (off, ip) ↦ (do
                    s5 ← ilock others ip s4
                    if unlinked (s5.inode ip) then panic "unlink: nlink < 1" else (do
                      (empty, s6) ←
                          if (s5.inode ip).type == t_dir
                          then isdirempty devsw ip s5
                          else ok (true, s5)
                      if empty
                          then unlink_entry dp off ip s6
                          else (do s7 ← iunlockput ip s6; unlink_bad dp s7)))
                ]))
      ])
  ]
