-- ===== src/Files/Create.antt =====
-- sysfile.c: `create`, and the calls that open, make and enter what a path names.
use nunix.Prelude.{
  ℕ, ◌+◌, ◌/◌, ◌%◌, Bool, not, ◌&&◌, ◌||◌, ◌==◌, if◌then◌else◌, update, Result, ok, panic, ◌>>=◌,
  Option, none, some, List, ℤ, pos, negsuc,
}
use nunix.Memory.{Bytes}
use nunix.Proc.Table.{Proc}
use nunix.Calls.{argint, argstr}
use nunix.Fs.{Fs}
use nunix.Fs.Inodes.{set_inode, ialloc, iupdate, ilock, iunlock}
use nunix.Fs.Inodes.Trunc.{iput, iunlockput}
use nunix.Fs.Content.{Devices, t_dir, t_dev}
use nunix.Fs.Directories.{bytes_at, dirlookup, dirlink}
use nunix.Fs.Paths.{namei, nameiparent}
use nunix.Files.{File, fd_inode, filealloc}
use nunix.Files.Descriptors.{fdalloc}
use nunix.Files.Pipes.{close_got}
use nunix.Files.Io.{IoCalls}
use nunix.Files.Links.{path_of, one_more, below_zero, dot, dot_dot, fail}

abbrev pub t_file : ℕ
t_file = 2

-- `omode & O_WRONLY`, `omode & O_RDWR` and `omode & O_CREATE`
abbrev pub write_only : ℕ → Bool
write_only omode = omode % 2 == 1

abbrev pub read_write : ℕ → Bool
read_write omode = omode / 2 % 2 == 1

abbrev pub creates : ℕ → Bool
creates omode = omode / 512 % 2 == 1

-- The file that `sys_open` fills in for the inode `ip`.
abbrev pub opened : ℕ → ℕ → File → File
opened omode ip f = record f {
  type = fd_inode;
  ip = ip;
  off = 0;
  readable = not (write_only omode);
  writable = write_only omode || read_write omode;
}

-- `stack` is what the buffers `name` and `de` hold before they are written.
module _ (devsw : Devices) (others : ℕ → Fs → Fs) (calls : IoCalls) (stack : List ℕ) where
  -- The entries "." and ".." of a new directory `ip` in `dp`.
  pub link_dots : ℕ → ℕ → Fs → Result Fs
  unfolding iupdate dirlink
  link_dots dp ip s = do
    s1 ← iupdate dp (set_inode dp one_more s)
    (r, s2) ← dirlink devsw stack ip dot (s1.inode ip).inum s1
    if below_zero r then panic "create dots" else (do
      (r', s3) ← dirlink devsw stack ip dot_dot (s2.inode dp).inum s2
      if below_zero r' then panic "create dots" else ok s3)

  -- `create` for a name that `dp` does not have yet; `ialloc` panics where there is no inode.
  pub create_new : ℕ → List ℕ → ℕ → ℕ → ℕ → Fs → Result (Option ℕ × Fs)
  unfolding ialloc ilock iupdate dirlink iunlockput link_dots
  create_new dp name type major minor s = do
    (ip, s1) ← ialloc (s.inode dp).dev type s
    s2 ← ilock others ip s1
    s3 ← iupdate ip (
        set_inode ip (λ x. record x { major = major % 65536; minor = minor % 65536; nlink = 1 }) s2)
    s4 ← if type == t_dir then link_dots dp ip s3 else ok s3
    (r, s5) ← dirlink devsw stack dp name (s4.inode ip).inum s4
    if below_zero r then panic "create: dirlink" else (do s6 ← iunlockput dp s5; ok (some ip, s6))

  -- `create`: the inode, locked.
  pub create : ℕ → List ℕ → ℕ → ℕ → ℕ → Fs → Result (Option ℕ × Fs)
  unfolding nameiparent ilock dirlookup iunlockput create_new
  create cwd path type major minor s = do
    (parent, name, s1) ← nameiparent devsw others cwd path stack s
    elim parent [
      | none ↦ ok (none, s1)
      | some dp ↦ (do
        s2 ← ilock others dp s1
        (found, s3) ← dirlookup devsw dp name s2
        elim found [
          | none ↦ create_new dp name type major minor s3
          | some (off, ip) ↦ (do
            s4 ← iunlockput dp s3
            s5 ← ilock others ip s4
            if type == t_file && (s5.inode ip).type == t_file
                then ok (some ip, s5)
                else (do s6 ← iunlockput ip s5; ok (none, s6)))
        ])
    ]

  -- The inode that `sys_open` opens, locked, or none where it has failed after its `end_op`.
  pub open_inode : Proc → List ℕ → ℕ → Fs → Result (Option ℕ × Fs)
  unfolding create namei ilock iunlockput
  open_inode p path omode s =
      if creates omode
      then (do
        (made, s1) ← create p.cwd path t_file 0 0 s
        elim made [ none ↦ (do s2 ← calls.end_op s1; ok (none, s2)) | some ip ↦ ok (some ip, s1) ])
      else (do
        (found, s1) ← namei devsw others p.cwd stack path s
        elim found [
          | none ↦ (do s2 ← calls.end_op s1; ok (none, s2))
          | some ip ↦ (do
            s2 ← ilock others ip s1
            if (s2.inode ip).type == t_dir && not (omode == 0)
                then (do s3 ← iunlockput ip s2; s4 ← calls.end_op s3; ok (none, s4))
                else ok (some ip, s2))
        ])

  -- The file and the descriptor for the inode; `f` is what `filealloc` returned.
  pub open_file : ℕ → ℕ → Option ℕ → Proc → (ℕ → File) → Fs → Result (ℤ × Proc × (ℕ → File) × Fs)
  unfolding fdalloc close_got iunlock iunlockput
  open_file omode ip f p t s = elim f [
    | none ↦ (do s1 ← iunlockput ip s; s2 ← calls.end_op s1; ok (negsuc 0, p, t, s2))
    | some a ↦
        (let (fd, q) = fdalloc (a + 1) p in
          elim fd [
            | none ↦ (do
              t1 ← close_got (some a) t
              s1 ← iunlockput ip s
              s2 ← calls.end_op s1
              ok (negsuc 0, q, t1, s2))
            | some n ↦ (do
              s1 ← iunlock ip s
              s2 ← calls.end_op s1
              ok (pos n, q, update t a (opened omode ip (t a)), s2))
          ])
  ]

  pub sys_open : Proc → Bytes → (ℕ → File) → Fs → Result (ℤ × Proc × (ℕ → File) × Fs)
  unfolding argint argstr bytes_at filealloc open_inode open_file
  sys_open p m t s = elim (argstr p m 0) [
    | none ↦ ok (negsuc 0, p, t, s)
    | some path ↦ elim (argint p m 1) [
      | none ↦ ok (negsuc 0, p, t, s)
      | some omode ↦ (do
        s1 ← calls.begin_op s
        (found, s2) ← open_inode p (path_of m path) omode s1
        elim found [
          | none ↦ ok (negsuc 0, p, t, s2)
          | some ip ↦ (let (f, t1) = filealloc t in open_file omode ip f p t1 s2)
        ])
    ]
  ]

  -- What `sys_mkdir` and `sys_mknod` do with the result of `create`.
  pub made : Option ℕ → Fs → Result (ℤ × Fs)
  unfolding iunlockput fail
  made none s = fail devsw others calls stack s
  made (some ip) s = do s1 ← iunlockput ip s; s2 ← calls.end_op s1; ok (pos 0, s2)

  pub sys_mkdir : Proc → Bytes → Fs → Result (ℤ × Fs)
  unfolding argstr bytes_at create made
  sys_mkdir p m s = do
    s1 ← calls.begin_op s
    elim (argstr p m 0) [
      | none ↦ made none s1
      | some path ↦ (do (ip, s2) ← create p.cwd (path_of m path) t_dir 0 0 s1; made ip s2)
    ]

  pub sys_mknod : Proc → Bytes → Fs → Result (ℤ × Fs)
  unfolding argint argstr bytes_at create made
  sys_mknod p m s = do
    s1 ← calls.begin_op s
    elim (argstr p m 0) [
      | none ↦ made none s1
      | some path ↦ elim (argint p m 1) [
        | none ↦ made none s1
        | some major ↦ elim (argint p m 2) [
          | none ↦ made none s1
          | some minor ↦ (do
            (ip, s2) ← create p.cwd (path_of m path) t_dev major minor s1
            made ip s2)
        ]
      ]
    ]

  pub sys_chdir : Proc → Bytes → Fs → Result (ℤ × Proc × Fs)
  unfolding argstr bytes_at namei ilock iunlock iunlockput iput
  sys_chdir p m s = do
    s1 ← calls.begin_op s
    (found, s2) ← elim (argstr p m 0) [
      | none ↦ ok (none, s1)
      | some path ↦ namei devsw others p.cwd stack (path_of m path) s1
    ]
    elim found [
      | none ↦ (do s3 ← calls.end_op s2; ok (negsuc 0, p, s3))
      | some ip ↦ (do
        s3 ← ilock others ip s2
        if not ((s3.inode ip).type == t_dir)
            then (do s4 ← iunlockput ip s3; s5 ← calls.end_op s4; ok (negsuc 0, p, s5))
            else (do
              s4 ← iunlock ip s3
              s5 ← iput p.cwd s4
              s6 ← calls.end_op s5
              ok (pos 0, record p { cwd = ip }, s6)))
    ]
