-- ===== src/Fs/Directories.antt =====
-- fs.c, the directory layer: a directory is an inode whose contents are entries of 16 bytes. A name is the
-- list of its bytes up to the NUL, or what a buffer of 14 bytes holds.
pub mod Lookup
use nunix.Prelude.{
  ℕ, zero, suc, ◌+◌, ◌-◌, ◌*◌, ◌/◌, ◌%◌, Bool, true, false, ◌==◌, not, ltb, if◌then◌else◌, Result,
  ok, panic, ◌>>=◌, Option, none, some, List, [], ◌∷◌, drop, get_or, ℤ, pos, negsuc,
}
use nunix.Memory.{Bytes, strncmp, strncpy}
use nunix.Fs.{Fs}
use nunix.Fs.Inodes.{iget}
use nunix.Fs.Inodes.Trunc.{iput}
use nunix.Fs.Content.{Devices, t_dir, readi, writei}

abbrev pub dirsiz : ℕ
dirsiz = 14

abbrev pub dirent_size : ℕ
dirent_size = 16

-- Two names in memory, at 0 and at 16.
abbrev pub two_names : List ℕ → List ℕ → Bytes
two_names a b k = if ltb k 16 then get_or a k 0 else get_or b (k - 16) 0

unfoldable pub namecmp : List ℕ → List ℕ → ℤ
unfolding strncmp
namecmp a b = strncmp 0 16 dirsiz (two_names a b)

-- `de.inum` and `de.name` of the bytes of a `struct dirent`
abbrev pub de_inum : List ℕ → ℕ
de_inum de = get_or de 0 0 + get_or de 1 0 * 256

abbrev pub de_name : List ℕ → List ℕ
de_name de = drop 2 de

-- `count == pos n`
abbrev pub is_count : ℤ → ℕ → Bool
is_count (pos k) n = k == n
is_count (negsuc k) n = false

abbrev pub is_zero : ℤ → Bool
is_zero r = is_count r 0

-- The loop of `dirlookup` from `off` on: the offset of the entry and the inode, where it is found.
pub lookup_from : Devices → ℕ → List ℕ → ℕ → ℕ → Fs → Result (Option (ℕ × ℕ) × Fs)
unfolding readi namecmp iget
lookup_from devsw dp name zero off s = ok (none, s)
lookup_from devsw dp name (suc fuel) off s = elim (ltb off (s.inode dp).size) [
  | false ↦ ok (none, s)
  | true ↦ (do
    (r, de, s1) ← readi devsw dp off dirent_size s
    let rest = lookup_from devsw dp name fuel (off + dirent_size) s1
    if not (is_count r dirent_size)
        then panic "dirlink read"
        else if de_inum de == 0
        then rest
        else if is_zero (namecmp name (de_name de))
        then (do (ip, s2) ← iget (s1.inode dp).dev (de_inum de) s1; ok (some (off, ip), s2))
        else rest)
]

unfoldable pub dirlookup : Devices → ℕ → List ℕ → Fs → Result (Option (ℕ × ℕ) × Fs)
unfolding lookup_from
dirlookup devsw dp name s =
    if not ((s.inode dp).type == t_dir)
    then panic "dirlookup not DIR"
    else lookup_from devsw dp name (s.inode dp).size 0 s

-- The loop of `dirlink`: the offset of the first empty entry or of the end, and the bytes in `de`.
pub free_entry : Devices → ℕ → ℕ → ℕ → List ℕ → Fs → Result (ℕ × List ℕ × Fs)
unfolding readi
free_entry devsw dp zero off de s = ok (off, de, s)
free_entry devsw dp (suc fuel) off de s = elim (ltb off (s.inode dp).size) [
  | false ↦ ok (off, de, s)
  | true ↦ (do
    (r, de', s1) ← readi devsw dp off dirent_size s
    let rest = free_entry devsw dp fuel (off + dirent_size) de' s1
    if not (is_count r dirent_size)
        then panic "dirlink read"
        else if de_inum de' == 0
        then ok (off, de', s1)
        else rest)
]

-- `n` bytes of memory from an address on
unfoldable pub bytes_at : Bytes → ℕ → ℕ → List ℕ
bytes_at m p zero = []
bytes_at m p (suc n) = m p ∷ bytes_at m (p + 1) n

-- The bytes of `de` after `strncpy(de.name, name, DIRSIZ)` and `de.inum = inum`.
pub fill_entry : List ℕ → ℕ → List ℕ → List ℕ
unfolding strncpy bytes_at
fill_entry name inum de =
    let m = strncpy 16 0 dirsiz (two_names name (de_name de)) in
    (inum % 256) ∷ (inum / 256 % 256) ∷ bytes_at m 16 dirsiz

-- `stack` is what `de` holds before the function writes to it.
unfoldable pub dirlink : Devices → List ℕ → ℕ → List ℕ → ℕ → Fs → Result (ℤ × Fs)
unfolding dirlookup iput free_entry fill_entry writei
dirlink devsw stack dp name inum s = do
  (found, s1) ← dirlookup devsw dp name s
  elim found [
    | some (off, ip) ↦ (do s2 ← iput ip s1; ok (negsuc 0, s2))
    | none ↦ (do
      (off, de, s2) ← free_entry devsw dp (s1.inode dp).size 0 stack s1
      (r, s3) ← writei devsw dp (fill_entry name inum de) off s2
      if not (is_count r dirent_size) then panic "dirlink" else ok (pos 0, s3))
  ]
