-- ===== src/Fs/Inodes.antt =====
-- fs.c, the inode layer: the cache of inodes in memory and the inodes on the disk. An inode in the cache
-- is named by its index in `icache.inode`; all of them are on one device.
pub mod Trunc
pub mod Cache
use nunix.Prelude.{
  ℕ, zero, suc, ◌+◌, ◌-◌, ◌*◌, ◌/◌, ◌%◌, Bool, true, false, ◌&&◌, not, ◌==◌, ltb, leb,
  if◌then◌else◌, update, for_upto, Result, ok, panic, ◌>>=◌, Option, none, some,
}
use nunix.Disk.{Block}
use nunix.Fs.{Inode, Fs, block, put_block, sb_ninodes, ipb, iblock}

abbrev pub ninode : ℕ
ninode = 50

-- a change of the inode at an index
abbrev pub set_inode : ℕ → (Inode → Inode) → Fs → Fs
set_inode i f s = record s { inode = update s.inode i (f (s.inode i)) }

-- where the words of a `struct dinode` begin in its block
abbrev pub dinode_at : ℕ → ℕ
dinode_at inum = inum % ipb * 16

-- What the scan of `iget` ends with: the inode, or the first slot that is not in use.
pub data Scan : Type 0 where
  cached : ℕ → Scan
  missing : Option ℕ → Scan

abbrev pub first_slot : Option ℕ → ℕ → ℕ → Option ℕ
first_slot none i ref = if ref == 0 then some i else none
first_slot (some e) i ref = some e

-- The scan of `iget` over `n` slots from `i` on, with the empty slot seen so far.
pub scan_cache : ℕ → ℕ → ℕ → ℕ → Option ℕ → (ℕ → Inode) → Scan
scan_cache dev inum zero i empty t = missing empty
scan_cache dev inum (suc n) i empty t =
    let rest = scan_cache dev inum n (i + 1) (first_slot empty i (t i).ref) t in
    if ltb 0 (t i).ref && ((t i).dev == dev) && ((t i).inum == inum) then cached i else rest

-- What `iget` does with what it found.
abbrev pub recycle : ℕ → ℕ → Scan → Fs → Result (ℕ × Fs)
recycle dev inum (cached i) s = ok (i, set_inode i (λ ip. record ip { ref = ip.ref + 1 }) s)
recycle dev inum (missing none) s = panic "iget: no inodes"
recycle dev inum (missing (some i)) s = ok (
  i,
  set_inode i (λ ip. record ip { dev = dev; inum = inum; ref = 1; busy = false; valid = false }) s,
)

unfoldable pub iget : ℕ → ℕ → Fs → Result (ℕ × Fs)
unfolding scan_cache
iget dev inum s = recycle dev inum (scan_cache dev inum ninode 0 none s.inode) s

unfoldable pub idup : ℕ → Fs → ℕ × Fs
idup i s = (i, set_inode i (λ ip. record ip { ref = ip.ref + 1 }) s)

-- the search of `ialloc` over `n` inodes from `inum` on
pub ialloc_from : ℕ → ℕ → ℕ → ℕ → Fs → Result (ℕ × Fs)
unfolding put_block iget
ialloc_from dev type zero inum s = panic "ialloc: no inodes"
ialloc_from dev type (suc n) inum s =
    let rest = ialloc_from dev type n (inum + 1) s in
    let d = block s (iblock inum) in
    let k = dinode_at inum in
    if d k % 65536 == 0
    then (do
      s1 ←
          put_block (iblock inum)
            (update (for_upto 16 (λ j u. update u (k + j) 0) d) k (type % 65536)) s
      iget dev inum s1)
    else rest

unfoldable pub ialloc : ℕ → ℕ → Fs → Result (ℕ × Fs)
unfolding ialloc_from
ialloc dev type s = ialloc_from dev type (sb_ninodes s - 1) 1 s

-- The `struct dinode` at word `k` of a block, as `iupdate` writes it: two shorts in a word.
pub store_inode : Inode → ℕ → Block → Block
store_inode ip k d =
    for_upto 13 (λ j u. update u (k + 3 + j) (ip.addrs j))
      (update
        (update (update d k (ip.type % 65536 + ip.major % 65536 * 65536)) (k + 1)
          (ip.minor % 65536 + ip.nlink % 65536 * 65536))
        (k + 2) ip.size)

unfoldable pub iupdate : ℕ → Fs → Result Fs
unfolding put_block store_inode
iupdate i s =
    let ip = s.inode i in
    put_block (iblock ip.inum) (store_inode ip (dinode_at ip.inum) (block s (iblock ip.inum))) s

-- The fields that `ilock` reads from the `struct dinode` at word `k` of a block.
pub load_inode : Inode → ℕ → Block → Inode
load_inode ip k d = record ip {
  type = d k % 65536;
  major = d k / 65536;
  minor = d (k + 1) % 65536;
  nlink = d (k + 1) / 65536;
  size = d (k + 2);
  addrs = λ j. if ltb j 13 then d (k + 3 + j) else ip.addrs j;
  valid = true;
}

-- `ilock` once the inode is not busy.
pub lock_free : ℕ → Fs → Result Fs
unfolding load_inode
lock_free i s =
    let s1 = set_inode i (λ ip. record ip { busy = true }) s in
    let ip = s1.inode i in
    let s2 = set_inode i (λ ip. load_inode ip (dinode_at ip.inum) (block s (iblock ip.inum))) s1 in
    if ip.valid then ok s1 else if (s2.inode i).type == 0 then panic "ilock: no type" else ok s2

-- While the inode is busy `ilock` sleeps: `others i s` is the state in which that loop ends.
unfoldable pub ilock : (ℕ → Fs → Fs) → ℕ → Fs → Result Fs
unfolding lock_free
ilock others i s =
    if ltb (s.inode i).ref 1
    then panic "ilock"
    else lock_free i (if (s.inode i).busy then others i s else s)

unfoldable pub iunlock : ℕ → Fs → Result Fs
iunlock i s =
    if not (s.inode i).busy
    then panic "iunlock"
    else if ltb (s.inode i).ref 1
    then panic "iunlock"
    else ok (set_inode i (λ ip. record ip { busy = false }) s)

-- `struct stat`
pub record Stat : Type 0 where
  pub type : ℕ
  pub dev : ℕ
  pub ino : ℕ
  pub nlink : ℕ
  pub size : ℕ

pub stati : Inode → Stat
stati ip = record { type = ip.type; dev = ip.dev; ino = ip.inum; nlink = ip.nlink; size = ip.size }
