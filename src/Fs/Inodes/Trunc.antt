-- ===== src/Fs/Inodes/Trunc.antt =====
-- fs.c: `bmap` and `itrunc`, the blocks of an inode, and `iput`, which frees an inode.
use nunix.Prelude.{
  ℕ, zero, suc, ◌+◌, ◌-◌, true, false, ◌&&◌, ◌==◌, ltb, if◌then◌else◌, update, Result, ok, panic,
  ◌>>=◌,
}
use nunix.Fs.{Fs, block, put_block, balloc, bfree}
use nunix.Fs.Inodes.{set_inode, iupdate, iunlock}

abbrev pub ndirect : ℕ
ndirect = 12

abbrev pub nindirect : ℕ
nindirect = 128

abbrev pub set_addr : ℕ → ℕ → ℕ → Fs → Fs
set_addr i k a = set_inode i λ ip. record ip { addrs = update ip.addrs k a }

-- Entry `k` of `ip->addrs`, with a block allocated where there is none.
unfoldable pub bmap_addr : ℕ → ℕ → Fs → Result (ℕ × Fs)
unfolding balloc
bmap_addr i k s =
    let addr = (s.inode i).addrs k in
    if addr == 0 then (do (a, s1) ← balloc s; ok (a, set_addr i k a s1)) else ok (addr, s)

-- Entry `k` of the indirect block `b`, in the same way.
unfoldable pub bmap_indirect : ℕ → ℕ → Fs → Result (ℕ × Fs)
unfolding balloc put_block
bmap_indirect b k s =
    let addr = block s b k in
    if addr == 0
    then (do (a, s1) ← balloc s; s2 ← put_block b (update (block s1 b) k a) s1; ok (a, s2))
    else ok (addr, s)

unfoldable pub bmap : ℕ → ℕ → Fs → Result (ℕ × Fs)
unfolding bmap_addr bmap_indirect
bmap i bn s =
    if ltb bn ndirect
    then bmap_addr i bn s
    else if ltb (bn - ndirect) nindirect
    then (do (b, s1) ← bmap_addr i ndirect s; bmap_indirect b (bn - ndirect) s1)
    else panic "bmap: out of range"

-- the first loop of `itrunc`, over `n` addresses from `k` on
pub free_direct : ℕ → ℕ → ℕ → Fs → Result Fs
unfolding bfree
free_direct i zero k s = ok s
free_direct i (suc n) k s = do
  let addr = (s.inode i).addrs k
  s1 ← if addr == 0 then ok s else (do t ← bfree addr s; ok (set_addr i k 0 t))
  free_direct i n (k + 1) s1

-- the second loop of `itrunc`, over `n` words of the indirect block `b` from `k` on
pub free_listed : ℕ → ℕ → ℕ → Fs → Result Fs
unfolding bfree
free_listed b zero k s = ok s
free_listed b (suc n) k s = do
  let addr = block s b k
  s1 ← if addr == 0 then ok s else bfree addr s
  free_listed b n (k + 1) s1

pub itrunc : ℕ → Fs → Result Fs
unfolding free_direct free_listed iupdate
itrunc i s = do
  s1 ← free_direct i ndirect 0 s
  let b = (s1.inode i).addrs ndirect
  s2 ←
      if b == 0
      then ok s1
      else (do t ← free_listed b nindirect 0 s1; u ← bfree b t; ok (set_addr i ndirect 0 u))
  iupdate i (set_inode i (λ ip. record ip { size = 0 }) s2)

-- What `iput` does for the last reference to an inode without links.
pub free_inode : ℕ → Fs → Result Fs
unfolding itrunc iupdate
free_inode i s = do
  s1 ← itrunc i (set_inode i (λ ip. record ip { busy = true }) s)
  s2 ← iupdate i (set_inode i (λ ip. record ip { type = 0 }) s1)
  ok (set_inode i (λ ip. record ip { busy = false; valid = false }) s2)

unfoldable pub iput : ℕ → Fs → Result Fs
unfolding free_inode
iput i s = do
  let ip = s.inode i
  s1 ←
      if (ip.ref == 1) && ip.valid && (ip.nlink == 0)
      then (if ip.busy then panic "iput busy" else free_inode i s)
      else ok s
  ok (set_inode i (λ ip. record ip { ref = ip.ref - 1 }) s1)

unfoldable pub iunlockput : ℕ → Fs → Result Fs
unfolding iunlock iput
iunlockput i s = do s1 ← iunlock i s; iput i s1
