-- ===== src/Fs/Content.antt =====
-- fs.c: `readi` and `writei`, the contents of an inode as bytes.
pub mod Bytes
pub mod Read
pub mod Write
pub mod Replace
use nunix.Prelude.{
  ℕ, zero, suc, ◌+◌, ◌-◌, ◌*◌, ◌/◌, ◌%◌, ◌^◌, Bool, true, false, ◌&&◌, ◌||◌, ◌==◌, ltb, leb,
  if◌then◌else◌, update, Result, ok, panic, ◌>>=◌, min, Option, none, some, List, [], ◌∷◌, ◌++◌,
  take, drop, length, ℤ, pos, negsuc,
}
use nunix.Disk.{Block}
use nunix.Fs.{Inode, Fs, block, put_block}
use nunix.Fs.Words.{byte_of, set_byte}
use nunix.Fs.Inodes.{set_inode, iupdate}
use nunix.Fs.Inodes.Trunc.{ndirect, nindirect, bmap}

abbrev pub t_dir : ℕ
t_dir = 1

abbrev pub t_dev : ℕ
t_dev = 3

abbrev pub ndev : ℕ
ndev = 10

abbrev pub bsize : ℕ
bsize = 512

-- `devsw`: what a device does with an inode and a count, or with an inode and bytes.
pub record Devices : Type 0 where
  pub read : ℕ → Option (ℕ → ℕ → Fs → Result (ℤ × List ℕ × Fs))
  pub write : ℕ → Option (ℕ → List ℕ → Fs → Result (ℤ × Fs))

-- Byte `k` of a block: byte `k % 4` of word `k / 4`.
abbrev pub byte_at : Block → ℕ → ℕ
byte_at d k = byte_of (d (k / 4)) (k % 4)

abbrev pub put_byte : Block → ℕ → ℕ → Block
put_byte d k v = update d (k / 4) (set_byte (d (k / 4)) (k % 4) v)

-- `memmove` of `n` bytes out of a block, from offset `k` on
pub block_bytes : Block → ℕ → ℕ → List ℕ
block_bytes d k zero = []
block_bytes d k (suc n) = byte_at d k ∷ block_bytes d (k + 1) n

-- `memmove` of bytes into a block, from offset `k` on
unfoldable pub put_bytes : Block → ℕ → List ℕ → Block
put_bytes d k [] = d
put_bytes d k (b ∷ bs) = put_bytes (put_byte d k b) (k + 1) bs

-- How many bytes one round moves.
abbrev pub chunk : ℕ → ℕ → ℕ
chunk off n = min n (bsize - off % bsize)

-- The loop of `readi`, with `n` bytes left from `off` on; a round moves a byte at least.
pub read_blocks : ℕ → ℕ → ℕ → ℕ → Fs → Result (List ℕ × Fs)
unfolding bmap block_bytes
read_blocks i zero off n s = ok ([], s)
read_blocks i (suc fuel) off n s = elim (n == 0) [
  | true ↦ ok ([], s)
  | false ↦ (do
    (b, s1) ← bmap i (off / bsize) s
    let m = chunk off n
    (rest, s2) ← read_blocks i fuel (off + m) (n - m) s1
    ok (block_bytes (block s1 b) (off % bsize) m ++ rest, s2))
]

-- `off + n` on a `uint`
abbrev pub uint_add : ℕ → ℕ → ℕ
uint_add off n = (off + n) % 2 ^ 32

-- `readi` of an inode that is not a device
pub read_file : ℕ → ℕ → ℕ → Fs → Result (ℤ × List ℕ × Fs)
unfolding read_blocks
read_file i off n s =
    let size = (s.inode i).size in
    if ltb size off || ltb (uint_add off n) off then ok (negsuc 0, [], s) else (do
      let m = if ltb size (uint_add off n) then size - off else n
      (bs, s1) ← read_blocks i m off m s
      ok (pos m, bs, s1))

-- `readi`: the result, the bytes that it moves to `dst`, and the state. A `major` is negative from 2 ^ 15 on.
unfoldable pub readi : Devices → ℕ → ℕ → ℕ → Fs → Result (ℤ × List ℕ × Fs)
unfolding read_file
readi devsw i off n s =
    let ip = s.inode i in
    if ip.type == t_dev
    then (if leb ndev ip.major
        then ok (negsuc 0, [], s)
        else elim (devsw.read ip.major) [ none ↦ ok (negsuc 0, [], s) | some f ↦ f i n s ])
    else read_file i off n s

-- The loop of `writei` over the bytes that are left, from `off` on: the offset after them, and the state.
pub write_blocks : ℕ → ℕ → ℕ → List ℕ → Fs → Result (ℕ × Fs)
unfolding bmap put_bytes
write_blocks i zero off src s = ok (off, s)
write_blocks i (suc fuel) off [] s = ok (off, s)
write_blocks i (suc fuel) off (c ∷ cs) s = do
  (b, s1) ← bmap i (off / bsize) s
  let m = chunk off (length (c ∷ cs))
  s2 ← put_block b (put_bytes (block s1 b) (off % bsize) (take m (c ∷ cs))) s1
  write_blocks i fuel (off + m) (drop m (c ∷ cs)) s2

-- `writei` of an inode that is not a device; `n` is the length of `src`.
pub write_file : ℕ → List ℕ → ℕ → Fs → Result (ℤ × Fs)
unfolding write_blocks iupdate
write_file i src off s =
    let n = length src in
    if ltb (s.inode i).size off || ltb (uint_add off n) off
    then ok (negsuc 0, s)
    else if ltb ((ndirect + nindirect) * bsize) (uint_add off n)
    then ok (negsuc 0, s)
    else (do
      (end, s1) ← write_blocks i n off src s
      s2 ←
          if ltb 0 n && ltb (s1.inode i).size end
          then iupdate i (set_inode i (λ ip. record ip { size = end }) s1)
          else ok s1
      ok (pos n, s2))

unfoldable pub writei : Devices → ℕ → List ℕ → ℕ → Fs → Result (ℤ × Fs)
unfolding write_file
writei devsw i src off s =
    let ip = s.inode i in
    if ip.type == t_dev
    then (if leb ndev ip.major
        then ok (negsuc 0, s)
        else elim (devsw.write ip.major) [ none ↦ ok (negsuc 0, s) | some f ↦ f i src s ])
    else write_file i src off s
