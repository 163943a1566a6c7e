-- ===== src/Fs/Content/Replace.antt =====
-- `writei` inside a file, and what `readi` then finds.
use nunix.Prelude.{
  ℕ, zero, suc, ◌+◌, ◌-◌, ◌*◌, ◌%◌, ◌^◌, ◌<◌, ◌≤◌, ◌≡◌, refl, false, ◌==◌, ◌&&◌, ◌||◌, ltb, leb,
  if◌then◌else◌, ok, min, List, [], ◌∷◌, length, get_or, arith, ap, ap₂, ◌∙◌, pos, All,
}
use nunix.Fs.{Fs}
use nunix.Log.Room.{HasRoom}
use nunix.Fs.Inodes.Trunc.{ndirect, nindirect}
use nunix.Fs.Content.{Devices, t_dev, uint_add, bsize, write_file, writei, readi}
use nunix.Fs.Content.Bytes.{Mapped, file_byte}
use nunix.Fs.Content.Read.{file_bytes, readi-file_bytes}
use nunix.Fs.Content.Write.{
  Apart, Written, Mapped-Written, rounds, write_blocks-returns, write_blocks-Written,
}

-- For an inode that is not a device, whose first `hi` blocks are allocated, are different blocks and hold all of its bytes, and bytes that fit
-- between an offset and the end of the file, where the log has begun an operation and has room for the blocks that hold these bytes: `writei`
-- returns their count, and afterwards the file has exactly these bytes (modulo 256) from the offset on and the old ones elsewhere.
pub writei-Written :
    (devsw : Devices) (s : Fs) (i hi off : ℕ) (src : List ℕ)
    → ((s.inode i).type == t_dev) ≡ false
    → Mapped s i hi
    → Apart s i hi
    → off + length src ≤ (s.inode i).size
    → (s.inode i).size ≤ hi * bsize
    → HasRoom s.log (rounds off (length src))
    → (s' : Fs) × (writei devsw i src off s ≡ ok (pos (length src), s')) × Written s s' i hi off src
unfolding writei write_file
writei-Written devsw s i hi off src file m a inside mapped r =
    let n = length src in
    let (e, s', h) =
      write_blocks-returns s i hi n off (rounds off n) src m a (omega arith) (omega arith)
        (omega arith) r in
    let (end, w) = write_blocks-Written s s' i hi n off e src m a (omega arith) (omega arith) h in
    let behind : (ltb (s.inode i).size off || ltb (uint_add off n) off) ≡ false = small (m.fits) in
    let long : ltb ((ndirect + nindirect) * bsize) (uint_add off n) ≡ false = short (m.fits) in
    let size : (s'.inode i).size ≡ (s.inode i).size = ap (λ t. (t i).size) w.same_inode in
    let stays : (ltb 0 n && ltb (s'.inode i).size e) ≡ false = ground arith in
    (s', rw (writei, file, write_file, behind, long, h, stays) refl, w)
  where
    small :
        hi ≤ ndirect + nindirect
        → (ltb (s.inode i).size off || ltb (uint_add off (length src)) off) ≡ false
    small f = ground arith

    short :
        hi ≤ ndirect + nindirect
        → ltb ((ndirect + nindirect) * bsize) (uint_add off (length src)) ≡ false
    short f = ground arith

abbrev pub IsByte : ℕ → Type 0
IsByte b = b < 256

-- A list of bytes is determined by its length and elements.
file_bytes-eq :
    (s : Fs) (i off : ℕ) (bs : List ℕ)
    → ((k : ℕ) → k < length bs → file_byte s i (off + k) ≡ get_or bs k 0)
    → file_bytes s i off (length bs) ≡ bs
file_bytes-eq s i off [] h = refl
file_bytes-eq s i off (b ∷ bs) h =
    let first : off ≡ off + 0 = omega arith in
    ap₂ (λ c cs. c ∷ cs) (ap (file_byte s i) first ∙ h 0 (omega arith))
      (file_bytes-eq s i (off + 1) bs (λ k l.
        let on : off + 1 + k ≡ off + suc k = omega arith in
        ap (file_byte s i) on ∙ h (suc k) (omega arith)))

get_or-IsByte : (bs : List ℕ) (k : ℕ) → All IsByte bs → get_or bs k 0 < 256
get_or-IsByte [] k h = omega arith
get_or-IsByte (b ∷ bs) zero h = h.0
get_or-IsByte (b ∷ bs) (suc k) h = get_or-IsByte bs k h.1

-- For an inode that is not a device, whose first `hi` blocks are allocated, are different blocks and hold all of its bytes, and bytes that fit
-- between an offset and the end of the file, where the log has begun an operation and has room for the blocks that hold these bytes: `writei`
-- returns, and `readi` of the same range then returns the bytes that were written.
pub readi-writei :
    (devsw : Devices) (s : Fs) (i hi off : ℕ) (src : List ℕ)
    → ((s.inode i).type == t_dev) ≡ false
    → Mapped s i hi
    → Apart s i hi
    → off + length src ≤ (s.inode i).size
    → (s.inode i).size ≤ hi * bsize
    → HasRoom s.log (rounds off (length src))
    → All IsByte src
    → (s' : Fs) × (writei devsw i src off s ≡ ok (pos (length src), s'))
      × (readi devsw i off (length src) s' ≡ ok (pos (length src), src, s'))
readi-writei devsw s i hi off src file m a inside mapped r bytes =
    let (s', h, w) = writei-Written devsw s i hi off src file m a inside mapped r in
    let n = length src in
    let size : (s'.inode i).size ≡ (s.inode i).size = ap (λ t. (t i).size) w.same_inode in
    let short = m.fits in
    let got =
      readi-file_bytes devsw s' i hi off n (ap (λ t. (t i).type == t_dev) w.same_inode ∙ file)
        (Mapped-Written w m) (omega arith) (omega arith) (omega arith) in
    let inside' : (ltb (s'.inode i).size off || leb (2 ^ 32) (off + n)) ≡ false = ground arith in
    let count : min n ((s'.inode i).size - off) ≡ n = omega arith in
    let same = file_bytes-eq s' i off src λ k l. w.bytes (off + k) (omega arith) ∙ elem k l in
    (s', h, got ∙ rw (inside', count) (ap (λ bs. ok (pos n, bs, s')) same))
  where
    elem :
        (k : ℕ)
        → k < length src
        → (if ltb (off + k) off
            then file_byte s i (off + k)
            else if ltb (off + k) (off + length src)
            then get_or src (off + k - off) 0 % 256
            else file_byte s i (off + k))
          ≡ get_or src k 0
    elem k l =
        let at_k : off + k - off ≡ k = omega arith in
        rw at_k (ground (arith, get_or-IsByte src k bytes))
