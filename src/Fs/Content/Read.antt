-- ===== src/Fs/Content/Read.antt =====
-- `readi` of a file whose blocks are allocated.
use nunix.Prelude.{
  ℕ, zero, suc, ◌+◌, ◌-◌, ◌*◌, ◌/◌, ◌%◌, ◌^◌, ◌<◌, ◌≤◌, ◌≡◌, refl, false, ◌==◌, ◌||◌, ltb, leb,
  if◌then◌else◌, ok, min, negsuc, List, [], ◌∷◌, ◌++◌, inl, inr, arith, Bool-cases, ap, ap₂, sym,
  ◌∙◌, pos,
}
use nunix.Fs.{Fs, block}
use nunix.Fs.Content.{
  bsize, t_dev, Devices, block_bytes, chunk, read_blocks, uint_add, read_file, readi,
}
use nunix.Fs.Content.Bytes.{addr_of, Mapped, file_byte, bmap-Mapped}

-- `n` bytes of a file from an offset on
abbrev pub file_bytes : Fs → ℕ → ℕ → ℕ → List ℕ
file_bytes s i off zero = []
file_bytes s i off (suc n) = file_byte s i off ∷ file_bytes s i (off + 1) n

file_bytes-append :
    (s : Fs) (i off m n k : ℕ)
    → k ≡ m + n
    → file_bytes s i off k ≡ file_bytes s i off m ++ file_bytes s i (off + m) n
file_bytes-append s i off zero n k h =
    let same : k ≡ n = omega arith in
    let here : off ≡ off + 0 = omega arith in ap₂ (file_bytes s i) here same
file_bytes-append s i off (suc m) n zero h = absurd (omega arith)
file_bytes-append s i off (suc m) n (suc k) h =
    let on : off + 1 + m ≡ off + suc m = omega arith in
    ap (λ t. file_byte s i off ∷ t)
      (file_bytes-append s i (off + 1) m n k (omega arith)
        ∙ ap (λ o. file_bytes s i (off + 1) m ++ file_bytes s i o n) on)

-- The bytes of one block are bytes of the file.
block_bytes-file_bytes :
    (s : Fs) (i off m : ℕ)
    → off % bsize + m ≤ bsize
    → block_bytes (block s (addr_of s i (off / bsize))) (off % bsize) m ≡ file_bytes s i off m
unfolding block_bytes
block_bytes-file_bytes s i off zero l = refl
block_bytes-file_bytes s i off (suc zero) l = refl
block_bytes-file_bytes s i off (suc (suc m)) l =
    let row : (off + 1) / bsize ≡ off / bsize = omega arith in
    let place : (off + 1) % bsize ≡ off % bsize + 1 = omega arith in
    ap (λ t. file_byte s i off ∷ t)
      (ap₂ (λ q k. block_bytes (block s (addr_of s i q)) k (suc m)) (sym row) (sym place)
        ∙ block_bytes-file_bytes s i (off + 1) (suc m) (omega arith))

read_blocks-file_bytes :
    (s : Fs) (i hi fuel off n : ℕ)
    → Mapped s i hi
    → off + n ≤ hi * bsize
    → n ≤ fuel
    → read_blocks i fuel off n s ≡ ok (file_bytes s i off n, s)
unfolding read_blocks
read_blocks-file_bytes s i hi zero off n m inside l =
    let none_left : 0 ≡ n = omega arith in ap (λ k. ok (file_bytes s i off k, s)) none_left
read_blocks-file_bytes s i hi (suc fuel) off n m inside l = elim (Bool-cases (n == 0)) [
  | inl e ↦
      let none_left : 0 ≡ n = ground arith in
      rw (read_blocks, e) (ap (λ k. ok (file_bytes s i off k, s)) none_left)
  | inr e ↦
      let c = chunk off n in
      let some_bytes : 0 < c = ground arith in
      let rest =
        read_blocks-file_bytes s i hi fuel (off + c) (n - c) m (omega arith) (omega arith) in
      rw (read_blocks, e, bmap-Mapped s i (off / bsize) hi m (ground arith), rest)
        (ap (λ bs. ok (bs, s))
          (ap (λ bs. bs ++ file_bytes s i (off + c) (n - c))
              (block_bytes-file_bytes s i off c (omega arith))
            ∙ sym (file_bytes-append s i off c (n - c) n (omega arith))))
]

wraps : (off n : ℕ) → off < 2 ^ 32 → n < 2 ^ 32 → ltb (uint_add off n) off ≡ leb (2 ^ 32) (off + n)
wraps off n a b = ground arith

-- For an inode that is not a device, whose first `hi` blocks are allocated and hold all of its bytes, and an offset and a count that are words
-- of 32 bits, `readi` returns -1 when the offset lies behind the end of the file or offset and count together wrap around. Otherwise it
-- returns how many of the bytes asked for the file has, with exactly those bytes, and changes nothing.
pub readi-file_bytes :
    (devsw : Devices) (s : Fs) (i hi off n : ℕ)
    → ((s.inode i).type == t_dev) ≡ false
    → Mapped s i hi
    → (s.inode i).size ≤ hi * bsize
    → off < 2 ^ 32
    → n < 2 ^ 32
    → readi devsw i off n s ≡ (
        let size = (s.inode i).size in
        let count = min n (size - off) in
        if ltb size off || leb (2 ^ 32) (off + n)
        then ok (negsuc 0, [], s)
        else ok (pos count, file_bytes s i off count, s))
unfolding readi read_file
readi-file_bytes devsw s i hi off n file m inside a b =
    elim (Bool-cases (ltb (s.inode i).size off || leb (2 ^ 32) (off + n))) [
      | inl e ↦ rw (readi, file, read_file, wraps off n a b, e) refl
      | inr e ↦
          let size = (s.inode i).size in
          let count = min n (size - off) in
          let clipped : (if ltb size (uint_add off n) then size - off else n) ≡ count =
            ground arith in
          let got = read_blocks-file_bytes s i hi count off count m (ground arith) (omega arith) in
          rw (readi, file, read_file, wraps off n a b, e, clipped, got) refl
    ]
