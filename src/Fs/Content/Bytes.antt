-- ===== src/Fs/Content/Bytes.antt =====
-- The contents of a file as a function from offsets to bytes: what `readi` and `writei` do to it where the
-- blocks of the file are allocated.
use nunix.Prelude.{
  ℕ, zero, suc, ◌+◌, ◌-◌, ◌/◌, ◌%◌, ◌<◌, ◌≤◌, ◌≡◌, ◌≢◌, refl, true, false, ◌==◌, ==→eq, ltb,
  if◌then◌else◌, ok, List, [], ◌∷◌, length, get_or, inl, inr, arith, Bool-cases, ap, ◌∙◌,
}
use nunix.Disk.{Block}
use nunix.Fs.{Fs, block}
use nunix.Fs.Words.{byte_of-set_byte}
use nunix.Fs.Inodes.Trunc.{ndirect, nindirect, bmap, bmap_addr, bmap_indirect}
use nunix.Fs.Content.{bsize, byte_at, put_byte, put_bytes}

-- the block that holds block `bn` of a file
abbrev pub addr_of : Fs → ℕ → ℕ → ℕ
addr_of s i bn =
    if ltb bn ndirect
    then (s.inode i).addrs bn
    else block s ((s.inode i).addrs ndirect) (bn - ndirect)

-- The first `hi` blocks of the file are allocated.
pub record Mapped (s : Fs) (i hi : ℕ) : Type 0 where
  pub fits : hi ≤ ndirect + nindirect
  pub index : ndirect < hi → (s.inode i).addrs ndirect ≢ 0
  pub there : (bn : ℕ) → bn < hi → addr_of s i bn ≢ 0

abbrev pub file_byte : Fs → ℕ → ℕ → ℕ
file_byte s i pos = byte_at (block s (addr_of s i (pos / bsize))) (pos % bsize)

pub eq_false : (a b : ℕ) → a ≢ b → (a == b) ≡ false
eq_false a b h = elim (Bool-cases (a == b)) [ inl e ↦ absurd (h (==→eq a b e)) | inr e ↦ e ]

-- Where the block is allocated `bmap` returns it and changes nothing.
pub bmap-Mapped :
    (s : Fs) (i bn hi : ℕ) → Mapped s i hi → bn < hi → bmap i bn s ≡ ok (addr_of s i bn, s)
unfolding bmap bmap_addr bmap_indirect
bmap-Mapped s i bn hi m b = elim (Bool-cases (ltb bn ndirect)) [
  | inl e ↦ let there = rw e at (m.there bn b) in rw (e, eq_false _ 0 there) refl
  | inr e ↦
      let there = rw e at (m.there bn b) in
      rw (e, eq_false _ 0 (m.index (ground arith)), in_index bn (m.fits) b)
        (rw (eq_false _ 0 there) refl)
]
  where
    in_index : (bn : ℕ) → hi ≤ ndirect + nindirect → bn < hi → ltb (bn - ndirect) nindirect ≡ true
    in_index bn f l = ground arith

-- A byte of a block after one was written.
byte_at-put_byte :
    (d : Block) (k v j : ℕ) → byte_at (put_byte d k v) j ≡ (if k == j then v % 256 else byte_at d j)
byte_at-put_byte d k v j = elim (Bool-cases (k / 4 == j / 4)) [
  | inl e ↦ rw e (
      byte_of-set_byte (d (k / 4)) (k % 4) v (j % 4)
      ∙ ground (arith, ap d (==→eq (k / 4) (j / 4) e)))
  | inr e ↦ rw e (ground arith)
]

get_or-first : (b : ℕ) (bs : List ℕ) (n : ℕ) → n ≡ 0 → get_or (b ∷ bs) n 0 ≡ b
get_or-first b bs zero h = refl
get_or-first b bs (suc n) h = absurd (omega arith)

get_or-later : (b : ℕ) (bs : List ℕ) (n m : ℕ) → n ≡ suc m → get_or (b ∷ bs) n 0 ≡ get_or bs m 0
get_or-later b bs n m h = ap (λ i. get_or (b ∷ bs) i 0) h

-- The bytes of a block after some were written from `k` on.
pub byte_at-put_bytes :
    (d : Block) (k : ℕ) (bs : List ℕ) (j : ℕ)
    → byte_at (put_bytes d k bs) j ≡ (
        if ltb j k
        then byte_at d j
        else if ltb j (k + length bs)
        then get_or bs (j - k) 0 % 256
        else byte_at d j)
unfolding put_bytes
byte_at-put_bytes d k [] j = ground arith
byte_at-put_bytes d k (b ∷ bs) j =
    byte_at-put_bytes (put_byte d k b) (k + 1) bs j ∙ elim (Bool-cases (ltb j k)) [
      | inl e ↦ ground (arith, byte_at-put_byte d k b j)
      | inr e ↦ elim (Bool-cases (k == j)) [
        | inl y ↦ ground (arith, byte_at-put_byte d k b j, get_or-first b bs (j - k))
        | inr y ↦ ground (arith, byte_at-put_byte d k b j, get_or-later b bs (j - k) (j - (k + 1)))
      ]
    ]
