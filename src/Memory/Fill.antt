-- ===== src/Memory/Fill.antt =====
-- `memset` of string.c fills by bytes and by words alike.
use nunix.Prelude.{
  ℕ, suc, ◌+◌, ◌*◌, ◌/◌, ◌%◌, ◌<◌, ◌≡◌, ◌&&◌, inl, inr, arith, ◌==◌, ltb, leb, if◌then◌else◌,
  Bool-cases, for_upto_inv, ap, ◌∙◌,
}
use nunix.Memory.{Bytes, memset, stosb, stosl, put_word}

-- what a fill of `n` bytes leaves at an address
pub filled : ℕ → ℕ → ℕ → Bytes → Bytes
filled d b n m i = if leb d i && ltb i (d + n) then b else m i

pub stosb-filled : (d c n : ℕ) (m : Bytes) (i : ℕ) → stosb d c n m i ≡ filled d (c % 256) n m i
unfolding stosb filled
stosb-filled d c n m =
    for_upto_inv (λ k u. (i : ℕ) → u i ≡ filled d (c % 256) k m i) _ n
      (λ k u l h i. elim (Bool-cases (d + k == i)) [
        | inl e ↦ rw e (ground arith)
        | inr e ↦ rw e (h i ∙ ground arith)
      ])
      m (λ i. ground arith)

-- A double word with four equal bytes.
abbrev word_of : ℕ → ℕ
word_of b = b * 16777216 + b * 65536 + b * 256 + b

bytes_of_word :
    (b : ℕ)
    → b < 256
    → (word_of b % 256 ≡ b)
      × (word_of b / 256 % 256 ≡ b)
      × (word_of b / 65536 % 256 ≡ b)
      × (word_of b / 16777216 % 256 ≡ b)
bytes_of_word b l = (omega arith, omega arith, omega arith, omega arith)

put_word-filled :
    (d b : ℕ) (m : Bytes) → b < 256 → (i : ℕ) → put_word d (word_of b) m i ≡ filled d b 4 m i
unfolding filled
put_word-filled d b m l i =
    let (b0, b1, b2, b3) = bytes_of_word b l in rw (b0, b1, b2, b3) (ground arith)

stosl-filled :
    (d b n : ℕ) (m : Bytes) → b < 256 → (i : ℕ) → stosl d (word_of b) n m i ≡ filled d b (4 * n) m i
unfolding stosl filled
stosl-filled d b n m l =
    for_upto_inv (λ k u. (i : ℕ) → u i ≡ filled d b (4 * k) m i)
      (λ i. put_word (d + 4 * i) (word_of b)) n
      (λ k u j h i. put_word-filled (d + 4 * k) b u l i ∙ more d b k m u h i) m (λ i. ground arith)
  where
    more :
        (d b k : ℕ) (m u : Bytes)
        → ((i : ℕ) → u i ≡ filled d b (4 * k) m i)
        → (i : ℕ) → filled (d + 4 * k) b 4 u i ≡ filled d b (4 * suc k) m i
    more d b k m u h i = ground (arith, h i)

-- `memset` leaves the low byte of `c` at each of the `n` addresses, whichever of its two loops runs, and all other bytes as they were.
memset-filled : (dst c n : ℕ) (m : Bytes) (i : ℕ) → memset dst c n m i ≡ filled dst (c % 256) n m i
unfolding memset
memset-filled dst c n m i = elim (Bool-cases ((dst % 4 == 0) && (n % 4 == 0))) [
  | inl e ↦ rw e (
      stosl-filled dst (c % 256) (n / 4) m (omega arith) i
      ∙ ap (λ k. filled dst (c % 256) k m i) (ground arith))
  | inr e ↦ rw e (stosb-filled dst c n m i)
]
