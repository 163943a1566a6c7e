-- ===== src/Fs/Words.antt =====
-- The bits and the bytes of a word.
use nunix.Prelude.{
  ℕ, zero, suc, ◌+◌, ◌*◌, ◌/◌, ◌%◌, ◌≡◌, Bool, true, false, ◌==◌, if◌then◌else◌, arith, ap, ◌∙◌,
}

-- `w & (1 << k)`
unfoldable pub bit : ℕ → ℕ → Bool
bit w zero = w % 2 == 1
bit w (suc k) = bit (w / 2) k

-- `w | (1 << k)`
unfoldable pub set_bit : ℕ → ℕ → ℕ
set_bit w zero = w / 2 * 2 + 1
set_bit w (suc k) = set_bit (w / 2) k * 2 + w % 2

-- `w & ~(1 << k)`
pub clear_bit : ℕ → ℕ → ℕ
clear_bit w zero = w / 2 * 2
clear_bit w (suc k) = clear_bit (w / 2) k * 2 + w % 2

-- byte `k` of a word
unfoldable pub byte_of : ℕ → ℕ → ℕ
byte_of w zero = w % 256
byte_of w (suc k) = byte_of (w / 256) k

-- The word with byte `k` replaced by `v`.
unfoldable pub set_byte : ℕ → ℕ → ℕ → ℕ
set_byte w zero v = w / 256 * 256 + v % 256
set_byte w (suc k) v = set_byte (w / 256) k v * 256 + w % 256

top_half : (w : ℕ) → (w / 2 * 2 + 1) / 2 ≡ w / 2
top_half w = omega arith

top_half_clear : (w : ℕ) → w / 2 * 2 / 2 ≡ w / 2
top_half_clear w = omega arith

halves : (a w : ℕ) → (a * 2 + w % 2) / 2 ≡ a
halves a w = omega arith

pub bit-set_bit : (w k j : ℕ) → bit (set_bit w k) j ≡ (if k == j then true else bit w j)
unfolding bit set_bit
bit-set_bit w zero zero = ground arith
bit-set_bit w zero (suc j) = ap (λ x. bit x j) (top_half w) ∙ ground arith
bit-set_bit w (suc k) zero = ground arith
bit-set_bit w (suc k) (suc j) =
    ground (arith, ap (λ x. bit x j) (halves (set_bit (w / 2) k) w), bit-set_bit (w / 2) k j)

pub bit-clear_bit : (w k j : ℕ) → bit (clear_bit w k) j ≡ (if k == j then false else bit w j)
unfolding bit clear_bit
bit-clear_bit w zero zero = ground arith
bit-clear_bit w zero (suc j) = ap (λ x. bit x j) (top_half_clear w) ∙ ground arith
bit-clear_bit w (suc k) zero = ground arith
bit-clear_bit w (suc k) (suc j) =
    ground (arith, ap (λ x. bit x j) (halves (clear_bit (w / 2) k) w), bit-clear_bit (w / 2) k j)

low_byte : (a v : ℕ) → (a * 256 + v % 256) % 256 ≡ v % 256
low_byte a v = omega arith

high_bytes : (a v : ℕ) → (a * 256 + v % 256) / 256 ≡ a
high_bytes a v = omega arith

pub byte_of-set_byte :
    (w k v j : ℕ) → byte_of (set_byte w k v) j ≡ (if k == j then v % 256 else byte_of w j)
unfolding byte_of set_byte
byte_of-set_byte w zero v zero = low_byte (w / 256) v ∙ ground arith
byte_of-set_byte w zero v (suc j) = ap (λ x. byte_of x j) (high_bytes (w / 256) v) ∙ ground arith
byte_of-set_byte w (suc k) v zero = low_byte (set_byte (w / 256) k v) w ∙ ground arith
byte_of-set_byte w (suc k) v (suc j) = ground (
  arith,
  ap (λ x. byte_of x j) (high_bytes (set_byte (w / 256) k v) w),
  byte_of-set_byte (w / 256) k v j,
)
