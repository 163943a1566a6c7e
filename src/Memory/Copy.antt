-- ===== src/Memory/Copy.antt =====
-- `memmove` of string.c moves its bytes as they stood before it, also between ranges that overlap.
use nunix.Prelude.{
  ℕ, zero, suc, ◌+◌, ◌-◌, ◌<◌, ◌≤◌, ◌≡◌, ◌&&◌, inl, inr, ◌⊎◌, arith, ◌==◌, ==→eq, ltb, leb,
  if◌then◌else◌, Bool-cases, update, for_upto_inv, ap, ◌∙◌,
}
use nunix.Memory.{Bytes, move_down, move_up, memmove}

-- what a move of `n` bytes leaves at an address
pub moved : ℕ → ℕ → ℕ → Bytes → Bytes
moved d s n m i = if leb d i && ltb i (d + n) then m (s + (i - d)) else m i

same_place : (d s n i : ℕ) → d + n ≡ i → s + n ≡ s + (i - d)
same_place d s n i e = omega arith

step_down :
    (d s n : ℕ) (m : Bytes)
    → s < d
    → (i : ℕ) → moved d s n (update m (d + n) (m (s + n))) i ≡ moved d s (suc n) m i
unfolding moved
step_down d s n m l i = elim (Bool-cases (d + n == i)) [
  | inl e ↦ rw e (ground (arith, ap m (same_place d s n i (==→eq (d + n) i e))))
  | inr e ↦ rw e (ground arith)
]

step_up :
    (d s n k : ℕ) (m u : Bytes)
    → (d ≤ s) ⊎ (s + n ≤ d)
    → k < n
    → ((i : ℕ) → u i ≡ moved d s k m i)
    → (i : ℕ) → update u (d + k) (u (s + k)) i ≡ moved d s (suc k) m i
unfolding moved
step_up d s n k m u apart l h i = elim (Bool-cases (d + k == i)) [
  | inl e ↦ rw e (ground (arith, h (s + k), ap m (same_place d s k i (==→eq (d + k) i e))))
  | inr e ↦ rw e (h i ∙ ground arith)
]

move_down-moved : (d s n : ℕ) (m : Bytes) → s < d → (i : ℕ) → move_down d s n m i ≡ moved d s n m i
unfolding move_down moved
move_down-moved d s zero m l i = ground arith
move_down-moved d s (suc n) m l i =
    move_down-moved d s n (update m (d + n) (m (s + n))) l i ∙ step_down d s n m l i

move_up-moved :
    (d s n : ℕ) (m : Bytes) → (d ≤ s) ⊎ (s + n ≤ d) → (i : ℕ) → move_up d s n m i ≡ moved d s n m i
unfolding move_up moved
move_up-moved d s n m apart =
    for_upto_inv (λ k u. (i : ℕ) → u i ≡ moved d s k m i) _ n
      (λ k u l h i. step_up d s n k m u apart l h i) m (λ i. ground arith)

-- `memmove` leaves at each address of its target the byte that stood at the same place of its source, and all other bytes as they were.
pub memmove-moved :
    (dst src n : ℕ) (m : Bytes) (i : ℕ) → memmove dst src n m i ≡ moved dst src n m i
unfolding memmove
memmove-moved dst src n m i = elim (Bool-cases (ltb src dst && ltb dst (src + n))) [
  | inl e ↦ rw e (move_down-moved dst src n m (ground arith) i)
  | inr e ↦ rw e (move_up-moved dst src n m (ground arith) i)
]
