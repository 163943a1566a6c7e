-- ===== src/Memory/Names.antt =====
-- The bounded strings of string.c: what `strncmp` compares and what `strncpy` and `safestrcpy` copy.
use nunix.Prelude.{
  ℕ, zero, suc, ◌+◌, ◌<◌, ◌≤◌, ◌≡◌, ◌↔◌, refl, true, false, ◌&&◌, not, inl, inr, ◌⊎◌, arith, ◌==◌,
  ==→eq, Bool-cases, update, ap, sym, ◌∙◌, pos, ◌-ℤ◌,
}
use nunix.Memory.{Bytes, strncmp, safestrcpy, safe_copy}

-- The strings at `p` and `q` agree in their first `n` bytes, or up to a NUL in both of them.
SameName : ℕ → ℕ → ℕ → Bytes → Type 0
SameName p q n m =
    (i : ℕ) → i < n → ((j : ℕ) → j < i → (m (p + j) == 0) ≡ false) → m (p + i) ≡ m (q + i)

sub-zero : (a b : ℕ) → a -ℤ b ≡ pos 0 → a ≡ b
sub-zero a b h = ground arith

next_byte : (m : Bytes) (p i : ℕ) → m (p + 1 + i) ≡ m (p + suc i)
next_byte m p i = ap m (omega arith)

first_byte : (m : Bytes) (p : ℕ) → m (p + 0) ≡ m p
first_byte m p = ap m (omega arith)

-- One byte more at the front of both strings.
cons-SameName :
    (p q n : ℕ) (m : Bytes)
    → m p ≡ m q
    → ((m p == 0) ≡ false → SameName (p + 1) (q + 1) n m)
    → SameName p q (suc n) m
unfolding SameName
cons-SameName p q n m same rest zero l before = first_byte m p ∙ same ∙ sym (first_byte m q)
cons-SameName p q n m same rest (suc i) l before =
    sym (next_byte m p i)
    ∙ rest (ap (λ b. b == 0) (sym (first_byte m p)) ∙ before 0 (omega arith)) i (omega arith)
        (λ j k. ap (λ b. b == 0) (next_byte m p j) ∙ before (suc j) (omega arith))
    ∙ next_byte m q i

tail-SameName :
    (p q n : ℕ) (m : Bytes)
    → (m p == 0) ≡ false
    → SameName p q (suc n) m
    → SameName (p + 1) (q + 1) n m
unfolding SameName
tail-SameName p q n m more h i l before =
    next_byte m p i ∙ h (suc i) (omega arith) first ∙ sym (next_byte m q i)
  where
    first : (j : ℕ) → j < suc i → (m (p + j) == 0) ≡ false
    first zero k = ap (λ b. b == 0) (first_byte m p) ∙ more
    first (suc j) k = ap (λ b. b == 0) (sym (next_byte m p j)) ∙ before j (omega arith)

strncmp-same : (p q n : ℕ) (m : Bytes) → strncmp p q n m ≡ pos 0 → SameName p q n m
unfolding strncmp SameName
strncmp-same p q zero m h = λ i l. absurd (omega arith)
strncmp-same p q (suc n) m h = elim (Bool-cases (not (m p == 0) && (m p == m q))) [
  | inl e ↦
      cons-SameName p q n m (==→eq (m p) (m q) (ground arith))
        (λ z. strncmp-same (p + 1) (q + 1) n m (rw e at h))
  | inr e ↦
      let same = sub-zero (m p) (m q) (rw e at h) in
      cons-SameName p q n m same (λ z. absurd (ground arith))
]

head_byte : (p q n : ℕ) (m : Bytes) → SameName p q (suc n) m → m p ≡ m q
unfolding SameName
head_byte p q n m h =
    sym (first_byte m p) ∙ h 0 (omega arith) (λ j l. absurd (omega arith)) ∙ first_byte m q

same-strncmp : (p q n : ℕ) (m : Bytes) → SameName p q n m → strncmp p q n m ≡ pos 0
unfolding strncmp
same-strncmp p q zero m h = refl
same-strncmp p q (suc n) m h = elim (Bool-cases (not (m p == 0) && (m p == m q))) [
  | inl e ↦ rw e (same-strncmp (p + 1) (q + 1) n m (tail-SameName p q n m (ground arith) h))
  | inr e ↦ rw e (rw (head_byte p q n m h) (ground arith))
]

-- `strncmp` returns 0 exactly when the two strings agree in their first `n` bytes or up to a common NUL.
strncmp-SameName : (p q n : ℕ) (m : Bytes) → (strncmp p q n m ≡ pos 0) ↔ SameName p q n m
strncmp-SameName p q n m = (strncmp-same p q n m, same-strncmp p q n m)

module _ (s t : ℕ) (m : Bytes) where
  -- The bytes at `s` are a copy of the string at `t` up to `k`, where a NUL ends them: the string ends there, or `n`
  -- bytes are copied.
  pub record IsCopy (n k : ℕ) (u : Bytes) : Type 0 where
    pub same : (j : ℕ) → j < k → (u (s + j) ≡ m (t + j)) × ((m (t + j) == 0) ≡ false)
    pub nul : u (s + k) ≡ 0
    pub ends : ((k < n) × ((m (t + k) == 0) ≡ true)) ⊎ (k ≡ n)

safe_copy-frame :
    (s t n : ℕ) (m : Bytes) (i : ℕ) → (i < s) ⊎ (s + n < i) → safe_copy s t n m i ≡ m i
unfolding safe_copy
safe_copy-frame s t zero m i out = ground arith
safe_copy-frame s t (suc n) m i out = elim (Bool-cases (m t == 0)) [
  | inl e ↦ rw e (ground arith)
  | inr e ↦
      rw e (safe_copy-frame (s + 1) (t + 1) n (update m s (m t)) i (ground arith) ∙ ground arith)
]

-- One byte more at the front of a copy.
cons-IsCopy :
    (s t n k : ℕ) (m u : Bytes)
    → (t + suc n ≤ s) ⊎ (s + suc n < t)
    → k < suc n
    → (m t == 0) ≡ false
    → u s ≡ m t
    → IsCopy (s + 1) (t + 1) (update m s (m t)) n k u
    → IsCopy s t m (suc n) (suc k) u
cons-IsCopy s t n k m u apart l more here c = record {
  same = same;
  nul = sym (next_byte u s k) ∙ c.nul;
  ends = elim c.ends [
    | inl (b, z) ↦ inl (omega arith, ap (λ b. b == 0) (sym (far k b)) ∙ z)
    | inr e ↦ inr (ap suc e)
  ];
}
  where
    far : (j : ℕ) → j < n → update m s (m t) (t + 1 + j) ≡ m (t + suc j)
    far j a = ground (arith, next_byte m t j)

    same : (j : ℕ) → j < suc k → (u (s + j) ≡ m (t + j)) × ((m (t + j) == 0) ≡ false)
    same zero a =
        (first_byte u s ∙ here ∙ sym (first_byte m t), ap (λ b. b == 0) (first_byte m t) ∙ more)
    same (suc j) a =
        let (e, z) = c.same j (omega arith) in
        (
          sym (next_byte u s j) ∙ e ∙ far j (omega arith),
          ap (λ b. b == 0) (sym (far j (omega arith))) ∙ z,
        )

safe_copy-IsCopy :
    (s t n : ℕ) (m : Bytes)
    → (t + n ≤ s) ⊎ (s + n < t)
    → (k : ℕ) × (k ≤ n) × IsCopy s t m n k (safe_copy s t n m)
unfolding safe_copy
safe_copy-IsCopy s t zero m apart = (
  0,
  omega arith,
  record { same = λ j l. absurd (omega arith); nul = ground arith; ends = inr refl },
)
safe_copy-IsCopy s t (suc n) m apart = elim (Bool-cases (m t == 0)) [
  | inl e ↦ rw e (
    0,
    omega arith,
    record {
      same = λ j l. absurd (omega arith);
      nul = ground arith;
      ends = inl (omega arith, ap (λ b. b == 0) (first_byte m t) ∙ e);
    },
  )
  | inr e ↦
      let (k, l, c) = safe_copy-IsCopy (s + 1) (t + 1) n (update m s (m t)) (ground arith) in
      rw e (
        suc k,
        omega arith,
        cons-IsCopy s t n k m _ apart (omega arith) e
            (safe_copy-frame (s + 1) (t + 1) n (update m s (m t)) s (inl (omega arith))
              ∙ ground arith)
            c,
      )
]

-- `safestrcpy` into an array of `n + 1` bytes that is apart from the string leaves there a copy of the string, or of its first `n` bytes, that a NUL ends, and all other bytes as they were.
pub safestrcpy-IsCopy :
    (s t n : ℕ) (m : Bytes)
    → (t + suc n ≤ s) ⊎ (s + suc n ≤ t)
    → ((k : ℕ) × (k < suc n) × IsCopy s t m n k (safestrcpy s t (suc n) m))
      × ((i : ℕ) → (i < s) ⊎ (s + suc n ≤ i) → safestrcpy s t (suc n) m i ≡ m i)
unfolding safestrcpy
safestrcpy-IsCopy s t n m apart =
    let (k, b, c) = safe_copy-IsCopy s t n m (ground arith) in
    ((k, omega arith, c), λ i out. safe_copy-frame s t n m i (ground arith))
