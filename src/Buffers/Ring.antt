-- ===== src/Buffers/Ring.antt =====
-- Lists with links both ways, and what stays of one when a link is written.
use nunix.Prelude.{
  ℕ, ◌≡◌, ◌≢◌, ◌⊎◌, refl, true, false, ◌==◌, ==→eq, update, List, [], ◌∷◌, ◌++◌, inl, inr, arith,
  Bool-cases, ap, sym, ◌∙◌,
}
use nunix.Pages.FreeList.{mem, Distinct}

-- From `a` the links lead over the list to `z`, and back.
unfoldable pub Links : (ℕ → ℕ) → (ℕ → ℕ) → ℕ → List ℕ → ℕ → Type 0
Links next prev a [] z = (next a ≡ z) × (prev z ≡ a)
Links next prev a (x ∷ xs) z = (next a ≡ x) × (prev x ≡ a) × Links next prev x xs z

pub Links-split :
    (next prev : ℕ → ℕ) (a b z : ℕ) (xs ys : List ℕ)
    → Links next prev a (xs ++ b ∷ ys) z
    → Links next prev a xs b × Links next prev b ys z
unfolding Links
Links-split next prev a b z [] ys (e, f, l) = ((e, f), l)
Links-split next prev a b z (x ∷ xs) ys (e, f, l) =
    let (l1, l2) = Links-split next prev x b z xs ys l in ((e, f, l1), l2)

pub Links-join :
    (next prev : ℕ → ℕ) (a b z : ℕ) (xs ys : List ℕ)
    → Links next prev a xs b
    → Links next prev b ys z
    → Links next prev a (xs ++ b ∷ ys) z
unfolding Links
Links-join next prev a b z [] ys (e, f) l = (e, f, l)
Links-join next prev a b z (x ∷ xs) ys (e, f, l1) l = (e, f, Links-join next prev x b z xs ys l1 l)

pub out_first : (p x : ℕ) (xs : List ℕ) → mem p (x ∷ xs) ≡ false → (p ≢ x) × (mem p xs ≡ false)
out_first p x xs h = (λ e. absurd (ground arith), ground arith)

pub update-other {ℓ} : {A : Type ℓ} (f : ℕ → A) (i j : ℕ) (v : A) → i ≢ j → update f i v j ≡ f j
update-other f i j v apart = elim (Bool-cases (i == j)) [
  | inl e ↦ absurd (apart (==→eq i j e))
  | inr e ↦ rw e refl
]

pub update-same {ℓ} : {A : Type ℓ} (f : ℕ → A) (i : ℕ) (v : A) → update f i v i ≡ v
update-same f i v = elim (Bool-cases (i == i)) [
  | inl e ↦ rw e refl
  | inr e ↦ absurd (ground (arith, e))
]

-- A link of a place that is not in the list is written.
pub Links-next :
    (next prev : ℕ → ℕ) (a z p v : ℕ) (xs : List ℕ)
    → p ≢ a
    → mem p xs ≡ false
    → Links next prev a xs z
    → Links (update next p v) prev a xs z
unfolding Links
Links-next next prev a z p v [] pa out (e, f) = (update-other next p a v pa ∙ e, f)
Links-next next prev a z p v (x ∷ xs) pa out (e, f, l) =
    let (px, rest) = out_first p x xs out in
    (update-other next p a v pa ∙ e, f, Links-next next prev x z p v xs px rest l)

pub Links-prev :
    (next prev : ℕ → ℕ) (a z p v : ℕ) (xs : List ℕ)
    → p ≢ z
    → mem p xs ≡ false
    → Links next prev a xs z
    → Links next (update prev p v) a xs z
unfolding Links
Links-prev next prev a z p v [] pz out (e, f) = (e, update-other prev p z v pz ∙ f)
Links-prev next prev a z p v (x ∷ xs) pz out (e, f, l) =
    let (px, rest) = out_first p x xs out in
    (e, update-other prev p x v px ∙ f, Links-prev next prev x z p v xs pz rest l)

-- The last place of the list gets another place behind it.
pub last : ℕ → List ℕ → ℕ
last a [] = a
last a (x ∷ xs) = last x xs

pub last-mem : (a : ℕ) (xs : List ℕ) → (last a xs ≡ a) ⊎ (mem (last a xs) xs ≡ true)
unfolding last
last-mem a [] = inl refl
last-mem a (x ∷ xs) = elim (last-mem x xs) [
  | inl e ↦ inr (here (last x xs) x xs e)
  | inr h ↦ inr (there (last x xs) x xs h)
]
  where
    here : (p x : ℕ) (xs : List ℕ) → p ≡ x → mem p (x ∷ xs) ≡ true
    here p x xs e = ground arith

    there : (p x : ℕ) (xs : List ℕ) → mem p xs ≡ true → mem p (x ∷ xs) ≡ true
    there p x xs h = ground arith

pub last-prev :
    (next prev : ℕ → ℕ) (a z : ℕ) (xs : List ℕ) → Links next prev a xs z → prev z ≡ last a xs
unfolding Links last
last-prev next prev a z [] (e, f) = f
last-prev next prev a z (x ∷ xs) (e, f, l) = last-prev next prev x z xs l

pub Links-last :
    (next prev : ℕ → ℕ) (a z z' : ℕ) (xs : List ℕ)
    → mem a xs ≡ false
    → Distinct xs
    → mem z' xs ≡ false
    → Links next prev a xs z
    → Links (update next (last a xs) z') (update prev z' (last a xs)) a xs z'
unfolding Links last Distinct
Links-last next prev a z z' [] out d zout (e, f) = (update-same next a z', update-same prev z' a)
Links-last next prev a z z' (x ∷ xs) out (dx, d) zout (e, f, l) =
    let (ax, rest) = out_first a x xs out in
    let (zx, zrest) = out_first z' x xs zout in
    (
      update-other next (last x xs) a z' (not_last (last-mem x xs) ax rest) ∙ e,
      update-other prev z' x (last x xs) zx ∙ f,
      Links-last next prev x z z' xs dx d zrest l,
    )
  where
    not_last :
        (last x xs ≡ x) ⊎ (mem (last x xs) xs ≡ true) → a ≢ x → mem a xs ≡ false → last x xs ≢ a
    not_last (inl s) ax rest e = ax (sym e ∙ s)
    not_last (inr s) ax rest e = cc (ap (λ p. mem p xs) e, s, rest)
