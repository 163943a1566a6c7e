-- ===== src/Grep/Search.antt =====
-- `match`: a pattern that begins with `^` is looked for at the start of the text, any other at every place.
use nunix.Prelude.{
  ℕ, ◌≡◌, ◌↔◌, refl, Bool, true, false, List, [], ◌∷◌, ◌++◌, ◌==◌, if◌then◌else◌, Bool-cases, inl,
  inr, ap,
}
use nunix.Grep.{caret, match, match_from, matchhere}
use nunix.Grep.Language.{Begins, items, anchored, matchhere-Begins}

abbrev pub from_start : List ℕ → Bool
from_start [] = false
from_start (c ∷ re) = c == caret

abbrev pub after_caret : List ℕ → List ℕ
after_caret [] = []
after_caret (c ∷ re) = re

-- Where the text has what the pattern describes.
pub data Occurs (re text : List ℕ) : Type 0 where
  at_start :
      from_start re ≡ true
      → Begins (anchored (after_caret re)) (items (after_caret re)) text
      → Occurs re text
  somewhere :
      (before after : List ℕ)
      → from_start re ≡ false
      → text ≡ before ++ after
      → Begins (anchored re) (items re) after
      → Occurs re text

module _ (re : List ℕ) where
  found_here : (text : List ℕ) → matchhere re text ≡ true → match_from re text ≡ true
  unfolding match_from
  found_here [] h = h
  found_here (t ∷ text) h = rw h

  found_later :
      (before after : List ℕ) → matchhere re after ≡ true → match_from re (before ++ after) ≡ true
  unfolding match_from
  found_later [] after h = found_here after h
  found_later (b ∷ before) after h = elim (Bool-cases (matchhere re (b ∷ before ++ after))) [
    | inl y ↦ rw y
    | inr y ↦ rw y (found_later before after h)
  ]

  place :
      (text : List ℕ)
      → match_from re text ≡ true
      → (before : List ℕ) × (after : List ℕ) × (text ≡ before ++ after)
        × (matchhere re after ≡ true)
  unfolding match_from
  place [] h = ([], [], refl, h)
  place (t ∷ text) h = elim (Bool-cases (matchhere re (t ∷ text))) [
    | inl y ↦ ([], t ∷ text, refl, y)
    | inr y ↦
        let (before, after, e, m) = place text (rw y at h) in
        (t ∷ before, after, ap (λ s. t ∷ s) e, m)
  ]

  -- What `match` computes.
  match_lem :
      (text : List ℕ)
      → match re text
        ≡ (if from_start re then matchhere (after_caret re) text else match_from re text)
  unfolding match
  match_lem text =
      elim re
        as (λ r.
          match r text
          ≡ (if from_start r then matchhere (after_caret r) text else match_from r text)) [
            | [] ↦ refl
            | c ∷ r ↦ refl
          ]

  -- `match` finds a pattern exactly in the texts where it occurs.
  pub match-Occurs : (text : List ℕ) → (match re text ≡ true) ↔ Occurs re text
  match-Occurs text = elim (Bool-cases (from_start re)) [
    | inl y ↦ (
      λ h. at_start y ((matchhere-Begins (after_caret re) text).0 (rw (match_lem text, y) at h)),
      λ o. rw (match_lem text, y) ((matchhere-Begins (after_caret re) text).1 (start o y)),
    )
    | inr y ↦ (
      λ h.
          let (before, after, e, m) = place text (rw (match_lem text, y) at h) in
          somewhere before after y e ((matchhere-Begins re after).0 m),
      λ o.
          let (before, after, e, b) = middle o y in
          rw (match_lem text, y)
            (rw e (found_later before after ((matchhere-Begins re after).1 b))),
    )
  ]
    where
      start :
          Occurs re text
          → from_start re ≡ true
          → Begins (anchored (after_caret re)) (items (after_caret re)) text
      start (at_start y b) h = b
      start (somewhere before after n e b) h = absurd (cc (n, h))

      middle :
          Occurs re text
          → from_start re ≡ false
          → (before : List ℕ) × (after : List ℕ) × (text ≡ before ++ after)
            × Begins (anchored re) (items re) after
      middle (at_start y b) h = absurd (cc (y, h))
      middle (somewhere before after n e b) h = (before, after, e, b)
