-- ===== src/Grep/Language.antt =====
-- What a pattern means, with no search in it: items, each of which takes one byte or any number of them.
use nunix.Prelude.{
  ℕ, ◌≡◌, ◌↔◌, refl, Bool, true, false, ◌||◌, List, [], ◌∷◌, ◌==◌, if◌then◌else◌, Bool-cases, inl,
  inr, arith,
}
use nunix.Grep.{star, dot, dollar, matchstar, match_one, at_end, matchhere}

pub data Item : Type 0 where
  single starred : ℕ → Item

-- a byte, or `.` for any byte
abbrev pub accepts : ℕ → ℕ → Bool
accepts c t = c == dot || c == t

-- The items of a pattern that begins the text, and whether it ends with the text.
pub data Begins (to_end : Bool) : List Item → List ℕ → Type 0 where
  open_end : {text : List ℕ} → to_end ≡ false → Begins to_end [] text
  closed_end : Begins to_end [] []
  one :
      {c t : ℕ} {p : List Item} {text : List ℕ}
      → accepts c t ≡ true
      → Begins to_end p text
      → Begins to_end (single c ∷ p) (t ∷ text)
  leave :
      {c : ℕ} {p : List Item} {text : List ℕ}
      → Begins to_end p text
      → Begins to_end (starred c ∷ p) text
  take :
      {c t : ℕ} {p : List Item} {text : List ℕ}
      → accepts c t ≡ true
      → Begins to_end (starred c ∷ p) text
      → Begins to_end (starred c ∷ p) (t ∷ text)

-- the items of a pattern
pub items : List ℕ → List Item
items [] = []
items (c ∷ []) = if c == dollar then [] else single c ∷ []
items (c ∷ d ∷ re) =
    let rest = items (d ∷ re) in
    let after = items re in if d == star then starred c ∷ after else single c ∷ rest

-- whether it ends with `$`
pub anchored : List ℕ → Bool
anchored [] = false
anchored (c ∷ []) = c == dollar
anchored (c ∷ d ∷ re) =
    let rest = anchored (d ∷ re) in let after = anchored re in if d == star then after else rest

module _ (e : Bool) (p : List Item) (here : List ℕ → Bool) where
  matchstar_sound :
      (c : ℕ) (text : List ℕ)
      → ((s : List ℕ) → here s ≡ true → Begins e p s)
      → matchstar c here text ≡ true
      → Begins e (starred c ∷ p) text
  unfolding matchstar
  matchstar_sound c [] sound h = leave (sound [] h)
  matchstar_sound c (t ∷ text) sound h = elim (Bool-cases (here (t ∷ text))) [
    | inl y ↦ leave (sound (t ∷ text) y)
    | inr y ↦ elim (Bool-cases (t == c || c == dot)) [
      | inl a ↦ take (ground arith) (matchstar_sound c text sound (rw (y, a) at h))
      | inr a ↦ absurd (cc (rw (y, a) at h))
    ]
  ]

  matchstar-here : (c : ℕ) (text : List ℕ) → here text ≡ true → matchstar c here text ≡ true
  unfolding matchstar
  matchstar-here c [] h = h
  matchstar-here c (t ∷ text) h = rw h

  matchstar_complete :
      (c : ℕ) (text : List ℕ)
      → ((s : List ℕ) → Begins e p s → here s ≡ true)
      → Begins e (starred c ∷ p) text
      → matchstar c here text ≡ true
  unfolding matchstar
  matchstar_complete c text complete (leave d) = matchstar-here c text (complete text d)
  matchstar_complete c (t ∷ text) complete (take a d) =
      ground (arith, matchstar_complete c text complete d)

-- a pattern's beginning with one byte
match_one_sound :
    {e : Bool} {p : List Item} {next : List ℕ → Bool} (c : ℕ) (text : List ℕ)
    → ((s : List ℕ) → next s ≡ true → Begins e p s)
    → match_one c next text ≡ true
    → Begins e (single c ∷ p) text
match_one_sound c [] sound h = absurd (cc h)
match_one_sound c (t ∷ text) sound h = elim (Bool-cases (c == dot || c == t)) [
  | inl a ↦ one a (sound text (rw a at h))
  | inr a ↦ absurd (cc (rw a at h))
]

match_one_complete :
    {e : Bool} {p : List Item} {next : List ℕ → Bool} (c : ℕ) (text : List ℕ)
    → ((s : List ℕ) → Begins e p s → next s ≡ true)
    → Begins e (single c ∷ p) text
    → match_one c next text ≡ true
match_one_complete c [] complete b = elim b [ ]
match_one_complete c (t ∷ text) complete (one a d) = rw a (complete text d)

at_end_sound : (text : List ℕ) → at_end text ≡ true → Begins true [] text
at_end_sound [] h = closed_end
at_end_sound (t ∷ text) h = absurd (cc h)

at_end_complete : (text : List ℕ) → Begins true [] text → at_end text ≡ true
at_end_complete [] d = refl
at_end_complete (t ∷ text) (open_end h) = absurd (cc h)

here_sound : (re text : List ℕ) → matchhere re text ≡ true → Begins (anchored re) (items re) text
unfolding matchhere items anchored
here_sound [] text h = open_end refl
here_sound (c ∷ []) text h = elim (Bool-cases (c == dollar)) [
  | inl y ↦ rw y (at_end_sound text (rw y at h))
  | inr y ↦ rw y (match_one_sound c text (λ s k. open_end refl) (rw y at h))
]
here_sound (c ∷ d ∷ re) text h = elim (Bool-cases (d == star)) [
  | inl y ↦
      rw y
        (matchstar_sound (anchored re) (items re) (matchhere re) c text (here_sound re) (rw y at h))
  | inr y ↦ rw y (match_one_sound c text (here_sound (d ∷ re)) (rw y at h))
]

here_complete : (re text : List ℕ) → Begins (anchored re) (items re) text → matchhere re text ≡ true
unfolding matchhere items anchored
here_complete [] text d = refl
here_complete (c ∷ []) text d = elim (Bool-cases (c == dollar)) [
  | inl y ↦ rw y (at_end_complete text (rw y at d))
  | inr y ↦ rw y (match_one_complete c text (λ s k. refl) (rw y at d))
]
here_complete (c ∷ d ∷ re) text b = elim (Bool-cases (d == star)) [
  | inl y ↦ rw y (
      matchstar_complete (anchored re) (items re) (matchhere re) c text (here_complete re)
        (rw y at b))
  | inr y ↦ rw y (match_one_complete c text (here_complete (d ∷ re)) (rw y at b))
]

-- `matchhere` finds exactly the texts that the items of the pattern begin, up to the end of the text if the pattern ends with `$`.
pub matchhere-Begins :
    (re text : List ℕ) → (matchhere re text ≡ true) ↔ Begins (anchored re) (items re) text
matchhere-Begins re text = (here_sound re text, here_complete re text)
