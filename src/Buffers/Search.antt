-- ===== src/Buffers/Search.antt =====
-- The loops of `bget` are searches of the list, from the front and from the back.
use nunix.Prelude.{
  ℕ, zero, suc, ◌≤◌, ◌≡◌, ◌≢◌, ◌⊎◌, refl, Bool, true, false, ◌||◌, ◌==◌, ==→eq, if◌then◌else◌,
  Option, none, some, List, [], ◌∷◌, ◌++◌, length, inl, inr, arith, Bool-cases, ap, sym, ◌∙◌,
}
use nunix.Pages.FreeList.{mem}
use nunix.Buffers.{Buf, Bcache, head, nbuf, find_along}
use nunix.Buffers.Ring.{Links, Links-join, out_first}
use nunix.Buffers.Turns.{IsRing, mem-append}

-- the first buffer of a list that passes a test
abbrev pub first_in : (Buf → Bool) → (ℕ → Buf) → List ℕ → Option ℕ
first_in test buf [] = none
first_in test buf (x ∷ xs) = if test (buf x) then some x else first_in test buf xs

abbrev pub backwards : List ℕ → List ℕ
backwards [] = []
backwards (x ∷ xs) = backwards xs ++ x ∷ []

Links-backwards :
    (next prev : ℕ → ℕ) (a z : ℕ) (xs : List ℕ)
    → Links next prev a xs z
    → Links prev next z (backwards xs) a
unfolding Links
Links-backwards next prev a z [] (e, f) = (f, e)
Links-backwards next prev a z (x ∷ xs) (e, f, l) =
    Links-join prev next z x a (backwards xs) [] (Links-backwards next prev x z xs l) (f, e)

length-backwards : (xs : List ℕ) → length (backwards xs) ≡ length xs
length-backwards [] = refl
length-backwards (x ∷ xs) = with_last (backwards xs) x ∙ ap suc (length-backwards xs)
  where
    with_last : (ys : List ℕ) (x : ℕ) → length (ys ++ x ∷ []) ≡ suc (length ys)
    with_last [] x = refl
    with_last (y ∷ ys) x = ap suc (with_last ys x)

pub mem-backwards : (p : ℕ) (xs : List ℕ) → mem p (backwards xs) ≡ mem p xs
mem-backwards p [] = refl
mem-backwards p (x ∷ xs) =
    mem-append p (backwards xs) (x ∷ [])
    ∙ ap (λ t. t || ((p == x) || false)) (mem-backwards p xs)
    ∙ either (mem p xs) (p == x)
  where
    either : (s t : Bool) → (s || (t || false)) ≡ (t || s)
    either true true = refl
    either true false = refl
    either false true = refl
    either false false = refl

find_along-first_in :
    (test : Buf → Bool) (link back : ℕ → ℕ) (buf : ℕ → Buf) (n a : ℕ) (xs : List ℕ)
    → Links link back a xs head
    → mem head xs ≡ false
    → length xs ≤ n
    → find_along test link buf n (link a) ≡ first_in test buf xs
unfolding find_along Links
find_along-first_in test link back buf zero a [] (e, f) out l = refl
find_along-first_in test link back buf (suc n) a [] (e, f) out l = rw (find_along, e) refl
find_along-first_in test link back buf zero a (x ∷ xs) links out l = absurd (omega arith)
find_along-first_in test link back buf (suc n) a (x ∷ xs) (e, f, links) out l =
    let (apart, rest) = out_first head x xs out in
    let go = find_along-first_in test link back buf n x xs links rest (omega arith) in
    let here : (x == head) ≡ false = not_head apart in rw (find_along, e, here, go) refl
  where
    not_head : head ≢ x → (x == head) ≡ false
    not_head ne = elim (Bool-cases (x == head)) [
      | inl h ↦ absurd (ne (sym (==→eq x head h)))
      | inr h ↦ h
    ]

-- The search for a block begins at the buffer used last, the search for a buffer to recycle at the one used longest ago.
pub forward :
    (test : Buf → Bool) (c : Bcache) (order : List ℕ)
    → IsRing c order
    → find_along test c.next c.buf nbuf (c.next head) ≡ first_in test c.buf order
forward test c order r =
    find_along-first_in test c.next c.prev c.buf nbuf head order r.links r.no_head (at_most r.all)
  where
    at_most : length order ≡ nbuf → length order ≤ nbuf
    at_most e = omega arith

pub backward :
    (test : Buf → Bool) (c : Bcache) (order : List ℕ)
    → IsRing c order
    → find_along test c.prev c.buf nbuf (c.prev head) ≡ first_in test c.buf (backwards order)
backward test c order r =
    find_along-first_in test c.prev c.next c.buf nbuf head (backwards order)
      (Links-backwards c.next c.prev head head order r.links) (mem-backwards head order ∙ r.no_head)
      (at_most (length-backwards order ∙ r.all))
  where
    at_most : length (backwards order) ≡ nbuf → length (backwards order) ≤ nbuf
    at_most e = omega arith

pub first_in-mem :
    (test : Buf → Bool) (buf : ℕ → Buf) (xs : List ℕ)
    → ((i : ℕ) × (first_in test buf xs ≡ some i) × (mem i xs ≡ true) × (test (buf i) ≡ true))
      ⊎ ((first_in test buf xs ≡ none) × ((i : ℕ) → mem i xs ≡ true → test (buf i) ≡ false))
first_in-mem test buf [] = inr (refl, λ i h. absurd (cc h))
first_in-mem test buf (x ∷ xs) = elim (Bool-cases (test (buf x))) [
  | inl e ↦ inl (x, rw e refl, first x xs, e)
  | inr e ↦ elim (first_in-mem test buf xs) [
    | inl (i, h, m, t) ↦ inl (i, rw e h, later i x xs m, t)
    | inr (h, none_of) ↦ inr (
      rw e h,
      λ i m. elim (Bool-cases (i == x)) [
        | inl s ↦ ap (λ j. test (buf j)) (==→eq i x s) ∙ e
        | inr s ↦ none_of i (ground arith)
      ],
    )
  ]
]
  where
    first : (x : ℕ) (xs : List ℕ) → mem x (x ∷ xs) ≡ true
    first x xs = ground arith

    later : (p x : ℕ) (xs : List ℕ) → mem p xs ≡ true → mem p (x ∷ xs) ≡ true
    later p x xs h = ground arith
