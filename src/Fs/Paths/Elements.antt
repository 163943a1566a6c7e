-- ===== src/Fs/Paths/Elements.antt =====
-- The elements of a path, and `namex` as a walk over them.
use nunix.Prelude.{
  ℕ, zero, suc, ◌≤◌, ◌<◌, ◌≡◌, ◌⊎◌, >>=-congr, refl, Bool, true, false, ◌==◌, if◌then◌else◌, Result,
  ok, ◌>>=◌, Option, some, List, [], ◌∷◌, length, inl, inr, arith, Bool-cases, ap, sym, ◌∙◌,
}
use nunix.Fs.{Fs}
use nunix.Fs.Inodes.{iget, idup}
use nunix.Fs.Content.{Devices}
use nunix.Fs.Paths.{
  slash, skip_slashes, pass_element, put_name, skipelem, is_end, Turn, done, next, turn, at_last,
  go_on, starts_at_root, namex, namex_from,
}

abbrev pub cons_head : ℕ → List (List ℕ) → List (List ℕ)
cons_head c [] = (c ∷ []) ∷ []
cons_head c (e ∷ es) = (c ∷ e) ∷ es

-- The path cut at every slash.
abbrev pub split : List ℕ → List (List ℕ)
split [] = [] ∷ []
split (c ∷ cs) = if c == slash then [] ∷ split cs else cons_head c (split cs)

abbrev pub nonempty : List (List ℕ) → List (List ℕ)
nonempty [] = []
nonempty ([] ∷ es) = nonempty es
nonempty ((c ∷ cs) ∷ es) = (c ∷ cs) ∷ nonempty es

-- What stands between the slashes of a path.
abbrev pub elements : List ℕ → List (List ℕ)
elements path = nonempty (split path)

elements-skip_slashes : (p : List ℕ) → elements (skip_slashes p) ≡ elements p
unfolding skip_slashes
elements-skip_slashes [] = refl
elements-skip_slashes (c ∷ cs) = elim (Bool-cases (c == slash)) [
  | inl e ↦ rw e (elements-skip_slashes cs)
  | inr e ↦ rw (e, e) refl
]

skip_slashes-first :
    (p : List ℕ) (c : ℕ) (cs : List ℕ) → skip_slashes p ≡ c ∷ cs → (c == slash) ≡ false
unfolding skip_slashes
skip_slashes-first [] c cs h = absurd (cc h)
skip_slashes-first (a ∷ rest) c cs h = elim (Bool-cases (a == slash)) [
  | inl e ↦ skip_slashes-first rest c cs (rw e at h)
  | inr e ↦ cc (rw e at h, e)
]

abbrev pub after : List ℕ → List (List ℕ)
after [] = []
after (c ∷ cs) = split cs

split-pass_element : (p : List ℕ) → split p ≡ (pass_element p).0 ∷ after (pass_element p).1
unfolding pass_element
split-pass_element [] = refl
split-pass_element (c ∷ cs) = elim (Bool-cases (c == slash)) [
  | inl e ↦ rw e refl
  | inr e ↦ rw e (ap (cons_head c) (split-pass_element cs))
]

elements-rest : (p : List ℕ) → elements (pass_element p).1 ≡ nonempty (after (pass_element p).1)
unfolding pass_element
elements-rest [] = refl
elements-rest (c ∷ cs) = elim (Bool-cases (c == slash)) [
  | inl e ↦ rw (e, e) refl
  | inr e ↦ rw e (elements-rest cs)
]

-- A path that does not begin with a slash is its first element and a rest.
elements-pass_element :
    (c : ℕ) (cs : List ℕ)
    → (c == slash) ≡ false
    → elements (c ∷ cs) ≡ (pass_element (c ∷ cs)).0 ∷ elements (pass_element (c ∷ cs)).1
unfolding pass_element
elements-pass_element c cs e =
    ap nonempty (split-pass_element (c ∷ cs))
    ∙ rw e (ap (λ t. (c ∷ (pass_element cs).0) ∷ t) (sym (elements-rest cs)))

length-skip_slashes : (p : List ℕ) → length (skip_slashes p) ≤ length p
unfolding skip_slashes
length-skip_slashes [] = omega arith
length-skip_slashes (c ∷ cs) = elim (Bool-cases (c == slash)) [
  | inl e ↦ rw e (omega (arith, length-skip_slashes cs))
  | inr e ↦ rw e (omega arith)
]

length-pass_element : (p : List ℕ) → length (pass_element p).1 ≤ length p
unfolding pass_element
length-pass_element [] = omega arith
length-pass_element (c ∷ cs) = elim (Bool-cases (c == slash)) [
  | inl e ↦ rw e (omega arith)
  | inr e ↦ rw e (omega (arith, length-pass_element cs))
]

length-rest :
    (c : ℕ) (cs : List ℕ) → (c == slash) ≡ false → length (pass_element (c ∷ cs)).1 ≤ length cs
unfolding pass_element
length-rest c cs e = rw e (length-pass_element cs)

abbrev pub no_more : List (List ℕ) → Bool
no_more [] = true
no_more (e ∷ es) = false

-- A path without leading slashes is at its end exactly when it has no elements.
is_end-elements :
    (q : List ℕ)
    → ((c : ℕ) (cs : List ℕ) → q ≡ c ∷ cs → (c == slash) ≡ false)
    → is_end q ≡ no_more (elements q)
is_end-elements [] h = refl
is_end-elements (c ∷ cs) h = sym (ap no_more (elements-pass_element c cs (h c cs refl)))

List-cases : (q : List ℕ) → (q ≡ []) ⊎ ((c : ℕ) × (cs : List ℕ) × (q ≡ c ∷ cs))
List-cases [] = inl refl
List-cases (c ∷ cs) = inr (c, cs, refl)

skipelem-found :
    (path name : List ℕ) (c : ℕ) (cs : List ℕ)
    → skip_slashes path ≡ c ∷ cs
    → skipelem path name
      ≡ some (skip_slashes (pass_element (c ∷ cs)).1, put_name (pass_element (c ∷ cs)).0 name)
unfolding skipelem
skipelem-found path name c cs e = rw (skipelem, e) refl

-- The path that `skipelem` leaves is shorter.
length-left :
    (path : List ℕ) (c : ℕ) (cs : List ℕ)
    → skip_slashes path ≡ c ∷ cs
    → length (skip_slashes (pass_element (c ∷ cs)).1) < length path
length-left path c cs e =
    let whole : length (c ∷ cs) ≤ length path = rw e at (length-skip_slashes path) in
    omega (
      arith,
      whole,
      length-skip_slashes (pass_element (c ∷ cs)).1,
      length-rest c cs (skip_slashes-first path c cs e),
    )

same_go_on :
    {f g : ℕ → Fs → Result (Option ℕ × List ℕ × Fs)} (name : List ℕ)
    → ((ip : ℕ) (s : Fs) → f ip s ≡ g ip s)
    → (t : Turn) → go_on name f t ≡ go_on name g t
same_go_on name h (done r s) = refl
same_go_on name h (next ip s) = h ip s

module _ (devsw : Devices) (others : ℕ → Fs → Fs) (parent : Bool) where
  -- `namex` on a list of elements.
  pub walk : List (List ℕ) → List ℕ → ℕ → Fs → Result (Option ℕ × List ℕ × Fs)
  unfolding turn at_last
  walk [] name ip s = do (r, s1) ← at_last devsw others parent ip s; ok (r, name, s1)
  walk (e ∷ es) name ip s = do
    t ← turn devsw others parent (no_more es) (put_name e name) ip s
    go_on (put_name e name) (walk es (put_name e name)) t

  -- With more fuel than the path has bytes the loop of `namex` is the walk over the elements of the path.
  pub namex_from-walk :
      (fuel : ℕ) (path name : List ℕ) (ip : ℕ) (s : Fs)
      → length path < fuel
      → namex_from devsw others parent fuel path name ip s ≡ walk (elements path) name ip s
  unfolding namex_from skipelem walk
  namex_from-walk zero path name ip s l = absurd (omega arith)
  namex_from-walk (suc fuel) path name ip s l = elim (List-cases (skip_slashes path)) [
    | inl e ↦ rw (namex_from, skipelem, e, sym (elements-skip_slashes path), e) refl
    | inr (c, cs, e) ↦
        let first = skip_slashes-first path c cs e in
        let rest = (pass_element (c ∷ cs)).1 in
        let whole =
          sym (elements-skip_slashes path) ∙ ap elements e ∙ elements-pass_element c cs first in
        let last =
          is_end-elements (skip_slashes rest) (skip_slashes-first rest)
          ∙ ap no_more (elements-skip_slashes rest) in
        rw (namex_from, skipelem-found path name c cs e, whole)
          (>>=-congr
            (ap (λ b. turn devsw others parent b (put_name (pass_element (c ∷ cs)).0 name) ip s)
              last)
            (same_go_on (put_name (pass_element (c ∷ cs)).0 name) λ ip' s1.
              namex_from-walk fuel (skip_slashes rest) (put_name (pass_element (c ∷ cs)).0 name) ip'
                s1 (omega (arith, length-left path c cs e))
              ∙ ap (λ es. walk es (put_name (pass_element (c ∷ cs)).0 name) ip' s1)
                  (elements-skip_slashes rest)))
  ]

-- For every path, `namex` gets the inode that it starts at and then takes one turn for each element that stands between the slashes of the
-- path: its loop ends, and slashes that are repeated or come last change nothing.
pub namex-walk :
    (devsw : Devices) (others : ℕ → Fs → Fs) (cwd : ℕ) (path name : List ℕ) (parent : Bool) (s : Fs)
    → namex devsw others cwd path parent name s ≡ (
        (if starts_at_root path then iget 1 1 s else ok (idup cwd s)) >>= λ (ip, s1).
        walk devsw others parent (elements path) name ip s1)
unfolding namex
namex-walk devsw others cwd path name parent s = >>=-congr refl λ (ip, s1).
    namex_from-walk devsw others parent (suc (length path)) path name ip s1 (omega arith)
