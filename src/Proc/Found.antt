-- ===== src/Proc/Found.antt =====
-- What the two scans of the table find: the first slot with a property, and a dead child.
use nunix.Prelude.{
  ℕ, zero, suc, ◌+◌, ◌<◌, ◌≤◌, ◌≡◌, refl, Bool, true, false, ◌&&◌, ◌||◌, none, some, inl, inr,
  arith, ◌⊎◌, ◌==◌, ==→eq, Bool-cases, ap, sym, ◌∙◌,
}
use nunix.Proc.Table.{Proc, Procs, is_zombie, is_parent, find_proc}
use nunix.Proc.{scan}

-- What `find_proc` finds passes the test.
pub find_proc_lem :
    (test : Proc → Bool) (t : Procs) (n i j : ℕ)
    → find_proc test t n i ≡ some j
    → (j < i + n) × (test (t j) ≡ true)
unfolding find_proc
find_proc_lem test t zero i j h = absurd (cc h)
find_proc_lem test t (suc n) i j h = elim (Bool-cases (test (t i))) [
  | inl y ↦ let e : i ≡ j = ground arith in (omega arith, ap (λ k. test (t k)) (sym e) ∙ y)
  | inr y ↦ let (l, p) = find_proc_lem test t n (i + 1) j (rw y at h) in (omega arith, p)
]

-- The slot that `scan` names holds a dead child of `me`.
pub scan-found :
    (t : Procs) (me n i : ℕ) (havekids : Bool) (j : ℕ)
    → (scan t me n i havekids).1 ≡ some j
    → (j < i + n) × (is_parent (t j).parent me ≡ true) × (is_zombie (t j).state ≡ true)
unfolding scan
scan-found t me zero i havekids j h = absurd (cc h)
scan-found t me (suc n) i havekids j h =
    elim (Bool-cases (is_parent (t i).parent me && is_zombie (t i).state)) [
      | inl y ↦
          let e : i ≡ j = ground arith in
          (
            omega arith,
            ap (λ k. is_parent (t k).parent me) (sym e) ∙ ground arith,
            ap (λ k. is_zombie (t k).state) (sym e) ∙ ground arith,
          )
      | inr y ↦
          let (l, p, z) =
            scan-found t me n (i + 1) (havekids || is_parent (t i).parent me) j (rw y at h) in
          (omega arith, p, z)
    ]

-- A child that was seen is not forgotten.
scan-keeps : (t : Procs) (me n i : ℕ) → (scan t me n i true).0 ≡ true
unfolding scan
scan-keeps t me zero i = refl
scan-keeps t me (suc n) i = elim (Bool-cases (is_parent (t i).parent me && is_zombie (t i).state)) [
  | inl y ↦ rw y
  | inr y ↦ rw y (scan-keeps t me n (i + 1))
]

seen_child :
    (t : Procs) (me n i : ℕ) (havekids : Bool) → (scan t me n (i + 1) (havekids || true)).0 ≡ true
seen_child t me n i havekids =
    ap (λ h. (scan t me n (i + 1) h).0) (ground arith) ∙ scan-keeps t me n (i + 1)

-- When `scan` names no slot there is no dead child among the slots, and `havekids` says whether there is a child.
pub scan-none :
    (t : Procs) (me n i : ℕ) (havekids : Bool)
    → (scan t me n i havekids).1 ≡ none
    → (j : ℕ) → i ≤ j
    → j < i + n
    → is_parent (t j).parent me ≡ true
    → (is_zombie (t j).state ≡ false) × ((scan t me n i havekids).0 ≡ true)
unfolding scan
scan-none t me zero i havekids h j a b c = absurd (omega arith)
scan-none t me (suc n) i havekids h j a b c =
    elim (Bool-cases (is_parent (t i).parent me && is_zombie (t i).state)) [
      | inl y ↦ absurd (ground arith)
      | inr y ↦ elim (Bool-cases (i == j)) [
        | inl e ↦
            let same = ==→eq i j e in
            let child : is_parent (t i).parent me ≡ true =
              ap (λ k. is_parent (t k).parent me) same ∙ c in
            (
              ap (λ k. is_zombie (t k).state) (sym same) ∙ ground arith,
              rw y (rw child (seen_child t me n i havekids)),
            )
        | inr e ↦ rw y (
            scan-none t me n (i + 1) (havekids || is_parent (t i).parent me) (rw y at h) j
              (ground arith) (omega arith) c)
      ]
    ]

-- When `find_proc` finds nothing, no slot passes the test.
pub find_proc-none :
    (test : Proc → Bool) (t : Procs) (n i : ℕ)
    → find_proc test t n i ≡ none
    → (j : ℕ) → i ≤ j
    → j < i + n
    → test (t j) ≡ false
unfolding find_proc
find_proc-none test t zero i h j a b = absurd (omega arith)
find_proc-none test t (suc n) i h j a b = elim (Bool-cases (test (t i))) [
  | inl y ↦ absurd (cc (rw y at h))
  | inr y ↦ elim (Bool-cases (i == j)) [
    | inl e ↦ ap (λ k. test (t k)) (sym (==→eq i j e)) ∙ y
    | inr e ↦ find_proc-none test t n (i + 1) (rw y at h) j (ground arith) (omega arith)
  ]
]

-- When `scan` names no slot and says that there is a child, there is one, or one was seen before.
pub scan-child :
    (t : Procs) (me n i : ℕ) (havekids : Bool)
    → (scan t me n i havekids).1 ≡ none
    → (scan t me n i havekids).0 ≡ true
    → (havekids ≡ true) ⊎ ((j : ℕ) × (j < i + n) × (is_parent (t j).parent me ≡ true))
unfolding scan
scan-child t me zero i havekids h y = inl y
scan-child t me (suc n) i havekids h y =
    elim (Bool-cases (is_parent (t i).parent me && is_zombie (t i).state)) [
      | inl dead ↦ absurd (ground arith)
      | inr living ↦ elim (Bool-cases (is_parent (t i).parent me)) [
        | inl child ↦ inr (i, omega arith, child)
        | inr other ↦
            elim (scan-child t me n (i + 1) (havekids || is_parent (t i).parent me) (rw living at h)
              (rw living at y)) [
                | inl seen ↦ inl (ground arith)
                | inr (j, l, c) ↦ inr (j, omega arith, c)
              ]
      ]
    ]
