-- ===== src/Files/Counts.antt =====
-- The reference count of a file is the number of references to it.
use mathlib.Core.Path.{subst}
use nunix.Prelude.{
  ℕ, zero, suc, ◌+◌, ◌-◌, ◌<◌, ◌≡◌, refl, Bool, true, false, ◌==◌, ==→eq, ltb, if◌then◌else◌,
  update, Option, none, some, ok, panic, ok-inj, List, [], ◌∷◌, inl, inr, arith, Bool-cases,
  Option-cases, if-false, ap, sym, ◌∙◌,
}
use nunix.Files.{File, nfile, find_file, filealloc, filedup, fileclose, fd_none}

-- how often a file is in the list of references that processes hold
abbrev pub count : ℕ → List ℕ → ℕ
count f [] = 0
count f (g ∷ gs) = if g == f then suc (count f gs) else count f gs

abbrev pub drop_one : ℕ → List ℕ → List ℕ
drop_one f [] = []
drop_one f (g ∷ gs) = if g == f then gs else g ∷ drop_one f gs

abbrev pub IsCounted : (ℕ → File) → List ℕ → Type 0
IsCounted t held = (f : ℕ) → (t f).ref ≡ count f held

-- The table and the references that are held.
pub record System : Type 0 where
  pub table : ℕ → File
  pub held : List ℕ

-- A reference is made by opening or sharing, or closed; who holds one may set up the fields of the file but its count.
pub data Step (s : System) : System → Type 0 where
  opened :
      (f : ℕ) (t : ℕ → File)
      → filealloc s.table ≡ (some f, t)
      → Step s (record { table = t; held = f ∷ s.held })
  shared :
      (f : ℕ) (t : ℕ → File)
      → 0 < count f s.held
      → filedup f s.table ≡ ok t
      → Step s (record { table = t; held = f ∷ s.held })
  set_up :
      (f : ℕ) (p : File)
      → 0 < count f s.held
      → p.ref ≡ (s.table f).ref
      → Step s (record s { table = update s.table f p })
  closed :
      (f : ℕ) (t : ℕ → File) (gone : Option File)
      → 0 < count f s.held
      → fileclose f s.table ≡ ok (t, gone)
      → Step s (record { table = t; held = drop_one f s.held })

pub data Reach (s : System) : System → Type 0 where
  start : Reach s s
  step : {a b : System} → Reach s a → Step a b → Reach s b

find_file-free : (t : ℕ → File) (n i f : ℕ) → find_file t n i ≡ some f → (t f).ref ≡ 0
unfolding find_file
find_file-free t zero i f h = absurd (cc h)
find_file-free t (suc n) i f h = elim (Bool-cases ((t i).ref == 0)) [
  | inl e ↦ let same : i ≡ f = ground arith in ap (λ j. (t j).ref) (sym same) ∙ ==→eq (t i).ref 0 e
  | inr e ↦ find_file-free t n (i + 1) f (rw e at h)
]

count-drop_one :
    (f g : ℕ) (hs : List ℕ)
    → count f (drop_one g hs) ≡ (if g == f then count f hs - 1 else count f hs)
count-drop_one f g [] = ground arith
count-drop_one f g (h ∷ hs) = elim (Bool-cases (h == g)) [
  | inl e ↦ rw e (ground arith)
  | inr e ↦ rw e (ground (arith, count-drop_one f g hs))
]

-- A write of one count, where the references to no other file change.
written-IsCounted :
    (t : ℕ → File) (f : ℕ) (p : File) (held held' : List ℕ)
    → IsCounted t held
    → p.ref ≡ count f held'
    → ((g : ℕ) → (f == g) ≡ false → count g held' ≡ count g held)
    → IsCounted (update t f p) held'
written-IsCounted t f p held held' c here there g = elim (Bool-cases (f == g)) [
  | inl e ↦ rw e (here ∙ ap (λ j. count j held') (==→eq f g e))
  | inr e ↦ rw e (c g ∙ sym (there g e))
]

-- What `filealloc` finds.
filealloc-found :
    (t t' : ℕ → File) (f : ℕ)
    → filealloc t ≡ (some f, t')
    → ((t f).ref ≡ 0) × (update t f (record (t f) { ref = 1 }) ≡ t')
unfolding filealloc
filealloc-found t t' f h = elim (Option-cases (find_file t nfile 0)) [
  | inl e ↦ absurd (cc (ap (λ r. r.0) (rw (filealloc, e) at h)))
  | inr (i, e) ↦
      let h' : (some i, update t i (record (t i) { ref = 1 })) ≡ (some f, t') =
        rw (filealloc, e) at h in
      let same : i ≡ f = cc (ap (λ r. r.0) h') in
      (
        ap (λ j. (t j).ref) (sym same) ∙ find_file-free t nfile 0 i e,
        subst (λ j. update t j (record (t j) { ref = 1 }) ≡ t') same (ap (λ r. r.1) h'),
      )
]

filedup-ok :
    (f : ℕ) (t : ℕ → File)
    → 0 < (t f).ref
    → filedup f t ≡ ok (update t f (record (t f) { ref = (t f).ref + 1 }))
unfolding filedup
filedup-ok f t l = if-false (panic "filedup") (ground arith)

-- The entry that is left of a file when a reference is closed, of which it was the last or not.
abbrev pub remains : Bool → File → File
remains true p = record p { ref = 0; type = fd_none }
remains false p = record p { ref = p.ref - 1 }

-- What `fileclose` writes, and what it gives up.
fileclose-ok :
    (f : ℕ) (t : ℕ → File)
    → 0 < (t f).ref
    → (fileclose f t
        ≡ ok (
          update t f (remains ((t f).ref == 1) (t f)),
          if (t f).ref == 1 then some (record (t f) { ref = 0 }) else none,
        ))
      × ((remains ((t f).ref == 1) (t f)).ref ≡ (t f).ref - 1)
unfolding fileclose
fileclose-ok f t l =
    let held : ltb (t f).ref 1 ≡ false = ground arith in
    elim (Bool-cases (ltb 0 ((t f).ref - 1))) [
      | inl e ↦
          let more : ((t f).ref == 1) ≡ false = ground arith in
          (rw (fileclose, held, e, more) refl, rw more refl)
      | inr e ↦
          let last : ((t f).ref == 1) ≡ true = ground arith in
          let none_left : (t f).ref - 1 ≡ 0 = ground arith in
          (rw (fileclose, held, e, last, none_left) refl, rw (last, none_left) refl)
    ]

step-IsCounted : {a b : System} → Step a b → IsCounted a.table a.held → IsCounted b.table b.held
unfolding filedup fileclose
step-IsCounted {a} (opened f t h) c =
    let (z, e) = filealloc-found a.table t f h in
    subst (λ u. IsCounted u (f ∷ a.held)) e
      (written-IsCounted a.table f _ a.held (f ∷ a.held) c (ground (arith, c f)) (λ g o. rw o))
step-IsCounted {a} (shared f t h e) c =
    subst (λ u. IsCounted u (f ∷ a.held))
      (ok-inj (sym (filedup-ok f a.table (ground (arith, c f))) ∙ e))
      (written-IsCounted a.table f _ a.held (f ∷ a.held) c (ground (arith, c f)) (λ g o. rw o))
step-IsCounted {a} (set_up f p h e) c =
    written-IsCounted a.table f p a.held a.held c (e ∙ c f) (λ g o. refl)
step-IsCounted {a} (closed f t last_file h e) c =
    let (k, less) = fileclose-ok f a.table (ground (arith, c f)) in
    subst (λ u. IsCounted u (drop_one f a.held)) (ap (λ r. r.0) (ok-inj (sym k ∙ e)))
      (written-IsCounted a.table f (remains ((a.table f).ref == 1) (a.table f)) a.held
        (drop_one f a.held) c (ground (arith, less, c f, count-drop_one f f a.held))
        (λ j o. ground (arith, count-drop_one j f a.held)))

pub reach-IsCounted :
    {a b : System} → Reach a b → IsCounted a.table a.held → IsCounted b.table b.held
reach-IsCounted start c = c
reach-IsCounted (step r s) c = step-IsCounted s (reach-IsCounted r c)

-- a table in which no file is open
abbrev pub IsClosed : (ℕ → File) → Type 0
IsClosed t = (f : ℕ) → (t f).ref ≡ 0

-- In every state that opening, sharing and closing reach from a table without open files, `filealloc` finds a file to which nobody holds a
-- reference.
filealloc_unheld :
    (t : ℕ → File) (s : System) (f : ℕ) (u : ℕ → File)
    → IsClosed t
    → Reach (record { table = t; held = [] }) s
    → filealloc s.table ≡ (some f, u)
    → count f s.held ≡ 0
filealloc_unheld t s f u shut r h =
    sym (reach-IsCounted r shut f) ∙ (filealloc-found s.table u f h).0

-- In every state that opening, setting up, sharing and closing reach from a table without open files, `fileclose` of a reference that is held does not
-- panic. At the last reference it frees the entry, and gives up what the file was, with its type and its pipe or inode; at any other it counts
-- one reference less and gives nothing up. No other entry changes.
pub fileclose_last :
    (t : ℕ → File) (s : System) (f : ℕ)
    → IsClosed t
    → Reach (record { table = t; held = [] }) s
    → 0 < count f s.held
    → fileclose f s.table
      ≡ ok (
        update s.table f (remains (count f s.held == 1) (s.table f)),
        if count f s.held == 1 then some (record (s.table f) { ref = 0 }) else none,
      )
fileclose_last t s f shut r l =
    let c = reach-IsCounted r shut f in
    let (e, less) = fileclose-ok f s.table (ground (arith, c)) in
    let same : ((s.table f).ref == 1) ≡ (count f s.held == 1) = ap (λ n. n == 1) c in
    e
    ∙ ap
        (λ b. ok (
          update s.table f (remains b (s.table f)),
          if b then some (record (s.table f) { ref = 0 }) else none,
        ))
        same
