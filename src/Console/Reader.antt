-- ===== src/Console/Reader.antt =====
-- `consoleread` against the bytes that are ready.
use mathlib.Core.Path.{subst}
use nunix.Prelude.{
  ℕ, zero, suc, ◌%◌, ◌≡◌, refl, Bool, true, false, ◌==◌, ltb, if◌then◌else◌, List, [], ◌∷◌, inl,
  inr, arith, Bool-cases, ap,
}
use nunix.Console.{
  Input, input_buf, plus_uint, minus_uint, newline, ctrl_d, Outcome, returned, failed, asleep,
  read_line,
}
use nunix.Console.Lines.{Holds, Shows}

-- What a reader with `n` bytes left of `target` takes from the ready bytes: up to a newline, or to an end of file, which stays for the
-- next reader if this one has bytes.
abbrev pub take_line : Bool → ℕ → ℕ → List ℕ → List ℕ × List ℕ × Outcome
take_line killed target zero q = ([], q, returned)
take_line killed target (suc n) [] = ([], [], if killed then failed else asleep (suc n))
take_line killed target (suc n) (c ∷ q) =
    let (bs, rest, o) = take_line killed target n q in
    if c == ctrl_d
    then ([], (if ltb (suc n) target then c ∷ q else q), returned)
    else if c == newline
    then (c ∷ [], q, returned)
    else (c ∷ bs, rest, o)

-- The first ready byte is passed.
next-Holds :
    (s : Input) (c : ℕ) (q l : List ℕ)
    → Holds s (c ∷ q) l
    → (s.buf (s.r % input_buf) ≡ c) × Holds (record s { r = plus_uint s.r 1 }) q l
next-Holds s c q l h =
    let at_w = h.committed in
    let word = h.read_word in
    let room = h.fits in
    (
      ap (first c) h.ready,
      record {
        read_word = omega arith;
        fits = omega arith;
        committed = omega arith;
        edited = h.edited;
        ready = ap rest h.ready;
        line = h.line;
      },
    )
  where
    first : ℕ → List ℕ → ℕ
    first d [] = d
    first d (x ∷ xs) = x

    rest : List ℕ → List ℕ
    rest [] = []
    rest (x ∷ xs) = xs

-- The test for a buffer without ready bytes.
drained : (s : Input) (l : List ℕ) → Holds s [] l → (s.r == s.w) ≡ true
drained s l h = let a = h.committed in let b = h.read_word in ground arith

undrained : (s : Input) (c : ℕ) (q l : List ℕ) → Holds s (c ∷ q) l → (s.r == s.w) ≡ false
undrained s c q l h = let a = h.committed in let b = h.read_word in let d = h.fits in ground arith

-- Where the buffer shows some ready bytes and a line, a turn of `consoleread` moves exactly the bytes that a reader of lines takes, ends as it
-- does, and leaves a buffer that shows what the reader leaves, with the same line.
pub read_line-take_line :
    (killed : Bool) (target n : ℕ) (s : Input) (q l : List ℕ)
    → Shows s q l
    → let (bs, s', o) = read_line killed target n s in
      let (bs', q', o') = take_line killed target n q in (bs ≡ bs') × Shows s' q' l × (o ≡ o')
unfolding read_line
read_line-take_line killed target zero s q l h = (refl, h, refl)
read_line-take_line killed target (suc n) s [] l h =
    rw (read_line, drained s l h.holds) (refl, h, refl)
read_line-take_line killed target (suc n) s (c ∷ q) l h =
    let word = h.holds.read_word in
    let (byte, next) = next-Holds s c q l h.holds in
    let shows : Shows (record s { r = plus_uint s.r 1 }) q l = record {
      holds = next;
      unbroken = h.unbroken;
    } in
    let apart = undrained s c q l h.holds in
    elim (Bool-cases (c == ctrl_d)) [
      | inl e ↦ elim (Bool-cases (ltb (suc n) target)) [
        | inl e1 ↦
            let back : s.r ≡ minus_uint (plus_uint s.r 1) 1 = omega arith in
            rw (read_line, apart, byte, e, e1)
              (refl, subst (λ r. Shows (record s { r = r }) (c ∷ q) l) back h, refl)
        | inr e1 ↦ rw (read_line, apart, byte, e, e1) (refl, shows, refl)
      ]
      | inr e ↦ elim (Bool-cases (c == newline)) [
        | inl e1 ↦ rw (read_line, apart, byte, e, e1) (refl, shows, refl)
        | inr e1 ↦
            let (a, b, d) =
              read_line-take_line killed target n (record s { r = plus_uint s.r 1 }) q l shows in
            rw (read_line, apart, byte, e, e1) (ap (λ t. c ∷ t) a, b, d)
      ]
    ]
