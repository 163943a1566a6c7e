-- ===== src/User/Numbers.antt =====
-- `atoi` reads what `printf` prints.
use mathlib.Core.List.{reverse, reverse-cons}
use nunix.Prelude.{
  ℕ, zero, suc, ◌+◌, ◌-◌, ◌*◌, ◌/◌, ◌%◌, ◌<◌, ◌≡◌, refl, Bool, true, false, ◌&&◌, List, [], ◌∷◌,
  ◌++◌, ◌==◌, ltb, leb, if◌then◌else◌, Bool-cases, ==→eq, inl, inr, arith, ap, sym, ◌∙◌,
  append_assoc,
}
use nunix.User.{digit, digits, buf_size, is_negative, printint, atoi, atoi_from}

-- what `n` digits can hold
power_of_ten : ℕ → ℕ
power_of_ten zero = 1
power_of_ten (suc n) = 10 * power_of_ten n

abbrev pub is_digit : ℕ → Bool
is_digit c = leb b'0' c && leb c b'9'

-- the byte after a number
abbrev pub ends_number : List ℕ → Bool
ends_number [] = true
ends_number (c ∷ rest) = if is_digit c then false else true

abbrev printed : ℕ → ℕ → List ℕ
printed n x = reverse (digits n 10 x)

-- The last digit comes last.
printed-suc :
    (n x : ℕ)
    → printed (suc n) x ≡ (if x / 10 == 0 then [] else printed n (x / 10)) ++ (digit (x % 10) ∷ [])
unfolding digits
printed-suc n x = elim (Bool-cases (x / 10 == 0)) [
  | inl e ↦ rw e
  | inr e ↦ rw e (reverse-cons (digit (x % 10)) (digits n 10 (x / 10)))
]

read_digit :
    (x : ℕ) (rest : List ℕ)
    → x < 2147483648
    → atoi_from (x / 10) (digit (x % 10) ∷ rest) ≡ atoi_from x rest
unfolding atoi_from
read_digit x rest l =
    let small : ltb (x % 10) 10 ≡ true = ground arith in
    rw small (ground (arith, ap (λ k. atoi_from k rest) (digit_value x l)))
  where
    digit_value : (x : ℕ) → x < 2147483648 → (x / 10 * 10 + (48 + x % 10) - 48) % 4294967296 ≡ x
    digit_value x l = omega arith

-- No number but 0 fits into no digits.
some_left : (n x : ℕ) → x < power_of_ten n → 0 < x → 0 < n
unfolding power_of_ten
some_left zero x p h = absurd (omega arith)
some_left (suc n) x p h = omega arith

read_printed :
    (n x : ℕ) (rest : List ℕ)
    → x < 2147483648
    → x < power_of_ten n
    → 0 < n
    → atoi_from 0 (printed n x ++ rest) ≡ atoi_from x rest
unfolding power_of_ten
read_printed zero x rest l p h = absurd (omega arith)
read_printed (suc n) x rest l p h = elim (Bool-cases (x / 10 == 0)) [
  | inl e ↦
      let alone : printed (suc n) x ≡ digit (x % 10) ∷ [] = printed-suc n x ∙ rw e in
      ap (λ s. atoi_from 0 (s ++ rest)) alone
      ∙ ap (λ k. atoi_from k (digit (x % 10) ∷ rest)) (sym (==→eq (x / 10) 0 e))
      ∙ read_digit x rest l
  | inr e ↦
      let longer : printed (suc n) x ≡ printed n (x / 10) ++ (digit (x % 10) ∷ []) =
        printed-suc n x ∙ rw e in
      ap (λ s. atoi_from 0 (s ++ rest)) longer
      ∙ ap (atoi_from 0) (append_assoc (printed n (x / 10)) (digit (x % 10) ∷ []) rest)
      ∙ read_printed n (x / 10) (digit (x % 10) ∷ rest) (ground arith) (omega arith)
          (some_left n (x / 10) (omega arith) (ground arith))
      ∙ read_digit x rest l
]

stop_reading : (x : ℕ) (rest : List ℕ) → ends_number rest ≡ true → atoi_from x rest ≡ x
unfolding atoi_from
stop_reading x [] h = refl
stop_reading x (c ∷ rest) h = ground arith

-- `atoi` reads back what `printint` prints, in base ten, of an `int` that is not negative, whatever comes after it but a digit.
pub atoi-printint :
    (x : ℕ) (rest : List ℕ)
    → x < 2147483648
    → ends_number rest ≡ true
    → atoi (printint x 10 true ++ rest) ≡ x
unfolding atoi printint power_of_ten
atoi-printint x rest l h =
    let positive : is_negative x ≡ false = ground arith in
    rw positive (read_printed buf_size x rest l (omega arith) (omega arith) ∙ stop_reading x rest h)
