-- ===== src/User.antt =====
-- The library of the user programs: printf.c and ulib.c, and the counting of wc.c. A string is the list of its bytes up to
-- the NUL; what a function writes is the list of the bytes.
pub mod Numbers
mod Tests
use nunix.Prelude.{
  ℕ, zero, suc, ◌+◌, ◌-◌, ◌*◌, ◌/◌, ◌%◌, ◌^◌, Bool, true, false, ◌&&◌, ◌||◌, not, List, [], ◌∷◌,
  ◌++◌, ◌==◌, leb, ltb, if◌then◌else◌, Option, none, some, ℤ, pos, ◌-ℤ◌, get_or,
}
use mathlib.Core.List.{reverse}

-- "0123456789ABCDEF"
abbrev pub digit : ℕ → ℕ
digit d = if ltb d 10 then b'0' + d else b'A' + (d - 10)

-- The loop of `printint` that fills `buf`, with `n` bytes of the buffer left: the lowest digit first.
pub digits : ℕ → ℕ → ℕ → List ℕ
digits zero base x = []
digits (suc n) base x =
    let rest = digits n base (x / base) in digit (x % base) ∷ (if x / base == 0 then [] else rest)

-- the size of `buf` in `printint`
abbrev pub buf_size : ℕ
buf_size = 16

-- `xx < 0`, for an `int` as a word
abbrev pub is_negative : ℕ → Bool
is_negative xx = leb (2 ^ 31) xx

-- `printint`: `xx` is the `int` as a word, and the bytes are put from the end of the buffer.
pub printint : ℕ → ℕ → Bool → List ℕ
unfolding digits
printint xx base sgn =
    if sgn && is_negative xx
    then reverse (digits buf_size base ((2 ^ 32 - xx) % 2 ^ 32) ++ (b'-' ∷ []))
    else reverse (digits buf_size base xx)

-- A conversion of `printf` that takes an argument; `string_at` is the string that a pointer stands for.
pub conversion : (ℕ → List ℕ) → ℕ → ℕ → Option (List ℕ)
unfolding printint
conversion string_at c arg =
    if c == b'd'
    then some (printint arg 10 true)
    else if c == b'x' || c == b'p'
    then some (printint arg 16 false)
    else if c == b's'
    then some (if arg == 0 then b'(' ∷ b'n' ∷ b'u' ∷ b'l' ∷ b'l' ∷ b')' ∷ [] else string_at arg)
    else if c == b'c'
    then some (arg % 256 ∷ [])
    else none

-- The loop of `printf`; the flag is `state == '%'`, and the arguments are the words that follow `fmt` on the stack.
pub printf_from : (ℕ → List ℕ) → Bool → List ℕ → (ℕ → ℕ) → List ℕ
unfolding conversion
printf_from string_at state [] args = []
printf_from string_at false (c ∷ fmt) args =
    let after = printf_from string_at true fmt args in
    let rest = printf_from string_at false fmt args in if c == b'%' then after else c ∷ rest
printf_from string_at true (c ∷ fmt) args =
    let taken = printf_from string_at false fmt (λ i. args (i + 1)) in
    let rest = printf_from string_at false fmt args in
    elim (conversion string_at c (args 0)) [
      | some out ↦ out ++ taken
      | none ↦ if c == b'%' then c ∷ rest else b'%' ∷ c ∷ rest
    ]

pub printf : (ℕ → List ℕ) → List ℕ → (ℕ → ℕ) → List ℕ
unfolding printf_from
printf string_at fmt args = printf_from string_at false fmt args

-- The loop of `atoi`.
pub atoi_from : ℕ → List ℕ → ℕ
atoi_from n [] = n
atoi_from n (c ∷ s) =
    let rest = atoi_from ((n * 10 + c - b'0') % 2 ^ 32) s in
    if leb b'0' c && leb c b'9' then rest else n

-- The result is the `int` as a word.
pub atoi : List ℕ → ℕ
unfolding atoi_from
atoi s = atoi_from 0 s

-- `strcmp`, of unsigned bytes
pub strcmp : List ℕ → List ℕ → ℤ
strcmp [] [] = pos 0
strcmp [] (c ∷ q) = 0 -ℤ c
strcmp (c ∷ p) [] = c -ℤ 0
strcmp (c ∷ p) (d ∷ q) = let rest = strcmp p q in if c == d then rest else c -ℤ d

-- `strchr`: the place of the byte in the string.
pub strchr : List ℕ → ℕ → Option ℕ
strchr [] c = none
strchr (d ∷ s) c =
    if d == c then some 0 else elim (strchr s c) [ none ↦ none | some i ↦ some (suc i) ]

-- The loop of `gets` with room for `n` bytes: the bytes put to `buf`, and the input left.
pub gets_loop : ℕ → List ℕ → List ℕ × List ℕ
gets_loop zero input = ([], input)
gets_loop (suc n) [] = ([], [])
gets_loop (suc n) (c ∷ input) =
    let (line, left) = gets_loop n input in
    if c == b'\n' || c == b'\r' then (c ∷ [], input) else (c ∷ line, left)

-- `gets(buf, max)`, with the NUL after the line
pub gets : ℕ → List ℕ → List ℕ × List ℕ
unfolding gets_loop
gets max input = let (line, left) = gets_loop (max - 1) input in (line ++ (0 ∷ []), left)

-- the counts of `wc`, and `inword`
pub record Counts : Type 0 where
  pub l : ℕ
  pub w : ℕ
  pub c : ℕ
  pub inword : Bool

-- `strchr(" \r\t\n\v", b)`; the NUL is not found.
abbrev pub is_space : ℕ → Bool
is_space b = b == 32 || b == 13 || b == 9 || b == 10 || b == 11

-- the body of the inner loop of `wc`
pub count_byte : ℕ → Counts → Counts
count_byte b n =
    let m = record n { c = n.c + 1; l = if b == 10 then n.l + 1 else n.l } in
    if is_space b
    then record m { inword = false }
    else if not m.inword
    then record m { w = m.w + 1; inword = true }
    else m

-- `wc` over the bytes of what the calls of `read` return
pub wc : List ℕ → Counts → Counts
wc [] n = n
wc (b ∷ bytes) n = wc bytes (count_byte b n)
