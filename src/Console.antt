-- ===== src/Console.antt =====
-- console.c: the input buffer, which `consoleintr` edits line by line and `consoleread` empties. What runs
-- under `input.lock` is one step, and a turn of `consoleread` ends where it sleeps or returns.
pub mod Window
pub mod Lines
pub mod Editor
pub mod Reader
pub mod Calls
mod Tests
use nunix.Prelude.{
  ℕ, zero, suc, ◌+◌, ◌-◌, ◌%◌, ◌^◌, Bool, true, false, not, ◌&&◌, ◌||◌, ◌==◌, ltb, if◌then◌else◌,
  update, List, [], ◌∷◌, ◌++◌,
}

abbrev pub input_buf : ℕ
input_buf = 128

-- `input` less its lock
pub record Input : Type 0 where
  pub buf : ℕ → ℕ
  pub r : ℕ
  pub w : ℕ
  pub e : ℕ

-- `uint` arithmetic
abbrev pub plus_uint : ℕ → ℕ → ℕ
plus_uint a b = (a + b) % 2 ^ 32

abbrev pub minus_uint : ℕ → ℕ → ℕ
minus_uint a b = (a + 2 ^ 32 - b) % 2 ^ 32

-- What an interrupt does outside the buffer: `consputc`, `wakeup(&input.r)` and `procdump`.
pub data Effect : Type 0 where
  consputc : ℕ → Effect
  wakeup procdump : Effect

abbrev pub backspace : ℕ
backspace = 256

-- the keys: newline, carriage return, delete, and `C('D')`, `C('H')`, `C('P')`, `C('U')`
abbrev pub newline : ℕ
newline = 10

abbrev pub carriage_return : ℕ
carriage_return = 13

abbrev pub delete : ℕ
delete = 127

abbrev pub ctrl_d : ℕ
ctrl_d = 4

abbrev pub ctrl_h : ℕ
ctrl_h = 8

abbrev pub ctrl_p : ℕ
ctrl_p = 16

abbrev pub ctrl_u : ℕ
ctrl_u = 21

-- The loop for `C('U')`; a line has at most `input_buf` bytes.
unfoldable pub kill_line : ℕ → Input → Input × List Effect
kill_line zero s = (s, [])
kill_line (suc fuel) s =
    let back = minus_uint s.e 1 in
    let (t, out) = kill_line fuel (record s { e = back }) in
    if not (s.e == s.w) && not (s.buf (back % input_buf) == newline)
    then (t, consputc backspace ∷ out)
    else (s, [])

-- The default case for a byte that is stored.
unfoldable pub store_key : ℕ → Input → Input × List Effect
store_key c s =
    let t = record s { buf = update s.buf (s.e % input_buf) c; e = plus_uint s.e 1 } in
    if (c == newline) || (c == ctrl_d) || (t.e == plus_uint t.r input_buf)
    then (record t { w = t.e }, consputc c ∷ wakeup ∷ [])
    else (t, consputc c ∷ [])

abbrev pub translated : ℕ → ℕ
translated c = if c == carriage_return then newline else c

-- One round of the loop of `consoleintr`.
unfoldable pub key : ℕ → Input → Input × List Effect
unfolding kill_line store_key
key c s =
    if c == ctrl_p
    then (s, procdump ∷ [])
    else if c == ctrl_u
    then kill_line input_buf s
    else if (c == ctrl_h) || (c == delete)
    then (if s.e == s.w
        then (s, [])
        else (record s { e = minus_uint s.e 1 }, consputc backspace ∷ []))
    else if not (c == 0) && ltb (minus_uint s.e s.r) input_buf
    then store_key (translated c) s
    else (s, [])

-- `consoleintr`, for the keys that `getc` gives before -1.
unfoldable pub consoleintr : List ℕ → Input → Input × List Effect
unfolding key
consoleintr [] s = (s, [])
consoleintr (c ∷ cs) s =
    let (s1, out) = key c s in let (s2, rest) = consoleintr cs s1 in (s2, out ++ rest)

-- How a turn of `consoleread` ends: with a result, with -1 for a killed process, or asleep with bytes left to read.
pub data Outcome : Type 0 where
  returned failed : Outcome
  asleep : ℕ → Outcome

-- The loop of `consoleread` with `n` bytes left of `target`: the bytes that it moves to `dst`, the buffer and the outcome.
unfoldable pub read_line : Bool → ℕ → ℕ → Input → List ℕ × Input × Outcome
read_line killed target zero s = ([], s, returned)
read_line killed target (suc n) s =
    let c = s.buf (s.r % input_buf) in
    let t = record s { r = plus_uint s.r 1 } in
    let (bs, u, o) = read_line killed target n t in
    if s.r == s.w
    then ([], s, if killed then failed else asleep (suc n))
    else if c == ctrl_d
    then ([], (if ltb (suc n) target then record t { r = minus_uint t.r 1 } else t), returned)
    else if c == newline
    then (c ∷ [], t, returned)
    else (c ∷ bs, u, o)
