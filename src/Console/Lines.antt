-- ===== src/Console/Lines.antt =====
-- The two parts of the input buffer: bytes that are ready, and a line that is still edited.
use nunix.Prelude.{
  ℕ, zero, suc, ◌+◌, ◌-◌, ◌%◌, ◌^◌, ◌≤◌, ◌<◌, ◌≡◌, refl, true, false, ◌==◌, update, List, [], ◌∷◌,
  ◌++◌, length, length-append, replicate, arith, ap, ap₂, sym, ◌∙◌, All,
}
use nunix.Console.{Input, input_buf, plus_uint, minus_uint, consputc, backspace, newline, kill_line}
use nunix.Console.Window.{window, window-outside, window-append, window-behind}

-- The buffer holds the bytes `q` for readers, and behind them the line `l`.
pub record Holds (s : Input) (q l : List ℕ) : Type 0 where
  pub read_word : s.r < 2 ^ 32
  pub fits : length q + length l ≤ input_buf
  pub committed : s.w ≡ plus_uint s.r (length q)
  pub edited : s.e ≡ plus_uint s.w (length l)
  pub ready : window s.buf s.r (length q) ≡ q
  pub line : window s.buf s.w (length l) ≡ l

pub push-Holds :
    (s : Input) (q l : List ℕ) (c : ℕ)
    → Holds s q l
    → length q + length l < input_buf
    → Holds
        (record s { buf = update s.buf (s.e % input_buf) c; e = plus_uint s.e 1 })
        q
        (l ++ (c ∷ []))
push-Holds s q l c h room =
    let n : length (l ++ (c ∷ [])) ≡ length l + 1 = length-append l (c ∷ []) in
    let at_w = h.committed in
    let at_e = h.edited in
    let word = h.read_word in
    record {
      read_word = h.read_word;
      fits = omega arith;
      committed = h.committed;
      edited = omega arith;
      ready =
          window-outside s.buf c (length q) s.r (length q + length l) (s.e % input_buf) word
            (omega arith) room (omega arith)
          ∙ h.ready;
      line =
          ap (window (update s.buf (s.e % input_buf) c) s.w) n
          ∙ window-behind s.buf c (length l) s.w (s.e % input_buf) (omega arith) (omega arith)
              (omega arith)
          ∙ ap (λ x. x ++ (c ∷ [])) h.line;
    }

pub commit-Holds :
    (s : Input) (q l : List ℕ) → Holds s q l → Holds (record s { w = s.e }) (q ++ l) []
commit-Holds s q l h =
    let n = length-append q l in
    let at_w = h.committed in
    let at_e = h.edited in
    let word = h.read_word in
    let room = h.fits in
    record {
      read_word = h.read_word;
      fits = omega arith;
      committed = omega arith;
      edited = omega arith;
      ready =
          ap (window s.buf s.r) n
          ∙ window-append s.buf (length q) (length l) s.r s.w word at_w
          ∙ ap₂ (λ x y. x ++ y) h.ready h.line;
      line = refl;
    }

abbrev pub init : List ℕ → List ℕ
init [] = []
init (x ∷ []) = []
init (x ∷ (y ∷ l)) = x ∷ init (y ∷ l)

length-init : (l : List ℕ) → length (init l) ≡ length l - 1
length-init [] = omega arith
length-init (x ∷ []) = omega arith
length-init (x ∷ (y ∷ l)) = omega (arith, length-init (y ∷ l))

init-window : (buf : ℕ → ℕ) (r n : ℕ) → init (window buf r (suc n)) ≡ window buf r n
init-window buf r zero = refl
init-window buf r (suc n) = ap (λ t. buf (r % input_buf) ∷ t) (init-window buf (plus_uint r 1) n)

-- The last byte of the line is given up.
pub pop-Holds :
    (s : Input) (q : List ℕ) (x : ℕ) (l : List ℕ)
    → Holds s q (x ∷ l)
    → Holds (record s { e = minus_uint s.e 1 }) q (init (x ∷ l))
pop-Holds s q x l h =
    let n : length (init (x ∷ l)) ≡ length l = length-init (x ∷ l) ∙ omega arith in
    let at_w = h.committed in
    let at_e = h.edited in
    let word = h.read_word in
    let room = h.fits in
    record {
      read_word = h.read_word;
      fits = omega arith;
      committed = h.committed;
      edited = omega arith;
      ready = h.ready;
      line = ap (window s.buf s.w) n ∙ sym (init-window s.buf s.w (length l)) ∙ ap init h.line;
    }

-- The test for a line without bytes.
pub ends_apart :
    (s : Input) (q : List ℕ) (x : ℕ) (l : List ℕ) → Holds s q (x ∷ l) → (s.e == s.w) ≡ false
ends_apart s q x l h =
    let at_w = h.committed in
    let at_e = h.edited in let word = h.read_word in let room = h.fits in ground arith

pub ends_meet : (s : Input) (q : List ℕ) → Holds s q [] → (s.e == s.w) ≡ true
ends_meet s q h = let at_w = h.committed in let at_e = h.edited in ground arith

-- A byte of a line is not a newline.
abbrev pub IsWithin : ℕ → Type 0
IsWithin c = (c == newline) ≡ false

abbrev last_of : ℕ → List ℕ → ℕ
last_of x [] = x
last_of x (y ∷ l) = last_of y l

last-window :
    (buf : ℕ → ℕ) (r n : ℕ)
    → r < 2 ^ 32
    → last_of (buf (r % input_buf)) (window buf (plus_uint r 1) n) ≡ buf (plus_uint r n % input_buf)
last-window buf r zero hr =
    let same : r % input_buf ≡ plus_uint r 0 % input_buf = omega arith in ap buf same
last-window buf r (suc n) hr =
    let same : plus_uint (plus_uint r 1) n % input_buf ≡ plus_uint r (suc n) % input_buf =
      omega arith in
    last-window buf (plus_uint r 1) n (omega arith) ∙ ap buf same

abbrev last : List ℕ → ℕ
last [] = 0
last (x ∷ l) = last_of x l

-- The byte before `e` is the last one of the line.
byte_before :
    (s : Input) (q : List ℕ) (x : ℕ) (l : List ℕ)
    → Holds s q (x ∷ l)
    → s.buf (minus_uint s.e 1 % input_buf) ≡ last_of x l
byte_before s q x l h =
    let at_w = h.committed in
    let at_e = h.edited in
    let word = h.read_word in
    let room = h.fits in
    let same : minus_uint s.e 1 % input_buf ≡ plus_uint s.w (length l) % input_buf = omega arith in
    ap s.buf same ∙ sym (last-window s.buf s.w (length l) (omega arith)) ∙ ap last h.line

last-IsWithin : (x : ℕ) (l : List ℕ) → All IsWithin (x ∷ l) → IsWithin (last_of x l)
last-IsWithin x [] h = h.0
last-IsWithin x (y ∷ l) h = last-IsWithin y l h.1

pub init-IsWithin : (l : List ℕ) → All IsWithin l → All IsWithin (init l)
init-IsWithin [] h = h
init-IsWithin (x ∷ []) h = tt
init-IsWithin (x ∷ (y ∷ l)) h = (h.0, init-IsWithin (y ∷ l) h.1)

-- The loop for `C('U')` gives the whole line up, and erases it from the screen.
pub kill_line-Holds :
    (fuel : ℕ) (s : Input) (q l : List ℕ)
    → Holds s q l
    → All IsWithin l
    → length l ≤ fuel
    → Holds (kill_line fuel s).0 q []
      × ((kill_line fuel s).1 ≡ replicate (length l) (consputc backspace))
unfolding kill_line
kill_line-Holds zero s q [] h u k = (h, refl)
kill_line-Holds zero s q (x ∷ l) h u k = absurd (omega arith)
kill_line-Holds (suc fuel) s q [] h u k = rw (kill_line, ends_meet s q h) (h, refl)
kill_line-Holds (suc fuel) s q (x ∷ l) h u k =
    let n : length (init (x ∷ l)) ≡ length l = length-init (x ∷ l) ∙ omega arith in
    let (rest, out) =
      kill_line-Holds fuel (record s { e = minus_uint s.e 1 }) q (init (x ∷ l))
        (pop-Holds s q x l h) (init-IsWithin (x ∷ l) u) (omega arith) in
    let within : (s.buf (minus_uint s.e 1 % input_buf) == newline) ≡ false =
      ap (λ b. b == newline) (byte_before s q x l h) ∙ last-IsWithin x l u in
    rw (kill_line, ends_apart s q x l h, within)
      (rest, ap (λ t. consputc backspace ∷ t) (out ∙ ap (λ k. replicate k (consputc backspace)) n))

-- What the buffer holds, with a line that has no newline.
pub record Shows (s : Input) (q l : List ℕ) : Type 0 where
  pub holds : Holds s q l
  pub unbroken : All IsWithin l
