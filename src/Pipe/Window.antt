-- ===== src/Pipe/Window.antt =====
-- The bytes that a pipe holds, its invariant, and what one byte put or passed does to both.
use native.Mathlib.Numerals.{add-one}
use nunix.Prelude.{
  ℕ, zero, suc, ◌+◌, ◌-◌, ◌%◌, ◌^◌, ◌≤◌, ◌<◌, ◌≡◌, refl, ap, ap₂, ◌∙◌, List, [], ◌∷◌, ◌++◌, arith,
  ◌==◌, length, get_or, set, length-set, get_or-set_self, get_or-set_ne,
}
use nunix.Pipe.{Pipe, pipesize, add_uint, is_full, is_empty, put, advance, front}

-- the number of bytes in the pipe, a difference of two counters that wrap
abbrev pub count : Pipe → ℕ
count p = (p.nwrite + 2 ^ 32 - p.nread) % 2 ^ 32

pub record IsValid (p : Pipe) : Type 0 where
  pub storage : length p.buf ≡ pipesize
  pub read_word : p.nread < 2 ^ 32
  pub write_word : p.nwrite < 2 ^ 32
  pub bounded : count p ≤ pipesize

-- the `n` bytes from counter `r` on
abbrev pub window : List ℕ → ℕ → ℕ → List ℕ
window buf r zero = []
window buf r (suc n) = get_or buf (r % pipesize) 0 ∷ window buf (add_uint r 1) n

-- the bytes in the pipe, oldest first
abbrev pub contents : Pipe → List ℕ
contents p = window p.buf p.nread (count p)

length-window : (buf : List ℕ) (r n : ℕ) → length (window buf r n) ≡ n
length-window buf r zero = refl
length-window buf r (suc n) = ap suc (length-window buf (add_uint r 1) n)

pub length-contents : (p : Pipe) → length (contents p) ≡ count p
length-contents p = length-window p.buf p.nread (count p)

pub is_full-count : {p : Pipe} → IsValid p → is_full p ≡ (count p == pipesize)
is_full-count v = ground arith

pub is_empty-count : {p : Pipe} → IsValid p → is_empty p ≡ (count p == 0)
is_empty-count v = ground arith

pub count-put : {p : Pipe} (b : ℕ) → IsValid p → count p < pipesize → count (put p b) ≡ count p + 1
unfolding put
count-put b v h = omega arith

pub count-advance : {p : Pipe} → IsValid p → 0 < count p → count (advance p) + 1 ≡ count p
unfolding advance
count-advance v h = omega arith

pub put-IsValid : {p : Pipe} (b : ℕ) → IsValid p → count p < pipesize → IsValid (put p b)
unfolding put
put-IsValid {p} b v h = ground (arith, length-set p.buf (p.nwrite % pipesize) b)

pub advance-IsValid : {p : Pipe} → IsValid p → 0 < count p → IsValid (advance p)
unfolding advance
advance-IsValid v h = ground arith

-- A byte written at the slot behind a window of less than 512 extends it.
window-set :
    (buf : List ℕ) (b n r i : ℕ)
    → length buf ≡ pipesize
    → r < 2 ^ 32
    → n < pipesize
    → i ≡ (r + n) % pipesize
    → window (set buf i b) r (suc n) ≡ window buf r n ++ (b ∷ [])
window-set buf b zero r i hs hr hn e =
    let at : i ≡ r % pipesize = omega arith in
    ap (λ x. x ∷ []) (rw at (get_or-set_self buf (r % pipesize) b 0 (omega arith)))
window-set buf b (suc n) r i hs hr hn e =
    ap₂ ◌∷◌ (get_or-set_ne buf b 0 (omega arith))
      (window-set buf b n (add_uint r 1) i hs (omega arith) (omega arith) (omega arith))

-- `put` appends its byte.
pub contents-put :
    {p : Pipe} (b : ℕ)
    → IsValid p
    → count p < pipesize
    → contents (put p b) ≡ contents p ++ (b ∷ [])
unfolding put
contents-put {p} b v h = rw (count-put b v h) (
    rw add-one (
      window-set p.buf b (count p) p.nread (p.nwrite % pipesize) v.storage v.read_word h
        (omega arith)))

-- A window of at least one byte, in the form that the code's test leaves.
window_of_pos :
    (buf : List ℕ) (r n : ℕ)
    → 0 < n
    → window buf r n ≡ get_or buf (r % pipesize) 0 ∷ window buf (add_uint r 1) (n - 1)
window_of_pos buf r zero h = absurd (omega arith)
window_of_pos buf r (suc n) h = ap (λ k. window buf r (suc k)) (omega arith)

-- `advance` drops the front byte.
pub contents-advance :
    {p : Pipe} → IsValid p → 0 < count p → contents p ≡ front p ∷ contents (advance p)
unfolding advance
contents-advance {p} v h =
    window_of_pos p.buf p.nread (count p) h
    ∙ ap (λ k. front p ∷ window p.buf (add_uint p.nread 1) k) (omega (arith, count-advance v h))
