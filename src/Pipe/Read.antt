-- ===== src/Pipe/Read.antt =====
-- What a turn of `piperead` does.
use nunix.Prelude.{
  ℕ, zero, suc, ◌<◌, ◌≡◌, refl, Bool, true, false, ◌&&◌, List, [], ◌∷◌, arith, if◌then◌else◌, take,
  drop, take-nil, drop-nil, Bool-cases, inl, inr, ap,
}
use nunix.Pipe.{
  Pipe, is_empty, front, advance, read_loop, piperead, Chan, read_chan, write_chan, Outcome,
  returned, failed, asleep, Turn,
}
use nunix.Pipe.Window.{
  IsValid, count, window, contents, is_empty-count, contents-advance, advance-IsValid,
}

-- what the copying loop leaves when it is given `n` rounds
record Copied (n : ℕ) (p : Pipe) (out : List ℕ × Pipe) : Type 0 where
  valid : IsValid out.1
  same_readopen : out.1.readopen ≡ p.readopen
  same_writeopen : out.1.writeopen ≡ p.writeopen
  bytes : out.0 ≡ take n (contents p)
  rest : contents out.1 ≡ drop n (contents p)

contents_of_empty : {p : Pipe} → IsValid p → is_empty p ≡ true → contents p ≡ []
contents_of_empty {p} v h =
    let z : count p ≡ 0 = ground (arith, is_empty-count v) in ap (window p.buf p.nread) z

pos_of_nonempty : {p : Pipe} → IsValid p → is_empty p ≡ false → 0 < count p
pos_of_nonempty v h = ground (arith, is_empty-count v)

copy_one :
    {p : Pipe} {out : List ℕ × Pipe} (n : ℕ)
    → IsValid p
    → is_empty p ≡ false
    → Copied n (advance p) out
    → Copied (suc n) p (front p ∷ out.0, out.1)
unfolding advance
copy_one {p} n v h c =
    let split = contents-advance v (pos_of_nonempty v h) in
    record {
      valid = c.valid;
      same_readopen = c.same_readopen;
      same_writeopen = c.same_writeopen;
      bytes = rw (split, c.bytes);
      rest = rw (split, c.rest);
    }

read_loop-Copied : (n : ℕ) {p : Pipe} → IsValid p → Copied n p (read_loop n p)
unfolding read_loop
read_loop-Copied zero v = record {
  valid = v;
  same_readopen = refl;
  same_writeopen = refl;
  bytes = refl;
  rest = refl;
}
read_loop-Copied (suc n) {p} v = elim (Bool-cases (is_empty p)) [
  | inl dry ↦ rw dry (record {
    valid = v;
    same_readopen = refl;
    same_writeopen = refl;
    bytes = rw (contents_of_empty v dry);
    rest = rw (contents_of_empty v dry);
  })
  | inr wet ↦
      rw wet (copy_one n v wet (read_loop-Copied n (advance-IsValid v (pos_of_nonempty v wet))))
]

-- How a reader's turn ends, told from the bytes in the pipe.
abbrev pub read_end : Bool → Bool → ℕ → List ℕ → List Chan × Outcome (List ℕ) ℕ
read_end killed writeopen n (b ∷ bs) = (write_chan ∷ [], returned (take n (b ∷ bs)))
read_end killed writeopen n [] =
    if writeopen
    then if killed then ([], failed) else ([], asleep read_chan n)
    else (write_chan ∷ [], returned [])

-- what a turn that may copy `n` bytes does to the pipe `p`
pub record Read (killed : Bool) (n : ℕ) (p : Pipe) (t : Turn (List ℕ) ℕ) : Type 0 where
  pub valid : IsValid t.pipe
  pub same_readopen : t.pipe.readopen ≡ p.readopen
  pub same_writeopen : t.pipe.writeopen ≡ p.writeopen
  pub rest : contents t.pipe ≡ drop n (contents p)
  pub ending : (t.woken, t.outcome) ≡ read_end killed p.writeopen n (contents p)

copied_end :
    {p : Pipe} (killed : Bool) (n : ℕ)
    → IsValid p
    → (is_empty p && p.writeopen) ≡ false
    → ◌≡◌ {A = List Chan × Outcome (List ℕ) ℕ}
        (write_chan ∷ [], returned (take n (contents p)))
        (read_end killed p.writeopen n (contents p))
copied_end {p} killed n v go = elim (Bool-cases (is_empty p)) [
  | inl dry ↦ rw (contents_of_empty v dry, take-nil) (ground arith)
  | inr wet ↦ rw (contents-advance v (pos_of_nonempty v wet))
]

-- A turn that copies, whatever it finds.
copied :
    {p : Pipe} (killed : Bool) (n : ℕ)
    → IsValid p
    → (is_empty p && p.writeopen) ≡ false
    → Read killed n p (piperead killed p n)
unfolding piperead
copied {p} killed n v go =
    let c = read_loop-Copied n v in
    rw go (record {
      valid = c.valid;
      same_readopen = c.same_readopen;
      same_writeopen = c.same_writeopen;
      rest = c.rest;
      ending = rw c.bytes (copied_end killed n v go);
    })

-- A turn that finds no byte and a writer that may bring some.
starved :
    {p : Pipe} (killed : Bool) (n : ℕ)
    → IsValid p
    → (is_empty p && p.writeopen) ≡ true
    → Read killed n p (piperead killed p n)
unfolding piperead
starved {p} true n v wait =
    let bare : contents p ≡ [] = contents_of_empty v (ground arith) in
    rw wait (record {
      valid = v;
      same_readopen = refl;
      same_writeopen = refl;
      rest = rw (bare, drop-nil);
      ending = rw bare (ground arith);
    })
starved {p} false n v wait =
    let bare : contents p ≡ [] = contents_of_empty v (ground arith) in
    rw wait (record {
      valid = v;
      same_readopen = refl;
      same_writeopen = refl;
      rest = rw (bare, drop-nil);
      ending = rw bare (ground arith);
    })

-- A turn of `piperead` at a valid pipe keeps it valid and both ends as they are. If there are
-- bytes, it returns the first `n` of them, leaves the others and wakes the writers. If there is none,
-- it returns nothing if the writers are gone, fails if the process is killed, and else sleeps.
pub piperead-Read :
    {p : Pipe} (killed : Bool) (n : ℕ) → IsValid p → Read killed n p (piperead killed p n)
piperead-Read {p} killed n v = elim (Bool-cases (is_empty p && p.writeopen)) [
  | inl wait ↦ starved killed n v wait
  | inr go ↦ copied killed n v go
]
