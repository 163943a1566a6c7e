-- ===== src/Pipe/Write.antt =====
-- What a turn of `pipewrite` does.
use nunix.Prelude.{
  ℕ, ◌-◌, ◌<◌, ◌≡◌, refl, Bool, true, not, ◌||◌, List, [], ◌∷◌, ◌++◌, arith, leb, if◌then◌else◌,
  length, take, drop, take-cons, drop-cons, take-nil, append-nil, append_assoc, Bool-cases, inl,
  inr, ◌∙◌,
}
use nunix.Pipe.{
  Pipe, pipesize, is_full, put, write_from, pipewrite, Chan, read_chan, write_chan, Outcome,
  returned, failed, asleep, Turn,
}
use nunix.Pipe.Window.{
  IsValid, count, contents, is_full-count, count-put, contents-put, put-IsValid,
}

-- the free bytes of the pipe
abbrev pub room : Pipe → ℕ
room p = pipesize - count p

-- How a writer's turn ends, told from the room and the bytes it has: what it wakes, and its outcome.
abbrev pub write_end : Bool → Bool → ℕ → ℕ → List ℕ → List Chan × Outcome ℕ (List ℕ)
write_end killed readopen n r bs =
    if leb (length bs) r
    then (read_chan ∷ [], returned n)
    else if not readopen || killed
    then ([], failed)
    else (read_chan ∷ [], asleep write_chan (drop r bs))

write_end-zero :
    (killed readopen : Bool) (n b : ℕ) (bs : List ℕ)
    → write_end killed readopen n 0 (b ∷ bs) ≡ (
        if not readopen || killed
        then ([], failed)
        else (read_chan ∷ [], asleep write_chan (b ∷ bs)))
write_end-zero killed readopen n b bs = ground arith

write_end-cons :
    (killed readopen : Bool) (n r b : ℕ) (bs : List ℕ)
    → 0 < r
    → write_end killed readopen n r (b ∷ bs) ≡ write_end killed readopen n (r - 1) bs
write_end-cons killed readopen n r b bs h = ground (arith, drop-cons r b bs)

-- what a turn that has `bs` left to write does to the pipe `p`
pub record Wrote (killed : Bool) (n : ℕ) (p : Pipe) (bs : List ℕ) (t : Turn ℕ (List ℕ))
    : Type 0 where
  pub valid : IsValid t.pipe
  pub same_readopen : t.pipe.readopen ≡ p.readopen
  pub same_writeopen : t.pipe.writeopen ≡ p.writeopen
  pub bytes : contents t.pipe ≡ contents p ++ take (room p) bs
  pub ending : (t.woken, t.outcome) ≡ write_end killed p.readopen n (room p) bs

-- A full pipe ends the turn before a byte is written.
write_full :
    {p : Pipe} (killed : Bool) (n b : ℕ) (bs : List ℕ)
    → IsValid p
    → is_full p ≡ true
    → Wrote killed n p (b ∷ bs) (write_from killed n p (b ∷ bs))
unfolding write_from
write_full {p} killed n b bs v full =
    let none_left : room p ≡ 0 = ground (arith, is_full-count v) in
    rw full (record {
      valid = ground arith;
      same_readopen = ground arith;
      same_writeopen = ground arith;
      bytes = ground (arith, append-nil (contents p));
      ending = rw (none_left, write_end-zero) (ground arith);
    })

-- A byte that fits, and then the rest of the turn.
write_one :
    {p : Pipe} {t : Turn ℕ (List ℕ)} (killed : Bool) (n b : ℕ) (bs : List ℕ)
    → IsValid p
    → count p < pipesize
    → Wrote killed n (put p b) bs t
    → Wrote killed n p (b ∷ bs) t
unfolding put
write_one {p} killed n b bs v h w =
    let less : room (put p b) ≡ room p - 1 = omega (arith, count-put b v h) in
    record {
      valid = w.valid;
      same_readopen = w.same_readopen;
      same_writeopen = w.same_writeopen;
      bytes =
          w.bytes
          ∙ rw (contents-put b v h, append_assoc, take-cons (room p) b bs (omega arith), less);
      ending = w.ending ∙ rw (write_end-cons killed p.readopen n (room p) b bs (omega arith), less);
    }

pub write_from-Wrote :
    (killed : Bool) (n : ℕ) (bs : List ℕ) {p : Pipe}
    → IsValid p
    → Wrote killed n p bs (write_from killed n p bs)
unfolding write_from
write_from-Wrote killed n [] {p} v = record {
  valid = v;
  same_readopen = refl;
  same_writeopen = refl;
  bytes = rw (take-nil, append-nil);
  ending = ground arith;
}
write_from-Wrote killed n (b ∷ bs) {p} v = elim (Bool-cases (is_full p)) [
  | inl full ↦ write_full killed n b bs v full
  | inr more ↦
      let h : count p < pipesize = ground (arith, is_full-count v) in
      rw more (write_one killed n b bs v h (write_from-Wrote killed n bs (put-IsValid b v h)))
]

-- The first turn of `pipewrite`, at a valid pipe with room for `r` bytes: it keeps the pipe valid and
-- both ends as they are, appends the first `r` bytes of `addr` to the contents, and then returns `n`
-- if all of them fitted, fails if they did not and the reader is gone or the process killed, and
-- else goes to sleep with exactly the other bytes left to write.
pub pipewrite-Wrote :
    {p : Pipe} (killed : Bool) (addr : List ℕ)
    → IsValid p
    → Wrote killed (length addr) p addr (pipewrite killed p addr)
unfolding pipewrite
pipewrite-Wrote killed addr v = write_from-Wrote killed (length addr) addr v
