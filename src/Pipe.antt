-- ===== src/Pipe.antt =====
-- pipe.c: a pipe, and the turns that its readers and writers take under its lock.
-- A turn runs from `acquire` or from the return of `sleep` to the next `sleep` or to the final
-- `release`; `sleep` gives up the lock, so a turn is atomic and other turns come between two of them.
pub mod Read
pub mod Stream
pub mod Window
pub mod Write
mod Tests
use nunix.Prelude.{
  ℕ, zero, suc, ◌+◌, ◌%◌, ◌^◌, Bool, false, not, ◌&&◌, ◌||◌, List, [], ◌∷◌, ◌==◌, if◌then◌else◌,
  length, get_or, set,
}

-- `PIPESIZE`
abbrev pub pipesize : ℕ
pipesize = 512

-- `uint` arithmetic
abbrev pub add_uint : ℕ → ℕ → ℕ
add_uint a b = (a + b) % 2 ^ 32

-- `struct pipe` less its lock
pub record Pipe : Type 0 where
  pub buf : List ℕ
  pub nread : ℕ
  pub nwrite : ℕ
  pub readopen : Bool
  pub writeopen : Bool

-- the addresses `&p->nread` and `&p->nwrite` that `sleep` and `wakeup` are given
pub data Chan : Type 0 where
  read_chan write_chan : Chan

-- How a turn ends: with a return value, with -1, or asleep on a channel with work left.
pub data Outcome (R W : Type 0) : Type 0 where
  returned : R → Outcome R W
  failed : Outcome R W
  asleep : Chan → W → Outcome R W

-- what a turn leaves: the pipe, the channels that it woke in order, and how it ended
pub record Turn (R W : Type 0) : Type 0 where
  pub pipe : Pipe
  pub woken : List Chan
  pub outcome : Outcome R W

abbrev pub turn : {R W : Type 0} → Pipe → List Chan → Outcome R W → Turn R W
turn p w o = record { pipe = p; woken = w; outcome = o }

-- `p->nwrite == p->nread + PIPESIZE`
abbrev pub is_full : Pipe → Bool
is_full p = p.nwrite == add_uint p.nread pipesize

-- `p->nread == p->nwrite`
abbrev pub is_empty : Pipe → Bool
is_empty p = p.nread == p.nwrite

-- `p->data[p->nwrite++ % PIPESIZE] = addr[i]`
pub put : Pipe → ℕ → Pipe
put p b = record p { buf = set p.buf (p.nwrite % pipesize) b; nwrite = add_uint p.nwrite 1 }

-- `p->nread++`, and the byte that it passes
pub advance : Pipe → Pipe
advance p = record p { nread = add_uint p.nread 1 }

abbrev pub front : Pipe → ℕ
front p = get_or p.buf (p.nread % pipesize) 0

-- The loop of `pipewrite`, with the bytes `addr[i..n)` left; also what runs when `sleep` returns,
-- since the inner `while` then tests again. `killed` is `proc->killed` in this turn.
pub write_from : Bool → ℕ → Pipe → List ℕ → Turn ℕ (List ℕ)
unfolding put
write_from killed n p [] = turn p (read_chan ∷ []) (returned n)
write_from killed n p (b ∷ bs) =
    if is_full p
    then if not p.readopen || killed
      then turn p [] failed
      else turn p (read_chan ∷ []) (asleep write_chan (b ∷ bs))
    else write_from killed n (put p b) bs

pub pipewrite : Bool → Pipe → List ℕ → Turn ℕ (List ℕ)
unfolding write_from
pipewrite killed p addr = write_from killed (length addr) p addr

-- The copying loop of `piperead`: the bytes put to `addr`, and the pipe.
pub read_loop : ℕ → Pipe → List ℕ × Pipe
unfolding advance
read_loop zero p = ([], p)
read_loop (suc n) p =
    let (bs, q) = read_loop n (advance p) in if is_empty p then ([], p) else (front p ∷ bs, q)

-- A turn of `piperead`, from its start or from the return of `sleep`.
pub piperead : Bool → Pipe → ℕ → Turn (List ℕ) ℕ
unfolding read_loop
piperead killed p n =
    if is_empty p && p.writeopen
    then if killed then turn p [] failed else turn p [] (asleep read_chan n)
    else let (bs, q) = read_loop n p in turn q (write_chan ∷ []) (returned bs)

-- `pipeclose`: the pipe, the channel woken, and whether the page of the pipe is freed.
pub pipeclose : Pipe → Bool → Pipe × Chan × Bool
pipeclose p writable =
    if writable
    then (record p { writeopen = false }, read_chan, not p.readopen)
    else (record p { readopen = false }, write_chan, not p.writeopen)
