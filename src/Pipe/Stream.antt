-- ===== src/Pipe/Stream.antt =====
-- One writer and one reader of a pipe, whose turns interleave in any order.
pub mod Order
use nunix.Prelude.{ℕ, ◌≡◌, Bool, true, false, ◌||◌, List, [], ◌∷◌, ◌++◌, if◌then◌else◌, length}
use nunix.Pipe.{
  Pipe, write_from, pipewrite, piperead, pipeclose, Chan, read_chan, write_chan, Outcome, returned,
  failed, asleep, turn, Turn,
}

-- A process in a call on the pipe: outside, asleep on a channel in the call, or woken in it.
pub data Task (A : Type 0) : Type 0 where
  idle : Task A
  sleeping : Chan → A → Task A
  runnable : A → Task A

-- The pipe with its two ends. `got` is what the reader was given and `sent` what the writer passed to
-- `pipewrite`, in order; `broken` says that a write returned -1.
pub record System : Type 0 where
  pub pipe : Pipe
  pub writer : Task (ℕ × List ℕ)
  pub reader : Task ℕ
  pub sent : List ℕ
  pub got : List ℕ
  pub broken : Bool

abbrev pub same_chan : Chan → Chan → Bool
same_chan read_chan read_chan = true
same_chan write_chan write_chan = true
same_chan read_chan write_chan = false
same_chan write_chan read_chan = false

abbrev pub woken_by : Chan → List Chan → Bool
woken_by c [] = false
woken_by c (d ∷ ds) = same_chan c d || woken_by c ds

-- what the `wakeup` calls of a turn do to the other process
abbrev pub wake : {A : Type 0} → List Chan → Task A → Task A
wake cs idle = idle
wake cs (runnable a) = runnable a
wake cs (sleeping c a) = if woken_by c cs then runnable a else sleeping c a

abbrev pub writer_after : ℕ → Outcome ℕ (List ℕ) → Task (ℕ × List ℕ)
writer_after n (returned m) = idle
writer_after n failed = idle
writer_after n (asleep c rest) = sleeping c (n, rest)

abbrev pub has_failed : {R W : Type 0} → Outcome R W → Bool
has_failed (returned r) = false
has_failed failed = true
has_failed (asleep c w) = false

abbrev pub reader_after : Outcome (List ℕ) ℕ → Task ℕ
reader_after (returned bs) = idle
reader_after failed = idle
reader_after (asleep c n) = sleeping c n

abbrev pub bytes_of : Outcome (List ℕ) ℕ → List ℕ
bytes_of (returned bs) = bs
bytes_of failed = []
bytes_of (asleep c n) = []

-- the system after a turn of a write of `n` bytes, from the pipe, the wakeups and the outcome
abbrev pub after_write : System → ℕ → Pipe → List Chan × Outcome ℕ (List ℕ) → System
after_write s n p (cs, o) = record s {
  pipe = p;
  writer = writer_after n o;
  reader = wake cs s.reader;
  broken = s.broken || has_failed o;
}

abbrev pub after_read : System → Pipe → List Chan × Outcome (List ℕ) ℕ → System
after_read s p (cs, o) = record s {
  pipe = p;
  reader = reader_after o;
  writer = wake cs s.writer;
  got = s.got ++ bytes_of o;
}

abbrev pub write_turn : System → ℕ → Turn ℕ (List ℕ) → System
write_turn s n t = after_write s n t.pipe (t.woken, t.outcome)

abbrev pub read_turn : System → Turn (List ℕ) ℕ → System
read_turn s t = after_read s t.pipe (t.woken, t.outcome)

-- A step is one turn. `killed` may change from turn to turn.
pub data Step (s : System) : System → Type 0 where
  write_call :
      (killed : Bool) (bs : List ℕ)
      → s.writer ≡ idle
      → Step s
          (write_turn (record s { sent = s.sent ++ bs }) (length bs) (pipewrite killed s.pipe bs))
  write_resume :
      (killed : Bool) (n : ℕ) (bs : List ℕ)
      → s.writer ≡ runnable (n, bs)
      → Step s (write_turn s n (write_from killed n s.pipe bs))
  read_call :
      (killed : Bool) (n : ℕ) → s.reader ≡ idle → Step s (read_turn s (piperead killed s.pipe n))
  read_resume :
      (killed : Bool) (n : ℕ)
      → s.reader ≡ runnable n
      → Step s (read_turn s (piperead killed s.pipe n))

pub data Reach (s : System) : System → Type 0 where
  here : Reach s s
  next : {t u : System} → Reach s t → Step t u → Reach s u

-- what `pipealloc` sets up
abbrev pub start : List ℕ → System
start buf = record {
  pipe = record { buf = buf; nread = 0; nwrite = 0; readopen = true; writeopen = true };
  writer = idle;
  reader = idle;
  sent = [];
  got = [];
  broken = false;
}
