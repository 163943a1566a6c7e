-- ===== src/Pipe/Stream/Order.antt =====
-- The bytes come out in the order in which they went in, and the two ends sleep only on a full and on an empty pipe.
use nunix.Prelude.{
  ℕ, ◌≤◌, ◌<◌, ◌≡◌, refl, Bool, true, false, ◌&&◌, ◌||◌, List, [], ◌∷◌, ◌++◌, arith, length, take,
  drop, leb, append-nil, append_assoc, take_all, drop-nil, take-nil, take-append-drop,
  length-append, length-take, Bool-cases, inl, inr, not, ap, ◌∙◌, sym,
}
use mathlib.Core.Path.{subst}
use nunix.Pipe.{
  Pipe, pipesize, write_from, pipewrite, piperead, Chan, read_chan, write_chan, Outcome, returned,
  failed, asleep,
}
use nunix.Pipe.Window.{IsValid, count, contents, length-contents}
use nunix.Pipe.Write.{room, write_end, write_from-Wrote}
use nunix.Pipe.Read.{read_end, piperead-Read}
use nunix.Pipe.Stream.{
  Task, idle, sleeping, runnable, System, after_write, after_read, write_turn, read_turn, wake,
  Step, write_call, write_resume, read_call, read_resume, reader_after, bytes_of, Reach, here, next,
  start,
}

-- the bytes that a write in progress has left
abbrev pub pending : Task (ℕ × List ℕ) → List ℕ
pending idle = []
pending (sleeping c (n, bs)) = bs
pending (runnable (n, bs)) = bs

abbrev pub WriterFits : Pipe → Task (ℕ × List ℕ) → Type 0
WriterFits p idle = Unit
WriterFits p (sleeping c w) = (c ≡ write_chan) × (count p ≡ pipesize)
WriterFits p (runnable w) = Unit

abbrev pub ReaderFits : Pipe → Task ℕ → Type 0
ReaderFits p idle = Unit
ReaderFits p (sleeping c n) = (c ≡ read_chan) × (count p ≡ 0)
ReaderFits p (runnable n) = Unit

pub record IsSound (s : System) : Type 0 where
  pub valid : IsValid s.pipe
  pub writer_fits : WriterFits s.pipe s.writer
  pub reader_fits : s.broken ≡ false → ReaderFits s.pipe s.reader
  pub in_order : s.broken ≡ false → s.got ++ (contents s.pipe ++ pending s.writer) ≡ s.sent

-- A wakeup on its channel leaves no reader asleep, and no writer.
reader_woken : (p q : Pipe) (r : Task ℕ) → ReaderFits p r → ReaderFits q (wake (read_chan ∷ []) r)
reader_woken p q idle f = tt
reader_woken p q (runnable n) f = tt
reader_woken p q (sleeping read_chan n) f = tt
reader_woken p q (sleeping write_chan n) f = absurd (cc f.0)

writer_woken :
    (p q : Pipe) (w : Task (ℕ × List ℕ)) → WriterFits p w → WriterFits q (wake (write_chan ∷ []) w)
writer_woken p q idle f = tt
writer_woken p q (runnable n) f = tt
writer_woken p q (sleeping write_chan n) f = tt
writer_woken p q (sleeping read_chan n) f = absurd (cc f.0)

or_false : (a b : Bool) → (a || b) ≡ false → a ≡ false
or_false a b h = ground arith

-- A writer's turn at a sound system, whose writer has `bs` left.
module _ (s : System) (n : ℕ) (bs : List ℕ) {q : Pipe} (v : IsValid q)
    (e : contents q ≡ contents s.pipe ++ take (room s.pipe) bs)
    (rf : s.broken ≡ false → ReaderFits s.pipe s.reader)
    (io : s.broken ≡ false → s.got ++ (contents s.pipe ++ bs) ≡ s.sent) where
  fits-IsSound : length bs ≤ room s.pipe → IsSound (after_write s n q (read_chan ∷ [], returned n))
  fits-IsSound h = record {
    valid = v;
    writer_fits = tt;
    reader_fits = λ b. reader_woken s.pipe q s.reader (rf (or_false s.broken false b));
    in_order =
        λ b. rw (append-nil, e, take_all (room s.pipe) bs h) (io (or_false s.broken false b));
  }

  fails-IsSound : IsSound (after_write s n q ([], failed))
  fails-IsSound = record {
    valid = v;
    writer_fits = tt;
    reader_fits = λ b. absurd (ground arith);
    in_order = λ b. absurd (ground arith);
  }

  sleeps-IsSound :
      count s.pipe ≤ pipesize
      → room s.pipe < length bs
      → IsSound (after_write s n q (read_chan ∷ [], asleep write_chan (drop (room s.pipe) bs)))
  sleeps-IsSound small h = record {
    valid = v;
    writer_fits = (refl, full);
    reader_fits = λ b. reader_woken s.pipe q s.reader (rf (or_false s.broken false b));
    in_order = λ b. rw (e, append_assoc, take-append-drop) (io (or_false s.broken false b));
  }
    where
      full : count q ≡ pipesize
      full = omega (
        arith,
        length-contents q,
        length-contents s.pipe,
        ap length e,
        length-append (contents s.pipe) (take (room s.pipe) bs),
        length-take (room s.pipe) bs,
      )

  write_end-IsSound :
      (killed : Bool)
      → count s.pipe ≤ pipesize
      → IsSound (after_write s n q (write_end killed s.pipe.readopen n (room s.pipe) bs))
  write_end-IsSound killed small = elim (Bool-cases (leb (length bs) (room s.pipe))) [
    | inl h ↦ rw h (fits-IsSound (ground arith))
    | inr h ↦ rw h (elim (Bool-cases (not s.pipe.readopen || killed)) [
      | inl stop ↦ rw stop fails-IsSound
      | inr go ↦ rw go (sleeps-IsSound small (ground arith))
    ])
  ]

pending-wake : (cs : List Chan) (w : Task (ℕ × List ℕ)) → pending (wake cs w) ≡ pending w
pending-wake cs idle = refl
pending-wake cs (runnable w) = refl
pending-wake cs (sleeping c w) = ground arith

-- No writer sleeps on an empty pipe.
writer_dry : (p q : Pipe) (w : Task (ℕ × List ℕ)) → count p ≡ 0 → WriterFits p w → WriterFits q w
writer_dry p q idle z f = tt
writer_dry p q (runnable w) z f = tt
writer_dry p q (sleeping c w) z f = absurd (omega arith)

wake-nil : {A : Type 0} (t : Task A) → wake [] t ≡ t
wake-nil idle = refl
wake-nil (runnable a) = refl
wake-nil (sleeping c a) = refl

-- A reader's turn at a sound system, whose reader is not asleep.
module _ (s : System) (n : ℕ) {q : Pipe} (v : IsValid q) (i : IsSound s) where
  reads-IsSound :
      (xs : List ℕ)
      → contents s.pipe ≡ xs
      → contents q ≡ drop n xs
      → IsSound (after_read s q (write_chan ∷ [], returned (take n xs)))
  reads-IsSound xs e f = record {
    valid = v;
    writer_fits = writer_woken s.pipe q s.writer i.writer_fits;
    reader_fits = λ b. tt;
    in_order = λ b.
        rw
          (
            pending-wake (write_chan ∷ []) s.writer,
            f,
            append_assoc,
            ← append_assoc (take n xs),
            take-append-drop,
            ← e,
          )
          (i.in_order b);
  }

  dry-IsSound :
      (o : Outcome (List ℕ) ℕ)
      → bytes_of o ≡ []
      → ReaderFits q (reader_after o)
      → contents s.pipe ≡ []
      → contents q ≡ []
      → IsSound (after_read s q ([], o))
  dry-IsSound o none_read asleep_fits e f = record {
    valid = v;
    writer_fits =
        let w = s.writer in
        rw (wake-nil w) (
          writer_dry s.pipe q w (omega (arith, length-contents s.pipe, ap length e)) i.writer_fits);
    reader_fits = λ b. asleep_fits;
    in_order = λ b. rw (wake-nil s.writer, none_read, append-nil, f) (rw e at (i.in_order b));
  }

  read_end-IsSound :
      (killed writeopen : Bool) (xs : List ℕ)
      → contents s.pipe ≡ xs
      → contents q ≡ drop n xs
      → IsSound (after_read s q (read_end killed writeopen n xs))
  read_end-IsSound killed up (x ∷ xs) e f = reads-IsSound (x ∷ xs) e f
  read_end-IsSound killed false [] e f = rw take-nil at (reads-IsSound [] e f)
  read_end-IsSound true true [] e f = dry-IsSound failed refl tt e (f ∙ drop-nil ℕ n)
  read_end-IsSound false true [] e f =
      let bare : contents q ≡ [] = f ∙ drop-nil ℕ n in
      dry-IsSound (asleep read_chan n) refl (refl, omega (arith, length-contents q, ap length bare))
        e bare

write_turn-IsSound :
    (s : System) (n : ℕ) (killed : Bool) (bs : List ℕ)
    → IsSound s
    → pending s.writer ≡ bs
    → IsSound (write_turn s n (write_from killed n s.pipe bs))
write_turn-IsSound s n killed bs i e =
    let w = write_from-Wrote killed n bs i.valid in
    subst (λ o. IsSound (after_write s n (write_from killed n s.pipe bs).pipe o)) (sym w.ending)
      (write_end-IsSound s n bs w.valid w.bytes i.reader_fits (λ b. rw e at (i.in_order b)) killed
        i.valid.bounded)

-- Passing more bytes to an idle writer keeps the books.
offer-IsSound :
    (s : System) (bs : List ℕ)
    → IsSound s
    → s.writer ≡ idle
    → IsSound (record s { sent = s.sent ++ bs; writer = runnable (length bs, bs) })
offer-IsSound s bs i e = record {
  valid = i.valid;
  writer_fits = tt;
  reader_fits = i.reader_fits;
  in_order = λ b. rw (← i.in_order b, ap pending e, append-nil, append_assoc);
}

read_turn-IsSound :
    (s : System) (n : ℕ) (killed : Bool)
    → IsSound s
    → IsSound (read_turn s (piperead killed s.pipe n))
read_turn-IsSound s n killed i =
    let r = piperead-Read killed n i.valid in
    subst (λ o. IsSound (after_read s (piperead killed s.pipe n).pipe o)) (sym r.ending)
      (read_end-IsSound s n r.valid i killed s.pipe.writeopen (contents s.pipe) refl r.rest)

-- Every step keeps the system sound.
pub Step-IsSound : {s t : System} → Step s t → IsSound s → IsSound t
unfolding pipewrite
Step-IsSound {s} (write_call killed bs free) i =
    write_turn-IsSound (record s { sent = s.sent ++ bs; writer = runnable (length bs, bs) })
      (length bs) killed bs (offer-IsSound s bs i free) refl
Step-IsSound {s} (write_resume killed n bs e) i = write_turn-IsSound s n killed bs i (ap pending e)
Step-IsSound {s} (read_call killed n free) i = read_turn-IsSound s n killed i
Step-IsSound {s} (read_resume killed n e) i = read_turn-IsSound s n killed i

pub Reach-IsSound : {s t : System} → IsSound s → Reach s t → IsSound t
Reach-IsSound i here = i
Reach-IsSound i (next r st) = Step-IsSound st (Reach-IsSound i r)

pub start-IsSound : (buf : List ℕ) → length buf ≡ pipesize → IsSound (start buf)
start-IsSound buf h = record {
  valid = omega arith;
  writer_fits = tt;
  reader_fits = λ b. tt;
  in_order = λ b. refl;
}

-- In every state that turns of one writer and one reader reach from a new pipe, as long as no write
-- failed, what the reader was given, then the bytes in the pipe, then those that a write in progress
-- has left, are the bytes passed to `pipewrite`: none is lost, repeated or moved.
pub stream_in_order :
    (buf : List ℕ) {s : System}
    → length buf ≡ pipesize
    → Reach (start buf) s
    → s.broken ≡ false
    → s.got ++ (contents s.pipe ++ pending s.writer) ≡ s.sent
stream_in_order buf h r b = (Reach-IsSound (start-IsSound buf h) r).in_order b

abbrev pub is_asleep : {A : Type 0} → Task A → Bool
is_asleep idle = false
is_asleep (runnable a) = false
is_asleep (sleeping c a) = true

full_of :
    (p : Pipe) (w : Task (ℕ × List ℕ)) → WriterFits p w → is_asleep w ≡ true → count p ≡ pipesize
full_of p idle f h = absurd (cc h)
full_of p (runnable w) f h = absurd (cc h)
full_of p (sleeping c w) f h = f.1

empty_of : (p : Pipe) (r : Task ℕ) → ReaderFits p r → is_asleep r ≡ true → count p ≡ 0
empty_of p idle f h = absurd (cc h)
empty_of p (runnable n) f h = absurd (cc h)
empty_of p (sleeping c n) f h = f.1

-- In every state that turns of one writer and one reader reach from a new pipe, as long as no write failed, the
-- writer sleeps only while the pipe is full and the reader only while it is empty; so they are not both asleep.
pub asleep_for_cause :
    (buf : List ℕ) {s : System}
    → length buf ≡ pipesize
    → Reach (start buf) s
    → s.broken ≡ false
    → (is_asleep s.writer ≡ true → length (contents s.pipe) ≡ pipesize)
      × (is_asleep s.reader ≡ true → contents s.pipe ≡ [])
      × ((is_asleep s.writer && is_asleep s.reader) ≡ false)
asleep_for_cause buf {s} h r b =
    let i = Reach-IsSound (start-IsSound buf h) r in
    let full = full_of s.pipe s.writer i.writer_fits in
    let bare = empty_of s.pipe s.reader (i.reader_fits b) in
    (
      λ w. length-contents s.pipe ∙ full w,
      λ w. length_zero (contents s.pipe) (length-contents s.pipe ∙ bare w),
      elim (Bool-cases (is_asleep s.writer && is_asleep s.reader)) [
        | inr e ↦ e
        | inl e ↦
            let w : is_asleep s.writer ≡ true = ground (arith, e) in
            let d : is_asleep s.reader ≡ true = ground (arith, e) in
            absurd (omega (arith, full w, bare d))
      ],
    )
  where
    length_zero : (xs : List ℕ) → length xs ≡ 0 → xs ≡ []
    length_zero [] e = refl
    length_zero (x ∷ xs) e = absurd (omega (arith, e))
