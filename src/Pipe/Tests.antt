-- ===== src/Pipe/Tests.antt =====
-- Runs of pipe.c, and the theorems about it at concrete pipes.
use nunix.Prelude.{
  ℕ, ◌-◌, ◌^◌, ◌≡◌, refl, true, false, List, [], ◌∷◌, ◌++◌, arith, ◌&&◌, length, replicate, set,
}
use nunix.Pipe.{Pipe, pipesize, pipewrite, piperead, read_chan, write_chan, asleep}
use nunix.Pipe.Window.{IsValid, contents}
use nunix.Pipe.Write.{Wrote, pipewrite-Wrote}
use nunix.Pipe.Read.{Read, piperead-Read}
use nunix.Pipe.Stream.{
  System, write_turn, read_turn, write_call, read_call, Reach, here, next, start,
}
use nunix.Pipe.Stream.Order.{pending, is_asleep, stream_in_order, asleep_for_cause}

abbrev zeros : List ℕ
zeros = replicate 512 0

-- The bytes 8 and 9, with both counters about to wrap or just wrapped.
abbrev wrapped : Pipe
wrapped = record {
  buf = set (set zeros 511 8) 0 9;
  nread = 2 ^ 32 - 1;
  nwrite = 1;
  readopen = true;
  writeopen = true;
}

contents-wrapped : contents wrapped ≡ 8 ∷ 9 ∷ []
contents-wrapped = refl

wrapped-IsValid : IsValid wrapped
wrapped-IsValid = omega arith

pipewrite-Wrote_example :
    Wrote false 3 wrapped (5 ∷ 6 ∷ 7 ∷ []) (pipewrite false wrapped (5 ∷ 6 ∷ 7 ∷ []))
pipewrite-Wrote_example = pipewrite-Wrote false (5 ∷ 6 ∷ 7 ∷ []) wrapped-IsValid

piperead-Read_example : Read false 1 wrapped (piperead false wrapped 1)
piperead-Read_example = piperead-Read false 1 wrapped-IsValid

-- A reader that is not killed goes to sleep on an empty pipe.
read_sleeps :
    (piperead false (record wrapped { nwrite = 2 ^ 32 - 1 }) 4).outcome ≡ asleep read_chan 4
unfolding piperead
read_sleeps = refl

-- A write of 600 bytes to an empty pipe sleeps with 88 left.
write_sleeps :
    (pipewrite false (record wrapped { nwrite = 2 ^ 32 - 1 }) (replicate 600 1)).outcome
    ≡ asleep write_chan (replicate 88 1)
unfolding pipewrite
write_sleeps = refl

abbrev wrote : System
wrote =
    write_turn (record (start zeros) { sent = 1 ∷ 2 ∷ 3 ∷ [] }) 3
      (pipewrite false (start zeros).pipe (1 ∷ 2 ∷ 3 ∷ []))

abbrev read : System
read = read_turn wrote (piperead false wrote.pipe 2)

Reach-read : Reach (start zeros) read
Reach-read = next (next here (write_call false (1 ∷ 2 ∷ 3 ∷ []) refl)) (read_call false 2 refl)

stream_in_order_example : read.got ++ (contents read.pipe ++ pending read.writer) ≡ 1 ∷ 2 ∷ 3 ∷ []
unfolding pipewrite piperead
stream_in_order_example = stream_in_order zeros refl Reach-read refl

-- The reader sleeps on the empty pipe.
abbrev waiting : System
waiting = read_turn (start zeros) (piperead false (start zeros).pipe 2)

Reach-waiting : Reach (start zeros) waiting
Reach-waiting = next here (read_call false 2 refl)

asleep_for_cause_example :
    (is_asleep waiting.writer ≡ true → length (contents waiting.pipe) ≡ pipesize)
    × (is_asleep waiting.reader ≡ true → contents waiting.pipe ≡ [])
    × ((is_asleep waiting.writer && is_asleep waiting.reader) ≡ false)
unfolding piperead
asleep_for_cause_example = asleep_for_cause zeros refl Reach-waiting refl
