-- ===== src/Console/Calls.antt =====
-- The console in use: interrupts with keys and turns of readers, in any order.
use nunix.Prelude.{ℕ, ◌≡◌, refl, Bool, List, [], ◌∷◌, arith, ap, ap₂}
use nunix.Console.{Input, Effect, consoleintr, Outcome, read_line}
use nunix.Console.Lines.{Shows}
use nunix.Console.Editor.{edit_all, Follows, consoleintr-edit_all}
use nunix.Console.Reader.{take_line, read_line-take_line}

-- A call of `consoleintr` with the keys that came, or a turn of `consoleread` with `left` bytes of `target` left to read.
pub data Call : Type 0 where
  interrupt : List ℕ → Call
  reader : (killed : Bool) (target left : ℕ) → Call

pub data Reply : Type 0 where
  shown : List Effect → Reply
  moved : List ℕ → Outcome → Reply

unfoldable pub serve : Call → Input → Input × Reply
serve (interrupt keys) s = let (s', out) = consoleintr keys s in (s', shown out)
serve (reader killed target left) s =
    let (bs, s', o) = read_line killed target left s in (s', moved bs o)

unfoldable pub serve_all : List Call → Input → List Reply
unfolding serve
serve_all [] s = []
serve_all (c ∷ cs) s = let (s', r) = serve c s in r ∷ serve_all cs s'

-- The same calls on a line editor, with the bytes that are ready and the line.
unfoldable pub answer : Call → List ℕ → List ℕ → List ℕ × List ℕ × Reply
answer (interrupt keys) q l = let (q', l', out) = edit_all keys q l in (q', l', shown out)
answer (reader killed target left) q l =
    let (bs, q', o) = take_line killed target left q in (q', l, moved bs o)

unfoldable pub answer_all : List Call → List ℕ → List ℕ → List Reply
unfolding answer
answer_all [] q l = []
answer_all (c ∷ cs) q l = let (q', l', r) = answer c q l in r ∷ answer_all cs q' l'

serve-answer :
    (c : Call) (s : Input) (q l : List ℕ)
    → Shows s q l
    → Shows (serve c s).0 (answer c q l).0 (answer c q l).1 × ((serve c s).1 ≡ (answer c q l).2)
unfolding serve answer Follows
serve-answer (interrupt keys) s q l h =
    let (h', out) = consoleintr-edit_all keys s q l h in (h', ap shown out)
serve-answer (reader killed target left) s q l h =
    let (bytes, h', o) = read_line-take_line killed target left s q l h in (h', ap₂ moved bytes o)

serve_all-from :
    (cs : List Call) (s : Input) (q l : List ℕ) → Shows s q l → serve_all cs s ≡ answer_all cs q l
unfolding serve_all answer_all
serve_all-from [] s q l h = refl
serve_all-from (c ∷ cs) s q l h =
    let (h', same) = serve-answer c s q l h in
    ap₂ (λ r rs. r ∷ rs) same (serve_all-from cs (serve c s).0 (answer c q l).0 (answer c q l).1 h')

-- `input` at boot, with what stands in `buf`
abbrev pub booted : (ℕ → ℕ) → Input
booted buf = record { buf = buf; r = 0; w = 0; e = 0 }

booted-Shows : (buf : ℕ → ℕ) → Shows (booted buf) [] []
booted-Shows buf = record {
  holds = record {
    read_word = omega arith;
    fits = omega arith;
    committed = refl;
    edited = refl;
    ready = refl;
    line = refl;
  };
  unbroken = tt;
}

-- From boot on, in every sequence of interrupts and readers' turns, each interrupt writes, erases, wakes and lists what the line editor does,
-- and each turn of a reader moves the bytes that the editor has ready for it and ends as it does.
pub serve_all-answer_all :
    (cs : List Call) (buf : ℕ → ℕ) → serve_all cs (booted buf) ≡ answer_all cs [] []
serve_all-answer_all cs buf = serve_all-from cs (booted buf) [] [] (booted-Shows buf)
