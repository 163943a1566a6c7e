-- ===== src/Console/Editor.antt =====
-- The console as a line editor: `consoleintr` against what a key does to a line.
use nunix.Prelude.{
  ℕ, ◌+◌, ◌<◌, ◌≡◌, refl, Bool, true, false, not, ◌&&◌, ◌||◌, ◌==◌, ltb, if◌then◌else◌, List, [],
  ◌∷◌, ◌++◌, length, replicate, inl, inr, arith, Bool-cases, ap₂, All,
}
use nunix.Console.{
  Input, input_buf, plus_uint, minus_uint, Effect, consputc, wakeup, procdump, backspace, newline,
  delete, ctrl_d, ctrl_h, ctrl_p, ctrl_u, store_key, translated, key, consoleintr,
}
use nunix.Console.Lines.{
  Holds, Shows, IsWithin, init, push-Holds, commit-Holds, pop-Holds, ends_apart, ends_meet,
  init-IsWithin, kill_line-Holds,
}

-- What backspace does to a line.
abbrev pub rub : List ℕ → List ℕ → List ℕ × List ℕ × List Effect
rub q [] = (q, [], [])
rub q (x ∷ l) = (q, init (x ∷ l), consputc backspace ∷ [])

-- What a byte does to a line: newline, end of file and the last free byte hand the line to the readers.
abbrev pub add : ℕ → List ℕ → List ℕ → List ℕ × List ℕ × List Effect
add c q l =
    if (c == newline) || (c == ctrl_d) || (length q + length l + 1 == input_buf)
    then (q ++ (l ++ (c ∷ [])), [], consputc c ∷ wakeup ∷ [])
    else (q, l ++ (c ∷ []), consputc c ∷ [])

-- A line editor: what a key does to the bytes that are ready and to the line, and what it shows.
abbrev pub edit : ℕ → List ℕ → List ℕ → List ℕ × List ℕ × List Effect
edit c q l =
    if c == ctrl_p
    then (q, l, procdump ∷ [])
    else if c == ctrl_u
    then (q, [], replicate (length l) (consputc backspace))
    else if (c == ctrl_h) || (c == delete)
    then rub q l
    else if not (c == 0) && ltb (length q + length l) input_buf
    then add (translated c) q l
    else (q, l, [])

-- A step of the buffer with its effects, against one of the editor.
unfoldable pub Follows : Input × List Effect → List ℕ × List ℕ × List Effect → Type 0
Follows (s, out) (q, l, out') = Shows s q l × (out ≡ out')

snoc-IsWithin : (l : List ℕ) (c : ℕ) → All IsWithin l → IsWithin c → All IsWithin (l ++ (c ∷ []))
snoc-IsWithin [] c h k = (k, tt)
snoc-IsWithin (x ∷ l) c h k = (h.0, snoc-IsWithin l c h.1 k)

or_first : (a b : Bool) → (a || b) ≡ false → a ≡ false
or_first true b h = h
or_first false b h = refl

store_key-Follows :
    (s : Input) (q l : List ℕ) (c : ℕ)
    → Shows s q l
    → length q + length l < input_buf
    → Follows (store_key c s) (add c q l)
unfolding store_key Follows
store_key-Follows s q l c h room =
    let held = h.holds in
    let full : (plus_uint s.e 1 == plus_uint s.r input_buf)
        ≡ (length q + length l + 1 == input_buf) =
      full_test s q l held room in
    let pushed = push-Holds s q l c held room in
    elim (Bool-cases ((c == newline) || (c == ctrl_d) || (length q + length l + 1 == input_buf))) [
      | inl e ↦
          rw (store_key, full, e)
            (record { holds = commit-Holds _ q (l ++ (c ∷ [])) pushed; unbroken = tt }, refl)
      | inr e ↦
          rw (store_key, full, e)
            (
              record {
                holds = pushed;
                unbroken = snoc-IsWithin l c h.unbroken (
                    or_first (c == newline) (c == ctrl_d)
                      (or_first _ (length q + length l + 1 == input_buf) e));
              },
              refl,
            )
    ]
  where
    full_test :
        (s : Input) (q l : List ℕ)
        → Holds s q l
        → length q + length l < input_buf
        → (plus_uint s.e 1 == plus_uint s.r input_buf) ≡ (length q + length l + 1 == input_buf)
    full_test s q l h room =
        let a = h.committed in let b = h.edited in let c = h.read_word in ground arith

held_count : (s : Input) (q l : List ℕ) → Holds s q l → minus_uint s.e s.r ≡ length q + length l
held_count s q l h =
    let a = h.committed in let b = h.edited in let c = h.read_word in let d = h.fits in omega arith

has_room : (b : Bool) (n : ℕ) → (b && ltb n input_buf) ≡ true → n < input_buf
has_room b n h = ground arith

key-Follows : (s : Input) (q l : List ℕ) (c : ℕ) → Shows s q l → Follows (key c s) (edit c q l)
unfolding key Follows
key-Follows s q l c h = elim (Bool-cases (c == ctrl_p)) [
  | inl e ↦ rw (key, e) (h, refl)
  | inr e ↦ elim (Bool-cases (c == ctrl_u)) [
    | inl e1 ↦
        let (held, out) = kill_line-Holds input_buf s q l h.holds h.unbroken (omega arith) in
        rw (key, e, e1) (record { holds = held; unbroken = tt }, out)
    | inr e1 ↦ elim (Bool-cases ((c == ctrl_h) || (c == delete))) [
      | inl e2 ↦ rw (key, e, e1, e2) (rub_out s q l h)
      | inr e2 ↦ elim (Bool-cases (not (c == 0) && ltb (length q + length l) input_buf)) [
        | inl e3 ↦
            rw (key, e, e1, e2, held_count s q l h.holds, e3)
              (store_key-Follows s q l (translated c) h
                (has_room (not (c == 0)) (length q + length l) e3))
        | inr e3 ↦ rw (key, e, e1, e2, held_count s q l h.holds, e3) (h, refl)
      ]
    ]
  ]
]
  where
    rub_out :
        (s : Input) (q l : List ℕ)
        → Shows s q l
        → Follows
            (if s.e == s.w
              then (s, [])
              else (record s { e = minus_uint s.e 1 }, consputc backspace ∷ []))
            (rub q l)
    rub_out s q [] h = rw (ends_meet s q h.holds) (h, refl)
    rub_out s q (x ∷ l) h = rw (ends_apart s q x l h.holds) (
      record { holds = pop-Holds s q x l h.holds; unbroken = init-IsWithin (x ∷ l) h.unbroken },
      refl,
    )

-- The editor on a sequence of keys.
abbrev pub edit_all : List ℕ → List ℕ → List ℕ → List ℕ × List ℕ × List Effect
edit_all [] q l = (q, l, [])
edit_all (c ∷ cs) q l =
    let (q1, l1, out) = edit c q l in
    let (q2, l2, rest) = edit_all cs q1 l1 in (q2, l2, out ++ rest)

-- When the buffer shows some ready bytes and a line without a newline, `consoleintr` on any keys does what the line editor does: the buffer
-- then shows the bytes and the line of the editor, and the same was written, erased, woken and listed.
pub consoleintr-edit_all :
    (keys : List ℕ) (s : Input) (q l : List ℕ)
    → Shows s q l
    → Follows (consoleintr keys s) (edit_all keys q l)
unfolding consoleintr Follows
consoleintr-edit_all [] s q l h = (h, refl)
consoleintr-edit_all (c ∷ cs) s q l h =
    let (h1, out) = key-Follows s q l c h in
    let (h2, rest) = consoleintr-edit_all cs (key c s).0 (edit c q l).0 (edit c q l).1 h1 in
    (h2, ap₂ (λ x y. x ++ y) out rest)
