-- ===== src/Console/Tests.antt =====
-- The console at concrete keys.
use nunix.Prelude.{◌≡◌, refl, false, List, [], ◌∷◌}
use nunix.Console.{
  kill_line, store_key, key, consoleintr, returned, asleep, read_line, consputc, wakeup,
}
use nunix.Console.Calls.{
  Call, interrupt, reader, Reply, shown, moved, serve, serve_all, answer, answer_all, booted,
  serve_all-answer_all,
}

-- "ax", a backspace, a return, and a reader before and after them.
abbrev session : List Call
session = reader false 5 5 ∷ interrupt (97 ∷ 120 ∷ 8 ∷ 13 ∷ []) ∷ reader false 5 5 ∷ []

abbrev replies : List Reply
replies =
    moved [] (asleep 5)
    ∷ shown (consputc 97 ∷ consputc 120 ∷ consputc 256 ∷ consputc 10 ∷ wakeup ∷ [])
    ∷ moved (97 ∷ 10 ∷ []) returned
    ∷ []

short_session : serve_all session (booted (λ i. 0)) ≡ replies
unfolding serve_all serve consoleintr key store_key kill_line read_line
short_session = refl

serve_all-answer_all_example : serve_all session (booted (λ i. 0)) ≡ replies
unfolding answer_all answer
serve_all-answer_all_example = serve_all-answer_all session (λ i. 0)
