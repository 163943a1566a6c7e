-- ===== src/Grep/Tests.antt =====
-- The matcher of grep.c at small patterns and texts.
use nunix.Prelude.{ℕ, ◌≡◌, ◌↔◌, refl, true, false, List, [], ◌∷◌}
use nunix.Grep.{match, matchhere}
use nunix.Grep.Search.{Occurs, match-Occurs}

-- a.*c$
abbrev pattern_ac : List ℕ
pattern_ac = b'a' ∷ b'.' ∷ b'*' ∷ b'c' ∷ b'$' ∷ []

-- xabcbc
abbrev xabcbc : List ℕ
xabcbc = b'x' ∷ b'a' ∷ b'b' ∷ b'c' ∷ b'b' ∷ b'c' ∷ []

backtracks : match pattern_ac xabcbc ≡ true
unfolding match matchhere
backtracks = refl

caret_binds : match (b'^' ∷ pattern_ac) xabcbc ≡ false
unfolding match matchhere
caret_binds = refl

match-Occurs_example : (match pattern_ac xabcbc ≡ true) ↔ Occurs pattern_ac xabcbc
match-Occurs_example = match-Occurs pattern_ac xabcbc
