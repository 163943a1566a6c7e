-- ===== src/User/Tests.antt =====
-- The user library at small inputs.
use nunix.Prelude.{◌≡◌, refl, true, false, [], ◌∷◌, ◌++◌, arith}
use nunix.User.{printint, printf, conversion, digits, atoi, wc, count_byte}
use nunix.User.Numbers.{atoi-printint}

atoi-printint_example : atoi (printint 2040 10 true ++ (b';' ∷ b'7' ∷ [])) ≡ 2040
atoi-printint_example = atoi-printint 2040 (b';' ∷ b'7' ∷ []) (omega arith) refl

-- "%d%%"
prints_negative :
    printf (λ p. []) (b'%' ∷ b'd' ∷ b'%' ∷ b'%' ∷ []) (λ i. 4294967254)
    ≡ b'-' ∷ b'4' ∷ b'2' ∷ b'%' ∷ []
unfolding printf conversion printint digits
prints_negative = refl

-- "a b\n"
counts_words :
    wc (b'a' ∷ 32 ∷ b'b' ∷ 10 ∷ []) (record { l = 0; w = 0; c = 0; inword = false })
    ≡ record { l = 1; w = 2; c = 4; inword = false }
unfolding wc count_byte
counts_words = refl
