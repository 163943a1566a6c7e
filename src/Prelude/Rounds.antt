-- ===== src/Prelude/Rounds.antt =====
-- `for(i = 0; i < n; i++) body`: the state after `n` rounds, each of which is given its index.
use Prim.Native.Nat.{ℕ, zero, suc, ◌<◌}
use mathlib.Core.Path.{◌≡◌, ◌∙◌, ap}
use mathlib.Core.Logic.{inl, inr}
use nunix.Prelude.Tests.{◌==◌, ==→eq, Bool-cases, ltb, if◌then◌else◌}
use native.Mathlib.Omega.{arith}

abbrev pub for_upto {ℓ} : {S : Type ℓ} → ℕ → (ℕ → S → S) → S → S
for_upto zero body s = s
for_upto (suc n) body s = body n (for_upto n body s)

-- The rule of the loop: what every round keeps holds at the end.
pub for_upto_inv {ℓ κ} :
    {S : Type ℓ} (P : ℕ → S → Type κ) (body : ℕ → S → S) (n : ℕ)
    → ((i : ℕ) (s : S) → i < n → P i s → P (suc i) (body i s))
    → (s : S) → P 0 s
    → P n (for_upto n body s)
for_upto_inv P body zero keep s h = h
for_upto_inv P body (suc n) keep s h =
    keep n (for_upto n body s) (omega arith)
      (for_upto_inv P body n (λ i t l. keep i t (omega arith)) s h)

-- A loop over an array whose round `k` puts `f` of slot `k` there does so at each index below `n`.
pub for_upto-pointwise {ℓ} :
    {A : Type ℓ} (body : ℕ → (ℕ → A) → ℕ → A) (f : A → A)
    → ((k : ℕ) (u : ℕ → A) (j : ℕ) → body k u j ≡ (if k == j then f (u k) else u j))
    → (n : ℕ) (t : ℕ → A) (i : ℕ) → for_upto n body t i ≡ (if ltb i n then f (t i) else t i)
for_upto-pointwise body f h zero t i = ground arith
for_upto-pointwise body f h (suc n) t i = elim (Bool-cases (n == i)) [
  | inl e ↦
      h n (for_upto n body t) i
      ∙ rw e (
          ap f (for_upto-pointwise body f h n t n ∙ ground arith ∙ ap t (==→eq n i e))
          ∙ ground arith)
  | inr e ↦ h n (for_upto n body t) i ∙ rw e (for_upto-pointwise body f h n t i ∙ ground arith)
]
