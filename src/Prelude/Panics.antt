-- ===== src/Prelude/Panics.antt =====
-- What a kernel function leaves: its result, or the message that it panics with.
use Prim.Native.String.{String}
use mathlib.Core.Path.{◌≡◌, refl, ap, ◌∙◌}

pub data Result {ℓ} (A : Type ℓ) : Type ℓ where
  ok : A → Result A
  panic : String → Result A

infixl 5 ◌>>=◌
abbrev pub ◌>>=◌ {ℓ κ} : {A : Type ℓ} {B : Type κ} → Result A → (A → Result B) → Result B
ok a >>= f = f a
panic m >>= f = panic m

pub ok-inj {ℓ} : {A : Type ℓ} {a b : A} → ok a ≡ ok b → a ≡ b
ok-inj {a} h = ap (λ r. elim r [ ok v ↦ v | panic m ↦ a ]) h

module _ {ℓ κ} {X : Type ℓ} {Y : Type κ} where
  -- A chain that returned did so in both of its parts.
  pub >>=-eq-ok :
      (first : Result X) (then_do : X → Result Y) {y : Y}
      → (first >>= then_do) ≡ ok y
      → (x : X) × (first ≡ ok x) × (then_do x ≡ ok y)
  >>=-eq-ok (panic message) then_do returned = cc
  >>=-eq-ok (ok x) then_do returned = (x, refl, returned)

  -- Two results that are equal, with what goes on equal on every value.
  pub >>=-congr :
      {m m' : Result X} {f f' : X → Result Y}
      → m ≡ m'
      → ((x : X) → f x ≡ f' x)
      → (m >>= f) ≡ (m' >>= f')
  >>=-congr {m = ok a} {m' = ok b} {f} {f'} e h = ap (λ r. r >>= f) e ∙ h b
  >>=-congr {m = ok a} {m' = panic t} {f} {f'} e h = cc
  >>=-congr {m = panic t} {m' = ok b} {f} {f'} e h = cc
  >>=-congr {m = panic t} {m' = panic u} {f} {f'} e h = ap (λ r. r >>= f') e
