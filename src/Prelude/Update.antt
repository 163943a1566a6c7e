-- ===== src/Prelude/Update.antt =====
-- Arrays and disks as functions of an index, and the write at one index.
use Prim.Native.Nat.{ℕ}
use mathlib.Core.Path.{◌≡◌, refl, sym, ap}
use mathlib.Core.Logic.{inl, inr}
use mathlib.Core.Bool.{Bool, true, false}
use nunix.Prelude.Tests.{◌==◌, ==→eq, Bool-cases, if◌then◌else◌}

abbrev pub update {ℓ} : {A : Type ℓ} → (ℕ → A) → ℕ → A → ℕ → A
update f i v j = if i == j then v else f j

-- A write that is made under a test.
pub update_if {ℓ} :
    {A : Type ℓ} (b : Bool) (f : ℕ → A) (k : ℕ) (v : A) (j : ℕ)
    → (if b then update f k v else f) j ≡ (if k == j then (if b then v else f k) else f j)
update_if true f k v j = refl
update_if false f k v j = elim (Bool-cases (k == j)) [
  | inl e ↦ rw e (sym (ap f (==→eq k j e)))
  | inr e ↦ rw e
]
