-- ===== src/Prelude/Integers.antt =====
-- The integers over the native natural numbers, as far as the models need them.
use Prim.Native.Nat.{ℕ, ◌-◌}
use nunix.Prelude.Tests.{leb, if◌then◌else◌}

pub data ℤ : Type 0 where
  pos negsuc : ℕ → ℤ

infixl 60 ◌-ℤ◌
abbrev pub ◌-ℤ◌ : ℕ → ℕ → ℤ
a -ℤ b = if leb b a then pos (a - b) else negsuc (b - a - 1)
