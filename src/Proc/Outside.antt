-- ===== src/Proc/Outside.antt =====
-- What proc.c calls in the other parts of the kernel, over the state `W` that those keep.
use nunix.Prelude.{ℕ}

-- Pages, page directories, files and inodes are known by their addresses, and 0 is the null pointer, with
-- which `kalloc`, `copyuvm` and `setupkvm` fail. `inituvm` loads initcode, `namei_root` is `namei("/")`. `forkret` and `trapret` are the addresses of that code.
pub record Services (W : Type 0) : Type 0 where
  pub kalloc : W → ℕ × W
  pub kfree : ℕ → W → W
  pub copyuvm : ℕ → ℕ → W → ℕ × W
  pub freevm : ℕ → W → W
  pub filedup : ℕ → W → W
  pub idup : ℕ → W → W
  pub setupkvm : W → ℕ × W
  pub inituvm : ℕ → W → W
  pub namei_root : W → ℕ × W
  pub forkret : ℕ
  pub trapret : ℕ
