-- ===== src/Spin.antt =====
-- spinlock.c: the locks of the kernel, and the interrupts that they hold off. A step is what a processor does at once: the
-- `xchg` of `acquire` and the writes before and after it are steps of their own.
pub mod Nesting
pub mod Steps
pub mod Masks
pub mod Exclusion
mod Tests
use nunix.Prelude.{
  ℕ, zero, suc, ◌+◌, ◌-◌, Bool, true, false, ◌&&◌, ◌||◌, not, Option, none, some, ◌==◌, ltb,
  if◌then◌else◌, update, Result, ok, panic, ◌>>=◌,
}

-- `struct spinlock`, less what it keeps for debugging; `cpu` is `lk->cpu`.
pub record Spinlock : Type 0 where
  pub locked : Bool
  pub cpu : Option ℕ

-- What `struct cpu` keeps of `pushcli`, and the flag FL_IF of the processor.
pub record Cpu : Type 0 where
  pub ncli : ℕ
  pub intena : Bool
  pub interrupts : Bool

abbrev pub initlock : Spinlock
initlock = record { locked = false; cpu = none }

pub pushcli : Cpu → Cpu
pushcli c = record c {
  interrupts = false;
  ncli = c.ncli + 1;
  intena = if c.ncli == 0 then c.interrupts else c.intena;
}

pub popcli : Cpu → Result Cpu
popcli c =
    if c.interrupts
    then panic "popcli - interruptible"
    else if c.ncli == 0
    then panic "popcli"
    else ok (record c { ncli = c.ncli - 1; interrupts = (c.ncli - 1 == 0) && c.intena })

abbrev pub is_cpu : Option ℕ → ℕ → Bool
is_cpu none me = false
is_cpu (some c) me = c == me

-- `holding(lock)` on the processor `me`
abbrev pub holding : ℕ → Spinlock → Bool
holding me lk = lk.locked && is_cpu lk.cpu me

-- `acquire` up to its loop
pub acquire_begin : ℕ → Spinlock → Cpu → Result Cpu
unfolding pushcli
acquire_begin me lk c = if holding me lk then panic "acquire" else ok (pushcli c)

-- `xchg(&lk->locked, v)`: the value before, and the lock.
abbrev pub xchg : Bool → Spinlock → Bool × Spinlock
xchg v lk = (lk.locked, record lk { locked = v })

-- `lk->cpu = cpu`
abbrev pub acquire_end : ℕ → Spinlock → Spinlock
acquire_end me lk = record lk { cpu = some me }

-- `release` up to its `xchg`
pub release_begin : ℕ → Spinlock → Result Spinlock
release_begin me lk = if not (holding me lk) then panic "release" else ok (record lk { cpu = none })

-- the `xchg` of `release` and the `popcli` after it
pub release_end : Spinlock → Cpu → Result (Spinlock × Cpu)
unfolding popcli
release_end lk c = do c' ← popcli c; ok ((xchg false lk).1, c')
