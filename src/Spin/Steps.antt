-- ===== src/Spin/Steps.antt =====
-- One lock, any number of processors, and the steps of `acquire` and `release` that they interleave.
use nunix.Prelude.{ℕ, ◌+◌, ◌-◌, ◌<◌, ◌≡◌, Bool, true, false, update, ok}
use nunix.Spin.{
  Spinlock, Cpu, initlock, acquire_begin, acquire_end, xchg, release_begin, release_end, pushcli,
  popcli,
}

-- where a processor is in `acquire` and `release`
pub data Place : Type 0 where
  outside spinning entering inside leaving : Place

abbrev pub is_outside : Place → Bool
is_outside outside = true
is_outside p = false

abbrev pub is_spinning : Place → Bool
is_spinning spinning = true
is_spinning p = false

abbrev pub is_inside : Place → Bool
is_inside inside = true
is_inside p = false

abbrev pub is_leaving : Place → Bool
is_leaving leaving = true
is_leaving p = false

-- from the `xchg` that takes the lock to the one that gives it back
abbrev pub owns : Place → Bool
owns entering = true
owns inside = true
owns leaving = true
owns p = false

-- One lock and the processors; `others` counts the calls of `pushcli` that a processor has open for other locks.
pub record System : Type 0 where
  pub lock : Spinlock
  pub cpus : ℕ → Cpu
  pub place : ℕ → Place
  pub others : ℕ → ℕ

-- `me` is the processor that takes the step. `pushed` and `popped` are calls of `pushcli` and `popcli` for other locks, `switched` is `sti` and
-- `cli` where none is open, and `restored` is what `sched` does to `intena`.
pub data Step (s : System) : System → Type 0 where
  begun :
      (me : ℕ) (k : Cpu)
      → is_outside (s.place me) ≡ true
      → acquire_begin me s.lock (s.cpus me) ≡ ok k
      → Step s (record s { cpus = update s.cpus me k; place = update s.place me spinning })
  spun :
      (me : ℕ)
      → is_spinning (s.place me) ≡ true
      → (xchg true s.lock).0 ≡ true
      → Step s (record s { lock = (xchg true s.lock).1 })
  took :
      (me : ℕ)
      → is_spinning (s.place me) ≡ true
      → (xchg true s.lock).0 ≡ false
      → Step s (record s { lock = (xchg true s.lock).1; place = update s.place me entering })
  entered :
      (me : ℕ)
      → s.place me ≡ entering
      → Step s (record s { lock = acquire_end me s.lock; place = update s.place me inside })
  left :
      (me : ℕ) (lk : Spinlock)
      → is_inside (s.place me) ≡ true
      → release_begin me s.lock ≡ ok lk
      → Step s (record s { lock = lk; place = update s.place me leaving })
  freed :
      (me : ℕ) (lk : Spinlock) (k : Cpu)
      → s.place me ≡ leaving
      → release_end s.lock (s.cpus me) ≡ ok (lk, k)
      → Step s
          (record s { lock = lk; cpus = update s.cpus me k; place = update s.place me outside })
  pushed :
      (me : ℕ)
      → Step s (record s {
        cpus = update s.cpus me (pushcli (s.cpus me));
        others = update s.others me (s.others me + 1);
      })
  popped :
      (me : ℕ) (k : Cpu)
      → 0 < s.others me
      → popcli (s.cpus me) ≡ ok k
      → Step s
          (record s { cpus = update s.cpus me k; others = update s.others me (s.others me - 1) })
  switched :
      (me : ℕ) (on : Bool)
      → (s.cpus me).ncli ≡ 0
      → Step s (record s { cpus = update s.cpus me (record (s.cpus me) { interrupts = on }) })
  restored :
      (me : ℕ) (on : Bool)
      → Step s (record s { cpus = update s.cpus me (record (s.cpus me) { intena = on }) })

pub data Reach (s : System) : System → Type 0 where
  start : Reach s s
  step : {a b : System} → Reach s a → Step a b → Reach s b

-- the lock when the kernel starts
abbrev pub started : (ℕ → Cpu) → System
started cpus = record { lock = initlock; cpus = cpus; place = λ c. outside; others = λ c. 0 }
