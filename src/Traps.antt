-- ===== src/Traps.antt =====
-- trap.c: what `trap` does with the trap frame of an interrupt, an exception or a system call.
mod Tests
use nunix.Prelude.{
  ℕ, ◌%◌, ◌≡◌, ◌⊎◌, refl, Bool, true, false, not, ◌&&◌, ◌||◌, ◌==◌, if◌then◌else◌, update, Result,
  ok, panic, ◌>>=◌, Option, none, some, inl, inr, Bool-cases, ap, sym, ◌∙◌,
}
use nunix.Proc.Table.{Proc, is_running}

-- words of the trap frame
abbrev pub trapno : ℕ
trapno = 12

abbrev pub cs : ℕ
cs = 15

-- `(tf->cs & 3) == DPL_USER`
abbrev pub is_user : (ℕ → ℕ) → Bool
is_user tf = tf cs % 4 == 3

-- `trap` returns, or `exit` has taken the processor for good.
pub data After (W : Type 0) : Type 0 where
  returned : W → After W
  exited : W → After W

-- What `trap` calls, over the state of the kernel; `proc` is the process of this processor.
pub record TrapCalls (W : Type 0) : Type 0 where
  pub proc : W → Option Proc
  pub set_proc : Proc → W → W
  pub first_cpu : Bool
  pub exit : W → W
  pub syscall : W → W
  pub tick : W → W
  pub ideintr : W → W
  pub kbdintr : W → W
  pub uartintr : W → W
  pub lapiceoi : W → W
  pub yield : W → W

module _ {W : Type 0} (calls : TrapCalls W) where
  abbrev pub is_killed : W → Bool
  is_killed w = elim (calls.proc w) [ none ↦ false | some p ↦ p.killed ]

  -- `exit` for a process that has been killed, where the test holds
  pub if_killed : Bool → W → After W
  if_killed there w = if is_killed w && there then exited (calls.exit w) else returned w

  abbrev pub on : (W → After W) → After W → After W
  on f (returned w) = f w
  on f (exited w) = exited w

  -- `proc->tf = tf`
  abbrev pub set_tf : (ℕ → ℕ) → W → W
  set_tf tf w = elim (calls.proc w) [ none ↦ w | some p ↦ calls.set_proc (record p { tf = tf }) w ]

  -- The branch of T_SYSCALL.
  pub trap_syscall : (ℕ → ℕ) → W → After W
  unfolding if_killed
  trap_syscall tf w = on (λ w1. if_killed true (calls.syscall (set_tf tf w1))) (if_killed true w)

  -- The `switch`; `ticks++` with its `wakeup` is `tick`.
  pub dispatch : (ℕ → ℕ) → W → Result W
  dispatch tf w =
      let n = tf trapno in
      if n == 32
      then ok (calls.lapiceoi (if calls.first_cpu then calls.tick w else w))
      else if n == 46
      then ok (calls.lapiceoi (calls.ideintr w))
      else if n == 47
      then ok w
      else if n == 33
      then ok (calls.lapiceoi (calls.kbdintr w))
      else if n == 36
      then ok (calls.lapiceoi (calls.uartintr w))
      else if n == 39 || n == 63
      then ok (calls.lapiceoi w)
      else (elim (calls.proc w) [
        | none ↦ panic "trap"
        | some p ↦
            if tf cs % 4 == 0
            then panic "trap"
            else ok (calls.set_proc (record p { killed = true }) w)
      ])

  pub yield_on_tick : (ℕ → ℕ) → W → W
  yield_on_tick tf w = elim (calls.proc w) [
    | none ↦ w
    | some p ↦ if is_running p.state && (tf trapno == 32) then calls.yield w else w
  ]

  pub trap : (ℕ → ℕ) → W → Result (After W)
  unfolding trap_syscall dispatch if_killed yield_on_tick
  trap tf w = if tf trapno == 64 then ok (trap_syscall tf w) else (do
    w1 ← dispatch tf w
    ok (on (λ w2. if_killed (is_user tf) (yield_on_tick tf w2)) (if_killed (is_user tf) w1)))

  -- Nothing passes the test for a killed process.
  if_killed-alive :
      (there : Bool) (w w' : W)
      → there ≡ true
      → if_killed there w ≡ returned w'
      → is_killed w' ≡ false
  unfolding if_killed
  if_killed-alive there w w' h e = elim (Bool-cases (is_killed w)) [
    | inl k ↦ absurd (cc (rw (if_killed, k, h) at e))
    | inr k ↦ let same : w ≡ w' = cc (rw (if_killed, k) at e) in ap is_killed (sym same) ∙ k
  ]

  -- The second of two such tests is passed.
  on-alive :
      (f : W → W) (there : Bool) (a : After W) (w' : W)
      → there ≡ true
      → on (λ w. if_killed there (f w)) a ≡ returned w'
      → is_killed w' ≡ false
  on-alive f there (returned w) w' h e = if_killed-alive there (f w) w' h e
  on-alive f there (exited w) w' h e = absurd (cc e)

  returned_by : (a b : After W) → ok a ≡ ok b → a ≡ b
  returned_by a b e = cc e

  after_dispatch :
      (tf : ℕ → ℕ) (r : Result W) (w' : W)
      → is_user tf ≡ true
      → (r >>= (λ w1.
          ok (on (λ w2. if_killed (is_user tf) (yield_on_tick tf w2)) (if_killed (is_user tf) w1))))
        ≡ ok (returned w')
      → is_killed w' ≡ false
  after_dispatch tf (ok w1) w' user e =
      on-alive (yield_on_tick tf) (is_user tf) (if_killed (is_user tf) w1) w' user (
        returned_by
          (on (λ w2. if_killed (is_user tf) (yield_on_tick tf w2)) (if_killed (is_user tf) w1))
          (returned w') e)
  after_dispatch tf (panic m) w' user e = absurd (cc e)

  -- Whatever `trap` calls, when it returns to user mode the process has not been killed: `exit` has taken a killed process before.
  pub trap-alive :
      (tf : ℕ → ℕ) (w w' : W)
      → is_user tf ≡ true
      → trap tf w ≡ ok (returned w')
      → is_killed w' ≡ false
  unfolding trap trap_syscall
  trap-alive tf w w' user e = elim (Bool-cases (tf trapno == 64)) [
    | inl y ↦
        on-alive (λ w1. calls.syscall (set_tf tf w1)) true (if_killed true w) w' refl
          (returned_by (trap_syscall tf w) (returned w') (rw (trap, y) at e))
    | inr n ↦ after_dispatch tf (dispatch tf w) w' user (rw (trap, n) at e)
  ]
