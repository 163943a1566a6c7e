-- ===== src/Traps/Tests.antt =====
-- The theorem on trap.c at a clock tick that interrupts a process in user mode.
use nunix.Prelude.{ℕ, ◌+◌, ◌≡◌, ◌==◌, refl, true, false, if◌then◌else◌, none, some, []}
use nunix.Proc.Table.{Proc, running, nowhere}
use nunix.Traps.{
  TrapCalls, trap, trap_syscall, dispatch, if_killed, yield_on_tick, is_killed, trap-alive,
}

abbrev interrupted : Proc
interrupted = record {
  sz = 4096;
  pgdir = 1;
  kstack = 1;
  state = running;
  pid = 3;
  parent = none;
  tf = λ i. 0;
  context = λ i. 0;
  returns_to = 0;
  chan = nowhere;
  killed = false;
  ofile = λ i. 0;
  cwd = 0;
  name = [];
  trace_flag = false;
  total_sys_call = 0;
}

-- A kernel of one process, which takes turns with itself.
abbrev alone : TrapCalls Proc
alone = record {
  proc = λ p. some p;
  set_proc = λ q p. q;
  first_cpu = true;
  exit = λ p. p;
  syscall = λ p. p;
  tick = λ p. p;
  ideintr = λ p. p;
  kbdintr = λ p. p;
  uartintr = λ p. p;
  lapiceoi = λ p. p;
  yield = λ p. record p { pid = p.pid + 1 };
}

abbrev tick_frame : ℕ → ℕ
tick_frame i = if i == 12 then 32 else if i == 15 then 27 else 0

trap-alive_example : is_killed alone (record interrupted { pid = 4 }) ≡ false
unfolding trap trap_syscall dispatch if_killed yield_on_tick
trap-alive_example =
    trap-alive alone tick_frame interrupted (record interrupted { pid = 4 }) refl refl
