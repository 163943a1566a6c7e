-- ===== src/Calls/Tests.antt =====
-- The theorems on syscall.c at a process of one page, whose stack holds an argument.
use nunix.Prelude.{◌+◌, ◌≤◌, ◌≡◌, refl, true, false, update, some, [], arith}
use nunix.Memory.{Bytes}
use nunix.Proc.Table.{running, Proc, nowhere}
use nunix.Calls.{fetchint, argptr, argint}
use nunix.Calls.Arguments.{argptr-within}

-- It is traced, and its stack pointer is 4000.
abbrev caller : Proc
caller = record {
  sz = 4096;
  pgdir = 1;
  kstack = 1;
  state = running;
  pid = 3;
  parent = some 0;
  tf = update (λ word. 0) 17 4000;
  context = λ word. 0;
  returns_to = 0;
  chan = nowhere;
  killed = false;
  ofile = λ fd. 0;
  cwd = 1;
  name = [];
  trace_flag = true;
  total_sys_call = 4294967295;
}

-- the number 4090 at the first argument's place
abbrev stack : Bytes
stack = update (update (λ a. 0) 4004 250) 4005 15

argptr-within_example : 4090 + 6 ≤ caller.sz
unfolding argptr argint fetchint
argptr-within_example = argptr-within caller stack 0 6 4090 (omega arith) (omega arith) refl

-- A size of -50 passes.
negative_size_passes : argptr caller stack 0 4294967246 ≡ some 4090
unfolding argptr argint fetchint
negative_size_passes = refl
