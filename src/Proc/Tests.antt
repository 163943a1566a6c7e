-- ===== src/Proc/Tests.antt =====
-- The theorems on proc.c at a system that boots, forks once, and whose child exits.
use nunix.Prelude.{
  update, panic, ◌∷◌, ℕ, ◌+◌, ◌<◌, ◌≡◌, refl, true, false, none, some, [], arith, ok,
}
use nunix.Proc.Outside.{Services}
use nunix.Proc.Table.{unused, Proc, nowhere, proc_at, nproc, find_proc}
use nunix.Proc.Wakeup.{sleeps_on}
use nunix.Proc.Family.{is_alive}
use nunix.Proc.Reach.{
  Reach, Runs, IsSettled, reach-IsSettled, allocated, forked, exited, dispatched, start, step,
}
use nunix.Proc.Parents.{IsBlank, parents_live, dead_are_awaited, userinit-IsSettled}
use nunix.Proc.Turns.{leave_table-IsDead, wait-Waited, Waited, leave_table-Exited, Exited}
use nunix.Proc.{
  Kernel, userinit, allocproc, fork_into, dispatch, leave_table, call_fileclose, call_begin_op,
  call_iput, call_end_op, close_calls, exit_calls, wait, kill, kill_proc,
}

-- pages and directories are numbered from 1 on
abbrev counting : Services ℕ
counting = record {
  kalloc = λ w. (w, w + 1);
  kfree = λ p w. w;
  copyuvm = λ d s w. (w, w + 1);
  freevm = λ d w. w;
  filedup = λ f w. w;
  idup = λ i w. w;
  setupkvm = λ w. (w, w + 1);
  inituvm = λ d w. w;
  namei_root = λ w. (1, w);
  forkret = 11;
  trapret = 12;
}

abbrev no_proc : Proc
no_proc = record {
  sz = 0;
  pgdir = 0;
  kstack = 0;
  state = unused;
  pid = 0;
  parent = none;
  tf = λ word. 0;
  context = λ word. 0;
  returns_to = 0;
  chan = nowhere;
  killed = false;
  ofile = λ fd. 0;
  cwd = 0;
  name = [];
  trace_flag = false;
  total_sys_call = 0;
}

abbrev off : Kernel ℕ
off = record { procs = λ i. no_proc; nextpid = 1; initproc = 0; world = 1 }

abbrev off-IsBlank : IsBlank off.procs
off-IsBlank i l = (refl, refl)

abbrev booted : Kernel ℕ
booted = elim (userinit counting off) [ ok k ↦ k | panic m ↦ off ]

userinit-booted : userinit counting off ≡ ok booted
unfolding userinit allocproc find_proc
userinit-booted = refl

abbrev run : ℕ → Kernel ℕ → Kernel ℕ
run i k = record k { procs = elim (dispatch i k.procs) [ none ↦ k.procs | some t ↦ t ] }

-- `init` runs, forks, and the child runs.
abbrev with_child : Kernel ℕ
with_child = run 1 (fork_into counting 0 1 (allocproc counting (run 0 booted)).1).1

with_child-Reach : Reach counting booted with_child
unfolding userinit allocproc find_proc dispatch fork_into
with_child-Reach =
    step
      (step (step (step start (dispatched 0 _ refl)) allocated)
        (forked 0 1 (omega arith, refl) (omega arith) refl))
      (dispatched 1 _ refl)

with_child-Runs : Runs counting 1 with_child
unfolding userinit allocproc find_proc dispatch fork_into
with_child-Runs = (omega arith, refl)

-- The child has called `exit`.
abbrev with_zombie : Kernel ℕ
with_zombie = record with_child { procs = leave_table 1 0 with_child.procs }

parents_live_example :
    (q : ℕ) × ((with_child.procs 1).parent ≡ some q)
    × (q < nproc)
    × (is_alive (with_child.procs q) ≡ true)
unfolding userinit allocproc find_proc dispatch fork_into
parents_live_example =
    parents_live counting off booted with_child off-IsBlank userinit-booted with_child-Reach 1
      (omega arith) refl refl

dead_are_awaited_example :
    (q : ℕ) × ((with_zombie.procs 1).parent ≡ some q)
    × (q < nproc)
    × (is_alive (with_zombie.procs q) ≡ true)
    × (sleeps_on (proc_at q) (with_zombie.procs q) ≡ false)
unfolding userinit allocproc find_proc dispatch fork_into
dead_are_awaited_example =
    dead_are_awaited counting off booted with_zombie off-IsBlank userinit-booted
      (step with_child-Reach (exited 1 with_child-Runs refl)) 1 (omega arith)
      (leave_table-IsDead 1 0 with_child.procs)

with_child-IsSettled : IsSettled counting with_child
with_child-IsSettled =
    reach-IsSettled counting with_child-Reach
      (userinit-IsSettled counting off booted off-IsBlank userinit-booted)

leave_table-Exited_example :
    Exited counting 1 with_child (record with_child { procs = leave_table 1 0 with_child.procs })
unfolding userinit allocproc find_proc dispatch fork_into
leave_table-Exited_example =
    leave_table-Exited counting 1 with_child with_child-IsSettled with_child-Runs refl

-- A process with two open files closes them, and gives its directory back in a transaction; `init` panics.
exit_calls_of_child :
    exit_calls 1 0 (record no_proc { ofile = update (update (λ fd. 0) 0 70) 3 80; cwd = 9 })
    ≡ ok (call_fileclose 70 ∷ call_fileclose 80 ∷ call_begin_op ∷ call_iput 9 ∷ call_end_op ∷ [])
unfolding exit_calls close_calls
exit_calls_of_child = refl

exit_calls_of_init : exit_calls 0 0 no_proc ≡ panic "init exiting"
unfolding exit_calls
exit_calls_of_init = refl

wait-Waited_example : Waited counting 0 with_zombie (wait counting 0 with_zombie)
wait-Waited_example = wait-Waited counting 0 with_zombie

-- After a `kill(0)`, which marks an unused slot, the next child is born killed.
killed_at_birth :
    ((fork_into counting 0 1
        (allocproc counting (record booted { procs = (kill 0 booted.procs).1 })).1).1.procs
      1).killed
    ≡ true
unfolding userinit allocproc find_proc fork_into kill kill_proc
killed_at_birth = refl
