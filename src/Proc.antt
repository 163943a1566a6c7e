-- ===== src/Proc.antt =====
-- proc.c: the process table, and what each function does to it. Indices stand for the pointers into
-- `ptable.proc`; a function that runs under `ptable.lock` is one step up to its `sched()`.
pub mod Outside
pub mod Table
pub mod Wakeup
pub mod Family
pub mod Slots
pub mod Exit
pub mod Life
pub mod Found
pub mod Reach
pub mod Parents
pub mod Turns
mod Tests
use nunix.Prelude.{
  ℕ, zero, suc, ◌+◌, ◌%◌, ◌^◌, Bool, true, false, not, ◌&&◌, ◌||◌, Option, none, some, ◌==◌,
  if◌then◌else◌, List, [], ◌∷◌, ◌++◌, take, update, for_upto, Result, ok, panic,
}
use Outside.{Services}
use Table.{
  ProcState, unused, embryo, sleeping, runnable, running, zombie, Proc, Chan, nowhere, proc_at,
  Procs, nproc, nofile, is_unused, is_sleeping, is_runnable, is_zombie, same_chan, is_parent,
  find_proc,
}

-- The state that proc.c works on. `world` is what the other
-- parts of the kernel keep. The process `proc` of a processor is the argument `me` of a function.
pub record Kernel (W : Type 0) : Type 0 where
  pub procs : Procs
  pub nextpid : ℕ
  pub initproc : ℕ
  pub world : W

-- `wakeup1(chan)`
pub wakeup1 : Chan → Procs → Procs
wakeup1 chan = for_upto nproc λ i t.
    if is_sleeping (t i).state && same_chan (t i).chan chan
    then update t i (record (t i) { state = runnable })
    else t

-- The loop of `kill`: the first process with the pid, which is woken if it sleeps.
pub kill_proc : Proc → Proc
kill_proc p = record p { killed = true; state = if is_sleeping p.state then runnable else p.state }

-- `kill(pid)`: whether it returns 0, and the table.
pub kill : ℕ → Procs → Bool × Procs
kill pid t = elim (find_proc (λ p. p.pid == pid) t nproc 0) [
  | none ↦ (false, t)
  | some i ↦ (true, update t i (kill_proc (t i)))
]

-- `exit` wakes a parent that may sleep in `wait`; a process without one wakes nobody that does.
pub wakeup_parent : Option ℕ → Procs → Procs
wakeup_parent none t = wakeup1 nowhere t
wakeup_parent (some q) t = wakeup1 (proc_at q) t

-- The loop of `exit` that passes the children of `me` to `init`, and wakes it for one that is dead.
pub abandon : ℕ → ℕ → Procs → Procs
unfolding wakeup1
abandon me init = for_upto nproc λ i t.
    if is_parent (t i).parent me
    then (let u = update t i (record (t i) { parent = some init }) in
        if is_zombie (t i).state then wakeup1 (proc_at init) u else u)
    else t

-- What `exit` calls before it takes `ptable.lock`, with the addresses of files and of the inode. Other processes run in between, since these calls sleep.
pub data ExitCall : Type 0 where
  call_fileclose : ℕ → ExitCall
  call_begin_op call_end_op : ExitCall
  call_iput : ℕ → ExitCall

-- The loop over the `n` descriptors from `fd` on.
pub close_calls : (ℕ → ℕ) → ℕ → ℕ → List ExitCall
close_calls ofile zero fd = []
close_calls ofile (suc n) fd =
    let rest = close_calls ofile n (fd + 1) in
    if ofile fd == 0 then rest else call_fileclose (ofile fd) ∷ rest

-- `exit` in the process `me` up to the `acquire` of `ptable.lock`: the calls that it makes, in order. With them
-- it clears `ofile` and `cwd`.
unfoldable pub exit_calls : ℕ → ℕ → Proc → Result (List ExitCall)
unfolding close_calls
exit_calls me init p =
    if me == init
    then panic "init exiting"
    else ok (close_calls p.ofile nofile 0 ++ (call_begin_op ∷ call_iput p.cwd ∷ call_end_op ∷ []))

-- `exit` from the `acquire` of `ptable.lock` on, up to the `sched()` from which it does not return
pub leave_table : ℕ → ℕ → Procs → Procs
unfolding wakeup_parent abandon
leave_table me init t =
    let u = abandon me init (wakeup_parent (t me).parent t) in
    update u me (record (u me) { state = zombie })

-- The loop of `wait` over the `n` slots from `i` on: whether there is a child, and a dead one.
pub scan : Procs → ℕ → ℕ → ℕ → Bool → Bool × Option ℕ
scan t me zero i havekids = (havekids, none)
scan t me (suc n) i havekids =
    let child = is_parent (t i).parent me in
    let rest = scan t me n (i + 1) (havekids || child) in
    if child && is_zombie (t i).state then (true, some i) else rest

-- what `wait` makes of a dead child
pub reap : Proc → Proc
reap p = record p { kstack = 0; state = unused; pid = 0; parent = none; name = []; killed = false }

-- How a turn of `wait` ends: with a pid, with -1, or asleep.
pub data WaitTurn : Type 0 where
  reaped : ℕ → WaitTurn
  no_child sleeps : WaitTurn

-- `sleep(chan, &ptable.lock)` up to its `sched()`
pub sleep_on : ℕ → Chan → Procs → Procs
sleep_on me chan t = update t me (record (t me) { chan = chan; state = sleeping })

-- what is left of `sleep` when the process runs again
pub tidy_up : ℕ → Procs → Procs
tidy_up me t = update t me (record (t me) { chan = nowhere })

-- `yield`, up to its `sched()`
pub yield_cpu : ℕ → Procs → Procs
yield_cpu me t = update t me (record (t me) { state = runnable })

-- The body of the loop in `scheduler`, for a slot that is RUNNABLE.
pub dispatch : ℕ → Procs → Option Procs
dispatch i t =
    if is_runnable (t i).state then some (update t i (record (t i) { state = running })) else none

-- the trap frame that `userinit` writes, with the user segments, interrupts on, and the stack at PGSIZE
user_frame : ℕ → ℕ
user_frame =
    let data_segment : ℕ = 43 in
    update
      (update
        (update (update (update (update (λ word. 0) 15 35) 11 data_segment) 10 data_segment) 18
          data_segment)
        16 512)
      17 4096

-- "initcode"
abbrev initcode : List ℕ
initcode = b'i' ∷ b'n' ∷ b'i' ∷ b't' ∷ b'c' ∷ b'o' ∷ b'd' ∷ b'e' ∷ []

module _ {W : Type 0} (services : Services W) where
  open services use {
    kalloc, kfree, copyuvm, freevm, filedup, idup, setupkvm, inituvm, namei_root, forkret, trapret,
  }

  -- `allocproc`: the slot found, or none.
  pub allocproc : Kernel W → Option ℕ × Kernel W
  allocproc k = elim (find_proc (λ p. is_unused p.state) k.procs nproc 0) [
    | none ↦ (none, k)
    | some i ↦
        let (page, w) = kalloc k.world in
        let p = record (k.procs i) { state = embryo; pid = k.nextpid; kstack = page } in
        let k' = record k { nextpid = (k.nextpid + 1) % 2 ^ 32; world = w } in
        if page == 0
        then (none, record k' { procs = update k.procs i (record p { state = unused }) })
        else (
          some i,
          record k' {
            procs = update k.procs i (record p {
              context = update (λ word. 0) 4 forkret;
              returns_to = trapret;
              trace_flag = false;
            });
          },
        )
  ]

  -- The child's table entry: the parent's memory size, trap frame with %eax cleared, open files that
  -- are open, directory and name.
  pub inherit : ℕ → ℕ → Proc → Proc → Proc
  inherit me pgdir parent child = record child {
    pgdir = pgdir;
    sz = parent.sz;
    parent = some me;
    tf = update parent.tf 7 0;
    ofile =
        for_upto nofile
          (λ fd files. if parent.ofile fd == 0 then files else update files fd (parent.ofile fd))
          child.ofile;
    cwd = parent.cwd;
    name = take 15 parent.name;
    state = runnable;
  }

  -- the references that a child takes
  dup_all : Proc → W → W
  dup_all p w =
      idup p.cwd (for_upto nofile (λ fd v. if p.ofile fd == 0 then v else filedup (p.ofile fd) v) w)

  -- `fork` in the process `me`, from the return of `allocproc` with the slot `i` on
  pub fork_into : ℕ → ℕ → Kernel W → Option ℕ × Kernel W
  unfolding inherit dup_all
  fork_into me i k =
      let parent = k.procs me in
      let child = k.procs i in
      let (pgdir, w) = copyuvm parent.pgdir parent.sz k.world in
      if pgdir == 0
      then (
        none,
        record k {
          procs = update k.procs i (record child { pgdir = 0; kstack = 0; state = unused });
          world = kfree child.kstack w;
        },
      )
      else (
        some child.pid,
        record k {
          procs = update k.procs i (inherit me pgdir parent child);
          world = dup_all parent w;
        },
      )

  -- `fork` in the process `me`: the child's pid, or none for -1.
  pub fork : ℕ → Kernel W → Option ℕ × Kernel W
  unfolding allocproc
  fork me k =
      let (slot, k1) = allocproc k in elim slot [ none ↦ (none, k1) | some i ↦ fork_into me i k1 ]

  -- A turn of `wait` in the process `me`, from its start or from the return of `sleep`.
  pub wait : ℕ → Kernel W → WaitTurn × Kernel W
  wait me k =
      let (havekids, found) = scan k.procs me nproc 0 false in
      elim found [
        | some i ↦
            let p = k.procs i in
            (
              reaped p.pid,
              record k {
                procs = update k.procs i (reap p);
                world = freevm p.pgdir (kfree p.kstack k.world);
              },
            )
        | none ↦
            if not havekids || (k.procs me).killed
            then (no_child, k)
            else (sleeps, record k { procs = sleep_on me (proc_at me) k.procs })
      ]

  -- `userinit`
  pub userinit : Kernel W → Result (Kernel W)
  unfolding allocproc
  userinit k =
      let (slot, k1) = allocproc k in
      elim slot [
        | none ↦ panic "trap"
        | some i ↦
            let (pgdir, w) = setupkvm k1.world in
            if pgdir == 0
            then panic "userinit: out of memory?"
            else (let (root, w') = namei_root (inituvm pgdir w) in
                ok (record k1 {
                  initproc = i;
                  procs = update k1.procs i (record (k1.procs i) {
                    pgdir = pgdir;
                    sz = 4096;
                    tf = user_frame;
                    name = initcode;
                    cwd = root;
                    state = runnable;
                  });
                  world = w';
                }))
      ]
