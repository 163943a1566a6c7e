-- ===== src/Proc/Table.antt =====
-- The process table: `struct proc`, its states and its channels.
use nunix.Prelude.{
  ℕ, zero, suc, ◌+◌, Bool, true, false, List, Option, none, some, ◌==◌, if◌then◌else◌,
}

abbrev pub nproc : ℕ
nproc = 64

abbrev pub nofile : ℕ
nofile = 16

-- `enum procstate`
pub data ProcState : Type 0 where
  unused embryo sleeping runnable running zombie : ProcState

-- What a process sleeps on: the null pointer, a slot of the table, or some other address.
pub data Chan : Type 0 where
  nowhere : Chan
  proc_at : ℕ → Chan
  address : ℕ → Chan

-- `struct proc`. `tf` and `context` are the words of the trap frame and of the saved registers on the
-- kernel stack, `returns_to` the word between them; `ofile` holds the addresses of the files.
pub record Proc : Type 0 where
  pub sz : ℕ
  pub pgdir : ℕ
  pub kstack : ℕ
  pub state : ProcState
  pub pid : ℕ
  pub parent : Option ℕ
  pub tf : ℕ → ℕ
  pub context : ℕ → ℕ
  pub returns_to : ℕ
  pub chan : Chan
  pub killed : Bool
  pub ofile : ℕ → ℕ
  pub cwd : ℕ
  pub name : List ℕ
  pub trace_flag : Bool
  pub total_sys_call : ℕ

-- `ptable.proc`, read below `nproc` only
abbrev pub Procs : Type 0
Procs = ℕ → Proc

abbrev pub is_unused : ProcState → Bool
is_unused unused = true
is_unused s = false

-- a slot that no process has, or only one that `allocproc` has just made
abbrev pub is_free : ProcState → Bool
is_free unused = true
is_free embryo = true
is_free s = false

abbrev pub is_embryo : ProcState → Bool
is_embryo embryo = true
is_embryo s = false

abbrev pub is_running : ProcState → Bool
is_running running = true
is_running s = false

abbrev pub is_sleeping : ProcState → Bool
is_sleeping sleeping = true
is_sleeping s = false

abbrev pub is_runnable : ProcState → Bool
is_runnable runnable = true
is_runnable s = false

abbrev pub is_zombie : ProcState → Bool
is_zombie zombie = true
is_zombie s = false

abbrev pub same_chan : Chan → Chan → Bool
same_chan nowhere nowhere = true
same_chan (proc_at i) (proc_at j) = i == j
same_chan (address a) (address b) = a == b
same_chan _ _ = false

-- `p->parent == &ptable.proc[i]`
abbrev pub is_parent : Option ℕ → ℕ → Bool
is_parent none i = false
is_parent (some j) i = j == i

abbrev pub is_some : Option ℕ → Bool
is_some none = false
is_some (some i) = true

-- The first of the `n` slots from `i` on that passes the test.
unfoldable pub find_proc : (Proc → Bool) → Procs → ℕ → ℕ → Option ℕ
find_proc test t zero i = none
find_proc test t (suc n) i = if test (t i) then some i else find_proc test t n (i + 1)
