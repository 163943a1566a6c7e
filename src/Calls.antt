-- ===== src/Calls.antt =====
-- syscall.c and sysproc.c: the arguments that the kernel takes from a process, and the dispatch of its calls.
pub mod Arguments
pub mod Counts
mod Tests
use nunix.Prelude.{
  ℕ, zero, suc, ◌+◌, ◌-◌, ◌*◌, ◌%◌, ◌^◌, ◌<◌, Bool, true, false, ◌&&◌, ◌||◌, not, ◌==◌, ltb, leb,
  if◌then◌else◌, update, Option, none, some, List, [], ◌∷◌,
}
use nunix.Memory.{Bytes}
use nunix.Proc.Table.{Proc}

-- the words of the trap frame, by their places in it
abbrev pub eax : ℕ
eax = 7

abbrev pub esp : ℕ
esp = 17

-- the `int` at an address of the process
abbrev pub word_at : Bytes → ℕ → ℕ
word_at m a = m a + 256 * m (a + 1) + 65536 * m (a + 2) + 16777216 * m (a + 3)

-- `fetchint`: the word, or none for -1. `m` is the memory of the process.
unfoldable pub fetchint : Proc → Bytes → ℕ → Option ℕ
fetchint p m addr =
    if leb p.sz addr || ltb p.sz ((addr + 4) % 2 ^ 32) then none else some (word_at m addr)

-- The loop of `fetchstr` with `n` bytes left up to the end of the process, at the `i`-th byte of the string.
pub string_end : Bytes → ℕ → ℕ → ℕ → Option ℕ
string_end m addr zero i = none
string_end m addr (suc n) i =
    let rest = string_end m addr n (i + 1) in if m (addr + i) == 0 then some i else rest

-- `fetchstr`: the length of the string at `addr`
unfoldable pub fetchstr : Proc → Bytes → ℕ → Option ℕ
unfolding string_end
fetchstr p m addr = if leb p.sz addr then none else string_end m addr (p.sz - addr) 0

unfoldable pub argint : Proc → Bytes → ℕ → Option ℕ
unfolding fetchint
argint p m n = fetchint p m ((p.tf esp + 4 + 4 * n) % 2 ^ 32)

-- The pointer that `argptr` finds, for a block of `size` bytes; `size` is the `int` as a word.
unfoldable pub argptr : Proc → Bytes → ℕ → ℕ → Option ℕ
unfolding argint
argptr p m n size = elim (argint p m n) [
  | none ↦ none
  | some i ↦ if leb p.sz i || ltb p.sz ((i + size) % 2 ^ 32) then none else some i
]

-- The string that `argstr` finds: its address and its length.
unfoldable pub argstr : Proc → Bytes → ℕ → Option (ℕ × ℕ)
unfolding argint fetchstr
argstr p m n = elim (argint p m n) [
  | none ↦ none
  | some addr ↦ elim (fetchstr p m addr) [ none ↦ none | some len ↦ some (addr, len) ]
]

-- `NELEM(syscalls)`: all entries from `SYS_fork` to `SYS_trace` are there.
abbrev pub nelem : ℕ
nelem = 23

abbrev pub minus_one : ℕ
minus_one = 4294967295

-- `syscall`, without what it prints. `handler num` is `syscalls[num]`, over the process and the rest of the kernel.
pub syscall : {W : Type 0} → (ℕ → Proc × W → ℕ × (Proc × W)) → Proc × W → Proc × W
syscall handler (p, w) =
    let num = p.tf eax in
    if ltb 0 num && ltb num nelem
    then (let counted =
          if p.trace_flag
          then record p { total_sys_call = (p.total_sys_call + 1) % 2 ^ 32 }
          else p in
        let (result, (q, v)) = handler num (counted, w) in
        (record q { tf = update q.tf eax result }, v))
    else (record p { tf = update p.tf eax minus_one }, w)

-- `sys_trace(x)`: what it returns, and the process.
pub sys_trace : ℕ → Proc → ℕ × Proc
sys_trace x p =
    if not (x == 0)
    then (p.total_sys_call, record p { trace_flag = true })
    else (p.total_sys_call, record p { trace_flag = false; total_sys_call = 0 })
