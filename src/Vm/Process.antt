-- ===== src/Vm/Process.antt =====
-- `growproc` of proc.c and `sys_sbrk`: the size of a process. Its argument is an `int` as a word; `switchuvm` is the processor's.
use nunix.Prelude.{
  ℕ, ◌^◌, Bool, ◌==◌, leb, if◌then◌else◌, Result, ok, ◌>>=◌, Option, none, some, ℤ, pos, negsuc,
}
use nunix.Memory.{Bytes}
use nunix.Pages.{Kmem}
use nunix.Proc.Table.{Proc}
use nunix.Calls.{argint}
use nunix.Vm.{add32}
use nunix.Vm.User.{allocuvm, deallocuvm}

-- `n < 0`
abbrev pub is_minus : ℕ → Bool
is_minus n = leb (2 ^ 31) n

-- The size that `growproc` asks for and gets: 0 is a failure, unless nothing is asked for.
unfoldable pub resize : ℕ → ℕ → Proc → Kmem → Result (Option ℕ × Kmem)
unfolding allocuvm deallocuvm
resize kernel_end n p k = if n == 0 then ok (some p.sz, k) else (do
  (sz, k1) ←
      if is_minus n
      then deallocuvm kernel_end p.pgdir p.sz (add32 p.sz n) k
      else allocuvm kernel_end p.pgdir p.sz (add32 p.sz n) k
  ok ((if sz == 0 then none else some sz), k1))

unfoldable pub growproc : ℕ → ℕ → Proc → Kmem → Result (ℤ × Proc × Kmem)
unfolding resize
growproc kernel_end n p k = do
  (sz, k1) ← resize kernel_end n p k
  elim sz [ none ↦ ok (negsuc 0, p, k1) | some sz ↦ ok (pos 0, record p { sz = sz }, k1) ]

-- The address is an `int` as a word, and none is -1.
pub sys_sbrk : ℕ → Bytes → Proc → Kmem → Result (Option ℕ × Proc × Kmem)
unfolding argint growproc
sys_sbrk kernel_end m p k = elim (argint p m 0) [
  | none ↦ ok (none, p, k)
  | some n ↦ (do
    (r, q, k1) ← growproc kernel_end n p k
    ok (elim r [ pos z ↦ some p.sz | negsuc z ↦ none ], q, k1))
]
