-- ===== src/Files/Descriptors.antt =====
-- sysfile.c: the file descriptors of a process, and the calls on them.
use nunix.Prelude.{
  ℕ, zero, suc, ◌+◌, ◌-◌, ◌≤◌, ◌<◌, ◌≡◌, ◌≢◌, ◌==◌, ==→eq, ◌||◌, leb, if◌then◌else◌, update, Result,
  ok, ◌>>=◌, Option, none, some, ℤ, pos, negsuc, inl, inr, arith, Bool-cases, Option-cases, ap, sym,
  ◌∙◌,
}
use nunix.Memory.{Bytes}
use nunix.Proc.Table.{Proc, nofile}
use nunix.Calls.{argint}
use nunix.Files.{File, filedup, fileclose}

-- `ofile` holds 0, or a file by its index in the table plus one.
abbrev pub file_index : ℕ → ℕ
file_index f = f - 1

-- `argfd`: the descriptor and the file. `m` is the memory of the process.
unfoldable pub argfd : Proc → Bytes → ℕ → Option (ℕ × ℕ)
argfd p m n = elim (argint p m n) [
  | none ↦ none
  | some fd ↦ if leb nofile fd || (p.ofile fd == 0) then none else some (fd, p.ofile fd)
]

-- The loop of `fdalloc` over `n` descriptors from `fd` on.
pub free_fd : (ℕ → ℕ) → ℕ → ℕ → Option ℕ
free_fd ofile zero fd = none
free_fd ofile (suc n) fd =
    let rest = free_fd ofile n (fd + 1) in if ofile fd == 0 then some fd else rest

unfoldable pub fdalloc : ℕ → Proc → Option ℕ × Proc
unfolding free_fd
fdalloc f p = elim (free_fd p.ofile nofile 0) [
  | none ↦ (none, p)
  | some fd ↦ (some fd, record p { ofile = update p.ofile fd f })
]

pub sys_dup : Proc → Bytes → (ℕ → File) → Result (ℤ × Proc × (ℕ → File))
unfolding argfd fdalloc
sys_dup p m t = elim (argfd p m 0) [
  | none ↦ ok (negsuc 0, p, t)
  | some (old, f) ↦
      (let (new, q) = fdalloc f p in
        elim new [
          | none ↦ ok (negsuc 0, q, t)
          | some fd ↦ (do t1 ← filedup (file_index f) t; ok (pos fd, q, t1))
        ])
]

-- `sys_close`, with the file that `fileclose` gives up.
pub sys_close : Proc → Bytes → (ℕ → File) → Result (ℤ × Proc × (ℕ → File) × Option File)
unfolding argfd
sys_close p m t = elim (argfd p m 0) [
  | none ↦ ok (negsuc 0, p, t, none)
  | some (fd, f) ↦ (do
    (t1, ff) ← fileclose (file_index f) t
    ok (pos 0, record p { ofile = update p.ofile fd 0 }, t1, ff))
]

-- What `free_fd` finds is free, and lower descriptors are not.
free_fd-lowest :
    (ofile : ℕ → ℕ) (n fd k : ℕ)
    → free_fd ofile n fd ≡ some k
    → (fd ≤ k) × (k < fd + n) × (ofile k ≡ 0) × ((j : ℕ) → fd ≤ j → j < k → ofile j ≢ 0)
unfolding free_fd
free_fd-lowest ofile zero fd k h = absurd (cc h)
free_fd-lowest ofile (suc n) fd k h = elim (Bool-cases (ofile fd == 0)) [
  | inl e ↦
      let same : fd ≡ k = cc (rw (free_fd, e) at h) in
      (
        omega arith,
        omega arith,
        ap ofile (sym same) ∙ ==→eq (ofile fd) 0 e,
        λ j a b. absurd (omega arith),
      )
  | inr e ↦
      let (a, b, c, d) = free_fd-lowest ofile n (fd + 1) k (rw (free_fd, e) at h) in
      (
        omega arith,
        omega arith,
        c,
        λ j l u. elim (Bool-cases (fd == j)) [
          | inl y ↦ λ z. ground (arith, e, ap ofile (==→eq fd j y) ∙ z)
          | inr y ↦ d j (ground arith) u
        ],
      )
]

-- `fdalloc` gives the file the lowest descriptor that is free.
pub fdalloc-lowest :
    (f fd : ℕ) (p q : Proc)
    → fdalloc f p ≡ (some fd, q)
    → (fd < nofile) × (p.ofile fd ≡ 0) × ((j : ℕ) → j < fd → p.ofile j ≢ 0)
unfolding fdalloc
fdalloc-lowest f fd p q h = elim (Option-cases (free_fd p.ofile nofile 0)) [
  | inl e ↦ absurd (cc (rw (fdalloc, e) at h))
  | inr (k, e) ↦
      let same : k ≡ fd = cc (rw (fdalloc, e) at h) in
      let (a, b, c, d) = free_fd-lowest p.ofile nofile 0 k e in
      (omega arith, ap p.ofile (sym same) ∙ c, λ j l. d j (omega arith) (omega arith))
]
