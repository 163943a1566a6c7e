-- ===== src/Files/Handlers.antt =====
-- sysfile.c: `sys_read`, `sys_fstat` and `sys_pipe`. The memory of the process is `m`.
use nunix.Prelude.{
  ℕ, ◌+◌, ◌/◌, ◌%◌, update, Result, ok, ◌>>=◌, Option, none, some, List, [], ◌∷◌, ℤ, pos, negsuc,
}
use nunix.Memory.{Bytes}
use nunix.Proc.Table.{Proc}
use nunix.Calls.{argint, argptr}
use nunix.Fs.{Fs}
use nunix.Fs.Inodes.{Stat}
use nunix.Fs.Content.{Devices}
use nunix.Files.{File, fileclose}
use nunix.Files.Descriptors.{file_index, argfd, fdalloc}
use nunix.Files.Pipes.{pipealloc}
use nunix.Files.Io.{IoCalls, fileread, filestat}

-- bytes to the memory from an address on
pub fill : Bytes → ℕ → List ℕ → Bytes
fill m a [] = m
fill m a (b ∷ bs) = fill (update m a b) (a + 1) bs

-- an `int` to the memory
abbrev pub fill_int : Bytes → ℕ → ℕ → Bytes
fill_int m a w =
    fill m a ((w % 256) ∷ (w / 256 % 256) ∷ (w / 65536 % 256) ∷ (w / 16777216 % 256) ∷ [])

-- `sizeof(struct stat)`
abbrev pub stat_size : ℕ
stat_size = 20

module _ (devsw : Devices) (others : ℕ → Fs → Fs) (calls : IoCalls) where
  pub sys_read : Proc → Bytes → (ℕ → File) → Fs → Result (ℤ × Bytes × (ℕ → File) × Fs)
  unfolding argfd argint argptr fileread fill
  sys_read p m t s = elim (argfd p m 0) [
    | none ↦ ok (negsuc 0, m, t, s)
    | some (fd, f) ↦ elim (argint p m 2) [
      | none ↦ ok (negsuc 0, m, t, s)
      | some n ↦ elim (argptr p m 1 n) [
        | none ↦ ok (negsuc 0, m, t, s)
        | some a ↦ (do
          (r, bs, t1, s1) ← fileread devsw others calls (file_index f) n t s
          ok (r, fill m a bs, t1, s1))
      ]
    ]
  ]

  -- What goes to the address of the second argument, where the result is not -1.
  pub sys_fstat : Proc → Bytes → (ℕ → File) → Fs → Result (Option (ℕ × Stat) × Fs)
  unfolding argfd argptr filestat
  sys_fstat p m t s = elim (argfd p m 0) [
    | none ↦ ok (none, s)
    | some (fd, f) ↦ elim (argptr p m 1 stat_size) [
      | none ↦ ok (none, s)
      | some a ↦ (do
        (st, s1) ← filestat devsw others calls (file_index f) t s
        ok (elim st [ none ↦ none | some x ↦ some (a, x) ], s1))
    ]
  ]

-- The exit of `sys_pipe` without two descriptors; `q` is the process without them. The files that are given up go with the result.
pub close_both :
    Proc
    → Bytes
    → ℕ
    → ℕ
    → (ℕ → File)
    → Result (ℤ × Proc × Bytes × (ℕ → File) × Option File × Option File)
unfolding fileclose
close_both q m rf wf t = do
  (t1, r) ← fileclose rf t
  (t2, w) ← fileclose wf t1
  ok (negsuc 0, q, m, t2, r, w)

-- `page` is what `kalloc` gives `pipealloc`, when it is called.
pub sys_pipe :
    Option ℕ
    → Proc
    → Bytes
    → (ℕ → File)
    → Result (ℤ × Proc × Bytes × (ℕ → File) × Option File × Option File)
unfolding argptr pipealloc fdalloc close_both fill
sys_pipe page p m t = elim (argptr p m 0 8) [
  | none ↦ ok (negsuc 0, p, m, t, none, none)
  | some a ↦ (do
    (ends, t1) ← pipealloc page t
    elim ends [
      | none ↦ ok (negsuc 0, p, m, t1, none, none)
      | some (rf, wf) ↦
          (let (fd0, p1) = fdalloc (rf + 1) p in
            elim fd0 [
              | none ↦ close_both p1 m rf wf t1
              | some n0 ↦
                  (let (fd1, p2) = fdalloc (wf + 1) p1 in
                    elim fd1 [
                      | none ↦ close_both (record p2 { ofile = update p2.ofile n0 0 }) m rf wf t1
                      | some n1 ↦
                          ok (pos 0, p2, fill_int (fill_int m a n0) (a + 4) n1, t1, none, none)
                    ])
            ])
    ])
]
