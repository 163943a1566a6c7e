-- ===== src/Vm/Launch.antt =====
-- `sys_exec` of sysfile.c: the arguments of a program, from the memory of the process that calls it.
use nunix.Prelude.{
  ℕ, zero, suc, ◌==◌, if◌then◌else◌, Result, ok, Option, none, some, List, [], ◌∷◌, ℤ, negsuc,
}
use nunix.Memory.{Bytes}
use nunix.Pages.{Kmem}
use nunix.Proc.Table.{Proc}
use nunix.Calls.{fetchint, fetchstr, argint, argstr}
use nunix.Fs.{Fs}
use nunix.Fs.Content.{Devices}
use nunix.Fs.Directories.{bytes_at}
use nunix.Files.Io.{IoCalls}
use nunix.Files.Links.{path_of}
use nunix.Vm.{add32}
use nunix.Vm.Exec.{maxarg, exec}

-- The loop over `argv` with `n` of its places left, from address `a` on: the strings before the null pointer.
pub fetch_args : Proc → Bytes → ℕ → ℕ → Option (List (List ℕ))
unfolding fetchint fetchstr bytes_at
fetch_args p m zero a = none
fetch_args p m (suc n) a =
    let rest = fetch_args p m n (add32 a 4) in
    elim (fetchint p m a) [
      | none ↦ none
      | some arg ↦ if arg == 0 then some [] else (elim (fetchstr p m arg) [
        | none ↦ none
        | some len ↦ elim rest [ none ↦ none | some args ↦ some (bytes_at m arg len ∷ args) ]
      ])
    ]

module _ (devsw : Devices) (others : ℕ → Fs → Fs) (calls : IoCalls)
    (kernel_end kernel_data at_null : ℕ) where
  pub sys_exec : List ℕ → Bytes → Proc → Kmem → Fs → Result (ℤ × Proc × Kmem × Fs)
  unfolding argint argstr bytes_at fetch_args exec
  sys_exec stack m p k s = elim (argstr p m 0) [
    | none ↦ ok (negsuc 0, p, k, s)
    | some path ↦ elim (argint p m 1) [
      | none ↦ ok (negsuc 0, p, k, s)
      | some uargv ↦ elim (fetch_args p m maxarg uargv) [
        | none ↦ ok (negsuc 0, p, k, s)
        | some argv ↦
            exec devsw others calls kernel_end kernel_data at_null stack (path_of m path) argv p k s
      ]
    ]
  ]
