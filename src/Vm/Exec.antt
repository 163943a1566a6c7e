-- ===== src/Vm/Exec.antt =====
-- exec.c: a program from a file into a new page table. Its arguments are lists of bytes without their NUL.
use nunix.Prelude.{
  ℕ, zero, suc, ◌+◌, ◌*◌, ◌/◌, ◌%◌, Bool, false, not, ◌==◌, ltb, leb, if◌then◌else◌, update, Result,
  ok, ◌>>=◌, Option, none, some, List, [], ◌∷◌, ◌++◌, take, drop, length, get_or, ℤ, pos, negsuc,
}
use nunix.Pages.{Kmem, pgsize, pground_up}
use nunix.Proc.Table.{Proc}
use nunix.Calls.{esp}
use nunix.Fs.{Fs}
use nunix.Fs.Inodes.{ilock}
use nunix.Fs.Inodes.Trunc.{iunlockput}
use nunix.Fs.Content.{Devices, readi}
use nunix.Fs.Paths.{slash, namei}
use nunix.Files.Io.{IoCalls}
use nunix.Vm.{add32, sub32, setupkvm}
use nunix.Vm.User.{is_count, allocuvm, loaduvm, clearpteu, copyout, freevm}

-- the little-endian half-word and word at an offset
abbrev pub half_at : List ℕ → ℕ → ℕ
half_at bs i = get_or bs i 0 + get_or bs (i + 1) 0 * 256

abbrev pub long_at : List ℕ → ℕ → ℕ
long_at bs i = half_at bs i + half_at bs (i + 2) * 65536

-- `sizeof(struct elfhdr)` and `sizeof(struct proghdr)`
abbrev pub elfhdr_size : ℕ
elfhdr_size = 52

abbrev pub proghdr_size : ℕ
proghdr_size = 32

abbrev pub elf_magic : ℕ
elf_magic = 1179403647

abbrev pub elf_prog_load : ℕ
elf_prog_load = 1

abbrev pub maxarg : ℕ
maxarg = 32

abbrev pub eip : ℕ
eip = 14

-- `readi(...) < sizeof(elf)`: the comparison is of unsigned numbers, so -1 is not less.
abbrev pub too_short : ℤ → ℕ → Bool
too_short (pos r) n = ltb r n
too_short (negsuc r) n = false

-- what a buffer holds after bytes were read to its start
abbrev pub read_into : List ℕ → List ℕ → List ℕ
read_into bs held = bs ++ drop (length bs) held

-- the bytes of a word
abbrev pub word_bytes : ℕ → List ℕ
word_bytes w = (w % 256) ∷ (w / 256 % 256) ∷ (w / 65536 % 256) ∷ (w / 16777216 % 256) ∷ []

pub words_bytes : List ℕ → List ℕ
words_bytes [] = []
words_bytes (w ∷ ws) = word_bytes w ++ words_bytes ws

-- The loop that looks for the last element of the path.
pub last_element : List ℕ → List ℕ → List ℕ
last_element last [] = last
last_element last (c ∷ cs) = last_element (if c == slash then cs else last) cs

-- `safestrcpy(proc->name, last, sizeof(proc->name))`: 16 bytes with the NUL.
abbrev pub name_of : List ℕ → List ℕ
name_of path = take 15 (last_element path path)

-- `kernel_end` and `kernel_data` are addresses of the linker script, and `at_null` is the word at address 0. `argv` has its strings, `ip` is locked.
module _ (devsw : Devices) (others : ℕ → Fs → Fs) (calls : IoCalls)
    (kernel_end kernel_data at_null : ℕ) where
  -- What becomes of a segment: the new size, or none for `bad`.
  pub load_segment : ℕ → ℕ → List ℕ → ℕ → Kmem → Fs → Result (Option ℕ × Kmem × Fs)
  unfolding allocuvm loaduvm
  load_segment pgdir ip ph sz k s =
      if not (long_at ph 0 == elf_prog_load)
      then ok (some sz, k, s)
      else if ltb (long_at ph 20) (long_at ph 16)
      then ok (none, k, s)
      else (do
        (sz', k1) ← allocuvm kernel_end pgdir sz (add32 (long_at ph 8) (long_at ph 20)) k
        if sz' == 0 then ok (none, k1, s) else (do
          (loaded, k2, s1) ←
              loaduvm devsw pgdir (long_at ph 8) ip (long_at ph 4) (long_at ph 16) k1 s
          ok ((if loaded then some sz' else none), k2, s1)))

  -- The loop over the program headers, `n` of them from `off` on.
  pub load_segments : ℕ → ℕ → ℕ → ℕ → ℕ → Kmem → Fs → Result (Option ℕ × Kmem × Fs)
  unfolding readi load_segment
  load_segments pgdir ip zero off sz k s = ok (some sz, k, s)
  load_segments pgdir ip (suc n) off sz k s = do
    (r, ph, s1) ← readi devsw ip off proghdr_size s
    if not (is_count r proghdr_size) then ok (none, k, s1) else (do
      (sz', k1, s2) ← load_segment pgdir ip ph sz k s1
      elim sz' [
        | none ↦ ok (none, k1, s2)
        | some sz1 ↦ load_segments pgdir ip n (add32 off proghdr_size) sz1 k1 s2
      ])

  -- The loop over the arguments: the stack pointer, and the addresses of those that were pushed.
  pub push_args : ℕ → ℕ → List (List ℕ) → ℕ → Kmem → Result (Option (ℕ × List ℕ) × Kmem)
  unfolding copyout
  push_args pgdir argc [] sp k = ok (some (sp, []), k)
  push_args pgdir argc (arg ∷ args) sp k = if leb maxarg argc then ok (none, k) else (do
    let sp1 = sub32 sp (length arg + 1) / 4 * 4
    (copied, k1) ← copyout at_null pgdir sp1 (arg ++ 0 ∷ []) k
    if copied
        then (do
          (rest, k2) ← push_args pgdir (argc + 1) args sp1 k1
          ok (elim rest [ none ↦ none | some (sp2, sps) ↦ some (sp2, sp1 ∷ sps) ], k2))
        else ok (none, k1))

  -- The two pages above the program, and the stack in the second: its size and the stack pointer.
  pub build_stack : ℕ → ℕ → List (List ℕ) → Kmem → Result (Option (ℕ × ℕ) × Kmem)
  unfolding allocuvm clearpteu copyout push_args words_bytes
  build_stack pgdir size argv k = do
    (sz, k1) ← allocuvm kernel_end pgdir (pground_up size) (add32 (pground_up size) (2 * pgsize)) k
    if sz == 0 then ok (none, k1) else (do
      k2 ← clearpteu pgdir (sub32 sz (2 * pgsize)) k1
      (pushed, k3) ← push_args pgdir 0 argv sz k2
      elim pushed [
        | none ↦ ok (none, k3)
        | some (sp, sps) ↦ (do
          let argc = length argv
          let ustack = 4294967295 ∷ argc ∷ sub32 sp ((argc + 1) * 4) ∷ sps ++ 0 ∷ []
          let sp1 = sub32 sp ((3 + argc + 1) * 4)
          (copied, k4) ← copyout at_null pgdir sp1 (words_bytes ustack) k3
          ok ((if copied then some (sz, sp1) else none), k4))
      ])

  -- `bad`: the new page table, 0 for none, and the inode where it is still locked.
  pub give_back : ℕ → Option ℕ → Proc → Kmem → Fs → Result (ℤ × Proc × Kmem × Fs)
  unfolding freevm iunlockput
  give_back pgdir open_ip p k s = do
    k1 ← if pgdir == 0 then ok k else freevm kernel_end pgdir k
    elim open_ip [
      | none ↦ ok (negsuc 0, p, k1, s)
      | some ip ↦ (do s1 ← iunlockput ip s; s2 ← calls.end_op s1; ok (negsuc 0, p, k1, s2))
    ]

  -- `exec` once the program is in memory, to the new image of the process.
  pub finish_exec :
      ℕ → List ℕ → List (List ℕ) → ℕ → ℕ → Proc → Kmem → Fs → Result (ℤ × Proc × Kmem × Fs)
  unfolding build_stack last_element freevm give_back
  finish_exec pgdir path argv entry size p k s = do
    (built, k1) ← build_stack pgdir size argv k
    elim built [
      | none ↦ give_back pgdir none p k1 s
      | some (sz, sp) ↦ (do
        k2 ← freevm kernel_end p.pgdir k1
        ok (
          pos 0,
          record p {
            name = name_of path;
            pgdir = pgdir;
            sz = sz;
            tf = update (update p.tf eip entry) esp sp;
          },
          k2,
          s,
        ))
    ]

  -- `exec`; `stack` is what the buffers `name` and `elf` hold before they are written.
  unfoldable pub exec :
      List ℕ → List ℕ → List (List ℕ) → Proc → Kmem → Fs → Result (ℤ × Proc × Kmem × Fs)
  unfolding namei ilock readi setupkvm iunlockput load_segments give_back finish_exec
  exec stack path argv p k s = do
    s1 ← calls.begin_op s
    (found, s2) ← namei devsw others p.cwd stack path s1
    elim found [
      | none ↦ (do s3 ← calls.end_op s2; ok (negsuc 0, p, k, s3))
      | some ip ↦ (do
        s3 ← ilock others ip s2
        (r, bs, s4) ← readi devsw ip 0 elfhdr_size s3
        let elf = read_into bs stack
        if too_short r elfhdr_size
            then give_back 0 (some ip) p k s4
            else if not (long_at elf 0 == elf_magic)
            then give_back 0 (some ip) p k s4
            else (do
              (pgdir, k1) ← setupkvm kernel_data k
              if pgdir == 0 then give_back 0 (some ip) p k1 s4 else (do
                (size, k2, s5) ← load_segments pgdir ip (half_at elf 44) (long_at elf 28) 0 k1 s4
                elim size [
                  | none ↦ give_back pgdir (some ip) p k2 s5
                  | some sz ↦ (do
                    s6 ← iunlockput ip s5
                    s7 ← calls.end_op s6
                    finish_exec pgdir path argv (long_at elf 24) sz p k2 s7)
                ])))
    ]
