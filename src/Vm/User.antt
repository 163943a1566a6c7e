-- ===== src/Vm/User.antt =====
-- vm.c: the user part of a page table, from `inituvm` to `copyout`.
use nunix.Prelude.{
  ℕ, zero, suc, ◌+◌, ◌-◌, ◌*◌, ◌/◌, ◌%◌, Bool, true, false, not, ◌==◌, ltb, leb, if◌then◌else◌,
  update, Result, ok, panic, ◌>>=◌, min, Option, none, some, List, [], ◌∷◌, take, drop, length, ℤ,
  pos, negsuc,
}
use nunix.Pages.{Kmem, pgsize, kernbase, kalloc, kfree, pground_up}
use nunix.Fs.{Fs}
use nunix.Fs.Content.{Devices, put_bytes, readi}
use nunix.Vm.{
  add32, v2p, p2v, pte_addr, pte_flags, present, for_user, pte_w, pte_u, put_word, zero_page,
  pground_down, walkpgdir, mappages, setupkvm,
}

-- Bytes are put into the page at `p`, from offset `off` on.
abbrev pub put_in_page : ℕ → ℕ → List ℕ → Kmem → Kmem
put_in_page p off bs k = record k { words = update k.words p (put_bytes (k.words p) off bs) }

-- `inituvm`; `init` is the code with its size.
pub inituvm : ℕ → List ℕ → Kmem → Result Kmem
unfolding mappages
inituvm pgdir init k =
    if leb pgsize (length init)
    then panic "inituvm: more than a page"
    else (let (mem, k1) = kalloc k in
        (do
          (mapped, k2) ← mappages pgdir 0 pgsize (v2p mem) (pte_w + pte_u) (zero_page mem k1)
          ok (put_in_page mem 0 init k2)))

-- `c == pos n`
abbrev pub is_count : ℤ → ℕ → Bool
is_count (pos m) n = m == n
is_count (negsuc m) n = false

-- The loop of `loaduvm` with `sz` bytes left; the result is false for -1. A round takes a byte at least.
pub load_from : Devices → ℕ → ℕ → ℕ → ℕ → ℕ → ℕ → Kmem → Fs → Result (Bool × Kmem × Fs)
unfolding walkpgdir readi
load_from devsw pgdir zero addr i offset sz k s = ok (true, k, s)
load_from devsw pgdir (suc fuel) addr i offset sz k s = elim (sz == 0) [
  | true ↦ ok (true, k, s)
  | false ↦ elim (walkpgdir pgdir addr false k).0 [
    | none ↦ panic "loaduvm: address should exist"
    | some (t, x) ↦ (do
      let n = min sz pgsize
      (r, bs, s1) ← readi devsw i offset n s
      let k1 = put_in_page (p2v (pte_addr (k.words t x))) 0 bs k
      let rest =
          load_from devsw pgdir fuel (add32 addr pgsize) i (add32 offset pgsize) (sz - n) k1 s1
      if is_count r n then rest else ok (false, k1, s1))
  ]
]

unfoldable pub loaduvm : Devices → ℕ → ℕ → ℕ → ℕ → ℕ → Kmem → Fs → Result (Bool × Kmem × Fs)
unfolding load_from
loaduvm devsw pgdir addr i offset sz k s =
    if not (addr % pgsize == 0)
    then panic "loaduvm: addr must be page aligned"
    else load_from devsw pgdir sz addr i offset sz k s

-- `kfree` and the frames that it takes are those of kalloc.c: `kernel_end` is the address `end` of the linker script.
-- The loop of `deallocuvm` from `a` on; an address that has no table takes it 1024 pages on.
unfoldable pub dealloc_from : ℕ → ℕ → ℕ → ℕ → ℕ → Kmem → Result Kmem
unfolding walkpgdir kfree
dealloc_from kernel_end pgdir zero a oldsz k = ok k
dealloc_from kernel_end pgdir (suc fuel) a oldsz k = elim (ltb a oldsz) [
  | false ↦ ok k
  | true ↦ elim (walkpgdir pgdir a false k).0 [
    | none ↦ dealloc_from kernel_end pgdir fuel (add32 a (1024 * pgsize)) oldsz k
    | some (t, x) ↦ (do
      let e = k.words t x
      k1 ←
          if present e
          then (if pte_addr e == 0
              then panic "kfree"
              else (do k1 ← kfree kernel_end (p2v (pte_addr e)) k; ok (put_word t x 0 k1)))
          else ok k
      dealloc_from kernel_end pgdir fuel (add32 a pgsize) oldsz k1)
  ]
]

-- `deallocuvm`: the new size.
unfoldable pub deallocuvm : ℕ → ℕ → ℕ → ℕ → Kmem → Result (ℕ × Kmem)
unfolding dealloc_from
deallocuvm kernel_end pgdir oldsz newsz k = if leb oldsz newsz then ok (oldsz, k) else (do
  k1 ← dealloc_from kernel_end pgdir (oldsz / pgsize + 1) (pground_up newsz) oldsz k
  ok (newsz, k1))

-- The loop of `allocuvm`, over `n` pages from `a` on: the new size, or 0. What `mappages` returns is not looked at.
unfoldable pub alloc_from : ℕ → ℕ → ℕ → ℕ → ℕ → ℕ → Kmem → Result (ℕ × Kmem)
unfolding mappages deallocuvm
alloc_from kernel_end pgdir zero a oldsz newsz k = ok (newsz, k)
alloc_from kernel_end pgdir (suc n) a oldsz newsz k =
    let (mem, k1) = kalloc k in
    elim (mem == 0) [
      | true ↦ (do (sz, k2) ← deallocuvm kernel_end pgdir newsz oldsz k1; ok (0, k2))
      | false ↦ (do
        (mapped, k2) ← mappages pgdir a pgsize (v2p mem) (pte_w + pte_u) (zero_page mem k1)
        alloc_from kernel_end pgdir n (add32 a pgsize) oldsz newsz k2)
    ]

unfoldable pub allocuvm : ℕ → ℕ → ℕ → ℕ → Kmem → Result (ℕ × Kmem)
unfolding alloc_from
allocuvm kernel_end pgdir oldsz newsz k =
    if leb kernbase newsz
    then ok (0, k)
    else if ltb newsz oldsz
    then ok (oldsz, k)
    else (let a = pground_up oldsz in
        alloc_from kernel_end pgdir ((newsz + pgsize - 1 - a) / pgsize) a oldsz newsz k)

-- the loop of `freevm` over `n` entries of the directory from `i` on
unfoldable pub free_tables : ℕ → ℕ → ℕ → ℕ → Kmem → Result Kmem
unfolding kfree
free_tables kernel_end pgdir zero i k = ok k
free_tables kernel_end pgdir (suc n) i k = do
  let e = k.words pgdir i
  k1 ← if present e then kfree kernel_end (p2v (pte_addr e)) k else ok k
  free_tables kernel_end pgdir n (i + 1) k1

unfoldable pub freevm : ℕ → ℕ → Kmem → Result Kmem
unfolding deallocuvm free_tables kfree
freevm kernel_end pgdir k = if pgdir == 0 then panic "freevm: no pgdir" else (do
  (sz, k1) ← deallocuvm kernel_end pgdir kernbase 0 k
  k2 ← free_tables kernel_end pgdir 1024 0 k1
  kfree kernel_end pgdir k2)

unfoldable pub clearpteu : ℕ → ℕ → Kmem → Result Kmem
unfolding walkpgdir
clearpteu pgdir uva k = elim (walkpgdir pgdir uva false k).0 [
  | none ↦ panic "clearpteu"
  | some (t, x) ↦ (let e = k.words t x in ok (put_word t x (if for_user e then e - pte_u else e) k))
]

-- The loop of `copyuvm` over `n` pages from `i` on, where `i` does not wrap around: false where it goes to `bad`.
unfoldable pub copy_from : ℕ → ℕ → ℕ → ℕ → Kmem → Result (Bool × Kmem)
unfolding walkpgdir mappages
copy_from pgdir d zero i k = ok (true, k)
copy_from pgdir d (suc n) i k = elim (walkpgdir pgdir i false k).0 [
  | none ↦ panic "copyuvm: pte should exist"
  | some (t, x) ↦
      let e = k.words t x in
      if not (present e)
      then panic "copyuvm: page not present"
      else (let (mem, k1) = kalloc k in
          elim (mem == 0) [
            | true ↦ ok (false, k1)
            | false ↦ (do
              let k2 = record k1 { words = update k1.words mem (k1.words (p2v (pte_addr e))) }
              (mapped, k3) ← mappages d i pgsize (v2p mem) (pte_flags e) k2
              let rest = copy_from pgdir d n (i + pgsize) k3
              if mapped then rest else ok (false, k3))
          ])
]

-- `copyuvm`: the new directory, or 0.
unfoldable pub copyuvm : ℕ → ℕ → ℕ → ℕ → Kmem → Result (ℕ × Kmem)
unfolding setupkvm copy_from freevm
copyuvm kernel_end kernel_data pgdir sz k = do
  (d, k1) ← setupkvm kernel_data k
  if d == 0 then ok (0, k1) else (do
    (copied, k2) ← copy_from pgdir d ((sz + pgsize - 1) / pgsize) 0 k1
    if copied then ok (d, k2) else (do k3 ← freevm kernel_end d k2; ok (0, k3)))

-- `*pte` for what `walkpgdir` returned, with the word at address 0 for a null pointer
abbrev pub read_entry : ℕ → Kmem → Option (ℕ × ℕ) → ℕ
read_entry at_null k none = at_null
read_entry at_null k (some (t, x)) = k.words t x

-- `uva2ka`, which reads the entry without a look at what `walkpgdir` returned; `at_null` is the word at address 0.
pub uva2ka : ℕ → ℕ → ℕ → Kmem → ℕ
unfolding walkpgdir
uva2ka at_null pgdir uva k =
    let e = read_entry at_null k (walkpgdir pgdir uva false k).0 in
    if not (present e) then 0 else if not (for_user e) then 0 else p2v (pte_addr e)

-- The loop of `copyout` with bytes left to copy; the result is false for -1.
pub copy_out_from : ℕ → ℕ → ℕ → ℕ → List ℕ → Kmem → Result (Bool × Kmem)
unfolding uva2ka
copy_out_from at_null pgdir zero va bs k = ok (true, k)
copy_out_from at_null pgdir (suc fuel) va [] k = ok (true, k)
copy_out_from at_null pgdir (suc fuel) va (b ∷ bs) k =
    let va0 = pground_down va in
    let pa0 = uva2ka at_null pgdir va0 k in
    let n = min (pgsize - (va - va0)) (length (b ∷ bs)) in
    elim (pa0 == 0) [
      | true ↦ ok (false, k)
      | false ↦
          copy_out_from at_null pgdir fuel (add32 va0 pgsize) (drop n (b ∷ bs))
            (put_in_page pa0 (va - va0) (take n (b ∷ bs)) k)
    ]

unfoldable pub copyout : ℕ → ℕ → ℕ → List ℕ → Kmem → Result (Bool × Kmem)
unfolding copy_out_from
copyout at_null pgdir va bs = copy_out_from at_null pgdir (length bs) va bs
