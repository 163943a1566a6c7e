-- ===== src/Vm.antt =====
-- vm.c: page tables in the memory of kalloc.c. A page is named by its kernel address, `k.words p i` is word `i` of
-- the page at `p`, and an entry of a table is a word: the address of a frame, a multiple of `pgsize`, plus flags below it.
pub mod Space
pub mod Walk
pub mod Grow
pub mod Found
pub mod Map
pub mod Kernel
pub mod Setup
pub mod Given
pub mod Copy
pub mod Parent
pub mod Fork
pub mod Child
pub mod Alloc
pub mod Freed
pub mod Dropped
pub mod Dealloc
pub mod Tables
pub mod Release
pub mod Process
pub mod Sbrk
pub mod Exec
pub mod Launch
pub mod User
pub mod Sample
mod Tests
use nunix.Prelude.{
  ℕ, zero, suc, ◌+◌, ◌-◌, ◌*◌, ◌/◌, ◌%◌, ◌^◌, Bool, true, false, not, ◌&&◌, ◌||◌, ◌==◌, ltb, leb,
  if◌then◌else◌, update, Result, ok, panic, ◌>>=◌, min, Option, none, some, List, [], ◌∷◌,
}
use nunix.Pages.{Kmem, pgsize, kernbase, phystop, kalloc}

-- `PDX` and `PTX`
abbrev pub pdx : ℕ → ℕ
pdx va = va / 4194304 % 1024

abbrev pub ptx : ℕ → ℕ
ptx va = va / pgsize % 1024

abbrev pub pground_down : ℕ → ℕ
pground_down a = a / pgsize * pgsize

-- `uint` arithmetic
abbrev pub add32 : ℕ → ℕ → ℕ
add32 a b = (a + b) % 2 ^ 32

abbrev pub sub32 : ℕ → ℕ → ℕ
sub32 a b = (a + 2 ^ 32 - b) % 2 ^ 32

abbrev pub v2p : ℕ → ℕ
v2p a = sub32 a kernbase

abbrev pub p2v : ℕ → ℕ
p2v a = add32 a kernbase

-- `PTE_ADDR` and `PTE_FLAGS`
abbrev pub pte_addr : ℕ → ℕ
pte_addr e = e / pgsize * pgsize

abbrev pub pte_flags : ℕ → ℕ
pte_flags e = e % pgsize

-- `e & PTE_P` and `e & PTE_U`
abbrev pub present : ℕ → Bool
present e = e % 2 == 1

abbrev pub for_user : ℕ → Bool
for_user e = e / 4 % 2 == 1

abbrev pub pte_w : ℕ
pte_w = 2

abbrev pub pte_u : ℕ
pte_u = 4

-- `pa | perm | PTE_P`, for the address of a frame and flags
abbrev pub make_pte : ℕ → ℕ → ℕ
make_pte pa perm = pa + perm / 2 * 2 + 1

-- a store to word `i` of the page at `p`
abbrev pub put_word : ℕ → ℕ → ℕ → Kmem → Kmem
put_word p i v k = record k { words = update k.words p (update (k.words p) i v) }

-- `memset(p, 0, PGSIZE)`
abbrev pub zero_page : ℕ → Kmem → Kmem
zero_page p k = record k { words = update k.words p (λ i. 0) }

-- `walkpgdir`: the table and the place in it of the entry for `va`, or none for 0.
pub walkpgdir : ℕ → ℕ → Bool → Kmem → Option (ℕ × ℕ) × Kmem
unfolding kalloc
walkpgdir pgdir va alloc k =
    let pde = k.words pgdir (pdx va) in
    if present pde
    then (some (p2v (pte_addr pde), ptx va), k)
    else if not alloc
    then (none, k)
    else (let (pgtab, k1) = kalloc k in
        if pgtab == 0
        then (none, k1)
        else (some (pgtab, ptx va), put_word pgdir (pdx va) (v2p pgtab + 7) (zero_page pgtab k1)))

-- The loop of `mappages` over `n` pages; the result is false for -1.
pub map_from : ℕ → ℕ → ℕ → ℕ → ℕ → Kmem → Result (Bool × Kmem)
unfolding walkpgdir
map_from pgdir zero a pa perm k = ok (true, k)
map_from pgdir (suc n) a pa perm k =
    let (pte, k1) = walkpgdir pgdir a true k in
    elim pte [
      | none ↦ ok (false, k1)
      | some (t, i) ↦
          if present (k1.words t i)
          then panic "remap"
          else map_from pgdir n (add32 a pgsize) (add32 pa pgsize) perm
              (put_word t i (make_pte pa perm) k1)
    ]

-- `mappages`: the loop ends when `a` has come to the page of the last byte.
pub mappages : ℕ → ℕ → ℕ → ℕ → ℕ → Kmem → Result (Bool × Kmem)
unfolding map_from
mappages pgdir va size pa perm =
    let first = pground_down va in
    let last = pground_down (sub32 (add32 va size) 1) in
    map_from pgdir (sub32 last first / pgsize + 1) first pa perm

-- `struct kmap`
pub record KernelMap : Type 0 where
  pub virt : ℕ
  pub phys_start : ℕ
  pub phys_end : ℕ
  pub perm : ℕ

abbrev pub extmem : ℕ
extmem = 1048576

abbrev pub devspace : ℕ
devspace = 4261412864

-- `kmap`; `kernel_data` is the address `data` of the linker script.
abbrev pub kmap : ℕ → List KernelMap
kmap kernel_data =
    record { virt = kernbase; phys_start = 0; phys_end = extmem; perm = pte_w }
    ∷ record { virt = kernbase + extmem; phys_start = extmem; phys_end = v2p kernel_data; perm = 0 }
    ∷ record { virt = kernel_data; phys_start = v2p kernel_data; phys_end = phystop; perm = pte_w }
    ∷ record { virt = devspace; phys_start = devspace; phys_end = 0; perm = pte_w }
    ∷ []

-- The loop of `setupkvm`: false when there is no page for a table.
pub map_all : ℕ → List KernelMap → Kmem → Result (Bool × Kmem)
unfolding mappages
map_all pgdir [] k = ok (true, k)
map_all pgdir (m ∷ ms) k = do
  (mapped, k1) ← mappages pgdir m.virt (sub32 m.phys_end m.phys_start) m.phys_start m.perm k
  let rest = map_all pgdir ms k1
  if mapped then rest else ok (false, k1)

-- `setupkvm`: the page directory, or 0. `p2v(PHYSTOP)` lies below `DEVSPACE`.
pub setupkvm : ℕ → Kmem → Result (ℕ × Kmem)
unfolding kalloc map_all
setupkvm kernel_data k =
    let (pgdir, k1) = kalloc k in
    if pgdir == 0
    then ok (0, k1)
    else if ltb devspace (p2v phystop)
    then panic "PHYSTOP too high"
    else (do
      (mapped, k2) ← map_all pgdir (kmap kernel_data) (zero_page pgdir k1)
      ok ((if mapped then pgdir else 0), k2))
