-- ===== src/Pages.antt =====
-- kalloc.c: the list of free pages, whose links stand in the pages themselves.
mod Tests
pub mod FreeList
pub mod Owners
pub mod Boot
use nunix.Prelude.{
  ℕ, zero, suc, ◌+◌, ◌-◌, ◌*◌, ◌/◌, ◌%◌, ◌^◌, ◌<◌, Bool, true, false, ◌&&◌, ◌||◌, not, ◌==◌, ltb,
  leb, if◌then◌else◌, update, for_upto, Result, ok, panic, ◌>>=◌, List, [], ◌∷◌,
}

abbrev pub pgsize : ℕ
pgsize = 4096

abbrev pub kernbase : ℕ
kernbase = 2147483648

abbrev pub phystop : ℕ
phystop = 234881024

-- `kmem`, and the memory by words of a page: `words p k` is word `k` of the page at `p`. The link `r->next` is word 0 of
-- a free page. `use_lock` only tells whether the lock is taken.
pub record Kmem : Type 0 where
  pub freelist : ℕ
  pub words : ℕ → ℕ → ℕ

-- the word that `memset(v, 1, PGSIZE)` leaves
abbrev pub junk : ℕ
junk = 16843009

-- `kfree`; `kernel_end` is the address `end` of the linker script.
unfoldable pub kfree : ℕ → ℕ → Kmem → Result Kmem
kfree kernel_end v k =
    if not (v % pgsize == 0) || ltb v kernel_end || leb phystop ((v + 2 ^ 32 - kernbase) % 2 ^ 32)
    then panic "kfree"
    else ok (record k { words = update k.words v (update (λ i. junk) 0 k.freelist); freelist = v })

-- `kalloc`: the page, or 0
unfoldable pub kalloc : Kmem → ℕ × Kmem
kalloc k = let r = k.freelist in if r == 0 then (r, k) else (r, record k { freelist = k.words r 0 })

abbrev pub pground_up : ℕ → ℕ
pground_up sz = (sz + pgsize - 1) % 2 ^ 32 / pgsize * pgsize

-- The loop of `freerange`, over `n` pages from `p` on.
pub free_pages : ℕ → ℕ → ℕ → Kmem → Result Kmem
free_pages kernel_end zero p k = ok k
free_pages kernel_end (suc n) p k = kfree kernel_end p k >>= free_pages kernel_end n (p + pgsize)

-- `freerange`: the loop runs while `p + PGSIZE <= vend`.
pub freerange : ℕ → ℕ → ℕ → Kmem → Result Kmem
unfolding free_pages
freerange kernel_end vstart vend =
    free_pages kernel_end ((vend - pground_up vstart) / pgsize) (pground_up vstart)
