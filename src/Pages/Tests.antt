-- ===== src/Pages/Tests.antt =====
-- The theorems on kalloc.c at a machine with two free pages, of which one is handed out before a third is added.
use nunix.Prelude.{ℕ, ◌+◌, ◌≡◌, refl, true, false, [], ◌∷◌, arith, ok, panic}
use nunix.Pages.{Kmem, kfree, kalloc, freerange, free_pages}
use nunix.Pages.FreeList.{mem, is_page}
use nunix.Pages.Owners.{System, Reach, ranged, allocated, start, step}
use nunix.Pages.Boot.{kalloc_exclusive}

-- the address `end`, past which there are two whole pages below `top`
abbrev last_byte : ℕ
last_byte = 2148532000

abbrev top : ℕ
top = 2148540416

abbrev empty : Kmem
empty = record { freelist = 0; words = λ p i. 0 }

abbrev filled : Kmem
filled = elim (freerange last_byte last_byte top empty) [ ok k ↦ k | panic m ↦ empty ]

-- `kinit1`, a page handed out, and then `kinit2` with the next page of memory
abbrev one_out : System
one_out = record { kmem = (kalloc filled).1; owned = (kalloc filled).0 ∷ []; top = top }

abbrev grown : Kmem
grown = elim (freerange last_byte top (top + 4096) one_out.kmem) [ ok k ↦ k | panic m ↦ empty ]

abbrev one_out_grown : System
one_out_grown = record one_out { kmem = grown; top = top + 4096 }

one_out_grown-Reach : Reach last_byte (record { kmem = empty; owned = []; top = 0 }) one_out_grown
unfolding freerange free_pages kfree kalloc
one_out_grown-Reach =
    step
      (step (step start (ranged last_byte top filled (omega arith) (omega arith) refl))
        (allocated refl))
      (ranged top (top + 4096) grown (omega arith) (omega arith) refl)

kalloc_exclusive_example :
    (mem (kalloc one_out_grown.kmem).0 one_out_grown.owned ≡ false)
    × (is_page last_byte (kalloc one_out_grown.kmem).0 ≡ true)
unfolding freerange free_pages kfree kalloc
kalloc_exclusive_example =
    kalloc_exclusive last_byte (omega arith) empty one_out_grown refl one_out_grown-Reach refl
