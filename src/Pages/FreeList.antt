-- ===== src/Pages/FreeList.antt =====
-- The allocator against the set of free pages: the chain of links as a list of distinct pages.
use nunix.Prelude.{
  ℕ, ◌+◌, ◌-◌, ◌%◌, ◌^◌, ◌≡◌, Bool, true, false, ◌&&◌, ◌||◌, not, ◌==◌, ltb, leb, if-false, update,
  List, [], ◌∷◌, arith, ok, panic,
}
use nunix.Pages.{Kmem, kfree, pgsize, kernbase, phystop, junk}

abbrev pub mem : ℕ → List ℕ → Bool
mem x [] = false
mem x (y ∷ ys) = (x == y) || mem x ys

unfoldable pub Distinct : List ℕ → Type 0
Distinct [] = Unit
Distinct (x ∷ xs) = (mem x xs ≡ false) × Distinct xs

-- the pages that the links lead through from `head` to the null pointer
unfoldable pub Linked : (ℕ → ℕ → ℕ) → ℕ → List ℕ → Type 0
Linked words head [] = head ≡ 0
Linked words head (p ∷ ps) = (head ≡ p) × ((p == 0) ≡ false) × Linked words (words p 0) ps

-- A write to a page that is not in the chain keeps the chain.
pub write-Linked :
    (words : ℕ → ℕ → ℕ) (head : ℕ) (ps : List ℕ) (v : ℕ) (page : ℕ → ℕ)
    → mem v ps ≡ false
    → Linked words head ps
    → Linked (update words v page) head ps
unfolding Linked
write-Linked words head [] v page out h = h
write-Linked words head (p ∷ ps) v page out (e, z, h) = (
  e,
  z,
  rw (apart (v == p) (mem v ps) out) (write-Linked words (words p 0) ps v page (ground arith) h),
)
  where
    apart : (a b : Bool) → a || b ≡ false → a ≡ false
    apart a b h = ground arith

-- a page that `kfree` takes
abbrev pub is_page : ℕ → ℕ → Bool
is_page kernel_end v =
    (v % pgsize == 0)
    && not (ltb v kernel_end)
    && not (leb phystop ((v + 2 ^ 32 - kernbase) % 2 ^ 32))

no_panic : (a b c : Bool) → a && not b && not c ≡ true → (not a || b || c) ≡ false
no_panic a b c h = ground arith

pub kfree-ok :
    (kernel_end v : ℕ) (k : Kmem)
    → is_page kernel_end v ≡ true
    → kfree kernel_end v k
      ≡ ok (record k { words = update k.words v (update (λ i. junk) 0 k.freelist); freelist = v })
unfolding kfree
kfree-ok kernel_end v k h = if-false (panic "kfree") (no_panic _ _ _ h)
