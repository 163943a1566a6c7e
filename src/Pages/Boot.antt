-- ===== src/Pages/Boot.antt =====
-- The pages of the machine are handed out one owner at a time, from `kinit1` on.
use mathlib.Core.Path.{subst}
use nunix.Prelude.{
  ℕ, zero, suc, ◌+◌, ◌-◌, ◌*◌, ◌/◌, ◌≤◌, ◌<◌, ◌≡◌, refl, Bool, true, false, ◌&&◌, ◌||◌, not, ◌==◌,
  ==→eq, Bool-cases, ok-inj, update, List, [], ◌∷◌, inl, inr, arith, ap, sym, ◌∙◌, Result, ok,
  panic,
}
use nunix.Pages.{Kmem, kfree, kalloc, junk, pgsize, pground_up, free_pages, freerange}
use nunix.Pages.FreeList.{mem, Distinct, Linked, is_page, kfree-ok}
use nunix.Pages.Owners.{
  System, IsOrdered, Step, ranged, allocated, freed, written, Reach, start, step, remove,
  returned-IsOrdered, alloc-IsOrdered, free-IsOrdered, write-IsOrdered, fresh_page, kalloc-some,
  page_nonzero,
}

panics : (a b c : Bool) → a && not b && not c ≡ false → (not a || b || c) ≡ true
panics a b c h = ground arith

-- `kfree` takes nothing but a page.
kfree-page :
    (kernel_end v : ℕ) (k k' : Kmem) → kfree kernel_end v k ≡ ok k' → is_page kernel_end v ≡ true
unfolding kfree
kfree-page kernel_end v k k' h = elim (Bool-cases (is_page kernel_end v)) [
  | inl e ↦ e
  | inr e ↦ absurd (cc (rw (panics _ _ _ e) at h))
]

-- `kmem` with the page at the front of the list
abbrev given : Kmem → ℕ → Kmem
given k v = record { words = update k.words v (update (λ i. junk) 0 k.freelist); freelist = v }

module _ (kernel_end : ℕ) (kernel_there : 0 < kernel_end) where
  -- A new page from `top` on is added to the list.
  added-IsOrdered :
      (s : System) (k' : Kmem) (free : List ℕ) (v top : ℕ)
      → kfree kernel_end v s.kmem ≡ ok k'
      → s.top ≤ v
      → v < top
      → IsOrdered kernel_end s free
      → IsOrdered kernel_end (record s { kmem = k'; top = top }) (v ∷ free)
  unfolding Distinct
  added-IsOrdered s k' free v top h low high o =
      let page = kfree-page kernel_end v s.kmem k' h in
      let new_free : mem v free ≡ false = elim (Bool-cases (mem v free)) [
        | inl e ↦ absurd (omega (arith, o.free_below v e))
        | inr e ↦ e
      ] in
      let new_owned : mem v s.owned ≡ false = elim (Bool-cases (mem v s.owned)) [
        | inl e ↦ absurd (omega (arith, o.owned_below v e))
        | inr e ↦ e
      ] in
      let held : IsOrdered kernel_end (record s { owned = v ∷ s.owned; top = top }) free = record {
        linked = o.linked;
        distinct_free = o.distinct_free;
        distinct_owned = (new_owned, o.distinct_owned);
        apart = λ q m. elim (Bool-cases (q == v)) [
          | inl e ↦ absurd (cc (ap (λ x. mem x free) (==→eq q v e), new_free, m))
          | inr e ↦ rw e (o.apart q m)
        ];
        free_pages = o.free_pages;
        owned_pages = λ q m. elim (Bool-cases (q == v)) [
          | inl e ↦ ap (is_page kernel_end) (==→eq q v e) ∙ page
          | inr e ↦ o.owned_pages q (rw e at m)
        ];
        free_below = λ q m. omega (arith, o.free_below q m);
        owned_below = λ q m. elim (Bool-cases (q == v)) [
          | inl e ↦ ground arith
          | inr e ↦ omega (arith, o.owned_below q (rw e at m))
        ];
      } in
      subst (λ k. IsOrdered kernel_end (record s { kmem = k; top = top }) (v ∷ free))
        (ok-inj (sym (kfree-ok kernel_end v s.kmem page) ∙ h))
        (subst
          (λ os.
            IsOrdered kernel_end (record s { kmem = given s.kmem v; owned = os; top = top })
              (v ∷ free))
          (first_gone v s.owned)
          (returned-IsOrdered kernel_end kernel_there (record s { owned = v ∷ s.owned; top = top })
            free v (ground arith) held))
    where
      first_gone : (v : ℕ) (xs : List ℕ) → remove v (v ∷ xs) ≡ xs
      first_gone v xs = ground arith

  -- A higher end changes nothing.
  raised-IsOrdered :
      (s : System) (free : List ℕ) (top : ℕ)
      → s.top ≤ top
      → IsOrdered kernel_end s free
      → IsOrdered kernel_end (record s { top = top }) free
  raised-IsOrdered s free top l o = record {
    linked = o.linked;
    distinct_free = o.distinct_free;
    distinct_owned = o.distinct_owned;
    apart = o.apart;
    free_pages = o.free_pages;
    owned_pages = o.owned_pages;
    free_below = λ q m. omega (arith, o.free_below q m);
    owned_below = λ q m. omega (arith, o.owned_below q m);
  }

  free_pages-IsOrdered :
      (n p top : ℕ) (s : System) (k' : Kmem) (free : List ℕ)
      → free_pages kernel_end n p s.kmem ≡ ok k'
      → s.top ≤ p
      → p + n * pgsize ≤ top
      → IsOrdered kernel_end s free
      → (free' : List ℕ) × IsOrdered kernel_end (record s { kmem = k'; top = top }) free'
  unfolding free_pages
  free_pages-IsOrdered zero p top s k' free h low high o = (
    free,
    subst (λ k. IsOrdered kernel_end (record s { kmem = k; top = top }) free) (ok-inj h)
        (raised-IsOrdered s free top (omega arith) o),
  )
  free_pages-IsOrdered (suc n) p top s k' free h low high o =
      more
        (λ k1.
          free_pages-IsOrdered n (p + pgsize) top (record s { kmem = k1; top = p + pgsize }) k'
            (p ∷ free))
        (kfree kernel_end p s.kmem) refl
    where
      more :
          ((k1 : Kmem)
            → free_pages kernel_end n (p + pgsize) k1 ≡ ok k'
            → p + pgsize ≤ p + pgsize
            → p + pgsize + n * pgsize ≤ top
            → IsOrdered kernel_end (record s { kmem = k1; top = p + pgsize }) (p ∷ free)
            → (free' : List ℕ) × IsOrdered kernel_end (record s { kmem = k'; top = top }) free')
          → (r : Result Kmem) → kfree kernel_end p s.kmem ≡ r
          → (free' : List ℕ) × IsOrdered kernel_end (record s { kmem = k'; top = top }) free'
      more rest (panic m) e = absurd (cc (rw e at h))
      more rest (ok k1) e =
          rest k1 (rw e at h) (omega arith) (omega arith)
            (added-IsOrdered s k1 free p (p + pgsize) e low (omega arith) o)

  ranged-IsOrdered :
      (s : System) (free : List ℕ) (vstart vend : ℕ) (k : Kmem)
      → s.top ≤ pground_up vstart
      → pground_up vstart ≤ vend
      → freerange kernel_end vstart vend s.kmem ≡ ok k
      → IsOrdered kernel_end s free
      → (free' : List ℕ) × IsOrdered kernel_end (record s { kmem = k; top = vend }) free'
  unfolding freerange
  ranged-IsOrdered s free vstart vend k low high h o =
      free_pages-IsOrdered ((vend - pground_up vstart) / pgsize) (pground_up vstart) vend s k free h
        low (room (pground_up vstart) high) o
    where
      room : (p : ℕ) → p ≤ vend → p + (vend - p) / pgsize * pgsize ≤ vend
      room p l = omega arith

  step-IsOrdered :
      {x y : System} (free : List ℕ)
      → Step kernel_end x y
      → IsOrdered kernel_end x free
      → (free' : List ℕ) × IsOrdered kernel_end y free'
  step-IsOrdered {x} free (ranged vstart vend k low high h) o =
      ranged-IsOrdered x free vstart vend k low high h o
  step-IsOrdered {x} free (allocated z) o =
      let (rest, e, p) = alloc-IsOrdered kernel_end kernel_there x free z o in (rest, p)
  step-IsOrdered {x} free (freed v k m h) o =
      (v ∷ free, free-IsOrdered kernel_end kernel_there x free v k m h o)
  step-IsOrdered {x} free (written v page m) o =
      (free, write-IsOrdered kernel_end kernel_there x free v page m o)

  reach-IsOrdered :
      {a b : System}
      → Reach kernel_end a b
      → (free : List ℕ) → IsOrdered kernel_end a free
      → (free' : List ℕ) × IsOrdered kernel_end b free'
  reach-IsOrdered start free o = (free, o)
  reach-IsOrdered (step r s) free o = let (f, p) = reach-IsOrdered r free o in step-IsOrdered f s p

  -- Before the kernel has given the allocator any memory.
  empty-IsOrdered :
      (k : Kmem)
      → k.freelist ≡ 0
      → IsOrdered kernel_end (record { kmem = k; owned = []; top = 0 }) []
  unfolding Linked Distinct
  empty-IsOrdered k empty = record {
    linked = empty;
    distinct_free = tt;
    distinct_owned = tt;
    apart = λ q m. refl;
    free_pages = λ q m. absurd (cc m);
    owned_pages = λ q m. absurd (cc m);
    free_below = λ q m. absurd (cc m);
    owned_below = λ q m. absurd (cc m);
  }

  -- From an empty list on, let `freerange` add ranges of memory, each above the ones before it, at any time, as `kinit1` and `kinit2` do, and let pages be taken, written
  -- and given back between them in any order. Then a page that `kalloc` hands out is not in use, and is one that `kfree` takes.
  pub kalloc_exclusive :
      (k : Kmem) (s : System)
      → k.freelist ≡ 0
      → Reach kernel_end (record { kmem = k; owned = []; top = 0 }) s
      → ((kalloc s.kmem).0 == 0) ≡ false
      → (mem (kalloc s.kmem).0 s.owned ≡ false) × (is_page kernel_end (kalloc s.kmem).0 ≡ true)
  kalloc_exclusive k s empty r z =
      let (f, o) = reach-IsOrdered r [] (empty-IsOrdered k empty) in
      fresh_page kernel_end kernel_there s f o z

  -- In every such state `kfree` of a page that is in use does not panic, and the next `kalloc` hands that page out.
  kfree_accepts :
      (k : Kmem) (s : System) (v : ℕ)
      → k.freelist ≡ 0
      → Reach kernel_end (record { kmem = k; owned = []; top = 0 }) s
      → mem v s.owned ≡ true
      → (k1 : Kmem) × (kfree kernel_end v s.kmem ≡ ok k1) × ((kalloc k1).0 ≡ v)
  kfree_accepts k s v empty r m =
      let (f, o) = reach-IsOrdered r [] (empty-IsOrdered k empty) in
      let page = o.owned_pages v m in
      (
        given s.kmem v,
        kfree-ok kernel_end v s.kmem page,
        ap (λ r. r.0)
            (kalloc-some kernel_end kernel_there (given s.kmem v)
              (page_nonzero kernel_end kernel_there v page)),
      )
