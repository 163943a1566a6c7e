-- ===== src/Pages/Owners.antt =====
-- Who has a page: the free list, or exactly one owner who got it from `kalloc` and may write it.
use mathlib.Core.Path.{subst}
use nunix.Prelude.{
  ℕ, ◌≤◌, ◌<◌, ◌≡◌, refl, true, false, ◌||◌, ◌==◌, ==→eq, if◌then◌else◌, Bool-cases, if-false,
  ok-inj, update, List, [], ◌∷◌, inl, inr, arith, ap, sym, ◌∙◌, ok,
}
use nunix.Pages.{Kmem, kfree, kalloc, junk, pground_up, freerange}
use nunix.Pages.FreeList.{mem, Distinct, Linked, write-Linked, is_page, kfree-ok}

abbrev pub remove : ℕ → List ℕ → List ℕ
remove x [] = []
remove x (y ∷ ys) = if x == y then ys else y ∷ remove x ys

-- The allocator, the pages that are out, and the end of the memory that `freerange` was given.
pub record System : Type 0 where
  pub kmem : Kmem
  pub owned : List ℕ
  pub top : ℕ

-- What happens to the pages: a range of new ones is given to the allocator, as `kinit1` and `kinit2` do, which goes upward; one is
-- handed out, one that is out is given back, or written.
pub data Step (kernel_end : ℕ) (s : System) : System → Type 0 where
  ranged :
      (vstart vend : ℕ) (k : Kmem)
      → s.top ≤ pground_up vstart
      → pground_up vstart ≤ vend
      → freerange kernel_end vstart vend s.kmem ≡ ok k
      → Step kernel_end s (record s { kmem = k; top = vend })
  allocated :
      ((kalloc s.kmem).0 == 0) ≡ false
      → Step kernel_end s
          (record s { kmem = (kalloc s.kmem).1; owned = (kalloc s.kmem).0 ∷ s.owned })
  freed :
      (v : ℕ) (k : Kmem)
      → mem v s.owned ≡ true
      → kfree kernel_end v s.kmem ≡ ok k
      → Step kernel_end s (record s { kmem = k; owned = remove v s.owned })
  written :
      (v : ℕ) (page : ℕ → ℕ)
      → mem v s.owned ≡ true
      → Step kernel_end s (record s { kmem = record s.kmem { words = update s.kmem.words v page } })

pub data Reach (kernel_end : ℕ) (s : System) : System → Type 0 where
  start : Reach kernel_end s s
  step : {a b : System} → Reach kernel_end s a → Step kernel_end a b → Reach kernel_end s b

-- Each page is in the free list or out, once, below `top`, and all are pages that `kfree` takes.
pub record IsOrdered (kernel_end : ℕ) (s : System) (free : List ℕ) : Type 0 where
  pub linked : Linked s.kmem.words s.kmem.freelist free
  pub distinct_free : Distinct free
  pub distinct_owned : Distinct s.owned
  pub apart : (p : ℕ) → mem p free ≡ true → mem p s.owned ≡ false
  pub free_pages : (p : ℕ) → mem p free ≡ true → is_page kernel_end p ≡ true
  pub owned_pages : (p : ℕ) → mem p s.owned ≡ true → is_page kernel_end p ≡ true
  pub free_below : (p : ℕ) → mem p free ≡ true → p < s.top
  pub owned_below : (p : ℕ) → mem p s.owned ≡ true → p < s.top

mem-remove : (p v : ℕ) (xs : List ℕ) → mem p (remove v xs) ≡ true → mem p xs ≡ true
mem-remove p v [] h = h
mem-remove p v (x ∷ xs) h = elim (Bool-cases (v == x)) [
  | inl e ↦ let h' : mem p xs ≡ true = rw e at h in ground arith
  | inr e ↦
      let h' : (p == x) || mem p (remove v xs) ≡ true = rw e at h in
      ground (arith, mem-remove p v xs)
]

-- A page that is removed from distinct ones is gone.
removed : (v : ℕ) (xs : List ℕ) → Distinct xs → mem v (remove v xs) ≡ false
unfolding Distinct
removed v [] d = refl
removed v (x ∷ xs) (o, d) = elim (Bool-cases (v == x)) [
  | inl e ↦ rw (e, ==→eq v x e) o
  | inr e ↦ rw e (rw e (removed v xs d))
]

still_out : (v x : ℕ) (xs : List ℕ) → mem x xs ≡ false → mem x (remove v xs) ≡ false
still_out v x xs o = elim (Bool-cases (mem x (remove v xs))) [
  | inl e ↦ absurd (cc (mem-remove x v xs e, o))
  | inr e ↦ e
]

remove-Distinct : (v : ℕ) (xs : List ℕ) → Distinct xs → Distinct (remove v xs)
unfolding Distinct
remove-Distinct v [] d = d
remove-Distinct v (x ∷ xs) (o, d) = elim (Bool-cases (v == x)) [
  | inl e ↦ rw e d
  | inr e ↦ rw e (still_out v x xs o, remove-Distinct v xs d)
]

not_free :
    {kernel_end : ℕ} (s : System) (free : List ℕ) (v : ℕ)
    → mem v s.owned ≡ true
    → IsOrdered kernel_end s free
    → mem v free ≡ false
not_free s free v m o = elim (Bool-cases (mem v free)) [
  | inl e ↦ absurd (cc (o.apart v e, m))
  | inr e ↦ e
]

module _ (kernel_end : ℕ) (kernel_there : 0 < kernel_end) where
  pub page_nonzero : (p : ℕ) → is_page kernel_end p ≡ true → (p == 0) ≡ false
  page_nonzero p h = ground arith

  -- The first page of the list goes out.
  handed-IsOrdered :
      (s : System) (f : ℕ) (fs : List ℕ)
      → IsOrdered kernel_end s (f ∷ fs)
      → IsOrdered kernel_end
          (record s {
            kmem = record s.kmem { freelist = s.kmem.words s.kmem.freelist 0 };
            owned = s.kmem.freelist ∷ s.owned;
          })
          fs
  unfolding Linked Distinct
  handed-IsOrdered s f fs o =
      let (e, z, l) = o.linked in
      rw e (record {
        linked = l;
        distinct_free = o.distinct_free.1;
        distinct_owned = (o.apart f (ground arith), o.distinct_owned);
        apart = λ q h. elim (Bool-cases (q == f)) [
          | inl y ↦ absurd (cc (ap (λ x. mem x fs) (==→eq q f y), o.distinct_free.0, h))
          | inr y ↦ rw y (o.apart q (ground arith))
        ];
        free_pages = λ q h. o.free_pages q (ground arith);
        owned_pages = λ q h. elim (Bool-cases (q == f)) [
          | inl y ↦ rw (==→eq q f y) (o.free_pages f (ground arith))
          | inr y ↦ o.owned_pages q (rw y at h)
        ];
        free_below = λ q h. o.free_below q (ground arith);
        owned_below = λ q h. elim (Bool-cases (q == f)) [
          | inl y ↦ rw (==→eq q f y) (o.free_below f (ground arith))
          | inr y ↦ o.owned_below q (rw y at h)
        ];
      })

  pub kalloc-some :
      (k : Kmem)
      → (k.freelist == 0) ≡ false
      → kalloc k ≡ (k.freelist, record k { freelist = k.words k.freelist 0 })
  unfolding kalloc
  kalloc-some k z = if-false (k.freelist, k) z

  kalloc-none : (k : Kmem) → (k.freelist == 0) ≡ true → (kalloc k).0 ≡ 0
  unfolding kalloc
  kalloc-none k z = rw z (==→eq k.freelist 0 z)

  pub alloc-IsOrdered :
      (s : System) (free : List ℕ)
      → ((kalloc s.kmem).0 == 0) ≡ false
      → IsOrdered kernel_end s free
      → (rest : List ℕ) × (free ≡ s.kmem.freelist ∷ rest)
        × IsOrdered kernel_end
            (record s { kmem = (kalloc s.kmem).1; owned = (kalloc s.kmem).0 ∷ s.owned })
            rest
  unfolding Linked
  alloc-IsOrdered s [] z o = absurd (ground (arith, kalloc-none s.kmem (ap (λ x. x == 0) o.linked)))
  alloc-IsOrdered s (f ∷ fs) z o =
      let (e, nz, l) = o.linked in
      (
        fs,
        ap (λ x. x ∷ fs) (sym e),
        subst (λ r. IsOrdered kernel_end (record s { kmem = r.1; owned = r.0 ∷ s.owned }) fs)
            (sym (kalloc-some s.kmem (ap (λ x. x == 0) e ∙ nz))) (handed-IsOrdered s f fs o),
      )

  -- A page comes back to the front of the list.
  pub returned-IsOrdered :
      (s : System) (free : List ℕ) (v : ℕ)
      → mem v s.owned ≡ true
      → IsOrdered kernel_end s free
      → IsOrdered kernel_end
          (record s {
            kmem = record s.kmem {
              words = update s.kmem.words v (update (λ i. junk) 0 s.kmem.freelist);
              freelist = v;
            };
            owned = remove v s.owned;
          })
          (v ∷ free)
  unfolding Linked Distinct
  returned-IsOrdered s free v m o = record {
    linked = (
      refl,
      page_nonzero v (o.owned_pages v m),
      subst
          (λ head. Linked (update s.kmem.words v (update (λ i. junk) 0 s.kmem.freelist)) head free)
          (ground arith)
          (write-Linked s.kmem.words s.kmem.freelist free v (update (λ i. junk) 0 s.kmem.freelist)
            (not_free s free v m o) o.linked),
    );
    distinct_free = (not_free s free v m o, o.distinct_free);
    distinct_owned = remove-Distinct v s.owned o.distinct_owned;
    apart = λ q h. elim (Bool-cases (q == v)) [
      | inl y ↦ rw (==→eq q v y) (removed v s.owned o.distinct_owned)
      | inr y ↦ still_out v q s.owned (o.apart q (rw y at h))
    ];
    free_pages = λ q h. elim (Bool-cases (q == v)) [
      | inl y ↦ rw (==→eq q v y) (o.owned_pages v m)
      | inr y ↦ o.free_pages q (rw y at h)
    ];
    owned_pages = λ q h. o.owned_pages q (mem-remove q v s.owned h);
    free_below = λ q h. elim (Bool-cases (q == v)) [
      | inl y ↦ rw (==→eq q v y) (o.owned_below v m)
      | inr y ↦ o.free_below q (rw y at h)
    ];
    owned_below = λ q h. o.owned_below q (mem-remove q v s.owned h);
  }

  pub free-IsOrdered :
      (s : System) (free : List ℕ) (v : ℕ) (k : Kmem)
      → mem v s.owned ≡ true
      → kfree kernel_end v s.kmem ≡ ok k
      → IsOrdered kernel_end s free
      → IsOrdered kernel_end (record s { kmem = k; owned = remove v s.owned }) (v ∷ free)
  free-IsOrdered s free v k m h o =
      subst (λ k. IsOrdered kernel_end (record s { kmem = k; owned = remove v s.owned }) (v ∷ free))
        (ok-inj (sym (kfree-ok kernel_end v s.kmem (o.owned_pages v m)) ∙ h))
        (returned-IsOrdered s free v m o)

  pub write-IsOrdered :
      (s : System) (free : List ℕ) (v : ℕ) (page : ℕ → ℕ)
      → mem v s.owned ≡ true
      → IsOrdered kernel_end s free
      → IsOrdered kernel_end
          (record s { kmem = record s.kmem { words = update s.kmem.words v page } })
          free
  write-IsOrdered s free v page m o = record {
    linked = write-Linked s.kmem.words s.kmem.freelist free v page (not_free s free v m o) o.linked;
    distinct_free = o.distinct_free;
    distinct_owned = o.distinct_owned;
    apart = o.apart;
    free_pages = o.free_pages;
    owned_pages = o.owned_pages;
    free_below = o.free_below;
    owned_below = o.owned_below;
  }

  pub fresh_page :
      (s : System) (free : List ℕ)
      → IsOrdered kernel_end s free
      → ((kalloc s.kmem).0 == 0) ≡ false
      → (mem (kalloc s.kmem).0 s.owned ≡ false) × (is_page kernel_end (kalloc s.kmem).0 ≡ true)
  unfolding Distinct
  fresh_page s free o z =
      let (rest, e, p) = alloc-IsOrdered s free z o in
      (p.distinct_owned.0, p.owned_pages (kalloc s.kmem).0 (ground arith))
