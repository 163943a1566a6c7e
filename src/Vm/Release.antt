-- ===== src/Vm/Release.antt =====
-- `freevm`: all that a process had goes back to the free pages.
use mathlib.Core.Path.{subst}
use nunix.Prelude.{
  ℕ, ◌*◌, ◌/◌, ◌≤◌, ◌<◌, ◌≡◌, ◌⊎◌, refl, true, false, ◌==◌, ok, List, ◌∷◌, inl, inr, arith, ap, sym,
  ◌∙◌,
}
use nunix.Pages.{Kmem, pgsize, kernbase, pground_up}
use nunix.Pages.FreeList.{mem}
use nunix.Vm.{p2v, pte_addr, present}
use nunix.Vm.User.{freevm}
use nunix.Vm.Space.{table, has_table, pte, IsFrame}
use nunix.Vm.Grow.{member_first, later_mem}
use nunix.Vm.Kernel.{IsFree}
use nunix.Vm.Given.{frame}
use nunix.Vm.Copy.{IsUser, pte-page}
use nunix.Vm.Freed.{freed, mem_cons, not_mem_tail, freed-IsFree, kfree-freed, freed-other}
use nunix.Vm.Dropped.{Dropped}
use nunix.Vm.Dealloc.{deallocuvm-Dropped}
use nunix.Vm.Tables.{IsOwned, Emptied, free_tables-Emptied, out_before}

-- Where a page of a process is.
pub data Held (k : Kmem) (pgdir : ℕ) (sz : ℕ) (p : ℕ) : Type 0 where
  page : (u : ℕ) → u < sz → p ≡ frame k pgdir u → Held k pgdir sz p
  page_table :
      (i : ℕ) → i < 1024 → has_table k pgdir i ≡ true → p ≡ table k pgdir i → Held k pgdir sz p
  page_directory : p ≡ pgdir → Held k pgdir sz p

-- The free pages are the old ones and those of the process, and no other page is written.
pub record Released (k : Kmem) (pgdir : ℕ) (free : List ℕ) (sz : ℕ) (k' : Kmem) (free' : List ℕ)
    : Type 0 where
  pub chain : IsFree k' free'
  pub still : (p : ℕ) → mem p free ≡ true → mem p free' ≡ true
  pub back : (p : ℕ) → Held k pgdir sz p → mem p free' ≡ true
  pub within : (p : ℕ) → mem p free' ≡ true → (mem p free ≡ true) ⊎ Held k pgdir sz p
  pub kept : (p : ℕ) → mem p free' ≡ false → k'.words p ≡ k.words p

-- The pages, the tables and at last the directory are freed.
module _ (ke : ℕ) (k : Kmem) (pgdir : ℕ) (free : List ℕ) (sz : ℕ) (p : IsUser k pgdir free sz)
    (owned : IsOwned ke k pgdir) (k1 : Kmem) (free1 : List ℕ)
    (down : Dropped k pgdir free 0 k1 free1 (pground_up sz)) where
  same_tables :
      (i : ℕ) → (has_table k1 pgdir i ≡ has_table k pgdir i) × (table k1 pgdir i ≡ table k pgdir i)
  same_tables i =
      (ap (λ w. present (w i)) down.directory, ap (λ w. p2v (pte_addr (w i))) down.directory)

  kept-IsOwned : IsOwned ke k1 pgdir
  kept-IsOwned = record {
    directory = owned.directory;
    directory_above = owned.directory_above;
    tables =
        λ i l h. let (a, b) = same_tables i in subst IsFrame (sym b) (owned.tables i l (sym a ∙ h));
    tables_above = λ i l h.
        let (a, b) = same_tables i in
        subst (λ q. ke ≤ q) (sym b) (owned.tables_above i l (sym a ∙ h));
  }

  start : Emptied k1 pgdir free1 k1 free1 0
  start = record {
    chain = record {
      linked = down.space.linked;
      distinct = down.space.distinct;
      frames = down.space.frames;
    };
    directory = refl;
    out = down.space.dir_out;
    still = λ q m. m;
    back = λ j l h. absurd (omega arith);
    within = λ q m. inl m;
    kept = λ q m. refl;
  }

  held :
      (k2 : Kmem) (free2 : List ℕ)
      → Emptied k1 pgdir free1 k2 free2 1024
      → (q : ℕ) → Held k pgdir sz q
      → mem q (pgdir ∷ free2) ≡ true
  held k2 free2 c q (page u l e) =
      let small = p.small in
      ap (λ x. mem x (pgdir ∷ free2)) e
      ∙ later_mem (frame k pgdir u) pgdir free2
          (c.still (frame k pgdir u) (down.back u (omega arith) (omega arith)))
  held k2 free2 c q (page_table i l h e) =
      let (a, b) = same_tables i in
      ap (λ x. mem x (pgdir ∷ free2)) (e ∙ sym b)
      ∙ later_mem (table k1 pgdir i) pgdir free2 (c.back i l (a ∙ h))
  held k2 free2 c q (page_directory e) =
      ap (λ x. mem x (pgdir ∷ free2)) e ∙ member_first pgdir free2

  holder :
      (k2 : Kmem) (free2 : List ℕ)
      → Emptied k1 pgdir free1 k2 free2 1024
      → (q : ℕ) → mem q (pgdir ∷ free2) ≡ true
      → (mem q free ≡ true) ⊎ Held k pgdir sz q
  holder k2 free2 c q m = elim (mem_cons q pgdir free2 m) [
    | inl e ↦ inr (page_directory e)
    | inr m2 ↦ elim (c.within q m2) [
      | inr (i, l, h, e) ↦ let (a, b) = same_tables i in inr (page_table i l (sym a ∙ h) (e ∙ b))
      | inl m1 ↦ elim (down.within q m1) [
        | inl m0 ↦ inl m0
        | inr (u, x, y, e) ↦ inr (
            page (u / pgsize * pgsize) (let s = p.small in omega arith) (
              e
              ∙ ap (λ x. p2v (pte_addr x))
                  (pte-page k pgdir u (u / pgsize * pgsize) (omega arith))))
      ]
    ]
  ]

  Emptied-Released :
      (k2 : Kmem) (free2 : List ℕ)
      → Emptied k1 pgdir free1 k2 free2 1024
      → Released k pgdir free sz (freed pgdir k2) (pgdir ∷ free2)
  Emptied-Released k2 free2 c = record {
    chain = freed-IsFree k2 pgdir free2 c.chain owned.directory c.out;
    still = λ q m. later_mem q pgdir free2 (c.still q (down.still q m));
    back = held k2 free2 c;
    within = holder k2 free2 c;
    kept = λ q m.
        let (apart, m2) = not_mem_tail q pgdir free2 m in
        freed-other k2 pgdir q apart
        ∙ c.kept q m2
        ∙ down.kept q (out_before q free1 free2 (c.still q) m2)
            (λ i l h e. cc (held k2 free2 c q (page_table i l h e), m));
  }

not_null : (v : ℕ) → kernbase < v → (v == 0) ≡ false
not_null v h = ground arith

-- Let a process have all of the pages of its `sz` bytes, none of them free, and no entries above them below `kernbase`, and let its pages, its
-- tables and its directory be pages of memory above the end of the kernel. Then `freevm` does not panic, and the free pages are a
-- chain again: the old ones with the pages, the tables and the directory of the process, and no others. No other page is written.
pub freevm-Released :
    (kernel_end pgdir sz : ℕ) (k : Kmem) (free : List ℕ)
    → IsUser k pgdir free sz
    → ((u : ℕ) → pground_up sz ≤ u → u < kernbase → present (pte k pgdir u) ≡ false)
    → ((u : ℕ) → u < sz → kernel_end ≤ frame k pgdir u)
    → IsOwned kernel_end k pgdir
    → (k' : Kmem) × (free' : List ℕ) × (freevm kernel_end pgdir k ≡ ok k')
      × Released k pgdir free sz k' free'
unfolding freevm
freevm-Released ke pgdir sz k free p absent above owned =
    let (k1, free1, e1, u1, down) =
      deallocuvm-Dropped ke pgdir sz kernbase 0 k free p (omega arith) p.small (omega arith) absent
        above in
    let (k2, free2, e2, c) =
      free_tables-Emptied ke k1 pgdir free1 down.space
        (kept-IsOwned ke k pgdir free sz p owned k1 free1 down) 1024 0 k1 free1 (omega arith)
        (start ke k pgdir free sz p owned k1 free1 down) in
    let e3 = kfree-freed ke pgdir k2 owned.directory owned.directory_above in
    let nonzero = not_null pgdir owned.directory.above in
    (
      freed pgdir k2,
      pgdir ∷ free2,
      rw (freevm, nonzero, e1, e2) e3,
      Emptied-Released ke k pgdir free sz p owned k1 free1 down k2 free2 c,
    )
