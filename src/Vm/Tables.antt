-- ===== src/Vm/Tables.antt =====
-- The loop of `freevm` over the tables.
use mathlib.Core.Path.{subst}
use nunix.Prelude.{
  ℕ, zero, suc, ◌+◌, ◌≤◌, ◌<◌, ◌≡◌, ◌⊎◌, refl, true, false, ltb, ok, List, ◌∷◌, inl, inr, arith,
  Bool-cases, ap, sym, ◌∙◌,
}
use nunix.Pages.{Kmem}
use nunix.Pages.FreeList.{mem}
use nunix.Vm.{p2v, pte_addr, present}
use nunix.Vm.User.{free_tables}
use nunix.Vm.Space.{table, has_table, IsFrame, IsSpace}
use nunix.Vm.Grow.{member_first, later_mem}
use nunix.Vm.Kernel.{IsFree}
use nunix.Vm.Freed.{
  freed, mem_cons, not_mem_cons, not_mem_tail, freed-IsFree, kfree-freed, freed-other,
}

-- The directory and its tables are pages of memory above the end of the kernel.
pub record IsOwned (kernel_end : ℕ) (k : Kmem) (pgdir : ℕ) : Type 0 where
  pub directory : IsFrame pgdir
  pub directory_above : kernel_end ≤ pgdir
  pub tables : (i : ℕ) → i < 1024 → has_table k pgdir i ≡ true → IsFrame (table k pgdir i)
  pub tables_above : (i : ℕ) → i < 1024 → has_table k pgdir i ≡ true → kernel_end ≤ table k pgdir i

-- The tables below entry `i` are free again, and they alone, and no other page is written.
pub record Emptied (k0 : Kmem) (pgdir : ℕ) (free0 : List ℕ) (k : Kmem) (free : List ℕ) (i : ℕ)
    : Type 0 where
  pub chain : IsFree k free
  pub directory : k.words pgdir ≡ k0.words pgdir
  pub out : mem pgdir free ≡ false
  pub still : (p : ℕ) → mem p free0 ≡ true → mem p free ≡ true
  pub back : (j : ℕ) → j < i → has_table k0 pgdir j ≡ true → mem (table k0 pgdir j) free ≡ true
  pub within :
      (p : ℕ)
      → mem p free ≡ true
      → (mem p free0 ≡ true)
        ⊎ ((j : ℕ) × (j < i) × (has_table k0 pgdir j ≡ true) × (p ≡ table k0 pgdir j))
  pub kept : (p : ℕ) → mem p free ≡ false → k.words p ≡ k0.words p

-- what is not free at the end was not free before
pub out_before :
    (q : ℕ) (free1 free2 : List ℕ)
    → (mem q free1 ≡ true → mem q free2 ≡ true)
    → mem q free2 ≡ false
    → mem q free1 ≡ false
out_before q free1 free2 f h = elim (Bool-cases (mem q free1)) [
  | inl e ↦ absurd (cc (f e, h))
  | inr e ↦ e
]

module _ (ke : ℕ) (k0 : Kmem) (pgdir : ℕ) (free0 : List ℕ) (s : IsSpace k0 pgdir free0)
    (owned : IsOwned ke k0 pgdir) where
  earlier : (i j : ℕ) → j < suc i → (j < i) ⊎ (j ≡ i)
  earlier i j l = elim (Bool-cases (ltb j i)) [
    | inl h ↦ inl (ground arith)
    | inr h ↦ inr (ground arith)
  ]

  skip-Emptied :
      (k : Kmem) (free : List ℕ) (i : ℕ)
      → has_table k0 pgdir i ≡ false
      → Emptied k0 pgdir free0 k free i
      → Emptied k0 pgdir free0 k free (suc i)
  skip-Emptied k free i lacks c = record {
    chain = c.chain;
    directory = c.directory;
    out = c.out;
    still = c.still;
    back = λ j l h. elim (earlier i j l) [
      | inl x ↦ c.back j x h
      | inr e ↦ absurd (cc (ap (has_table k0 pgdir) e, h, lacks))
    ];
    within = λ p m. elim (c.within p m) [
      | inl x ↦ inl x
      | inr (j, l, h, e) ↦ inr (j, omega arith, h, e)
    ];
    kept = c.kept;
  }

  -- a table that is still to be freed
  not_yet :
      (k : Kmem) (free : List ℕ) (i : ℕ)
      → has_table k0 pgdir i ≡ true
      → Emptied k0 pgdir free0 k free i
      → mem (table k0 pgdir i) free ≡ false
  not_yet k free i has c = elim (Bool-cases (mem (table k0 pgdir i) free)) [
    | inr h ↦ h
    | inl h ↦ elim (c.within (table k0 pgdir i) h) [
      | inl m ↦ absurd (cc (m, s.tab_out i has))
      | inr (j, l, y, e) ↦ let same = s.tab_inj i j has y e in absurd (omega arith)
    ]
  ]

  take-Emptied :
      (k : Kmem) (free : List ℕ) (i : ℕ)
      → i < 1024
      → has_table k0 pgdir i ≡ true
      → Emptied k0 pgdir free0 k free i
      → Emptied k0 pgdir free0 (freed (table k0 pgdir i) k) (table k0 pgdir i ∷ free) (suc i)
  take-Emptied k free i l has c =
      let t = table k0 pgdir i in
      let apart = s.tab_apart i has in
      record {
        chain = freed-IsFree k t free c.chain (owned.tables i l has) (not_yet k free i has c);
        directory = freed-other k t pgdir (λ e. apart (sym e)) ∙ c.directory;
        out = not_mem_cons pgdir t free (λ e. apart (sym e)) c.out;
        still = λ p m. later_mem p t free (c.still p m);
        back = λ j lj h. elim (earlier i j lj) [
          | inl x ↦ later_mem (table k0 pgdir j) t free (c.back j x h)
          | inr e ↦ ap (λ x. mem (table k0 pgdir x) (t ∷ free)) e ∙ member_first t free
        ];
        within = λ p m. elim (mem_cons p t free m) [
          | inl e ↦ inr (i, omega arith, has, e)
          | inr old ↦ elim (c.within p old) [
            | inl x ↦ inl x
            | inr (j, lj, h, e) ↦ inr (j, omega arith, h, e)
          ]
        ];
        kept = λ p m. let (a, b) = not_mem_tail p t free m in freed-other k t p a ∙ c.kept p b;
      }

  pub free_tables-Emptied :
      (n i : ℕ) (k : Kmem) (free : List ℕ)
      → i + n ≤ 1024
      → Emptied k0 pgdir free0 k free i
      → (k' : Kmem) × (free' : List ℕ) × (free_tables ke pgdir n i k ≡ ok k')
        × Emptied k0 pgdir free0 k' free' (i + n)
  unfolding free_tables
  free_tables-Emptied zero i k free l c =
      (k, free, refl, subst (Emptied k0 pgdir free0 k free) (omega arith) c)
  free_tables-Emptied (suc n) i k free l c =
      let same : has_table k pgdir i ≡ has_table k0 pgdir i = ap (λ w. present (w i)) c.directory in
      let at : table k pgdir i ≡ table k0 pgdir i = ap (λ w. p2v (pte_addr (w i))) c.directory in
      let next : i + 1 ≡ suc i = omega arith in
      elim (Bool-cases (has_table k0 pgdir i)) [
        | inr h ↦
            let (k', free', e, done) =
              free_tables-Emptied n (suc i) k free (omega arith) (skip-Emptied k free i h c) in
            (
              k',
              free',
              rw (free_tables, same, h, next) e,
              subst (Emptied k0 pgdir free0 k' free') (omega arith) done,
            )
        | inl h ↦
            let t = table k0 pgdir i in
            let (k', free', e, done) =
              free_tables-Emptied n (suc i) (freed t k) (t ∷ free) (omega arith)
                (take-Emptied k free i (omega arith) h c) in
            let put =
              kfree-freed ke t k (owned.tables i (omega arith) h)
                (owned.tables_above i (omega arith) h) in
            (
              k',
              free',
              rw (free_tables, same, h, at, put, next) e,
              subst (Emptied k0 pgdir free0 k' free') (omega arith) done,
            )
      ]
