-- ===== src/Vm/Space.antt =====
-- A page directory with its tables beside the free pages: what `walkpgdir` and a write to an entry do to it.
use nunix.Prelude.{
  ℕ, ◌+◌, ◌%◌, ◌<◌, ◌≡◌, ◌≢◌, ◌⊎◌, refl, Bool, true, false, ◌==◌, ==→eq, if◌then◌else◌, update,
  List, inl, inr, arith, Bool-cases, ap, ◌∙◌,
}
use nunix.Pages.{Kmem, pgsize, kernbase, phystop}
use nunix.Pages.FreeList.{mem, Distinct, Linked}
use nunix.Vm.{pdx, ptx, p2v, pte_addr, present}

-- the page of the table for entry `i` of the directory
abbrev pub table : Kmem → ℕ → ℕ → ℕ
table k pgdir i = p2v (pte_addr (k.words pgdir i))

abbrev pub has_table : Kmem → ℕ → ℕ → Bool
has_table k pgdir i = present (k.words pgdir i)

-- The entry for an address, 0 where it has no table.
abbrev pub pte : Kmem → ℕ → ℕ → ℕ
pte k pgdir va = if has_table k pgdir (pdx va) then k.words (table k pgdir (pdx va)) (ptx va) else 0

-- a page of memory that a table can name
pub record IsFrame (p : ℕ) : Type 0 where
  pub aligned : p % pgsize ≡ 0
  pub above : kernbase < p
  pub below : p < kernbase + phystop

-- The tables are pages of their own, and none of them nor the directory is free.
pub record IsSpace (k : Kmem) (pgdir : ℕ) (free : List ℕ) : Type 0 where
  pub linked : Linked k.words k.freelist free
  pub distinct : Distinct free
  pub frames : (p : ℕ) → mem p free ≡ true → IsFrame p
  pub dir_out : mem pgdir free ≡ false
  pub tab_out : (i : ℕ) → has_table k pgdir i ≡ true → mem (table k pgdir i) free ≡ false
  pub tab_apart : (i : ℕ) → has_table k pgdir i ≡ true → table k pgdir i ≢ pgdir
  pub tab_inj :
      (i j : ℕ)
      → has_table k pgdir i ≡ true
      → has_table k pgdir j ≡ true
      → table k pgdir i ≡ table k pgdir j
      → i ≡ j

-- What changed from `k` to `k'`: free pages were taken, some as tables, and only they, the directory and its tables were written.
pub record Extends (pgdir : ℕ) (k : Kmem) (free : List ℕ) (k' : Kmem) (free' : List ℕ)
    : Type 0 where
  pub shrinks : (p : ℕ) → mem p free' ≡ true → mem p free ≡ true
  pub kept :
      (p : ℕ)
      → mem p free ≡ false
      → p ≢ pgdir
      → ((i : ℕ) → has_table k pgdir i ≡ true → p ≢ table k pgdir i)
      → k'.words p ≡ k.words p
  pub tables :
      (i : ℕ)
      → has_table k' pgdir i ≡ true
      → ((has_table k pgdir i ≡ true) × (table k' pgdir i ≡ table k pgdir i))
        ⊎ (mem (table k' pgdir i) free ≡ true)

not_mem :
    (p : ℕ) (free free' : List ℕ)
    → (mem p free' ≡ true → mem p free ≡ true)
    → mem p free ≡ false
    → mem p free' ≡ false
not_mem p free free' h out = elim (Bool-cases (mem p free')) [
  | inl e ↦ absurd (cc (h e, out))
  | inr e ↦ e
]

pub apart_of_mem : (p q : ℕ) (free : List ℕ) → mem p free ≡ true → mem q free ≡ false → p ≢ q
apart_of_mem p q free a b e = cc (ap (λ x. mem x free) e, a, b)

pub Extends-refl : (pgdir : ℕ) (k : Kmem) (free : List ℕ) → Extends pgdir k free k free
Extends-refl pgdir k free = record {
  shrinks = λ p h. h;
  kept = λ p a b c. refl;
  tables = λ i h. inl (h, refl);
}

pub Extends-trans :
    {pgdir : ℕ} {k k' k'' : Kmem} {free free' free'' : List ℕ}
    → Extends pgdir k free k' free'
    → Extends pgdir k' free' k'' free''
    → Extends pgdir k free k'' free''
Extends-trans {pgdir} {k} {k'} {k''} {free} {free'} a b = record {
  shrinks = λ p h. a.shrinks p (b.shrinks p h);
  kept = λ p out dir tab.
      b.kept p (not_mem p free free' (a.shrinks p) out) dir (λ i h e. elim (a.tables i h) [
        | inl (had, same) ↦ tab i had (e ∙ same)
        | inr new ↦ cc (ap (λ x. mem x free) e, new, out)
      ])
      ∙ a.kept p out dir tab;
  tables = λ i h. elim (b.tables i h) [
    | inl (had, same) ↦ elim (a.tables i had) [
      | inl (had0, same0) ↦ inl (had0, same ∙ same0)
      | inr new ↦ inr (ap (λ x. mem x free) same ∙ new)
    ]
    | inr new ↦ inr (a.shrinks (table k'' pgdir i) new)
  ];
}

-- a page of the memory, before and after a page was written
abbrev pub write_page : ℕ → (ℕ → ℕ) → Kmem → Kmem
write_page p page k = record k { words = update k.words p page }

pub page-other :
    (k : Kmem) (p q : ℕ) (page : ℕ → ℕ) → p ≢ q → (write_page p page k).words q ≡ k.words q
page-other k p q page apart = elim (Bool-cases (p == q)) [
  | inl e ↦ absurd (apart (==→eq p q e))
  | inr e ↦ rw e refl
]

pub page-same : (k : Kmem) (p : ℕ) (page : ℕ → ℕ) → (write_page p page k).words p ≡ page
page-same k p page = elim (Bool-cases (p == p)) [
  | inl e ↦ rw e refl
  | inr e ↦ absurd (ground (arith, e))
]
