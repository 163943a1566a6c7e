-- ===== src/Vm/Found.antt =====
-- What `walkpgdir` comes to when it may allocate: an entry, or no page left.
use nunix.Prelude.{
  suc, length, arith, ◌≤◌, ℕ, ◌+◌, ◌≡◌, ◌⊎◌, refl, true, false, update, none, some, List, [], ◌∷◌,
  inl, inr, Bool-cases, ap, sym, ◌∙◌,
}
use nunix.Pages.{Kmem}
use nunix.Pages.FreeList.{mem}
use nunix.Vm.{pdx, ptx, v2p, p2v, pte_addr, present, zero_page, walkpgdir}
use nunix.Vm.Space.{
  table, has_table, pte, IsSpace, Extends, Extends-refl, apart_of_mem, write_page, page-other,
  page-same,
}
use nunix.Vm.Walk.{write-IsSpace, pte-absent, pte-there}
use nunix.Vm.Grow.{
  IsFresh, taken, kalloc-nil, kalloc-cons, member_first, later_mem, add_table, table_new,
  table_cases, with_table-IsSpace, pte-with_table,
}

-- A page that is neither the directory nor a table is written.
module _ (k : Kmem) (pgdir : ℕ) (free : List ℕ) (t : ℕ) (page : ℕ → ℕ)
    (f : IsFresh k pgdir free t) where
  dir_same : (write_page t page k).words pgdir ≡ k.words pgdir
  dir_same = page-other k t pgdir page f.apart

  pub pte-fresh : (u : ℕ) → pte (write_page t page k) pgdir u ≡ pte k pgdir u
  pte-fresh u = elim (Bool-cases (has_table k pgdir (pdx u))) [
    | inl h ↦
        pte-there (write_page t page k) pgdir u (ap (λ w. present (w (pdx u))) dir_same ∙ h)
        ∙ ap (λ w. (write_page t page k).words (p2v (pte_addr (w (pdx u)))) (ptx u)) dir_same
        ∙ ap (λ w. w (ptx u)) (page-other k t (table k pgdir (pdx u)) page (f.no_table (pdx u) h))
        ∙ sym (pte-there k pgdir u h)
    | inr h ↦
        pte-absent (write_page t page k) pgdir u (ap (λ w. present (w (pdx u))) dir_same ∙ h)
        ∙ sym (pte-absent k pgdir u h)
  ]

  pub write-IsFresh : IsFresh (write_page t page k) pgdir free t
  write-IsFresh = record {
    frame = f.frame;
    out = f.out;
    apart = f.apart;
    no_table = λ i h e.
        f.no_table i (ap (λ w. present (w i)) (sym dir_same) ∙ h)
          (e ∙ ap (λ w. p2v (pte_addr (w i))) dir_same);
  }

  pub tables_same :
      (i : ℕ)
      → has_table (write_page t page k) pgdir i ≡ true
      → (has_table k pgdir i ≡ true) × (table (write_page t page k) pgdir i ≡ table k pgdir i)
  tables_same i h =
      (ap (λ w. present (w i)) (sym dir_same) ∙ h, ap (λ w. p2v (pte_addr (w i))) dir_same)

-- Either there is an entry, with or without a new table, and no entry has changed; or a table was wanted and no page is free.
pub record Walked (pgdir va : ℕ) (k : Kmem) (free : List ℕ) (k' : Kmem) (free' : List ℕ)
    : Type 0 where
  pub space : IsSpace k' pgdir free'
  pub has : has_table k' pgdir (pdx va) ≡ true
  pub extends : Extends pgdir k free k' free'
  pub entries : (u : ℕ) → pte k' pgdir u ≡ pte k pgdir u
  pub used : length free ≤ suc (length free')

-- A directory without a table for the address, and a free page.
module _ (pgdir va t : ℕ) (k : Kmem) (fs : List ℕ) (s : IsSpace k pgdir (t ∷ fs))
    (lacks : has_table k pgdir (pdx va) ≡ false) where
  abbrev zeroed : Kmem
  zeroed = zero_page t (taken t k)

  abbrev new_table : Kmem
  new_table = add_table zeroed pgdir t (pdx va)

  new_table-Walked :
      (walkpgdir pgdir va true k ≡ (some (table new_table pgdir (pdx va), ptx va), new_table))
      × Walked pgdir va k (t ∷ fs) new_table fs
  unfolding walkpgdir
  new_table-Walked =
      let (got, nonzero, s1, f1) = kalloc-cons k pgdir t fs s in
      let s2 = write-IsSpace (taken t k) pgdir fs t (λ i. 0) f1.out f1.apart s1 in
      let f2 = write-IsFresh (taken t k) pgdir fs t (λ i. 0) f1 in
      let zeros = page-same (taken t k) t (λ i. 0) in
      let dir : zeroed.words pgdir ≡ k.words pgdir =
        page-other (taken t k) t pgdir (λ i. 0) f1.apart in
      let lacks2 : has_table zeroed pgdir (pdx va) ≡ false =
        ap (λ w. present (w (pdx va))) dir ∙ lacks in
      let (has, at_t) = table_new zeroed pgdir fs t (pdx va) s2 f2 zeros lacks2 in
      (
        rw (walkpgdir, lacks, got, nonzero) (ap (λ x. (some (x, ptx va), new_table)) (sym at_t)),
        record {
          space = with_table-IsSpace zeroed pgdir fs t (pdx va) s2 f2 zeros lacks2;
          has = has;
          extends = record {
            shrinks = λ p h. later_mem p t fs h;
            kept = λ p out apart tab.
                page-other zeroed pgdir p (update (zeroed.words pgdir) (pdx va) (v2p t + 7))
                  (λ x. apart (sym x))
                ∙ page-other (taken t k) t p (λ i. 0)
                    (apart_of_mem t p (t ∷ fs) (member_first t fs) out);
            tables = λ i h. elim (table_cases zeroed pgdir fs t (pdx va) s2 f2 zeros lacks2 i h) [
              | inl (e, new) ↦ inr (ap (λ x. mem x (t ∷ fs)) new ∙ member_first t fs)
              | inr (had, old) ↦
                  let (had1, old1) = tables_same (taken t k) pgdir fs t (λ i. 0) f1 i had in
                  inl (had1, old ∙ old1)
            ];
          };
          entries = λ u.
              pte-with_table zeroed pgdir fs t (pdx va) s2 f2 zeros lacks2 u
              ∙ pte-fresh (taken t k) pgdir fs t (λ i. 0) f1 u;
          used = omega arith;
        },
      )

pub walk-Walked :
    (pgdir va : ℕ) (k : Kmem) (free : List ℕ)
    → IsSpace k pgdir free
    → ((walkpgdir pgdir va true k ≡ (none, k)) × (k.freelist ≡ 0) × (length free ≡ 0))
      ⊎ ((k' : Kmem) × (free' : List ℕ) × (walkpgdir pgdir va true k
            ≡ (some (table k' pgdir (pdx va), ptx va), k'))
          × Walked pgdir va k free k' free')
unfolding walkpgdir
walk-Walked pgdir va k [] s = elim (Bool-cases (has_table k pgdir (pdx va))) [
  | inl h ↦ inr (
    k,
    [],
    rw (walkpgdir, h) refl,
    record {
      space = s;
      has = h;
      extends = Extends-refl pgdir k [];
      entries = λ u. refl;
      used = omega arith;
    },
  )
  | inr h ↦ let (z, e) = kalloc-nil k pgdir s in inl (rw (walkpgdir, h, e) refl, z, refl)
]
walk-Walked pgdir va k (t ∷ fs) s = elim (Bool-cases (has_table k pgdir (pdx va))) [
  | inl h ↦ inr (
    k,
    t ∷ fs,
    rw (walkpgdir, h) refl,
    record {
      space = s;
      has = h;
      extends = Extends-refl pgdir k (t ∷ fs);
      entries = λ u. refl;
      used = omega arith;
    },
  )
  | inr h ↦
      let (e, w) = new_table-Walked pgdir va t k fs s h in
      inr (add_table (zero_page t (taken t k)) pgdir t (pdx va), fs, e, w)
]
