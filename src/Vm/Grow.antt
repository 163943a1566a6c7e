-- ===== src/Vm/Grow.antt =====
-- A free page is taken, and made a table: `kalloc` and the allocating branch of `walkpgdir`.
use nunix.Prelude.{
  ℕ, ◌+◌, ◌≡◌, ◌≢◌, ◌⊎◌, refl, true, false, ◌==◌, ==→eq, if◌then◌else◌, update, List, [], ◌∷◌, inl,
  inr, arith, Bool-cases, ap, sym, ◌∙◌,
}
use nunix.Pages.{Kmem, kalloc}
use nunix.Pages.FreeList.{mem, Distinct, Linked, write-Linked}
use nunix.Vm.{pdx, ptx, v2p, p2v, pte_addr, present, put_word}
use nunix.Vm.Space.{table, has_table, pte, IsFrame, IsSpace, apart_of_mem, page-other, page-same}
use nunix.Vm.Walk.{pte-absent, pte-there}

-- A page that is out of the free list, and neither the directory nor a table.
pub record IsFresh (k : Kmem) (pgdir : ℕ) (free : List ℕ) (t : ℕ) : Type 0 where
  pub frame : IsFrame t
  pub out : mem t free ≡ false
  pub apart : t ≢ pgdir
  pub no_table : (i : ℕ) → has_table k pgdir i ≡ true → t ≢ table k pgdir i

-- What `kalloc` leaves.
abbrev pub taken : ℕ → Kmem → Kmem
taken t k = record k { freelist = k.words t 0 }

pub kalloc-nil :
    (k : Kmem) (pgdir : ℕ) → IsSpace k pgdir [] → (k.freelist ≡ 0) × (kalloc k ≡ (0, k))
unfolding kalloc Linked
kalloc-nil k pgdir s = let e : k.freelist ≡ 0 = s.linked in (e, rw (kalloc, e) refl)

pub member_first : (t : ℕ) (fs : List ℕ) → mem t (t ∷ fs) ≡ true
member_first t fs = ground arith

pub later_mem : (p t : ℕ) (fs : List ℕ) → mem p fs ≡ true → mem p (t ∷ fs) ≡ true
later_mem p t fs h = ground arith

pub out_later : (p t : ℕ) (fs : List ℕ) → mem p (t ∷ fs) ≡ false → mem p fs ≡ false
out_later p t fs h = ground arith

pub kalloc-cons :
    (k : Kmem) (pgdir t : ℕ) (fs : List ℕ)
    → IsSpace k pgdir (t ∷ fs)
    → (kalloc k ≡ (t, taken t k))
      × ((t == 0) ≡ false)
      × IsSpace (taken t k) pgdir fs
      × IsFresh (taken t k) pgdir fs t
unfolding kalloc Linked Distinct
kalloc-cons k pgdir t fs s =
    let (e, z, l) = s.linked in
    let first = member_first t fs in
    (
      rw (kalloc, e, z) refl,
      z,
      record {
        linked = l;
        distinct = s.distinct.1;
        frames = λ p h. s.frames p (later_mem p t fs h);
        dir_out = out_later pgdir t fs s.dir_out;
        tab_out = λ i h. out_later (table k pgdir i) t fs (s.tab_out i h);
        tab_apart = s.tab_apart;
        tab_inj = s.tab_inj;
      },
      record {
        frame = s.frames t first;
        out = s.distinct.0;
        apart = apart_of_mem t pgdir (t ∷ fs) first s.dir_out;
        no_table = λ i h. apart_of_mem t (table k pgdir i) (t ∷ fs) first (s.tab_out i h);
      },
    )

-- The page `t` is made table `j`.
abbrev pub add_table : Kmem → ℕ → ℕ → ℕ → Kmem
add_table k pgdir t j = put_word pgdir j (v2p t + 7) k

-- A fresh page of zeros is made table `j` of the directory.
module _ (k : Kmem) (pgdir : ℕ) (free : List ℕ) (t j : ℕ) (s : IsSpace k pgdir free)
    (f : IsFresh k pgdir free t) (zeros : k.words t ≡ (λ i. 0))
    (lacks : has_table k pgdir j ≡ false) where
  abbrev with_table : Kmem
  with_table = add_table k pgdir t j

  dir_word : (i : ℕ) → with_table.words pgdir i ≡ (if j == i then v2p t + 7 else k.words pgdir i)
  dir_word i = ap (λ w. w i) (page-same k pgdir (update (k.words pgdir) j (v2p t + 7)))

  dir_new : with_table.words pgdir j ≡ v2p t + 7
  dir_new = dir_word j ∙ ground arith

  dir_old : (i : ℕ) → (j == i) ≡ false → with_table.words pgdir i ≡ k.words pgdir i
  dir_old i e = dir_word i ∙ rw e refl

  pub table_new : (has_table with_table pgdir j ≡ true) × (table with_table pgdir j ≡ t)
  table_new =
      let a = f.frame.aligned in
      let b = f.frame.above in
      let c = f.frame.below in
      let odd : present (v2p t + 7) ≡ true = ground arith in
      let back : p2v (pte_addr (v2p t + 7)) ≡ t = omega arith in
      (ap present dir_new ∙ odd, ap (λ e. p2v (pte_addr e)) dir_new ∙ back)

  -- A table of the new directory is the new one or an old one.
  pub table_cases :
      (i : ℕ)
      → has_table with_table pgdir i ≡ true
      → ((j ≡ i) × (table with_table pgdir i ≡ t))
        ⊎ ((has_table k pgdir i ≡ true) × (table with_table pgdir i ≡ table k pgdir i))
  table_cases i h = elim (Bool-cases (j == i)) [
    | inl e ↦
        let same = ==→eq j i e in
        inl (same, ap (λ x. table with_table pgdir x) (sym same) ∙ table_new.1)
    | inr e ↦ inr (ap present (sym (dir_old i e)) ∙ h, ap (λ x. p2v (pte_addr x)) (dir_old i e))
  ]

  pub with_table-IsSpace : IsSpace with_table pgdir free
  with_table-IsSpace = record {
    linked =
        write-Linked k.words k.freelist free pgdir (update (k.words pgdir) j (v2p t + 7)) s.dir_out
          s.linked;
    distinct = s.distinct;
    frames = s.frames;
    dir_out = s.dir_out;
    tab_out = λ i h. elim (table_cases i h) [
      | inl (e, new) ↦ ap (λ x. mem x free) new ∙ f.out
      | inr (had, old) ↦ ap (λ x. mem x free) old ∙ s.tab_out i had
    ];
    tab_apart = λ i h x. elim (table_cases i h) [
      | inl (e, new) ↦ f.apart (sym new ∙ x)
      | inr (had, old) ↦ s.tab_apart i had (sym old ∙ x)
    ];
    tab_inj = λ i i' h h' x. elim (table_cases i h) [
      | inl (e, new) ↦ elim (table_cases i' h') [
        | inl (e', new') ↦ sym e ∙ e'
        | inr (had', old') ↦ absurd (f.no_table i' had' (sym new ∙ x ∙ old'))
      ]
      | inr (had, old) ↦ elim (table_cases i' h') [
        | inl (e', new') ↦ absurd (f.no_table i had (sym new' ∙ sym x ∙ old))
        | inr (had', old') ↦ s.tab_inj i i' had had' (sym old ∙ x ∙ old')
      ]
    ];
  }

  -- No entry changes: those of the new table are 0.
  pub pte-with_table : (u : ℕ) → pte with_table pgdir u ≡ pte k pgdir u
  pte-with_table u = elim (Bool-cases (j == pdx u)) [
    | inl e ↦
        let same = ==→eq j (pdx u) e in
        pte-there with_table pgdir u
          (ap (λ x. has_table with_table pgdir x) (sym same) ∙ table_new.0)
        ∙ ap (λ x. with_table.words (table with_table pgdir x) (ptx u)) (sym same)
        ∙ ap (λ x. with_table.words x (ptx u)) table_new.1
        ∙ ap (λ w. w (ptx u))
            (page-other k pgdir t (update (k.words pgdir) j (v2p t + 7)) (λ x. f.apart (sym x))
              ∙ zeros)
        ∙ sym (pte-absent k pgdir u (ap (λ x. has_table k pgdir x) (sym same) ∙ lacks))
    | inr e ↦ elim (Bool-cases (has_table k pgdir (pdx u))) [
      | inl h ↦
          pte-there with_table pgdir u (ap present (dir_old (pdx u) e) ∙ h)
          ∙ ap (λ x. with_table.words (p2v (pte_addr x)) (ptx u)) (dir_old (pdx u) e)
          ∙ ap (λ w. w (ptx u))
              (page-other k pgdir (table k pgdir (pdx u)) (update (k.words pgdir) j (v2p t + 7))
                (λ x. s.tab_apart (pdx u) h (sym x)))
          ∙ sym (pte-there k pgdir u h)
      | inr h ↦
          pte-absent with_table pgdir u (ap present (dir_old (pdx u) e) ∙ h)
          ∙ sym (pte-absent k pgdir u h)
    ]
  ]
