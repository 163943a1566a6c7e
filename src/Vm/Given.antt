-- ===== src/Vm/Given.antt =====
-- One page more: a free page is taken, filled, and mapped at an address that has no entry.
use mathlib.Core.Path.{subst}
use nunix.Prelude.{
  ℕ, suc, ◌+◌, ◌-◌, ◌*◌, ◌/◌, ◌%◌, ◌^◌, ◌≤◌, ◌<◌, ◌≡◌, ◌⊎◌, refl, true, false, ok, List, ◌∷◌,
  length, inl, inr, arith, Bool-cases, ap, sym, ◌∙◌,
}
use nunix.Pages.{Kmem, pgsize, kernbase}
use nunix.Pages.FreeList.{mem}
use nunix.Vm.{v2p, p2v, pte_addr, pte_flags, present, make_pte, mappages}
use nunix.Vm.Space.{
  pte, IsFrame, IsSpace, Extends, Extends-trans, apart_of_mem, write_page, page-other, page-same,
}
use nunix.Vm.Walk.{write-IsSpace}
use nunix.Vm.Grow.{IsFresh, taken, kalloc-cons, member_first, later_mem}
use nunix.Vm.Found.{pte-fresh, write-IsFresh, tables_same}
use nunix.Vm.Map.{in_pages, Maps, Mapping, map_from-Maps, mappages-region}

-- the page that an address is mapped to
abbrev pub frame : Kmem → ℕ → ℕ → ℕ
frame k pgdir u = p2v (pte_addr (pte k pgdir u))

pub IsFresh-Extends :
    {k k' : Kmem} {d p : ℕ} {free free' : List ℕ}
    → IsFresh k d free p
    → Extends d k free k' free'
    → IsFresh k' d free' p
IsFresh-Extends {k} {k'} {d} {p} {free} {free'} f x = record {
  frame = f.frame;
  out = still_out (Bool-cases (mem p free'));
  apart = f.apart;
  no_table = λ i h e. elim (x.tables i h) [
    | inl (had, same) ↦ f.no_table i had (e ∙ same)
    | inr new ↦ cc (ap (λ q. mem q free) e, new, f.out)
  ];
}
  where
    still_out : (mem p free' ≡ true) ⊎ (mem p free' ≡ false) → mem p free' ≡ false
    still_out (inl h) = absurd (cc (x.shrinks p h, f.out))
    still_out (inr h) = h

-- The address has a page of its own, which was free, with these flags and this content.
pub record Placed (free0 : List ℕ) (flags_of : ℕ) (page : ℕ → ℕ) (k : Kmem) (d : ℕ) (free : List ℕ)
    (u : ℕ) : Type 0 where
  pub there : present (pte k d u) ≡ true
  pub flags : pte_flags (pte k d u) ≡ flags_of
  pub bytes : k.words (frame k d u) ≡ page
  pub was_free : mem (frame k d u) free0 ≡ true
  pub own : IsFresh k d free (frame k d u)

-- It keeps it while its entry does not change.
pub Placed-Extends :
    {k k' : Kmem} {d u flags_of : ℕ} {free0 free free' : List ℕ} {page : ℕ → ℕ}
    → Placed free0 flags_of page k d free u
    → Extends d k free k' free'
    → pte k' d u ≡ pte k d u
    → Placed free0 flags_of page k' d free' u
Placed-Extends {k} {k'} {d} {u} {flags_of} {free0} {free} {free'} {page} c x e =
    let same : frame k' d u ≡ frame k d u = ap (λ w. p2v (pte_addr w)) e in
    record {
      there = ap present e ∙ c.there;
      flags = ap pte_flags e ∙ c.flags;
      bytes =
          ap k'.words same ∙ x.kept (frame k d u) c.own.out c.own.apart c.own.no_table ∙ c.bytes;
      was_free = ap (λ p. mem p free0) same ∙ c.was_free;
      own = subst (λ p. IsFresh k' d free' p) (sym same) (IsFresh-Extends c.own x);
    }

-- A page is taken and filled: the space extends.
module _ (k : Kmem) (d t : ℕ) (fs : List ℕ) (page : ℕ → ℕ) (s : IsSpace k d (t ∷ fs)) where
  abbrev pub filled : Kmem
  filled = write_page t page (taken t k)

  pub filled-IsSpace : IsSpace filled d fs
  filled-IsSpace =
      let (got, nonzero, s1, f1) = kalloc-cons k d t fs s in
      write-IsSpace (taken t k) d fs t page f1.out f1.apart s1

  pub filled-IsFresh : IsFresh filled d fs t
  filled-IsFresh =
      let (got, nonzero, s1, f1) = kalloc-cons k d t fs s in
      write-IsFresh (taken t k) d fs t page f1

  pub filled-Extends : Extends d k (t ∷ fs) filled fs
  filled-Extends =
      let (got, nonzero, s1, f1) = kalloc-cons k d t fs s in
      record {
        shrinks = λ p h. later_mem p t fs h;
        kept = λ p out a b.
            page-other (taken t k) t p page (apart_of_mem t p (t ∷ fs) (member_first t fs) out);
        tables = λ i h. inl (tables_same (taken t k) d fs t page f1 i h);
      }

  pub pte-filled : (u : ℕ) → pte filled d u ≡ pte k d u
  pte-filled u =
      let (got, nonzero, s1, f1) = kalloc-cons k d t fs s in pte-fresh (taken t k) d fs t page f1 u

-- The entry of the page.
entry_made :
    (t perm : ℕ)
    → IsFrame t
    → perm < 4096
    → (present (make_pte (v2p t) perm) ≡ true)
      × (pte_flags (make_pte (v2p t) perm) ≡ perm / 2 * 2 + 1)
      × (p2v (pte_addr (make_pte (v2p t) perm)) ≡ t)
      × (v2p t + pgsize ≤ 2 ^ 32)
entry_made t perm f l =
    let a = f.aligned in
    let b = f.above in let c = f.below in (ground arith, omega arith, omega arith, omega arith)

-- The page `t` was taken for the addresses from `i` on, and holds `page`.
pub record Given (k : Kmem) (d t : ℕ) (fs : List ℕ) (i perm : ℕ) (page : ℕ → ℕ) (k' : Kmem)
    (free' : List ℕ) : Type 0 where
  pub space : IsSpace k' d free'
  pub extends : Extends d k (t ∷ fs) k' free'
  pub there : (u : ℕ) → i ≤ u → u < i + pgsize → present (pte k' d u) ≡ true
  pub flags : (u : ℕ) → i ≤ u → u < i + pgsize → pte_flags (pte k' d u) ≡ perm / 2 * 2 + 1
  pub at : (u : ℕ) → i ≤ u → u < i + pgsize → frame k' d u ≡ t
  pub elsewhere : (u : ℕ) → u < 2 ^ 32 → (u < i) ⊎ (i + pgsize ≤ u) → pte k' d u ≡ pte k d u
  pub bytes : k'.words t ≡ page
  pub own : IsFresh k' d free' t

module _ (k : Kmem) (d t : ℕ) (fs : List ℕ) (i perm : ℕ) (page : ℕ → ℕ) (s : IsSpace k d (t ∷ fs))
    (al : i % pgsize ≡ 0) (la : i + pgsize ≤ kernbase) (small : perm < 4096) where
  mapped-Given :
      (k' : Kmem) (free' : List ℕ)
      → Mapping d (filled k d t fs page s) fs k' free'
      → Maps d 1 i (v2p t) perm (filled k d t fs page s) k'
      → Given k d t fs i perm page k' free'
  mapped-Given k' free' m maps =
      let fresh = filled-IsFresh k d t fs page s in
      let (odd, kept, back, room) = entry_made t perm fresh.frame small in
      record {
        space = m.space;
        extends = Extends-trans (filled-Extends k d t fs page s) m.extends;
        there = λ u a b. ap present (here u a b) ∙ odd;
        flags = λ u a b. ap pte_flags (here u a b) ∙ kept;
        at = λ u a b. ap (λ w. p2v (pte_addr w)) (here u a b) ∙ back;
        elsewhere = λ u l o.
            let outside : in_pages i 1 u ≡ false = elim o [
              | inl h ↦ ground arith
              | inr h ↦ ground arith
            ] in
            maps.entries u l ∙ rw outside (pte-filled k d t fs page s u);
        bytes =
            m.extends.kept t fresh.out fresh.apart fresh.no_table ∙ page-same (taken t k) t page;
        own = IsFresh-Extends fresh m.extends;
      }
    where
      here : (u : ℕ) → i ≤ u → u < i + pgsize → pte k' d u ≡ make_pte (v2p t) perm
      here u a b =
          let inside : in_pages i 1 u ≡ true = ground arith in
          let value : v2p t + (u - i) / pgsize * pgsize ≡ v2p t = omega arith in
          maps.entries u (omega arith) ∙ rw (inside, value) refl

  -- `mappages` of the page: there is no page for a table, or the page is given, and one more at most was taken.
  pub mappages-Given :
      ((u : ℕ) → i ≤ u → u < i + pgsize → present (pte k d u) ≡ false)
      → ((k' : Kmem) × (mappages d i pgsize (v2p t) perm (filled k d t fs page s) ≡ ok (false, k'))
          × (k'.freelist ≡ 0)
          × (length fs ≡ 0)
          × (free' : List ℕ) × Mapping d k (t ∷ fs) k' free'
          × ((u : ℕ) → u < 2 ^ 32 → pte k' d u ≡ pte k d u))
        ⊎ ((k' : Kmem) × (free' : List ℕ) × (mappages d i pgsize
                (v2p t)
                perm
                (filled k d t fs page s)
              ≡ ok (true, k'))
            × (length fs ≤ suc (length free'))
            × Given k d t fs i perm page k' free')
  mappages-Given absent =
      let fresh = filled-IsFresh k d t fs page s in
      let room = (entry_made t perm fresh.frame small).3 in
      let k2 = filled k d t fs page s in
      let one = mappages-region d 1 i pgsize (v2p t) perm k2 al (omega arith) (omega arith) refl in
      elim (map_from-Maps d 1 i (v2p t) perm k2 fs (filled-IsSpace k d t fs page s) al (omega arith)
        room
        (λ u l y.
          ap present (pte-filled k d t fs page s u) ∙ absent u (ground arith) (ground arith))) [
            | inl (k', free', e, z, m, j, few, lj, maps) ↦
                let outside : (u : ℕ) → in_pages i j u ≡ false = λ u. ground arith in
                inl (
                  k',
                  one ∙ e,
                  z,
                  omega arith,
                  free',
                  record {
                    space = m.space;
                    extends = Extends-trans (filled-Extends k d t fs page s) m.extends;
                  },
                  λ u l. maps.entries u l ∙ rw (outside u) (pte-filled k d t fs page s u),
                )
            | inr (k', free', e, left, m, maps) ↦
                inr (k', free', one ∙ e, omega arith, mapped-Given k' free' m maps)
          ]
