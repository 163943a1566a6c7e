-- ===== src/Vm/Fork.antt =====
-- `copyuvm`: the loop over the pages of the parent, and the whole.
use mathlib.Core.Path.{subst}
use nunix.Prelude.{
  ℕ, ◌^◌, zero, suc, ◌+◌, ◌*◌, ◌/◌, ◌%◌, ◌≤◌, ◌<◌, ◌≡◌, ◌≢◌, ◌⊎◌, refl, true, false, ltb, ok, ==→eq,
  List, [], ◌∷◌, inl, inr, arith, Bool-cases, ap, sym, ◌∙◌,
}
use nunix.Pages.{Kmem, pgsize, kernbase}
use nunix.Pages.FreeList.{mem}
use nunix.Vm.{p2v, pte_addr, pte_flags, present}
use nunix.Vm.User.{copy_from}
use nunix.Vm.Space.{pte}
use nunix.Vm.Grow.{IsFresh, kalloc-nil, kalloc-cons, member_first}
use nunix.Vm.Map.{Mapping}
use nunix.Vm.Kernel.{Grown-Extends, Grown-Beside}
use nunix.Vm.Parent.{walk-present, parent_entry}
use nunix.Vm.Given.{frame, Given, Placed-Extends, mappages-Given}
use nunix.Vm.Copy.{IsUser, CopiedPage, Copied, pte-page}

-- The page at `i` of the parent is copied: the child has got a page for it.
module _ (kd : ℕ) (k0 : Kmem) (pgdir : ℕ) (free0 : List ℕ) (k : Kmem) (d t : ℕ) (fs : List ℕ)
    (i : ℕ) (k' : Kmem) (free' : List ℕ) (c : Copied kd k0 pgdir free0 k d (t ∷ fs) i)
    (al : i % pgsize ≡ 0) (la : i + pgsize ≤ kernbase) (there : present (pte k0 pgdir i) ≡ true)
    (v : Given k d t fs i (pte_flags (pte k0 pgdir i)) (k0.words (frame k0 pgdir i)) k' free') where
  frame_old : (u : ℕ) → u < i → frame k' d u ≡ frame k d u
  frame_old u l = ap (λ w. p2v (pte_addr w)) (v.elsewhere u (omega arith) (inl l))

  old_apart : (u : ℕ) → u < i → frame k d u ≢ t
  old_apart u l e =
      let out = (c.pages u l).own.out in cc (ap (λ p. mem p (t ∷ fs)) e, out, member_first t fs)

  new_page : (u : ℕ) → i ≤ u → u < i + pgsize → CopiedPage k0 pgdir free0 k' d free' u
  new_page u a b =
      let same : pte k0 pgdir u ≡ pte k0 pgdir i = pte-page k0 pgdir u i (omega arith) in
      let odd : pte k0 pgdir i % 2 ≡ 1 = ==→eq (pte k0 pgdir i % 2) 1 there in
      let kept : pte_flags (pte k0 pgdir i) / 2 * 2 + 1 ≡ pte_flags (pte k0 pgdir i) =
        omega arith in
      record {
        there = v.there u a b;
        flags = v.flags u a b ∙ kept ∙ ap pte_flags (sym same);
        bytes =
            ap k'.words (v.at u a b) ∙ v.bytes ∙ ap (λ w. k0.words (p2v (pte_addr w))) (sym same);
        was_free = ap (λ p. mem p free0) (v.at u a b) ∙ c.grown.within t (member_first t fs);
        own = subst (λ p. IsFresh k' d free' p) (sym (v.at u a b)) v.own;
      }

  side : (u : ℕ) → (u < i) ⊎ (i ≤ u)
  side u = elim (Bool-cases (ltb u i)) [ inl h ↦ inl (ground arith) | inr h ↦ inr (ground arith) ]

  still_apart :
      (u w : ℕ)
      → u < i + pgsize
      → w < i + pgsize
      → frame k' d u ≡ frame k' d w
      → u / pgsize ≡ w / pgsize
  still_apart u w a b e = elim (side u) [
    | inl l ↦ elim (side w) [
      | inl r ↦ c.apart u w l r (sym (frame_old u l) ∙ e ∙ frame_old w r)
      | inr r ↦ absurd (old_apart u l (sym (frame_old u l) ∙ e ∙ v.at w r b))
    ]
    | inr l ↦ elim (side w) [
      | inl r ↦ absurd (old_apart w r (sym (frame_old w r) ∙ sym e ∙ v.at u l a))
      | inr r ↦ omega arith
    ]
  ]

  pub next-Copied : Copied kd k0 pgdir free0 k' d free' (i + pgsize)
  next-Copied = record {
    grown = Grown-Extends c.grown v.space v.extends;
    pages = λ u l. elim (side u) [
      | inl h ↦ Placed-Extends (c.pages u h) v.extends (v.elsewhere u (omega arith) (inl h))
      | inr h ↦ new_page u h l
    ];
    apart = still_apart;
    rest = λ u a b. v.elsewhere u (omega arith) (inr a) ∙ c.rest u (omega arith) b;
    kernel = λ u a b. v.elsewhere u b (inr (omega arith)) ∙ c.kernel u a b;
  }

-- Nothing was mapped.
same-Copied :
    (kd : ℕ) (k0 : Kmem) (pgdir : ℕ) (free0 : List ℕ) (k : Kmem) (d : ℕ) (free : List ℕ) (i : ℕ)
    (k' : Kmem) (free' : List ℕ)
    → i ≤ kernbase
    → Copied kd k0 pgdir free0 k d free i
    → Mapping d k free k' free'
    → ((u : ℕ) → u < 2 ^ 32 → pte k' d u ≡ pte k d u)
    → Copied kd k0 pgdir free0 k' d free' i
same-Copied kd k0 pgdir free0 k d free i k' free' small c m same = record {
  grown = Grown-Extends c.grown m.space m.extends;
  pages = λ u l. Placed-Extends (c.pages u l) m.extends (same u (omega arith));
  apart = λ u w a b e. c.apart u w a b (
      ap (λ x. p2v (pte_addr x)) (sym (same u (omega arith)))
      ∙ e
      ∙ ap (λ x. p2v (pte_addr x)) (same w (omega arith)));
  rest = λ u a b. same u (omega arith) ∙ c.rest u a b;
  kernel = λ u a b. same u b ∙ c.kernel u a b;
}

pub copy_from-Copied :
    (kd : ℕ) (k0 : Kmem) (pgdir : ℕ) (free0 : List ℕ) (sz : ℕ)
    → IsUser k0 pgdir free0 sz
    → (n i d : ℕ) (k : Kmem) (free : List ℕ) → i % pgsize ≡ 0
    → i + n * pgsize ≤ kernbase
    → i + n * pgsize < sz + pgsize
    → Copied kd k0 pgdir free0 k d free i
    → ((k' : Kmem) × (free' : List ℕ) × (j : ℕ) × (copy_from pgdir d n i k ≡ ok (false, k'))
        × (k'.freelist ≡ 0)
        × (j % pgsize ≡ 0)
        × (j < sz)
        × Copied kd k0 pgdir free0 k' d free' j)
      ⊎ ((k' : Kmem) × (free' : List ℕ) × (copy_from pgdir d n i k ≡ ok (true, k'))
          × Copied kd k0 pgdir free0 k' d free' (i + n * pgsize))
unfolding copy_from
copy_from-Copied kd k0 pgdir free0 sz parent zero i d k free al la ls c =
    inr (k, free, refl, subst (λ x. Copied kd k0 pgdir free0 k d free x) (omega arith) c)
copy_from-Copied kd k0 pgdir free0 sz parent (suc n) i d k [] al la ls c =
    let below : i < sz = omega arith in
    let same = parent_entry k0 pgdir free0 sz parent k [] (Grown-Beside c.grown) i in
    let there = parent.there i below in
    let (found, at) = walk-present k pgdir i (ap present same ∙ there) in
    let value = at ∙ same in
    let (z, none_left) = kalloc-nil k d c.grown.space in
    inl (k, [], i, rw (copy_from, found, value, there, none_left, none_left) refl, z, al, below, c)
copy_from-Copied kd k0 pgdir free0 sz parent (suc n) i d k (t ∷ fs) al la ls c =
    let below : i < sz = omega arith in
    let g = c.grown in
    let same = parent_entry k0 pgdir free0 sz parent k (t ∷ fs) (Grown-Beside g) i in
    let there = parent.there i below in
    let (found, at) = walk-present k pgdir i (ap present same ∙ there) in
    let value = at ∙ same in
    let (got, nonzero, s1, f1) = kalloc-cons k d t fs g.space in
    let bytes = g.kept (frame k0 pgdir i) (parent.own i below).out in
    elim (mappages-Given k d t fs i (pte_flags (pte k0 pgdir i)) (k0.words (frame k0 pgdir i))
      g.space al (omega arith) (omega arith) (λ u a b. ap present (c.rest u a (omega arith)))) [
        | inl (k', e, z, few, free', m, unchanged) ↦ inl (
          k',
          free',
          i,
          rw (copy_from, found, value, there, got, nonzero, got, value, bytes, e) refl,
          z,
          al,
          below,
          same-Copied kd k0 pgdir free0 k d (t ∷ fs) i k' free' (omega arith) c m unchanged,
        )
        | inr (k', free', e, left, v) ↦
            let c' = next-Copied kd k0 pgdir free0 k d t fs i k' free' c al (omega arith) there v in
            elim (copy_from-Copied kd k0 pgdir free0 sz parent n (i + pgsize) d k' free'
              (omega arith) (omega arith) (omega arith) c') [
                | inl (k'', free'', j, h, z, aj, lj, stopped) ↦ inl (
                  k'',
                  free'',
                  j,
                  rw (copy_from, found, value, there, got, nonzero, got, value, bytes, e) h,
                  z,
                  aj,
                  lj,
                  stopped,
                )
                | inr (k'', free'', h, done) ↦ inr (
                  k'',
                  free'',
                  rw (copy_from, found, value, there, got, nonzero, got, value, bytes, e) h,
                  subst (λ x. Copied kd k0 pgdir free0 k'' d free'' x) (omega arith) done,
                )
              ]
      ]
