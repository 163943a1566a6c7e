-- ===== src/Vm/Alloc.antt =====
-- `allocuvm` with pages enough: it gives a process zeroed pages of its own.
use mathlib.Core.Path.{subst}
use nunix.Prelude.{
  ℕ, zero, suc, ◌+◌, ◌-◌, ◌*◌, ◌/◌, ◌%◌, ◌^◌, ◌≤◌, ◌<◌, ◌≡◌, ◌⊎◌, refl, false, ltb, leb, ok, List,
  [], ◌∷◌, length, inl, inr, arith, Bool-cases, ap, sym, ◌∙◌,
}
use nunix.Pages.{Kmem, pgsize, kernbase, pground_up}
use nunix.Pages.FreeList.{mem}
use nunix.Vm.{p2v, pte_addr, present, add32}
use nunix.Vm.User.{alloc_from, allocuvm}
use nunix.Vm.Space.{pte, IsSpace, Extends, Extends-refl, Extends-trans}
use nunix.Vm.Grow.{IsFresh, kalloc-cons, member_first}
use nunix.Vm.Given.{frame, Given, IsFresh-Extends, Placed, Placed-Extends, mappages-Given}
use nunix.Vm.Copy.{IsUser, pte-page}

-- From `lo` to `i` the process has got pages of zeros, for it to read and write; its other entries are as before, and of the
-- pages in use only its directory and tables are written.
pub record Allocated (k0 : Kmem) (pgdir : ℕ) (free0 : List ℕ) (lo : ℕ) (k : Kmem) (free : List ℕ)
    (i : ℕ) : Type 0 where
  pub space : IsSpace k pgdir free
  pub extends : Extends pgdir k0 free0 k free
  pub pages : (u : ℕ) → lo ≤ u → u < i → Placed free0 7 (λ j. 0) k pgdir free u
  pub apart :
      (u v : ℕ)
      → lo ≤ u
      → u < i
      → lo ≤ v
      → v < i
      → frame k pgdir u ≡ frame k pgdir v
      → u / pgsize ≡ v / pgsize
  pub others : (u : ℕ) → u < 2 ^ 32 → (u < lo) ⊎ (i ≤ u) → pte k pgdir u ≡ pte k0 pgdir u

side : (i u : ℕ) → (u < i) ⊎ (i ≤ u)
side i u = elim (Bool-cases (ltb u i)) [ inl h ↦ inl (ground arith) | inr h ↦ inr (ground arith) ]

-- One page more.
next-Allocated :
    (k0 : Kmem) (pgdir : ℕ) (free0 : List ℕ) (lo : ℕ) (k : Kmem) (t : ℕ) (fs : List ℕ) (i : ℕ)
    (k' : Kmem) (free' : List ℕ)
    → lo ≤ i
    → i % pgsize ≡ 0
    → i + pgsize ≤ kernbase
    → Allocated k0 pgdir free0 lo k (t ∷ fs) i
    → Given k pgdir t fs i 6 (λ j. 0) k' free'
    → Allocated k0 pgdir free0 lo k' free' (i + pgsize)
next-Allocated k0 pgdir free0 lo k t fs i k' free' low al la c v = record {
  space = v.space;
  extends = Extends-trans c.extends v.extends;
  pages = λ u a b. elim (side i u) [
    | inl h ↦ Placed-Extends (c.pages u a h) v.extends (v.elsewhere u (omega arith) (inl h))
    | inr h ↦ record {
      there = v.there u h b;
      flags = v.flags u h b;
      bytes = ap k'.words (v.at u h b) ∙ v.bytes;
      was_free = ap (λ p. mem p free0) (v.at u h b) ∙ c.extends.shrinks t (member_first t fs);
      own = subst (λ p. IsFresh k' pgdir free' p) (sym (v.at u h b)) v.own;
    }
  ];
  apart = λ u w a b a' b' e. elim (side i u) [
    | inl h ↦ elim (side i w) [
      | inl h' ↦ c.apart u w a h a' h' (sym (old u h) ∙ e ∙ old w h')
      | inr h' ↦ absurd (other u a h (sym (old u h) ∙ e ∙ v.at w h' b'))
    ]
    | inr h ↦ elim (side i w) [
      | inl h' ↦ absurd (other w a' h' (sym (old w h') ∙ sym e ∙ v.at u h b))
      | inr h' ↦ let same : u / pgsize ≡ w / pgsize = omega arith in same
    ]
  ];
  others = λ u l o. elim o [
    | inl h ↦ v.elsewhere u l (inl (omega arith)) ∙ c.others u l (inl h)
    | inr h ↦ v.elsewhere u l (inr h) ∙ c.others u l (inr (omega arith))
  ];
}
  where
    old : (u : ℕ) → u < i → frame k' pgdir u ≡ frame k pgdir u
    old u l = ap (λ x. p2v (pte_addr x)) (v.elsewhere u (omega arith) (inl l))

    other : (u : ℕ) → lo ≤ u → u < i → frame k pgdir u ≡ t → ⊥
    other u a b e =
        let out = (c.pages u a b).own.out in cc (ap (λ q. mem q (t ∷ fs)) e, out, member_first t fs)

alloc_from-Allocated :
    (kernel_end : ℕ) (k0 : Kmem) (pgdir : ℕ) (free0 : List ℕ) (lo oldsz newsz : ℕ)
    → ((u : ℕ) → lo ≤ u → u < kernbase → present (pte k0 pgdir u) ≡ false)
    → (n i : ℕ) (k : Kmem) (free : List ℕ) → i % pgsize ≡ 0
    → lo ≤ i
    → i + n * pgsize ≤ kernbase
    → 2 * n ≤ length free
    → Allocated k0 pgdir free0 lo k free i
    → (k' : Kmem) × (free' : List ℕ) × (alloc_from kernel_end pgdir n i oldsz newsz k
        ≡ ok (newsz, k'))
      × (length free ≤ 2 * n + length free')
      × Allocated k0 pgdir free0 lo k' free' (i + n * pgsize)
unfolding alloc_from
alloc_from-Allocated ke k0 pgdir free0 lo oldsz newsz absent zero i k free al low la enough c =
    (k, free, refl, omega arith, subst (λ x. Allocated k0 pgdir free0 lo k free x) (omega arith) c)
alloc_from-Allocated ke k0 pgdir free0 lo oldsz newsz absent (suc n) i k [] al low la enough c =
    absurd (omega arith)
alloc_from-Allocated ke k0 pgdir free0 lo oldsz newsz absent (suc n) i k (t ∷ fs) al low la enough
      c =
    let (got, nonzero, s1, f1) = kalloc-cons k pgdir t fs c.space in
    let step : add32 i pgsize ≡ i + pgsize = omega arith in
    elim (mappages-Given k pgdir t fs i 6 (λ j. 0) c.space al (omega arith) (omega arith)
      (λ u a b.
        ap present (c.others u (omega arith) (inr a)) ∙ absent u (omega arith) (omega arith))) [
          | inl (k', e, z, none_left, free', m, same) ↦ absurd (omega arith)
          | inr (k', free', e, left, v) ↦
              let go : alloc_from ke pgdir (suc n) i oldsz newsz k
                  ≡ alloc_from ke pgdir n (i + pgsize) oldsz newsz k' =
                rw (alloc_from, got, nonzero, got, e, step) refl in
              let (k'', free'', h, more, done) =
                alloc_from-Allocated ke k0 pgdir free0 lo oldsz newsz absent n (i + pgsize) k' free'
                  (omega arith) (omega arith) (omega arith) (omega arith)
                  (next-Allocated k0 pgdir free0 lo k t fs i k' free' low al (omega arith) c v) in
              (
                k'',
                free'',
                go ∙ h,
                omega arith,
                subst (λ x. Allocated k0 pgdir free0 lo k'' free'' x) (omega arith) done,
              )
        ]

-- With these pages the process has all of its pages up to the new size.
Allocated-IsUser :
    (k : Kmem) (pgdir : ℕ) (free : List ℕ) (oldsz newsz : ℕ) (k' : Kmem) (free' : List ℕ)
    → IsUser k pgdir free oldsz
    → newsz < kernbase
    → Allocated k pgdir free (pground_up oldsz) k' free' (pground_up newsz)
    → IsUser k' pgdir free' newsz
Allocated-IsUser k pgdir free oldsz newsz k' free' p lt c = record {
  space = c.space;
  small = omega arith;
  there = λ u l. elim (side (pground_up oldsz) u) [
    | inl h ↦ ap present (old_entry u l h) ∙ p.there (u / pgsize * pgsize) (whole u h)
    | inr h ↦ (c.pages u h (omega arith)).there
  ];
  own = λ u l. elim (side (pground_up oldsz) u) [
    | inl h ↦
        subst (λ q. IsFresh k' pgdir free' q) (sym (old_frame u l h))
          (IsFresh-Extends (p.own (u / pgsize * pgsize) (whole u h)) c.extends)
    | inr h ↦ (c.pages u h (omega arith)).own
  ];
  apart = λ u v l l' e. elim (side (pground_up oldsz) u) [
    | inl h ↦ elim (side (pground_up oldsz) v) [
      | inl h' ↦
          let same =
            p.apart (u / pgsize * pgsize) (v / pgsize * pgsize) (whole u h) (whole v h')
              (sym (old_frame u l h) ∙ e ∙ old_frame v l' h') in
          same_page u v same
      | inr h' ↦ absurd (new_apart u v h h' l' (sym (old_frame u l h) ∙ e))
    ]
    | inr h ↦ elim (side (pground_up oldsz) v) [
      | inl h' ↦ absurd (new_apart v u h' h l (sym (old_frame v l' h') ∙ sym e))
      | inr h' ↦ c.apart u v h (omega arith) h' (omega arith) e
    ]
  ];
}
  where
    whole : (u : ℕ) → u < pground_up oldsz → u / pgsize * pgsize < oldsz
    whole u h = let small = p.small in omega arith

    same_page :
        (u v : ℕ)
        → u / pgsize * pgsize / pgsize ≡ v / pgsize * pgsize / pgsize
        → u / pgsize ≡ v / pgsize
    same_page u v e = omega arith

    old_entry :
        (u : ℕ)
        → u < newsz
        → u < pground_up oldsz
        → pte k' pgdir u ≡ pte k pgdir (u / pgsize * pgsize)
    old_entry u l h =
        c.others u (omega arith) (inl h) ∙ pte-page k pgdir u (u / pgsize * pgsize) (omega arith)

    old_frame :
        (u : ℕ)
        → u < newsz
        → u < pground_up oldsz
        → frame k' pgdir u ≡ frame k pgdir (u / pgsize * pgsize)
    old_frame u l h = ap (λ e. p2v (pte_addr e)) (old_entry u l h)

    new_apart :
        (u v : ℕ)
        → u < pground_up oldsz
        → pground_up oldsz ≤ v
        → v < newsz
        → frame k pgdir (u / pgsize * pgsize) ≡ frame k' pgdir v
        → ⊥
    new_apart u v h h' l e =
        let out = (p.own (u / pgsize * pgsize) (whole u h)).out in
        let new = (c.pages v h' (omega arith)).was_free in cc (ap (λ q. mem q free) e, out, new)

-- Let a process have all of its pages, none of them free, and no entries above them below `kernbase`. When two pages are free for each new
-- page, one for it and one for a table, `allocuvm` does not fail: the process then has all of its
-- pages up to the new size, the new ones are pages of their own that were free, filled with zeros and open to the user, and
-- the other entries are as before.
pub allocuvm-Allocated :
    (kernel_end pgdir oldsz newsz : ℕ) (k : Kmem) (free : List ℕ)
    → IsUser k pgdir free oldsz
    → oldsz ≤ newsz
    → newsz < kernbase
    → ((u : ℕ) → pground_up oldsz ≤ u → u < kernbase → present (pte k pgdir u) ≡ false)
    → 2 * ((pground_up newsz - pground_up oldsz) / pgsize) ≤ length free
    → (k' : Kmem) × (free' : List ℕ) × (allocuvm kernel_end pgdir oldsz newsz k ≡ ok (newsz, k'))
      × IsUser k' pgdir free' newsz
      × Allocated k pgdir free (pground_up oldsz) k' free' (pground_up newsz)
unfolding allocuvm
allocuvm-Allocated ke pgdir oldsz newsz k free p le lt absent enough =
    let lo = pground_up oldsz in
    let n = (newsz + pgsize - 1 - pground_up oldsz) / pgsize in
    let small : leb kernbase newsz ≡ false = ground arith in
    let grows : ltb newsz oldsz ≡ false = ground arith in
    let count : n ≡ (pground_up newsz - pground_up oldsz) / pgsize = omega arith in
    let last : pground_up oldsz + n * pgsize ≡ pground_up newsz = omega arith in
    let (k', free', e, left, c) =
      alloc_from-Allocated ke k pgdir free lo oldsz newsz absent n lo k free (omega arith)
        (omega arith) (omega arith) (omega (arith, count))
        (record {
          space = p.space;
          extends = Extends-refl pgdir k free;
          pages = λ u a b. absurd (omega arith);
          apart = λ u v a b. absurd (omega arith);
          others = λ u l o. refl;
        }) in
    let c' = subst (λ x. Allocated k pgdir free lo k' free' x) last c in
    (
      k',
      free',
      rw (allocuvm, small, grows) e,
      Allocated-IsUser k pgdir free oldsz newsz k' free' p lt c',
      c',
    )
