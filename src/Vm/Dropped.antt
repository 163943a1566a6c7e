-- ===== src/Vm/Dropped.antt =====
-- The loop of `deallocuvm`: what stands after a number of rounds, and one round more.
use mathlib.Core.Path.{subst}
use nunix.Prelude.{
  ℕ, ◌+◌, ◌-◌, ◌*◌, ◌/◌, ◌%◌, ◌^◌, ◌≤◌, ◌<◌, ◌≡◌, ◌≢◌, ◌⊎◌, refl, true, false, ltb, ◌==◌,
  if◌then◌else◌, List, ◌∷◌, length, inl, inr, arith, Bool-cases, ap, sym, ◌∙◌,
}
use nunix.Pages.{Kmem, pgsize}
use nunix.Pages.FreeList.{mem}
use nunix.Vm.{p2v, pte_addr, present}
use nunix.Vm.Space.{table, has_table, pte, IsSpace}
use nunix.Vm.Grow.{IsFresh, member_first, later_mem}
use nunix.Vm.Given.{frame}
use nunix.Vm.Copy.{IsUser, pte-page}
use nunix.Vm.Freed.{
  mem_cons, not_mem_tail, cleared, cleared-IsSpace, cleared-dir, pte-cleared, cleared-kept,
}

-- The pages from `lo` to `a` are free again, and they alone; their entries are 0, and the other entries, the directory and the other
-- pages that are not tables are as before.
pub record Dropped (k0 : Kmem) (pgdir : ℕ) (free0 : List ℕ) (lo : ℕ) (k : Kmem) (free : List ℕ)
    (a : ℕ) : Type 0 where
  pub space : IsSpace k pgdir free
  pub others : (u : ℕ) → u < 2 ^ 32 → (u < lo) ⊎ (a ≤ u) → pte k pgdir u ≡ pte k0 pgdir u
  pub gone : (u : ℕ) → lo ≤ u → u < a → pte k pgdir u ≡ 0
  pub back : (u : ℕ) → lo ≤ u → u < a → mem (frame k0 pgdir u) free ≡ true
  pub still : (p : ℕ) → mem p free0 ≡ true → mem p free ≡ true
  pub within :
      (p : ℕ)
      → mem p free ≡ true
      → (mem p free0 ≡ true) ⊎ ((u : ℕ) × (lo ≤ u) × (u < a) × (p ≡ frame k0 pgdir u))
  pub count : length free ≡ length free0 + (a - lo) / pgsize
  pub directory : k.words pgdir ≡ k0.words pgdir
  pub kept :
      (p : ℕ)
      → mem p free ≡ false
      → ((i : ℕ) → i < 1024 → has_table k0 pgdir i ≡ true → p ≢ table k0 pgdir i)
      → k.words p ≡ k0.words p

-- What is left of a process with `sz` bytes when the pages from `lo` to `a` are freed.
module _ (k0 : Kmem) (pgdir : ℕ) (free0 : List ℕ) (sz lo : ℕ) (k : Kmem) (free : List ℕ) (a : ℕ)
    (p : IsUser k0 pgdir free0 sz) (al : a % pgsize ≡ 0) (ll : lo % pgsize ≡ 0)
    (top : a < sz + pgsize) (c : Dropped k0 pgdir free0 lo k free a) where
  -- an address has its frame through the first byte of its page, which lies in the process
  by_page : (u : ℕ) → frame k0 pgdir u ≡ frame k0 pgdir (u / pgsize * pgsize)
  by_page u = ap (λ e. p2v (pte_addr e)) (pte-page k0 pgdir u (u / pgsize * pgsize) (omega arith))

  pub still_out : (u : ℕ) → u < sz → (u < lo) ⊎ (a ≤ u) → mem (frame k0 pgdir u) free ≡ false
  still_out u l o = elim (Bool-cases (mem (frame k0 pgdir u) free)) [
    | inr h ↦ h
    | inl h ↦ elim (c.within (frame k0 pgdir u) h) [
      | inl m ↦ absurd (cc (m, (p.own u l).out))
      | inr (w, x, y, e) ↦
          let same = p.apart u (w / pgsize * pgsize) l (omega arith) (e ∙ by_page w) in
          absurd (elim o [ inl z ↦ omega (arith, same) | inr z ↦ omega (arith, same) ])
    ]
  ]

  pub still_own : (u : ℕ) → u < sz → (u < lo) ⊎ (a ≤ u) → IsFresh k pgdir free (frame k0 pgdir u)
  still_own u l o =
      let f = p.own u l in
      record {
        frame = f.frame;
        out = still_out u l o;
        apart = f.apart;
        no_table = λ i h e.
            f.no_table i (ap (λ w. present (w i)) (sym c.directory) ∙ h)
              (e ∙ ap (λ w. p2v (pte_addr (w i))) c.directory);
      }

  same_frame : (u : ℕ) → u < 2 ^ 32 → (u < lo) ⊎ (a ≤ u) → frame k pgdir u ≡ frame k0 pgdir u
  same_frame u l o = ap (λ e. p2v (pte_addr e)) (c.others u l o)

  pub Dropped-IsUser : (newsz : ℕ) → newsz ≤ sz → newsz ≤ lo → IsUser k pgdir free newsz
  Dropped-IsUser newsz le low =
      let small = p.small in
      record {
        space = c.space;
        small = omega arith;
        there = λ u l.
            ap present (c.others u (omega arith) (inl (omega arith))) ∙ p.there u (omega arith);
        own = λ u l.
            subst (λ q. IsFresh k pgdir free q)
              (sym (same_frame u (omega arith) (inl (omega arith))))
              (still_own u (omega arith) (inl (omega arith)));
        apart = λ u v l l' e. p.apart u v (omega arith) (omega arith) (
            sym (same_frame u (omega arith) (inl (omega arith)))
            ∙ e
            ∙ same_frame v (omega arith) (inl (omega arith)));
      }

-- One round more.
module _ (k0 : Kmem) (pgdir : ℕ) (free0 : List ℕ) (sz lo : ℕ) (k : Kmem) (free : List ℕ) (a : ℕ)
    (p : IsUser k0 pgdir free0 sz) (al : a % pgsize ≡ 0) (ll : lo % pgsize ≡ 0) (le : lo ≤ a)
    (l : a < sz) (c : Dropped k0 pgdir free0 lo k free a) where
  pub small : a + pgsize < 2 ^ 32
  small = let s = p.small in omega arith

  pub it : frame k pgdir a ≡ frame k0 pgdir a
  it =
      same_frame k0 pgdir free0 sz lo k free a p al ll (omega arith) c a
        (let s = small in omega arith) (inr (omega arith))

  pub there : present (pte k pgdir a) ≡ true
  there = ap present (c.others a (let s = small in omega arith) (inr (omega arith))) ∙ p.there a l

  pub own : IsFresh k pgdir free (frame k pgdir a)
  own =
      subst (λ q. IsFresh k pgdir free q) (sym it)
        (still_own k0 pgdir free0 sz lo k free a p al ll (omega arith) c a l (inr (omega arith)))

  abbrev pub after : Kmem
  after = cleared k pgdir a free c.space (let s = small in omega arith) there own

  here : (u : ℕ) → a ≤ u → u < a + pgsize → frame k0 pgdir u ≡ frame k pgdir a
  here u x y = ap (λ e. p2v (pte_addr e)) (pte-page k0 pgdir u a (omega arith)) ∙ sym it

  entries :
      (u : ℕ)
      → u < 2 ^ 32
      → pte after pgdir u ≡ (if u / pgsize == a / pgsize then 0 else pte k pgdir u)
  entries = pte-cleared k pgdir a free c.space (let s = small in omega arith) there own

  pub next-Dropped : Dropped k0 pgdir free0 lo after (frame k pgdir a ∷ free) (a + pgsize)
  next-Dropped = record {
    space = cleared-IsSpace k pgdir a free c.space (let s = small in omega arith) there own;
    others = λ u lu o.
        let outside : (u / pgsize == a / pgsize) ≡ false = elim o [
          | inl h ↦ ground arith
          | inr h ↦ ground arith
        ] in
        let o' : (u < lo) ⊎ (a ≤ u) = elim o [ inl h ↦ inl h | inr h ↦ inr (omega arith) ] in
        entries u lu ∙ rw outside (c.others u lu o');
    gone = λ u x y. elim (Bool-cases (u / pgsize == a / pgsize)) [
      | inl h ↦ entries u (let s = small in omega arith) ∙ rw h refl
      | inr h ↦ entries u (let s = small in omega arith) ∙ rw h (c.gone u x (ground arith))
    ];
    back = λ u x y. elim (Bool-cases (ltb u a)) [
      | inl h ↦ later_mem (frame k0 pgdir u) (frame k pgdir a) free (c.back u x (ground arith))
      | inr h ↦
          ap (λ q. mem q (frame k pgdir a ∷ free)) (here u (ground arith) y)
          ∙ member_first (frame k pgdir a) free
    ];
    still = λ q m. later_mem q (frame k pgdir a) free (c.still q m);
    within = λ q m. elim (mem_cons q (frame k pgdir a) free m) [
      | inl e ↦ inr (a, le, omega arith, e ∙ it)
      | inr old ↦ elim (c.within q old) [
        | inl m0 ↦ inl m0
        | inr (w, x, y, e) ↦ inr (w, x, omega arith, e)
      ]
    ];
    count = let n = c.count in omega arith;
    directory =
        cleared-dir k pgdir a free c.space (let s = small in omega arith) there own ∙ c.directory;
    kept = λ q out tab.
        let (apart, out') = not_mem_tail q (frame k pgdir a) free out in
        cleared-kept k pgdir a free c.space (let s = small in omega arith) there own q apart
          (λ i b h e.
            tab i b (ap (λ w. present (w i)) (sym c.directory) ∙ h)
              (e ∙ ap (λ w. p2v (pte_addr (w i))) c.directory))
        ∙ c.kept q out' tab;
  }
