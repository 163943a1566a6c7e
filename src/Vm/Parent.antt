-- ===== src/Vm/Parent.antt =====
-- A process while pages that it does not have are taken and written: `copyuvm` finds its entries as they were.
use mathlib.Core.Path.{subst}
use nunix.Prelude.{ℕ, ◌<◌, ◌≡◌, refl, true, false, some, List, inl, inr, Bool-cases, ap, sym, ◌∙◌}
use nunix.Pages.{Kmem}
use nunix.Pages.FreeList.{mem}
use nunix.Vm.{pdx, ptx, p2v, pte_addr, present, walkpgdir}
use nunix.Vm.Space.{table, has_table, pte}
use nunix.Vm.Walk.{pte-absent, pte-there}
use nunix.Vm.Grow.{IsFresh}
use nunix.Vm.Given.{frame}
use nunix.Vm.Kernel.{Beside}
use nunix.Vm.Copy.{IsUser}

-- An entry that is there is the one that `walkpgdir` finds.
pub walk-present :
    (k : Kmem) (pgdir va : ℕ)
    → present (pte k pgdir va) ≡ true
    → (walkpgdir pgdir va false k ≡ (some (table k pgdir (pdx va), ptx va), k))
      × (k.words (table k pgdir (pdx va)) (ptx va) ≡ pte k pgdir va)
unfolding walkpgdir
walk-present k pgdir va h = elim (Bool-cases (has_table k pgdir (pdx va))) [
  | inl e ↦ (rw (walkpgdir, e) refl, sym (pte-there k pgdir va e))
  | inr e ↦ absurd (cc (ap present (pte-absent k pgdir va e), h))
]

-- The parent's pages are not free, so they are as they were.
module _ (k0 : Kmem) (pgdir : ℕ) (free0 : List ℕ) (sz : ℕ) (parent : IsUser k0 pgdir free0 sz)
    (k : Kmem) (free : List ℕ) (g : Beside k0 free0 k free) where
  pub dir_kept : k.words pgdir ≡ k0.words pgdir
  dir_kept = g.kept pgdir parent.space.dir_out

  pub parent_entry : (u : ℕ) → pte k pgdir u ≡ pte k0 pgdir u
  parent_entry u = elim (Bool-cases (has_table k0 pgdir (pdx u))) [
    | inl h ↦
        pte-there k pgdir u (ap (λ w. present (w (pdx u))) dir_kept ∙ h)
        ∙ ap (λ w. k.words (p2v (pte_addr (w (pdx u)))) (ptx u)) dir_kept
        ∙ ap (λ w. w (ptx u)) (g.kept (table k0 pgdir (pdx u)) (parent.space.tab_out (pdx u) h))
        ∙ sym (pte-there k0 pgdir u h)
    | inr h ↦
        pte-absent k pgdir u (ap (λ w. present (w (pdx u))) dir_kept ∙ h)
        ∙ sym (pte-absent k0 pgdir u h)
  ]

  pub parent_bytes : (u : ℕ) → u < sz → k.words (frame k pgdir u) ≡ k0.words (frame k0 pgdir u)
  parent_bytes u l =
      ap (λ e. k.words (p2v (pte_addr e))) (parent_entry u)
      ∙ g.kept (frame k0 pgdir u) (parent.own u l).out

  still_out : (p : ℕ) → mem p free0 ≡ false → mem p free ≡ false
  still_out p h = elim (Bool-cases (mem p free)) [
    | inl e ↦ absurd (cc (g.within p e, h))
    | inr e ↦ e
  ]

  same_table :
      (i : ℕ) → (has_table k pgdir i ≡ has_table k0 pgdir i) × (table k pgdir i ≡ table k0 pgdir i)
  same_table i = (ap (λ w. present (w i)) dir_kept, ap (λ w. p2v (pte_addr (w i))) dir_kept)

  -- The parent is as whole as before.
  pub parent-IsUser : IsUser k pgdir free sz
  parent-IsUser = record {
    space = record {
      linked = g.chain.linked;
      distinct = g.chain.distinct;
      frames = g.chain.frames;
      dir_out = still_out pgdir parent.space.dir_out;
      tab_out = λ i h.
          ap (λ p. mem p free) (same_table i).1
          ∙ still_out (table k0 pgdir i) (parent.space.tab_out i (sym (same_table i).0 ∙ h));
      tab_apart =
          λ i h e. parent.space.tab_apart i (sym (same_table i).0 ∙ h) (sym (same_table i).1 ∙ e);
      tab_inj = λ i j h h' e.
          parent.space.tab_inj i j (sym (same_table i).0 ∙ h) (sym (same_table j).0 ∙ h')
            (sym (same_table i).1 ∙ e ∙ (same_table j).1);
    };
    small = parent.small;
    there = λ u l. ap present (parent_entry u) ∙ parent.there u l;
    own = λ u l.
        let f = parent.own u l in
        subst (λ p. IsFresh k pgdir free p) (sym (ap (λ e. p2v (pte_addr e)) (parent_entry u)))
          (record {
            frame = f.frame;
            out = still_out (frame k0 pgdir u) f.out;
            apart = f.apart;
            no_table = λ i h e. f.no_table i (sym (same_table i).0 ∙ h) (e ∙ (same_table i).1);
          });
    apart = λ u v l l' e. parent.apart u v l l' (
        ap (λ x. p2v (pte_addr x)) (sym (parent_entry u))
        ∙ e
        ∙ ap (λ x. p2v (pte_addr x)) (parent_entry v));
  }
