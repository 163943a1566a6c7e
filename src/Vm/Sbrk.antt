-- ===== src/Vm/Sbrk.antt =====
-- `growproc` up and down again.
use mathlib.Core.Path.{subst}
use nunix.Prelude.{
  ℕ, ◌+◌, ◌-◌, ◌*◌, ◌/◌, ◌^◌, ◌≤◌, ◌<◌, ◌≡◌, refl, true, false, ltb, ◌==◌, ok, pos, List, length,
  inl, inr, arith, Bool-cases, ap, sym, ◌∙◌,
}
use nunix.Pages.{Kmem, pgsize, kernbase, pground_up}
use nunix.Pages.FreeList.{mem}
use nunix.Proc.Table.{Proc}
use nunix.Vm.{p2v, pte_addr, present, add32}
use nunix.Vm.User.{allocuvm, deallocuvm}
use nunix.Vm.Process.{is_minus, resize, growproc}
use nunix.Vm.Space.{pte}
use nunix.Vm.Given.{frame}
use nunix.Vm.Copy.{IsUser, pte-page}
use nunix.Vm.Alloc.{Allocated, allocuvm-Allocated}
use nunix.Vm.Dropped.{Dropped}
use nunix.Vm.Dealloc.{deallocuvm-Dropped}

-- a size that is not 0 becomes the size of the process
growproc_up :
    (kernel_end n newsz : ℕ) (p : Proc) (k k' : Kmem)
    → (n == 0) ≡ false
    → is_minus n ≡ false
    → (newsz == 0) ≡ false
    → add32 p.sz n ≡ newsz
    → allocuvm kernel_end p.pgdir p.sz newsz k ≡ ok (newsz, k')
    → growproc kernel_end n p k ≡ ok (pos 0, record p { sz = newsz }, k')
unfolding growproc resize
growproc_up ke n newsz p k k' some_n up nonzero sum e =
    rw (growproc, resize, some_n, up, sum, e, nonzero) refl

growproc_down :
    (kernel_end n newsz : ℕ) (p : Proc) (k k' : Kmem)
    → (n == 0) ≡ false
    → is_minus n ≡ true
    → (newsz == 0) ≡ false
    → add32 p.sz n ≡ newsz
    → deallocuvm kernel_end p.pgdir p.sz newsz k ≡ ok (newsz, k')
    → growproc kernel_end n p k ≡ ok (pos 0, record p { sz = newsz }, k')
unfolding growproc resize
growproc_down ke n newsz p k k' some_n down nonzero sum e =
    rw (growproc, resize, some_n, down, sum, e, nonzero) refl

-- The process has its pages, its entries and its bytes as before, and nothing above them below `kernbase`.
pub record IsBack (k0 : Kmem) (pgdir : ℕ) (sz : ℕ) (k : Kmem) (free : List ℕ) : Type 0 where
  pub whole : IsUser k pgdir free sz
  pub entries : (u : ℕ) → u < pground_up sz → pte k pgdir u ≡ pte k0 pgdir u
  pub bytes : (u : ℕ) → u < sz → k.words (frame k pgdir u) ≡ k0.words (frame k0 pgdir u)
  pub nothing : (u : ℕ) → pground_up sz ≤ u → u < kernbase → present (pte k pgdir u) ≡ false

Dropped-IsBack :
    (k0 : Kmem) (pgdir : ℕ) (free0 : List ℕ) (sz newsz : ℕ) (k1 : Kmem) (free1 : List ℕ) (k2 : Kmem)
    (free2 : List ℕ)
    → IsUser k0 pgdir free0 sz
    → newsz < kernbase
    → ((u : ℕ) → pground_up sz ≤ u → u < kernbase → present (pte k0 pgdir u) ≡ false)
    → Allocated k0 pgdir free0 (pground_up sz) k1 free1 (pground_up newsz)
    → Dropped k1 pgdir free1 (pground_up sz) k2 free2 (pground_up newsz)
    → IsUser k2 pgdir free2 sz
    → IsBack k0 pgdir sz k2 free2
Dropped-IsBack k0 pgdir free0 sz newsz k1 free1 k2 free2 p lt absent up down whole = record {
  whole = whole;
  entries = entries;
  bytes = λ u l.
      let same : frame k2 pgdir u ≡ frame k0 pgdir u =
        ap (λ e. p2v (pte_addr e)) (entries u (let s = p.small in omega arith)) in
      let own = p.own u l in
      let mine = whole.own u l in
      ap k2.words same
      ∙ down.kept (frame k0 pgdir u) (ap (λ q. mem q free2) (sym same) ∙ mine.out) (λ i b h e.
        mine.no_table i (ap (λ w. present (w i)) down.directory ∙ h)
          (same ∙ e ∙ ap (λ w. p2v (pte_addr (w i))) (sym down.directory)))
      ∙ up.extends.kept (frame k0 pgdir u) own.out own.apart own.no_table;
  nothing = λ u a b. elim (Bool-cases (ltb u (pground_up newsz))) [
    | inl h ↦ ap present (down.gone u a (ground arith))
    | inr h ↦
        ap present (
          down.others u (omega arith) (inr (ground arith))
          ∙ up.others u (omega arith) (inr (ground arith)))
        ∙ absent u a b
  ];
}
  where
    entries : (u : ℕ) → u < pground_up sz → pte k2 pgdir u ≡ pte k0 pgdir u
    entries u l =
        let small = p.small in
        down.others u (omega arith) (inl l) ∙ up.others u (omega arith) (inl l)

-- the new pages were free, so they lie above the end of the kernel like those that the process had
above_end :
    (kernel_end : ℕ) (k0 : Kmem) (pgdir : ℕ) (free0 : List ℕ) (sz newsz : ℕ) (k1 : Kmem)
    (free1 : List ℕ)
    → sz ≤ kernbase
    → newsz < kernbase
    → ((p : ℕ) → mem p free0 ≡ true → kernel_end ≤ p)
    → ((u : ℕ) → u < sz → kernel_end ≤ frame k0 pgdir u)
    → Allocated k0 pgdir free0 (pground_up sz) k1 free1 (pground_up newsz)
    → (u : ℕ) → u < newsz
    → kernel_end ≤ frame k1 pgdir u
above_end ke k0 pgdir free0 sz newsz k1 free1 small lt free_above mine_above c u l =
    elim (Bool-cases (ltb u (pground_up sz))) [
      | inl h ↦
          let same =
            ap (λ e. p2v (pte_addr e))
              (c.others u (omega arith) (inl (ground arith))
                ∙ pte-page k0 pgdir u (u / pgsize * pgsize) (omega arith)) in
          subst (λ q. ke ≤ q) (sym same) (mine_above (u / pgsize * pgsize) (ground arith))
      | inr h ↦ free_above (frame k1 pgdir u) (c.pages u (ground arith) (ground arith)).was_free
    ]

-- Let a process of at least one byte have all of its pages, none of them free, and no entries above them below `kernbase`; let its pages and
-- the free ones lie above the end of the kernel, and two pages be free for each new page. Then `growproc` by `n`
-- bytes and `growproc` by `-n` bytes both succeed, and the process is the one that it was: it has its size, its entries and its
-- bytes, and nothing above them, and the pages that it had got for the new bytes are free again.
pub growproc-growproc :
    (kernel_end n : ℕ) (p : Proc) (k : Kmem) (free : List ℕ)
    → IsUser k p.pgdir free p.sz
    → 1 ≤ p.sz
    → 1 ≤ n
    → p.sz + n < kernbase
    → ((u : ℕ) → pground_up p.sz ≤ u → u < kernbase → present (pte k p.pgdir u) ≡ false)
    → ((q : ℕ) → mem q free ≡ true → kernel_end ≤ q)
    → ((u : ℕ) → u < p.sz → kernel_end ≤ frame k p.pgdir u)
    → 2 * ((pground_up (p.sz + n) - pground_up p.sz) / pgsize) ≤ length free
    → (k1 : Kmem) × (k2 : Kmem) × (free2 : List ℕ) × (growproc kernel_end n p k
        ≡ ok (pos 0, record p { sz = p.sz + n }, k1))
      × (growproc kernel_end (2 ^ 32 - n) (record p { sz = p.sz + n }) k1 ≡ ok (pos 0, p, k2))
      × IsBack k p.pgdir p.sz k2 free2
      × ((u : ℕ) → pground_up p.sz ≤ u → u < p.sz + n → mem (frame k1 p.pgdir u) free2 ≡ true)
growproc-growproc ke n p k free whole some_sz some_n lt absent free_above mine_above enough =
    let small = whole.small in
    let (k1, free1, e, u1, up) =
      allocuvm-Allocated ke p.pgdir p.sz (p.sz + n) k free whole (omega arith) lt absent enough in
    let (k2, free2, e', u2, down) =
      deallocuvm-Dropped ke p.pgdir (p.sz + n) (p.sz + n) p.sz k1 free1 u1 (omega arith)
        (omega arith) (omega arith) (λ u a b. absurd (omega arith))
        (above_end ke k p.pgdir free p.sz (p.sz + n) k1 free1 small lt free_above mine_above up) in
    (
      k1,
      k2,
      free2,
      growproc_up ke n (p.sz + n) p k k1 (ground arith) (ground arith) (ground arith) (omega arith)
          e,
      growproc_down ke (2 ^ 32 - n) p.sz (record p { sz = p.sz + n }) k1 k2 (ground arith)
          (ground arith) (ground arith) (omega arith) e',
      Dropped-IsBack k p.pgdir free p.sz (p.sz + n) k1 free1 k2 free2 whole lt absent up down u2,
      λ u a b. down.back u a (omega arith),
    )
