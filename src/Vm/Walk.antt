-- ===== src/Vm/Walk.antt =====
-- `walkpgdir` with allocation, and a write to the entry that it finds.
use nunix.Prelude.{
  ℕ, ◌/◌, ◌^◌, ◌<◌, ◌≡◌, ◌≢◌, refl, true, false, ◌==◌, ==→eq, if◌then◌else◌, update, List, inl, inr,
  arith, Bool-cases, ap, sym, ◌∙◌,
}
use nunix.Pages.{Kmem, pgsize}
use nunix.Pages.FreeList.{mem, write-Linked}
use nunix.Vm.{pdx, ptx, p2v, pte_addr, present, put_word}
use nunix.Vm.Space.{table, has_table, pte, IsSpace, Extends, write_page, page-other, page-same}

-- A page that is not free and not the directory is written.
module _ (k : Kmem) (pgdir : ℕ) (free : List ℕ) (t : ℕ) (page : ℕ → ℕ) (out : mem t free ≡ false)
    (apart : t ≢ pgdir) where
  dir_kept : (write_page t page k).words pgdir ≡ k.words pgdir
  dir_kept = page-other k t pgdir page apart

  pub write-IsSpace : IsSpace k pgdir free → IsSpace (write_page t page k) pgdir free
  write-IsSpace s = record {
    linked = write-Linked k.words k.freelist free t page out s.linked;
    distinct = s.distinct;
    frames = s.frames;
    dir_out = s.dir_out;
    tab_out = λ i h.
        ap (λ w. mem (p2v (pte_addr (w i))) free) dir_kept
        ∙ s.tab_out i (ap (λ w. present (w i)) (sym dir_kept) ∙ h);
    tab_apart = λ i h e.
        s.tab_apart i (ap (λ w. present (w i)) (sym dir_kept) ∙ h)
          (ap (λ w. p2v (pte_addr (w i))) (sym dir_kept) ∙ e);
    tab_inj = λ i j hi hj e.
        s.tab_inj i j (ap (λ w. present (w i)) (sym dir_kept) ∙ hi)
          (ap (λ w. present (w j)) (sym dir_kept) ∙ hj)
          (ap (λ w. p2v (pte_addr (w i))) (sym dir_kept)
            ∙ e
            ∙ ap (λ w. p2v (pte_addr (w j))) dir_kept);
  }

  -- Where the page is one of the tables, the directory's pages extend themselves.
  pub write-Extends :
      (j : ℕ)
      → has_table k pgdir j ≡ true
      → t ≡ table k pgdir j
      → Extends pgdir k free (write_page t page k) free
  write-Extends j h e = record {
    shrinks = λ p m. m;
    kept = λ p a b tab. page-other k t p page (λ same. tab j h (sym same ∙ e));
    tables = λ i m.
        inl (ap (λ w. present (w i)) (sym dir_kept) ∙ m, ap (λ w. p2v (pte_addr (w i))) dir_kept);
  }

pub pte-absent : (k : Kmem) (pgdir u : ℕ) → has_table k pgdir (pdx u) ≡ false → pte k pgdir u ≡ 0
pte-absent k pgdir u h = rw h refl

pub pte-there :
    (k : Kmem) (pgdir u : ℕ)
    → has_table k pgdir (pdx u) ≡ true
    → pte k pgdir u ≡ k.words (table k pgdir (pdx u)) (ptx u)
pte-there k pgdir u h = rw h refl

same_page :
    (u va : ℕ)
    → u < 2 ^ 32
    → va < 2 ^ 32
    → pdx u ≡ pdx va
    → ((ptx va == ptx u) ≡ (u / pgsize == va / pgsize))
same_page u va a b e = ground arith

other_table :
    (u va : ℕ) → u < 2 ^ 32 → va < 2 ^ 32 → pdx u ≢ pdx va → (u / pgsize == va / pgsize) ≡ false
other_table u va a b e = elim (Bool-cases (u / pgsize == va / pgsize)) [
  | inl y ↦
      let same : u / pgsize ≡ va / pgsize = ==→eq (u / pgsize) (va / pgsize) y in
      absurd (e (omega arith))
  | inr y ↦ y
]

eq_true : (a b : ℕ) → a ≡ b → (a == b) ≡ true
eq_true a b h = ground arith

-- The entries after the one for `va` was written.
pub pte-put :
    (k : Kmem) (pgdir : ℕ) (free : List ℕ) (va v u : ℕ)
    → IsSpace k pgdir free
    → has_table k pgdir (pdx va) ≡ true
    → va < 2 ^ 32
    → u < 2 ^ 32
    → pte (put_word (table k pgdir (pdx va)) (ptx va) v k) pgdir u
      ≡ (if u / pgsize == va / pgsize then v else pte k pgdir u)
pte-put k pgdir free va v u s h lv lu =
    let t = table k pgdir (pdx va) in
    let page = update (k.words t) (ptx va) v in
    let k' = put_word t (ptx va) v k in
    let dir : (put_word t (ptx va) v k).words pgdir ≡ k.words pgdir =
      page-other k t pgdir page (s.tab_apart (pdx va) h) in
    elim (Bool-cases (has_table k pgdir (pdx u))) [
      | inr e ↦
          let apart : pdx u ≢ pdx va = λ x. cc (ap (λ i. has_table k pgdir i) x, e, h) in
          pte-absent k' pgdir u (ap (λ w. present (w (pdx u))) dir ∙ e)
          ∙ rw (other_table u va lu lv apart) (sym (pte-absent k pgdir u e))
      | inl e ↦
          let there =
            pte-there k' pgdir u (ap (λ w. present (w (pdx u))) dir ∙ e)
            ∙ ap (λ w. k'.words (p2v (pte_addr (w (pdx u)))) (ptx u)) dir in
          elim (Bool-cases (pdx u == pdx va)) [
            | inl y ↦
                let same : pdx u ≡ pdx va = ==→eq (pdx u) (pdx va) y in
                there
                ∙ ap (λ i. k'.words (table k pgdir i) (ptx u)) same
                ∙ ap (λ w. w (ptx u)) (page-same k t page)
                ∙ rw (same_page u va lu lv same) (
                    ap (λ x. if u / pgsize == va / pgsize then v else x)
                      (ap (λ i. k.words (table k pgdir i) (ptx u)) (sym same)
                        ∙ sym (pte-there k pgdir u e)))
            | inr y ↦
                let apart : pdx u ≢ pdx va = λ x. cc (eq_true (pdx u) (pdx va) x, y) in
                there
                ∙ ap (λ w. w (ptx u))
                    (page-other k t (table k pgdir (pdx u)) page
                      (λ x. apart (s.tab_inj (pdx u) (pdx va) e h (sym x))))
                ∙ rw (other_table u va lu lv apart) (sym (pte-there k pgdir u e))
          ]
    ]
