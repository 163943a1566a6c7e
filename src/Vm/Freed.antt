-- ===== src/Vm/Freed.antt =====
-- One round of `deallocuvm`: `kfree` of a page of the process, and its entry cleared.
use mathlib.Core.Path.{subst}
use nunix.Prelude.{
  ℕ, suc, ◌+◌, ◌/◌, ◌^◌, ◌≤◌, ◌<◌, ◌≡◌, ◌≢◌, ◌⊎◌, refl, true, false, ◌==◌, ==→eq, if◌then◌else◌,
  update, some, ok, ltb, List, ◌∷◌, inl, inr, arith, Bool-cases, ap, sym, ◌∙◌,
}
use nunix.Pages.{Kmem, pgsize, junk, kfree}
use nunix.Pages.FreeList.{mem, Distinct, Linked, kfree-ok, write-Linked}
use nunix.Vm.{pdx, ptx, p2v, pte_addr, present, put_word, add32, walkpgdir}
use nunix.Vm.User.{dealloc_from}
use nunix.Vm.Parent.{walk-present}
use nunix.Vm.Space.{table, has_table, pte, IsFrame, IsSpace, write_page, page-other, page-same}
use nunix.Vm.Walk.{write-IsSpace, pte-put, pte-absent}
use nunix.Vm.Grow.{IsFresh, member_first}
use nunix.Vm.Found.{pte-fresh}
use nunix.Vm.Kernel.{IsFree}
use nunix.Vm.Given.{frame}

-- what `kfree` leaves
abbrev pub freed : ℕ → Kmem → Kmem
freed v k = record k { words = update k.words v (update (λ i. junk) 0 k.freelist); freelist = v }

pub mem_cons : (p v : ℕ) (free : List ℕ) → mem p (v ∷ free) ≡ true → (p ≡ v) ⊎ (mem p free ≡ true)
mem_cons p v free h = elim (Bool-cases (p == v)) [
  | inl e ↦ inl (==→eq p v e)
  | inr e ↦ inr (ground (arith, h, e))
]

pub not_mem_cons : (p v : ℕ) (free : List ℕ) → p ≢ v → mem p free ≡ false → mem p (v ∷ free) ≡ false
not_mem_cons p v free a h = elim (Bool-cases (p == v)) [
  | inl e ↦ absurd (a (==→eq p v e))
  | inr e ↦ ground (arith, h, e)
]

pub not_mem_tail :
    (p v : ℕ) (free : List ℕ) → mem p (v ∷ free) ≡ false → (p ≢ v) × (mem p free ≡ false)
not_mem_tail p v free h =
    ((λ e. cc (h, ap (λ q. mem q (v ∷ free)) e, member_first v free)), ground (arith, h))

pub freed-other : (k : Kmem) (v p : ℕ) → p ≢ v → (freed v k).words p ≡ k.words p
freed-other k v p apart = page-other k v p (update (λ i. junk) 0 k.freelist) (λ e. apart (sym e))

-- A page that is not free goes to the front of the chain.
pub freed-IsFree :
    (k : Kmem) (v : ℕ) (free : List ℕ)
    → IsFree k free
    → IsFrame v
    → mem v free ≡ false
    → IsFree (freed v k) (v ∷ free)
unfolding Linked Distinct
freed-IsFree k v free s f out =
    let page = update (λ i. junk) 0 k.freelist in
    let above = f.above in
    record {
      linked = (
        refl,
        ground arith,
        subst (λ x. Linked (update k.words v page) x free)
            (sym (ap (λ w. w 0) (page-same k v page)))
            (write-Linked k.words k.freelist free v page out s.linked),
      );
      distinct = (out, s.distinct);
      frames = λ p h. elim (mem_cons p v free h) [
        | inl e ↦ subst IsFrame (sym e) f
        | inr m ↦ s.frames p m
      ];
    }

pub kfree-freed :
    (kernel_end v : ℕ) (k : Kmem)
    → IsFrame v
    → kernel_end ≤ v
    → kfree kernel_end v k ≡ ok (freed v k)
kfree-freed ke v k f above =
    let x = f.above in let y = f.aligned in let z = f.below in kfree-ok ke v k (ground arith)

-- A page of its own goes back to the free ones.
module _ (k : Kmem) (pgdir v : ℕ) (free : List ℕ) (s : IsSpace k pgdir free)
    (f : IsFresh k pgdir free v) where
  written : IsSpace (write_page v (update (λ i. junk) 0 k.freelist) k) pgdir free
  written = write-IsSpace k pgdir free v (update (λ i. junk) 0 k.freelist) f.out f.apart s

  dir_kept : (freed v k).words pgdir ≡ k.words pgdir
  dir_kept = page-other k v pgdir (update (λ i. junk) 0 k.freelist) f.apart

  freed-IsSpace : IsSpace (freed v k) pgdir (v ∷ free)
  freed-IsSpace =
      let chain =
        freed-IsFree k v free
          (record { linked = s.linked; distinct = s.distinct; frames = s.frames }) f.frame f.out in
      record {
        linked = chain.linked;
        distinct = chain.distinct;
        frames = chain.frames;
        dir_out = not_mem_cons pgdir v free (λ e. f.apart (sym e)) s.dir_out;
        tab_out = λ i h.
            not_mem_cons (table (freed v k) pgdir i) v free
              (λ e.
                f.no_table i (ap (λ w. present (w i)) (sym dir_kept) ∙ h)
                  (sym e ∙ ap (λ w. p2v (pte_addr (w i))) dir_kept))
              (written.tab_out i h);
        tab_apart = written.tab_apart;
        tab_inj = written.tab_inj;
      }

dealloc_entry :
    (kernel_end pgdir n a oldsz t x e : ℕ) (k k1 : Kmem)
    → ltb a oldsz ≡ true
    → walkpgdir pgdir a false k ≡ (some (t, x), k)
    → k.words t x ≡ e
    → present e ≡ true
    → (pte_addr e == 0) ≡ false
    → kfree kernel_end (p2v (pte_addr e)) k ≡ ok k1
    → dealloc_from kernel_end pgdir (suc n) a oldsz k
      ≡ dealloc_from kernel_end pgdir n (add32 a pgsize) oldsz (put_word t x 0 k1)
unfolding dealloc_from
dealloc_entry ke pgdir n a oldsz t x e k k1 more found value there some_page put =
    rw (dealloc_from, more, found, value, there, some_page, put) refl

-- The page at `a` is freed, and its entry cleared.
module _ (k : Kmem) (pgdir a : ℕ) (free : List ℕ) (s : IsSpace k pgdir free) (lt : a < 2 ^ 32)
    (there : present (pte k pgdir a) ≡ true) (f : IsFresh k pgdir free (frame k pgdir a)) where
  abbrev pub cleared : Kmem
  cleared = put_word (table k pgdir (pdx a)) (ptx a) 0 (freed (frame k pgdir a) k)

  has : has_table k pgdir (pdx a) ≡ true
  has = elim (Bool-cases (has_table k pgdir (pdx a))) [
    | inl e ↦ e
    | inr e ↦ absurd (cc (ap present (pte-absent k pgdir a e), there))
  ]

  same_dir : (freed (frame k pgdir a) k).words pgdir ≡ k.words pgdir
  same_dir = dir_kept k pgdir (frame k pgdir a) free s f

  same_table : table (freed (frame k pgdir a) k) pgdir (pdx a) ≡ table k pgdir (pdx a)
  same_table = ap (λ w. p2v (pte_addr (w (pdx a)))) same_dir

  pub cleared-IsSpace : IsSpace cleared pgdir (frame k pgdir a ∷ free)
  cleared-IsSpace =
      let v = frame k pgdir a in
      let t = table k pgdir (pdx a) in
      write-IsSpace (freed v k) pgdir (v ∷ free) t (update ((freed v k).words t) (ptx a) 0)
        (not_mem_cons t v free (λ e. f.no_table (pdx a) has (sym e)) (s.tab_out (pdx a) has))
        (s.tab_apart (pdx a) has) (freed-IsSpace k pgdir v free s f)

  pub cleared-dir : cleared.words pgdir ≡ k.words pgdir
  cleared-dir =
      let v = frame k pgdir a in
      let t = table k pgdir (pdx a) in
      page-other (freed v k) t pgdir (update ((freed v k).words t) (ptx a) 0)
        (s.tab_apart (pdx a) has)
      ∙ same_dir

  pub pte-cleared :
      (u : ℕ)
      → u < 2 ^ 32
      → pte cleared pgdir u ≡ (if u / pgsize == a / pgsize then 0 else pte k pgdir u)
  pte-cleared u lu =
      let v = frame k pgdir a in
      subst
        (λ t.
          pte (put_word t (ptx a) 0 (freed v k)) pgdir u
          ≡ (if u / pgsize == a / pgsize then 0 else pte k pgdir u))
        same_table
        (pte-put (freed v k) pgdir (v ∷ free) a 0 u (freed-IsSpace k pgdir v free s f)
            (ap (λ w. present (w (pdx a))) same_dir ∙ has) lt lu
          ∙ ap (λ x. if u / pgsize == a / pgsize then 0 else x)
              (pte-fresh k pgdir free v (update (λ i. junk) 0 k.freelist) f u))

  pub cleared-kept :
      (p : ℕ)
      → p ≢ frame k pgdir a
      → ((i : ℕ) → i < 1024 → has_table k pgdir i ≡ true → p ≢ table k pgdir i)
      → cleared.words p ≡ k.words p
  cleared-kept p out tab =
      let v = frame k pgdir a in
      let t = table k pgdir (pdx a) in
      page-other (freed v k) t p (update ((freed v k).words t) (ptx a) 0)
        (λ e. tab (pdx a) (omega arith) has (sym e))
      ∙ page-other k v p (update (λ i. junk) 0 k.freelist) (λ e. out (sym e))

  -- The round of the loop.
  pub dealloc-round :
      (kernel_end n oldsz : ℕ)
      → a < oldsz
      → a + pgsize < 2 ^ 32
      → kernel_end ≤ frame k pgdir a
      → dealloc_from kernel_end pgdir (suc n) a oldsz k
        ≡ dealloc_from kernel_end pgdir n (a + pgsize) oldsz cleared
  dealloc-round ke n oldsz l room above =
      let v = frame k pgdir a in
      let (found, value) = walk-present k pgdir a there in
      let x = f.frame.above in
      let next : add32 a pgsize ≡ a + pgsize = omega arith in
      dealloc_entry ke pgdir n a oldsz (table k pgdir (pdx a)) (ptx a) (pte k pgdir a) k (freed v k)
        (ground arith) found value there (ground arith) (kfree-freed ke v k f.frame above)
      ∙ ap (λ i. dealloc_from ke pgdir n i oldsz cleared) next
