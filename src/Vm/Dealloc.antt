-- ===== src/Vm/Dealloc.antt =====
-- `deallocuvm`: the pages above the new size go back to the free ones.
use mathlib.Core.Path.{subst}
use nunix.Prelude.{
  ℕ, zero, suc, ◌+◌, ◌*◌, ◌/◌, ◌%◌, ◌≤◌, ◌<◌, ◌≡◌, refl, false, ltb, leb, ok, List, ◌∷◌, inl, inr,
  arith, Bool-cases, ap, sym, ◌∙◌,
}
use nunix.Pages.{Kmem, pgsize, kernbase, pground_up}
use nunix.Vm.{pdx, present, add32, walkpgdir}
use nunix.Vm.User.{dealloc_from, deallocuvm}
use nunix.Vm.Space.{has_table, pte}
use nunix.Vm.Walk.{pte-there}
use nunix.Vm.Given.{frame}
use nunix.Vm.Copy.{IsUser}
use nunix.Vm.Freed.{dealloc-round}
use nunix.Vm.Dropped.{Dropped, Dropped-IsUser, it, there, own, after, next-Dropped}

-- Where there are no entries nothing changes, wherever the loop gets to.
dealloc_from-idle :
    (kernel_end pgdir top lo : ℕ) (k : Kmem)
    → top ≤ kernbase
    → ((u : ℕ) → lo ≤ u → u < top → present (pte k pgdir u) ≡ false)
    → (n a : ℕ) → lo ≤ a
    → dealloc_from kernel_end pgdir n a top k ≡ ok k
unfolding dealloc_from walkpgdir
dealloc_from-idle ke pgdir top lo k small absent zero a le = refl
dealloc_from-idle ke pgdir top lo k small absent (suc n) a le = elim (Bool-cases (ltb a top)) [
  | inr h ↦ rw (dealloc_from, h) refl
  | inl h ↦
      let l : a < top = ground arith in
      elim (Bool-cases (has_table k pgdir (pdx a))) [
        | inl t ↦
            let lacks = ap present (sym (pte-there k pgdir a t)) ∙ absent a le l in
            rw (dealloc_from, h, walkpgdir, t, lacks)
              (dealloc_from-idle ke pgdir top lo k small absent n (add32 a pgsize) (omega arith))
        | inr t ↦
            rw (dealloc_from, h, walkpgdir, t)
              (dealloc_from-idle ke pgdir top lo k small absent n (add32 a (1024 * pgsize))
                (omega arith))
      ]
]

dealloc_from-Dropped :
    (kernel_end : ℕ) (k0 : Kmem) (pgdir : ℕ) (free0 : List ℕ) (sz top lo : ℕ)
    → IsUser k0 pgdir free0 sz
    → lo % pgsize ≡ 0
    → sz ≤ top
    → top ≤ kernbase
    → ((u : ℕ) → pground_up sz ≤ u → u < top → present (pte k0 pgdir u) ≡ false)
    → ((u : ℕ) → u < sz → kernel_end ≤ frame k0 pgdir u)
    → (n a : ℕ) (k : Kmem) (free : List ℕ) → a % pgsize ≡ 0
    → lo ≤ a
    → a < sz + pgsize
    → sz ≤ a + n * pgsize
    → Dropped k0 pgdir free0 lo k free a
    → (k' : Kmem) × (free' : List ℕ) × (dealloc_from kernel_end pgdir n a top k ≡ ok k')
      × Dropped k0 pgdir free0 lo k' free' (pground_up sz)
unfolding dealloc_from
dealloc_from-Dropped ke k0 pgdir free0 sz top lo p ll ls lt absent above zero a k free al le room
      enough c =
    let small = p.small in
    (k, free, refl, subst (λ x. Dropped k0 pgdir free0 lo k free x) (omega arith) c)
dealloc_from-Dropped ke k0 pgdir free0 sz top lo p ll ls lt absent above (suc n) a k free al le room
      enough c =
    let low = p.small in
    elim (Bool-cases (ltb a sz)) [
      | inr h ↦ (
        k,
        free,
        dealloc_from-idle ke pgdir top (pground_up sz) k lt
            (λ u x y. ap present (c.others u (omega arith) (inr (ground arith))) ∙ absent u x y)
            (suc n) a (ground arith),
        subst (λ x. Dropped k0 pgdir free0 lo k free x) (ground arith) c,
      )
      | inl h ↦
          let l : a < sz = ground arith in
          let go =
            dealloc-round k pgdir a free c.space (omega arith)
              (there k0 pgdir free0 sz lo k free a p al ll le l c)
              (own k0 pgdir free0 sz lo k free a p al ll le l c) ke n top (omega arith)
              (omega arith)
              (subst (λ q. ke ≤ q) (sym (it k0 pgdir free0 sz lo k free a p al ll le l c))
                (above a l)) in
          let (k', free', e, done) =
            dealloc_from-Dropped ke k0 pgdir free0 sz top lo p ll ls lt absent above n (a + pgsize)
              (after k0 pgdir free0 sz lo k free a p al ll le l c) (frame k pgdir a ∷ free)
              (omega arith) (omega arith) (omega arith) (omega arith)
              (next-Dropped k0 pgdir free0 sz lo k free a p al ll le l c) in
          (k', free', go ∙ e, done)
    ]

-- Let a process have all of the pages of its `sz` bytes, none of them free, and all of them above the end of the kernel, and let it have no
-- entries from there to `oldsz`, which can be larger than its size. Then `deallocuvm` to a `newsz` that is at most
-- `sz` does not panic and returns `newsz`. The process has all of its pages up to it; the whole pages above it are free
-- again, and they alone, and have no entry; the other entries, and all pages in use but the tables, are as before.
pub deallocuvm-Dropped :
    (kernel_end pgdir sz oldsz newsz : ℕ) (k : Kmem) (free : List ℕ)
    → IsUser k pgdir free sz
    → newsz ≤ sz
    → sz ≤ oldsz
    → oldsz ≤ kernbase
    → ((u : ℕ) → pground_up sz ≤ u → u < oldsz → present (pte k pgdir u) ≡ false)
    → ((u : ℕ) → u < sz → kernel_end ≤ frame k pgdir u)
    → (k' : Kmem) × (free' : List ℕ) × (deallocuvm kernel_end pgdir oldsz newsz k ≡ ok (newsz, k'))
      × IsUser k' pgdir free' newsz
      × Dropped k pgdir free (pground_up newsz) k' free' (pground_up sz)
unfolding deallocuvm
deallocuvm-Dropped ke pgdir sz oldsz newsz k free p le ls lt absent above =
    let small = p.small in
    let start : Dropped k pgdir free (pground_up newsz) k free (pground_up newsz) = record {
      space = p.space;
      others = λ u l o. refl;
      gone = λ u a b. absurd (omega arith);
      back = λ u a b. absurd (omega arith);
      still = λ q m. m;
      within = λ q m. inl m;
      count = omega arith;
      directory = refl;
      kept = λ q out tab. refl;
    } in
    elim (Bool-cases (leb oldsz newsz)) [
      | inl h ↦
          let same : oldsz ≡ newsz = ground arith in
          let same' : sz ≡ newsz = ground arith in
          (
            k,
            free,
            rw (deallocuvm, h) (ap (λ x. ok (x, k)) same),
            subst (IsUser k pgdir free) same' p,
            subst (λ x. Dropped k pgdir free (pground_up newsz) k free (pground_up x)) (sym same')
                start,
          )
      | inr h ↦
          let (k', free', e, d) =
            dealloc_from-Dropped ke k pgdir free sz oldsz (pground_up newsz) p (omega arith) ls lt
              absent above (oldsz / pgsize + 1) (pground_up newsz) k free (omega arith)
              (omega arith) (omega arith) (omega arith) start in
          (
            k',
            free',
            rw (deallocuvm, h, e) refl,
            Dropped-IsUser k pgdir free sz (pground_up newsz) k' free' (pground_up sz) p
                (omega arith) (omega arith) (omega arith) d newsz le (omega arith),
            d,
          )
    ]
