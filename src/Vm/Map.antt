-- ===== src/Vm/Map.antt =====
-- `mappages` against the entries of the addresses.
use nunix.Prelude.{
  length, ℕ, zero, suc, ◌+◌, ◌-◌, ◌*◌, ◌/◌, ◌%◌, ◌^◌, ◌≤◌, ◌<◌, ◌≡◌, ◌⊎◌, refl, Bool, true, false,
  ◌&&◌, ◌==◌, ==→eq, ltb, leb, if◌then◌else◌, update, ok, List, inl, inr, arith, Bool-cases, ap,
  sym, ◌∙◌,
}
use nunix.Pages.{Kmem, pgsize}
use nunix.Vm.{pdx, ptx, add32, sub32, pground_down, present, make_pte, put_word, map_from, mappages}
use nunix.Vm.Space.{table, pte, IsSpace, Extends, Extends-refl, Extends-trans}
use nunix.Vm.Walk.{write-IsSpace, write-Extends, pte-put, pte-there}
use nunix.Vm.Found.{Walked, walk-Walked}

-- the pages from `a` on
abbrev pub in_pages : ℕ → ℕ → ℕ → Bool
in_pages a n u = leb a u && ltb u (a + n * pgsize)

-- The entries of `n` pages from `a` on are made, for the frames from `pa` on; the others are as before.
pub record Maps (pgdir n a pa perm : ℕ) (k k' : Kmem) : Type 0 where
  pub entries :
      (u : ℕ)
      → u < 2 ^ 32
      → pte k' pgdir u
        ≡ (if in_pages a n u then make_pte (pa + (u - a) / pgsize * pgsize) perm else pte k pgdir u)

-- What `mappages` leaves, with its result.
pub record Mapping (pgdir : ℕ) (k : Kmem) (free : List ℕ) (k' : Kmem) (free' : List ℕ)
    : Type 0 where
  pub space : IsSpace k' pgdir free'
  pub extends : Extends pgdir k free k' free'

-- The entry of one page is written.
pub record Put (pgdir a v : ℕ) (k : Kmem) (free : List ℕ) (k' : Kmem) (free' : List ℕ)
    : Type 0 where
  pub mapping : Mapping pgdir k free k' free'
  pub entries :
      (u : ℕ)
      → u < 2 ^ 32
      → pte k' pgdir u ≡ (if u / pgsize == a / pgsize then v else pte k pgdir u)

Walked-Put :
    (pgdir a v : ℕ) (k k' : Kmem) (free free' : List ℕ)
    → a < 2 ^ 32
    → Walked pgdir a k free k' free'
    → Put pgdir a v k free (put_word (table k' pgdir (pdx a)) (ptx a) v k') free'
Walked-Put pgdir a v k k' free free' l w =
    let t = table k' pgdir (pdx a) in
    let out = w.space.tab_out (pdx a) w.has in
    let apart = w.space.tab_apart (pdx a) w.has in
    let page = update (k'.words t) (ptx a) v in
    record {
      mapping = record {
        space = write-IsSpace k' pgdir free' t page out apart w.space;
        extends =
            Extends-trans w.extends
              (write-Extends k' pgdir free' t page out apart (pdx a) w.has refl);
      };
      entries = λ u b.
          pte-put k' pgdir free' a v u w.space w.has l b
          ∙ ap (λ x. if u / pgsize == a / pgsize then v else x) (w.entries u);
    }

here_first :
    (n a u : ℕ)
    → a % pgsize ≡ 0
    → a + suc n * pgsize ≤ 2 ^ 32
    → u / pgsize ≡ a / pgsize
    → in_pages (add32 a pgsize) n u ≡ false
here_first zero a u al la e = ground arith
here_first (suc n) a u al la e = ground arith

here_all : (n a u : ℕ) → a % pgsize ≡ 0 → u / pgsize ≡ a / pgsize → in_pages a (suc n) u ≡ true
here_all n a u al e = ground arith

here_none :
    (n a u : ℕ)
    → a % pgsize ≡ 0
    → a + suc n * pgsize ≤ 2 ^ 32
    → in_pages a (suc n) u ≡ false
    → in_pages (add32 a pgsize) n u ≡ false
here_none zero a u al la e = ground arith
here_none (suc n) a u al la e = ground arith

here_later :
    (n a pa u : ℕ)
    → a % pgsize ≡ 0
    → a + suc n * pgsize ≤ 2 ^ 32
    → pa + suc n * pgsize ≤ 2 ^ 32
    → (u / pgsize == a / pgsize) ≡ false
    → in_pages a (suc n) u ≡ true
    → (in_pages (add32 a pgsize) n u ≡ true)
      × (add32 pa pgsize + (u - add32 a pgsize) / pgsize * pgsize ≡ pa + (u - a) / pgsize * pgsize)
here_later zero a pa u al la lp e y = absurd (ground arith)
here_later (suc n) a pa u al la lp e y = (ground arith, ground arith)

still_in :
    (n a u : ℕ)
    → a % pgsize ≡ 0
    → a + suc n * pgsize ≤ 2 ^ 32
    → in_pages (add32 a pgsize) n u ≡ true
    → (in_pages a (suc n) u ≡ true) × ((u / pgsize == a / pgsize) ≡ false)
still_in zero a u al la y = absurd (ground arith)
still_in (suc n) a u al la y = (ground arith, ground arith)

pages_step :
    (n a pa u : ℕ)
    → a % pgsize ≡ 0
    → a + suc n * pgsize ≤ 2 ^ 32
    → pa + suc n * pgsize ≤ 2 ^ 32
    → (perm old : ℕ)
    → (if in_pages (add32 a pgsize) n u
        then make_pte (add32 pa pgsize + (u - add32 a pgsize) / pgsize * pgsize) perm
        else if u / pgsize == a / pgsize
        then make_pte pa perm
        else old)
      ≡ (if in_pages a (suc n) u then make_pte (pa + (u - a) / pgsize * pgsize) perm else old)
pages_step n a pa u al la lp perm old = elim (Bool-cases (u / pgsize == a / pgsize)) [
  | inl e ↦
      let same : u / pgsize ≡ a / pgsize = ==→eq (u / pgsize) (a / pgsize) e in
      let value : pa + (u - a) / pgsize * pgsize ≡ pa = omega arith in
      rw (here_first n a u al la same, here_all n a u al same, value, e) refl
  | inr e ↦ elim (Bool-cases (in_pages a (suc n) u)) [
    | inl y ↦ let (later, value) = here_later n a pa u al la lp e y in rw (y, later, value) refl
    | inr y ↦ rw (y, here_none n a u al la y, e) refl
  ]
]

-- The page at `a`, and then `n` pages behind it.
next-Maps :
    (pgdir n a pa perm : ℕ) (k k2 k' : Kmem)
    → a % pgsize ≡ 0
    → a + suc n * pgsize ≤ 2 ^ 32
    → pa + suc n * pgsize ≤ 2 ^ 32
    → ((u : ℕ)
        → u < 2 ^ 32
        → pte k2 pgdir u ≡ (if u / pgsize == a / pgsize then make_pte pa perm else pte k pgdir u))
    → Maps pgdir n (add32 a pgsize) (add32 pa pgsize) perm k2 k'
    → Maps pgdir (suc n) a pa perm k k'
next-Maps pgdir n a pa perm k k2 k' al la lp first maps = record {
  entries = λ u l.
      maps.entries u l
      ∙ ap
          (λ x.
            if in_pages (add32 a pgsize) n u
            then make_pte (add32 pa pgsize + (u - add32 a pgsize) / pgsize * pgsize) perm
            else x)
          (first u l)
      ∙ pages_step n a pa u al la lp perm (pte k pgdir u);
}

pub map_from-Maps :
    (pgdir n a pa perm : ℕ) (k : Kmem) (free : List ℕ)
    → IsSpace k pgdir free
    → a % pgsize ≡ 0
    → a + n * pgsize ≤ 2 ^ 32
    → pa + n * pgsize ≤ 2 ^ 32
    → ((u : ℕ) → u < 2 ^ 32 → in_pages a n u ≡ true → present (pte k pgdir u) ≡ false)
    → ((k' : Kmem) × (free' : List ℕ) × (map_from pgdir n a pa perm k ≡ ok (false, k'))
        × (k'.freelist ≡ 0)
        × Mapping pgdir k free k' free'
        × (j : ℕ) × (length free ≤ j)
        × (j < n)
        × Maps pgdir j a pa perm k k')
      ⊎ ((k' : Kmem) × (free' : List ℕ) × (map_from pgdir n a pa perm k ≡ ok (true, k'))
          × (length free ≤ n + length free')
          × Mapping pgdir k free k' free'
          × Maps pgdir n a pa perm k k')
unfolding map_from
map_from-Maps pgdir zero a pa perm k free s al la lp absent = inr (
  k,
  free,
  refl,
  omega arith,
  record { space = s; extends = Extends-refl pgdir k free },
  record { entries = λ u l. ground arith },
)
map_from-Maps pgdir (suc n) a pa perm k free s al la lp absent =
    elim (walk-Walked pgdir a k free s) [
      | inl (e, z, empty) ↦ inl (
        k,
        free,
        rw (map_from, e, e) refl,
        z,
        record { space = s; extends = Extends-refl pgdir k free },
        0,
        omega arith,
        omega arith,
        record { entries = λ u l. ground arith },
      )
      | inr (k1, free1, e, w) ↦
          let t = table k1 pgdir (pdx a) in
          let unset : present (k1.words t (ptx a)) ≡ false =
            ap present (sym (pte-there k1 pgdir a w.has) ∙ w.entries a)
            ∙ absent a (omega arith) (ground arith) in
          let p = Walked-Put pgdir a (make_pte pa perm) k k1 free free1 (omega arith) w in
          let k2 = put_word t (ptx a) (make_pte pa perm) k1 in
          let used = w.used in
          elim (map_from-Maps pgdir n (add32 a pgsize) (add32 pa pgsize) perm k2 free1
            p.mapping.space (omega arith) (omega arith) (omega arith)
            (λ u l y.
              let (inside, other) = still_in n a u al la y in
              ap present (p.entries u l) ∙ rw other (absent u l inside))) [
                | inl (k', free', h, z, m, j, few, lj, maps) ↦ inl (
                  k',
                  free',
                  rw (map_from, e, e, unset) h,
                  z,
                  record { space = m.space; extends = Extends-trans p.mapping.extends m.extends },
                  suc j,
                  omega arith,
                  omega arith,
                  next-Maps pgdir j a pa perm k k2 k' al (omega arith) (omega arith) p.entries maps,
                )
                | inr (k', free', h, left, m, maps) ↦ inr (
                  k',
                  free',
                  rw (map_from, e, e, unset) h,
                  omega arith,
                  record { space = m.space; extends = Extends-trans p.mapping.extends m.extends },
                  next-Maps pgdir n a pa perm k k2 k' al la lp p.entries maps,
                )
              ]
    ]

-- `mappages` of a region of whole pages that does not wrap around: a start within its first page is rounded down.
pub mappages-region :
    (pgdir n a size pa perm : ℕ) (k : Kmem)
    → a % pgsize ≡ 0
    → a + n * pgsize ≤ 2 ^ 32
    → 0 < n
    → size ≡ n * pgsize
    → mappages pgdir a size pa perm k ≡ map_from pgdir n a pa perm k
unfolding mappages
mappages-region pgdir n a size pa perm k al la some_pages whole =
    let first : pground_down a ≡ a = omega arith in
    let last : pground_down (sub32 (add32 a size) 1) ≡ a + n * pgsize - pgsize = omega arith in
    let rounds : sub32 (a + n * pgsize - pgsize) a / pgsize + 1 ≡ n = omega arith in
    rw (mappages, last, first, rounds) refl
