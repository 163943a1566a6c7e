-- ===== src/Vm/Kernel.antt =====
-- `setupkvm`: a new directory whose entries are those of the kernel's regions.
use nunix.Prelude.{
  ℕ, ◌+◌, ◌-◌, ◌*◌, ◌/◌, ◌%◌, ◌^◌, ◌≤◌, ◌<◌, ◌≡◌, ◌⊎◌, refl, true, false, if◌then◌else◌, ok, List,
  [], ◌∷◌, inl, inr, arith, Bool-cases, ap, ◌∙◌,
}
use nunix.Pages.{Kmem, pgsize}
use nunix.Pages.FreeList.{mem, Distinct, Linked}
use nunix.Vm.{sub32, present, make_pte, KernelMap, map_all}
use nunix.Vm.Space.{table, has_table, pte, IsFrame, IsSpace, Extends}
use nunix.Vm.Map.{in_pages, map_from-Maps, mappages-region}

-- The free pages are a chain of different frames.
pub record IsFree (k : Kmem) (free : List ℕ) : Type 0 where
  pub linked : Linked k.words k.freelist free
  pub distinct : Distinct free
  pub frames : (p : ℕ) → mem p free ≡ true → IsFrame p

-- Since `k`, when `free` were the free pages, only pages of these were taken and written.
pub record Beside (k : Kmem) (free : List ℕ) (k' : Kmem) (free' : List ℕ) : Type 0 where
  pub chain : IsFree k' free'
  pub kept : (p : ℕ) → mem p free ≡ false → k'.words p ≡ k.words p
  pub within : (p : ℕ) → mem p free' ≡ true → mem p free ≡ true

pub Beside-refl : (k : Kmem) (free : List ℕ) → IsFree k free → Beside k free k free
Beside-refl k free f = record { chain = f; kept = λ p h. refl; within = λ p m. m }

-- A directory that was made of free pages since `k`, when `free` were the free pages: no other page has changed.
pub record Grown (k : Kmem) (free : List ℕ) (k' : Kmem) (d : ℕ) (free' : List ℕ) : Type 0 where
  pub space : IsSpace k' d free'
  pub kept : (p : ℕ) → mem p free ≡ false → k'.words p ≡ k.words p
  pub within : (p : ℕ) → mem p free' ≡ true → mem p free ≡ true
  pub dir_new : mem d free ≡ true
  pub tab_new : (i : ℕ) → has_table k' d i ≡ true → mem (table k' d i) free ≡ true

pub Grown-Beside :
    {k k' : Kmem} {d : ℕ} {free free' : List ℕ} → Grown k free k' d free' → Beside k free k' free'
Grown-Beside g = record {
  chain = record { linked = g.space.linked; distinct = g.space.distinct; frames = g.space.frames };
  kept = g.kept;
  within = g.within;
}

pub Grown-Extends :
    {k k' k'' : Kmem} {d : ℕ} {free free' free'' : List ℕ}
    → Grown k free k' d free'
    → IsSpace k'' d free''
    → Extends d k' free' k'' free''
    → Grown k free k'' d free''
Grown-Extends {k} {k'} {k''} {d} {free} {free'} g s x = record {
  space = s;
  kept = λ p out.
      x.kept p (not_inside p (Bool-cases (mem p free')) out)
        (λ e. cc (ap (λ q. mem q free) e, out, g.dir_new))
        (λ i h e. cc (ap (λ q. mem q free) e, out, g.tab_new i h))
      ∙ g.kept p out;
  within = λ p h. g.within p (x.shrinks p h);
  dir_new = g.dir_new;
  tab_new = λ i h. elim (x.tables i h) [
    | inl (had, same) ↦ ap (λ q. mem q free) same ∙ g.tab_new i had
    | inr new ↦ g.within (table k'' d i) new
  ];
}
  where
    not_inside :
        (p : ℕ)
        → (mem p free' ≡ true) ⊎ (mem p free' ≡ false)
        → mem p free ≡ false
        → mem p free' ≡ false
    not_inside p (inl h) out = cc (g.within p h, out)
    not_inside p (inr h) out = h

-- the bytes of a region
abbrev pub extent : KernelMap → ℕ
extent m = sub32 m.phys_end m.phys_start

pub record IsRegion (m : KernelMap) : Type 0 where
  pub aligned : m.virt % pgsize ≡ 0
  pub whole : extent m % pgsize ≡ 0
  pub some_bytes : 0 < extent m
  pub fits : m.virt + extent m ≤ 2 ^ 32
  pub physical : m.phys_start + extent m ≤ 2 ^ 32

-- Regions one behind the other, from an address on.
abbrev pub Ascending : ℕ → List KernelMap → Type 0
Ascending low [] = Unit {0}
Ascending low (m ∷ ms) = IsRegion m × (low ≤ m.virt) × Ascending (m.virt + extent m) ms

-- The entry for an address with these regions mapped.
abbrev pub mapped_entry : List KernelMap → ℕ → ℕ → ℕ
mapped_entry [] u old = old
mapped_entry (m ∷ ms) u old = mapped_entry ms u (
    if in_pages m.virt (extent m / pgsize) u
    then make_pte (m.phys_start + (u - m.virt) / pgsize * pgsize) m.perm
    else old)

pub map_all-mapped_entry :
    (k0 : Kmem) (free0 : List ℕ) (d low : ℕ) (ms : List KernelMap) (k : Kmem) (free : List ℕ)
    → Grown k0 free0 k d free
    → Ascending low ms
    → ((u : ℕ) → u < 2 ^ 32 → low ≤ u → present (pte k d u) ≡ false)
    → ((k' : Kmem) × (free' : List ℕ) × (map_all d ms k ≡ ok (false, k'))
        × (k'.freelist ≡ 0)
        × Grown k0 free0 k' d free')
      ⊎ ((k' : Kmem) × (free' : List ℕ) × (map_all d ms k ≡ ok (true, k'))
          × Grown k0 free0 k' d free'
          × ((u : ℕ) → u < 2 ^ 32 → pte k' d u ≡ mapped_entry ms u (pte k d u)))
unfolding map_all
map_all-mapped_entry k0 free0 d low [] k free g asc absent = inr (k, free, refl, g, λ u l. refl)
map_all-mapped_entry k0 free0 d low (m ∷ ms) k free g (r, above, asc) absent =
    let n = extent m / pgsize in
    let al = r.aligned in
    let wh = r.whole in
    let sb = r.some_bytes in
    let fi = r.fits in
    let ph = r.physical in
    let start =
      mappages-region d n m.virt (extent m) m.phys_start m.perm k al (omega arith) (omega arith)
        (omega arith) in
    elim (map_from-Maps d n m.virt m.phys_start m.perm k free g.space al (omega arith) (omega arith)
      (λ u l y. absent u l (ground arith))) [
        | inl (k', free', e, z, x, j, few, lj, maps) ↦
            inl (k', free', rw (map_all, start, e) refl, z, Grown-Extends g x.space x.extends)
        | inr (k', free', e, left, x, maps) ↦
            elim (map_all-mapped_entry k0 free0 d (m.virt + extent m) ms k' free'
              (Grown-Extends g x.space x.extends) asc
              (λ u l b.
                ap present (maps.entries u l)
                ∙ rw (beyond m.virt (extent m) u wh b) (absent u l (omega arith)))) [
                  | inl (k'', free'', h, z, g') ↦ inl (k'', free'', rw (map_all, start, e) h, z, g')
                  | inr (k'', free'', h, g', entries) ↦ inr (
                    k'',
                    free'',
                    rw (map_all, start, e) h,
                    g',
                    λ u l. entries u l ∙ ap (mapped_entry ms u) (maps.entries u l),
                  )
                ]
      ]
  where
    beyond :
        (a size u : ℕ) → size % pgsize ≡ 0 → a + size ≤ u → in_pages a (size / pgsize) u ≡ false
    beyond a size u w h = ground arith
