-- ===== src/Vm/Setup.antt =====
-- `setupkvm`: the whole of it, from the free page that becomes the directory.
use nunix.Prelude.{
  ℕ, ◌+◌, ◌/◌, ◌%◌, ◌^◌, ◌<◌, ◌≡◌, ◌⊎◌, refl, false, ◌==◌, ok, List, [], ◌∷◌, inl, inr, arith, ap,
  ◌∙◌,
}
use nunix.Pages.{Kmem, pgsize, kernbase, phystop, kalloc}
use nunix.Pages.FreeList.{Distinct, Linked, write-Linked}
use nunix.Vm.{pdx, sub32, v2p, pte_w, present, zero_page, kmap, extmem, devspace, setupkvm}
use nunix.Vm.Space.{has_table, pte, apart_of_mem, page-other, page-same}
use nunix.Vm.Walk.{pte-absent}
use nunix.Vm.Grow.{taken, member_first, later_mem}
use nunix.Vm.Map.{in_pages}
use nunix.Vm.Kernel.{
  Beside, Beside-refl, Grown-Beside, IsFree, Grown, extent, Ascending, mapped_entry,
  map_all-mapped_entry,
}

-- The kernel's data begins on a page above its code and below the end of memory.
pub record IsImage (kernel_data : ℕ) : Type 0 where
  pub aligned : kernel_data % pgsize ≡ 0
  pub above : kernbase + extmem < kernel_data
  pub below : kernel_data < kernbase + phystop

kmap-Ascending : (kernel_data : ℕ) → IsImage kernel_data → Ascending kernbase (kmap kernel_data)
kmap-Ascending kd g =
    let al = g.aligned in
    let ab = g.above in
    let be = g.below in
    (
      record {
        aligned = refl;
        whole = refl;
        some_bytes = omega arith;
        fits = omega arith;
        physical = omega arith;
      },
      omega arith,
      (
        record {
          aligned = refl;
          whole = omega arith;
          some_bytes = omega arith;
          fits = omega arith;
          physical = omega arith;
        },
        omega arith,
        (
          record {
            aligned = al;
            whole = omega arith;
            some_bytes = omega arith;
            fits = omega arith;
            physical = omega arith;
          },
          omega arith,
          (
            record {
              aligned = refl;
              whole = refl;
              some_bytes = omega arith;
              fits = omega arith;
              physical = omega arith;
            },
            omega arith,
            record {},
          ),
        ),
      ),
    )

-- A new directory has no entries.
module _ (k : Kmem) (d : ℕ) (fs : List ℕ) (f : IsFree k (d ∷ fs)) where
  abbrev pub new_dir : Kmem
  new_dir = zero_page d (taken d k)

  word_zero : (i : ℕ) → new_dir.words d i ≡ 0
  word_zero i = ap (λ w. w i) (page-same (taken d k) d (λ i. 0))

  pub none_there : (i : ℕ) → has_table new_dir d i ≡ false
  none_there i = ap present (word_zero i)

  pub new_dir-kalloc : (kalloc k ≡ (d, taken d k)) × ((d == 0) ≡ false)
  unfolding kalloc Linked
  new_dir-kalloc = let (e, z, l) = f.linked in (rw (kalloc, e, z) refl, z)

  pub new_dir-Grown : Grown k (d ∷ fs) new_dir d fs
  unfolding Linked Distinct
  new_dir-Grown =
      let (e, z, l) = f.linked in
      let first = member_first d fs in
      record {
        space = record {
          linked = write-Linked k.words (k.words d 0) fs d (λ i. 0) f.distinct.0 l;
          distinct = f.distinct.1;
          frames = λ p h. f.frames p (later_mem p d fs h);
          dir_out = f.distinct.0;
          tab_out = λ i h. absurd (cc (none_there i, h));
          tab_apart = λ i h. absurd (cc (none_there i, h));
          tab_inj = λ i j h. absurd (cc (none_there i, h));
        };
        kept = λ p out. page-other (taken d k) d p (λ i. 0) (apart_of_mem d p (d ∷ fs) first out);
        within = λ p h. later_mem p d fs h;
        dir_new = first;
        tab_new = λ i h. absurd (cc (none_there i, h));
      }

-- What `setupkvm` leaves: a directory of free pages whose entries are those of the regions of `kmap`, and no others.
pub record IsKernelSpace (kernel_data : ℕ) (k : Kmem) (free : List ℕ) (k' : Kmem) (d : ℕ)
    (free' : List ℕ) : Type 0 where
  pub grown : Grown k free k' d free'
  pub nonzero : (d == 0) ≡ false
  pub entries : (u : ℕ) → u < 2 ^ 32 → pte k' d u ≡ mapped_entry (kmap kernel_data) u 0

pub setupkvm-IsKernelSpace :
    (kernel_data : ℕ) (k : Kmem) (free : List ℕ)
    → IsImage kernel_data
    → IsFree k free
    → ((k' : Kmem) × (free' : List ℕ) × (setupkvm kernel_data k ≡ ok (0, k'))
        × (k'.freelist ≡ 0)
        × Beside k free k' free')
      ⊎ ((d : ℕ) × (k' : Kmem) × (free' : List ℕ) × (setupkvm kernel_data k ≡ ok (d, k'))
          × IsKernelSpace kernel_data k free k' d free')
unfolding setupkvm kalloc Linked
setupkvm-IsKernelSpace kd k [] g f =
    let e : k.freelist ≡ 0 = f.linked in
    inl (k, [], rw (setupkvm, kalloc, e) refl, e, Beside-refl k [] f)
setupkvm-IsKernelSpace kd k (d ∷ fs) g f =
    let (got, nonzero) = new_dir-kalloc k d fs f in
    let none = none_there k d fs f in
    let zero_pte : (u : ℕ) → pte (new_dir k d fs f) d u ≡ 0 =
      λ u. pte-absent (new_dir k d fs f) d u (none (pdx u)) in
    elim (map_all-mapped_entry k (d ∷ fs) d kernbase (kmap kd) (new_dir k d fs f) fs
      (new_dir-Grown k d fs f) (kmap-Ascending kd g) (λ u l b. ap present (zero_pte u))) [
        | inl (k', free', e, z, grown) ↦
            inl (k', free', rw (setupkvm, got, nonzero, e) refl, z, Grown-Beside grown)
        | inr (k', free', e, grown, entries) ↦ inr (
          d,
          k',
          free',
          rw (setupkvm, got, nonzero, e) refl,
          record {
            grown = grown;
            nonzero = nonzero;
            entries = λ u l. entries u l ∙ ap (mapped_entry (kmap kd) u) (zero_pte u);
          },
        )
      ]

-- An address of the user's part has no entry.
pub user-mapped_entry :
    (kernel_data u : ℕ)
    → IsImage kernel_data
    → u < kernbase
    → mapped_entry (kmap kernel_data) u 0 ≡ 0
user-mapped_entry kd u g l =
    let ab = g.above in
    rw
      (
        below kernbase
            (extent (record { virt = kernbase; phys_start = 0; phys_end = extmem; perm = pte_w })
              / pgsize)
            u l,
        below (kernbase + extmem) ((sub32 (v2p kd) extmem) / pgsize) u (omega arith),
        below kd ((sub32 phystop (v2p kd)) / pgsize) u (omega arith),
        below devspace ((sub32 0 devspace) / pgsize) u (omega arith),
      )
      refl
  where
    below : (a n u : ℕ) → u < a → in_pages a n u ≡ false
    below a n u h = ground arith
