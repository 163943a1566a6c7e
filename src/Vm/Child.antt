-- ===== src/Vm/Child.antt =====
-- `copyuvm`: what `fork` gives the child.
use mathlib.Core.Path.{subst}
use nunix.Prelude.{
  ℕ, ap, ◌%◌, ◌+◌, ◌-◌, ◌*◌, ◌/◌, ◌≤◌, ◌≡◌, ◌⊎◌, refl, Bool, true, false, ◌==◌, Result, ok, ◌>>=◌,
  if◌then◌else◌, List, inl, inr, arith, ◌∙◌,
}
use nunix.Pages.{Kmem, pgsize, kernbase}
use nunix.Vm.{setupkvm}
use nunix.Vm.User.{copy_from, freevm, copyuvm}
use nunix.Vm.Kernel.{IsFree, Beside, Grown-Beside}
use nunix.Vm.Setup.{IsImage, IsKernelSpace, setupkvm-IsKernelSpace, user-mapped_entry}
use nunix.Vm.Copy.{IsUser, Copied}
use nunix.Pages.FreeList.{mem}
use nunix.Vm.{present}
use nunix.Vm.Space.{table}
use nunix.Vm.Given.{frame}
use nunix.Vm.Parent.{parent-IsUser}
use nunix.Vm.Fork.{copy_from-Copied}
use nunix.Vm.Tables.{IsOwned, out_before}
use nunix.Vm.Release.{Held, page, page_table, page_directory, Released, freevm-Released}

-- the pages that the loop goes over
abbrev pub rounds : ℕ → ℕ
rounds sz = (sz + pgsize - 1) / pgsize

-- The new directory, with nothing copied yet.
setupkvm-Copied :
    (kernel_data : ℕ) (k : Kmem) (pgdir : ℕ) (free : List ℕ) (k1 : Kmem) (d : ℕ) (free1 : List ℕ)
    → IsImage kernel_data
    → IsKernelSpace kernel_data k free k1 d free1
    → Copied kernel_data k pgdir free k1 d free1 0
setupkvm-Copied kd k pgdir free k1 d free1 image s = record {
  grown = s.grown;
  pages = λ u l. absurd (omega arith);
  apart = λ u v l. absurd (omega arith);
  rest = λ u a b. s.entries u (omega arith) ∙ user-mapped_entry kd u image b;
  kernel = λ u a b. s.entries u b;
}

-- The steps of `copyuvm`, of which the last is `freevm`.
abbrev child_of :
    Result (ℕ × Kmem)
    → (ℕ → Kmem → Result (Bool × Kmem))
    → (ℕ → Kmem → Result Kmem)
    → Result (ℕ × Kmem)
child_of made copy undo = do
  (d, k1) ← made
  if d == 0 then ok (0, k1) else (do
    (copied, k2) ← copy d k1
    if copied then ok (d, k2) else (do k3 ← undo d k2; ok (0, k3)))

copyuvm-child_of :
    (kernel_end kernel_data pgdir sz : ℕ) (k : Kmem)
    → copyuvm kernel_end kernel_data pgdir sz k
      ≡ child_of (setupkvm kernel_data k) (λ d. copy_from pgdir d (rounds sz) 0) (freevm kernel_end)
unfolding copyuvm
copyuvm-child_of kernel_end kernel_data pgdir sz k = refl

child_of_none :
    (made : Result (ℕ × Kmem)) (copy : ℕ → Kmem → Result (Bool × Kmem))
    (undo : ℕ → Kmem → Result Kmem) (k1 : Kmem)
    → made ≡ ok (0, k1)
    → child_of made copy undo ≡ ok (0, k1)
child_of_none made copy undo k1 e = rw e refl

-- A directory was made, and the copying ran.
module _ (made : Result (ℕ × Kmem)) (copy : ℕ → Kmem → Result (Bool × Kmem))
    (undo : ℕ → Kmem → Result Kmem) (d : ℕ) (k1 k2 : Kmem) (e : made ≡ ok (d, k1))
    (nonzero : (d == 0) ≡ false) where
  child_of_copied : copy d k1 ≡ ok (true, k2) → child_of made copy undo ≡ ok (d, k2)
  child_of_copied h = rw (e, nonzero, h) refl

  child_of_undone :
      (k3 : Kmem)
      → copy d k1 ≡ ok (false, k2)
      → undo d k2 ≡ ok k3
      → child_of made copy undo ≡ ok (0, k3)
  child_of_undone k3 h back = rw (e, nonzero, h, back) refl

-- The child is as whole as its parent.
Copied-IsUser :
    (kd : ℕ) (k : Kmem) (pgdir : ℕ) (free : List ℕ) (k' : Kmem) (d : ℕ) (free' : List ℕ) (i sz : ℕ)
    → sz ≤ i
    → sz ≤ kernbase
    → Copied kd k pgdir free k' d free' i
    → IsUser k' d free' sz
Copied-IsUser kd k pgdir free k' d free' i sz le small c = record {
  space = c.grown.space;
  small = small;
  there = λ u l. (c.pages u (omega arith)).there;
  own = λ u l. (c.pages u (omega arith)).own;
  apart = λ u v l l'. c.apart u v (omega arith) (omega arith);
}

-- The copying has stopped, and the child's directory is given back.
module _ (ke kd : ℕ) (k : Kmem) (pgdir : ℕ) (free : List ℕ) (f : IsFree k free)
    (free_above : (q : ℕ) → mem q free ≡ true → ke ≤ q) (d : ℕ) (k1 : Kmem) (free1 : List ℕ) (j : ℕ)
    (al : j % pgsize ≡ 0) (small : j ≤ kernbase) (c : Copied kd k pgdir free k1 d free1 j) where
  child-IsOwned : IsOwned ke k1 d
  child-IsOwned = record {
    directory = f.frames d c.grown.dir_new;
    directory_above = free_above d c.grown.dir_new;
    tables = λ i l h. f.frames (table k1 d i) (c.grown.tab_new i h);
    tables_above = λ i l h. free_above (table k1 d i) (c.grown.tab_new i h);
  }

  undo : (k2 : Kmem) × (free2 : List ℕ) × (freevm ke d k1 ≡ ok k2) × Released k1 d free1 j k2 free2
  undo =
      freevm-Released ke d j k1 free1
        (Copied-IsUser kd k pgdir free k1 d free1 j j (omega arith) small c)
        (λ u a b. ap present (c.rest u (omega arith) b))
        (λ u l. free_above (frame k1 d u) (c.pages u l).was_free) child-IsOwned

  -- what the child had was free before
  was_free : (q : ℕ) → Held k1 d j q → mem q free ≡ true
  was_free q (page u l e) = ap (λ x. mem x free) e ∙ (c.pages u l).was_free
  was_free q (page_table i l h e) = ap (λ x. mem x free) e ∙ c.grown.tab_new i h
  was_free q (page_directory e) = ap (λ x. mem x free) e ∙ c.grown.dir_new

  Released-Beside :
      (k2 : Kmem) (free2 : List ℕ) → Released k1 d free1 j k2 free2 → Beside k free k2 free2
  Released-Beside k2 free2 r = record {
    chain = r.chain;
    kept = λ q out. r.kept q (out_before q free2 free (within q) out) ∙ c.grown.kept q out;
    within = within;
  }
    where
      within : (q : ℕ) → mem q free2 ≡ true → mem q free ≡ true
      within q m = elim (r.within q m) [ inl m1 ↦ c.grown.within q m1 | inr h ↦ was_free q h ]

-- The copying of `n` pages into a new directory has stopped for want of a page after the addresses below `stopped`, and all that the directory `d` then had is freed.
pub record Undone (kernel_end kernel_data pgdir n : ℕ) (k k' : Kmem) (free' : List ℕ) : Type 0 where
  pub d : ℕ
  pub stopped : ℕ
  pub k0 : Kmem
  pub k1 : Kmem
  pub free1 : List ℕ
  pub made : setupkvm kernel_data k ≡ ok (d, k0)
  pub copied : copy_from pgdir d n 0 k0 ≡ ok (false, k1)
  pub none_left : k1.freelist ≡ 0
  pub held : IsUser k1 d free1 stopped
  pub undone : freevm kernel_end d k1 ≡ ok k'
  pub released : Released k1 d free1 stopped k' free'

-- Let the kernel's data begin on a page between its code and the end of memory, the free list be a chain of different
-- pages above the end of the kernel, and the process have a page for each of its `sz` bytes, at most `kernbase`, where neither these pages nor its
-- directory and tables are free. Then `copyuvm` does not panic, it takes and writes only pages that were free, the free pages are a chain again, and
-- the process has all of its pages as before, none of them free. The result is a new directory in which every page of the process is
-- copied, with its flags and its bytes, into a page of its own that was free; the rest of the user's part is empty, and above it are the regions of
-- `kmap`. Or it is 0: `setupkvm` failed with the free list empty at its end, and the pages that it took are lost; or the copying stopped in the new
-- directory of `setupkvm` with the free list empty, and its `freevm` has freed the pages, the tables and the directory that the child had by then; a page
-- that was taken but could not be mapped is lost.
pub copyuvm-Copied :
    (kernel_end kernel_data pgdir sz : ℕ) (k : Kmem) (free : List ℕ)
    → IsImage kernel_data
    → IsFree k free
    → ((q : ℕ) → mem q free ≡ true → kernel_end ≤ q)
    → IsUser k pgdir free sz
    → (k' : Kmem) × (free' : List ℕ) × Beside k free k' free'
      × IsUser k' pgdir free' sz
      × (((d : ℕ) × ((d == 0) ≡ false)
            × (copyuvm kernel_end kernel_data pgdir sz k ≡ ok (d, k'))
            × Copied kernel_data k pgdir free k' d free' (rounds sz * pgsize)
            × IsUser k' d free' sz)
          ⊎ ((copyuvm kernel_end kernel_data pgdir sz k ≡ ok (0, k'))
              × (((setupkvm kernel_data k ≡ ok (0, k')) × (k'.freelist ≡ 0))
                  ⊎ Undone kernel_end kernel_data pgdir (rounds sz) k k' free')))
copyuvm-Copied ke kd pgdir sz k free image f free_above parent =
    let parent_of = parent-IsUser k pgdir free sz parent in
    let copy : ℕ → Kmem → Result (Bool × Kmem) = λ d. copy_from pgdir d (rounds sz) 0 in
    let steps = copyuvm-child_of ke kd pgdir sz k in
    elim (setupkvm-IsKernelSpace kd k free image f) [
      | inl (k', free', e, z, b) ↦ (
        k',
        free',
        b,
        parent_of k' free' b,
        inr (steps ∙ child_of_none (setupkvm kd k) copy (freevm ke) k' e, inl (e, z)),
      )
      | inr (d, k1, free1, e, s) ↦
          let small = parent.small in
          let nonzero = s.nonzero in
          elim (copy_from-Copied kd k pgdir free sz parent (rounds sz) 0 d k1 free1 refl
            (omega arith) (omega arith) (setupkvm-Copied kd k pgdir free k1 d free1 image s)) [
              | inl (k2, free2, j, h, z, al, l, c) ↦
                  let (k', free', back, r) =
                    undo ke kd k pgdir free f free_above d k2 free2 j al (omega arith) c in
                  let b =
                    Released-Beside ke kd k pgdir free f free_above d k2 free2 j al (omega arith) c
                      k' free' r in
                  (
                    k',
                    free',
                    b,
                    parent_of k' free' b,
                    inr (
                      steps
                          ∙ child_of_undone (setupkvm kd k) copy (freevm ke) d k1 k2 e nonzero k' h
                              back,
                      inr (record {
                        d = d;
                        stopped = j;
                        k0 = k1;
                        k1 = k2;
                        free1 = free2;
                        made = e;
                        copied = h;
                        none_left = z;
                        held =
                            Copied-IsUser kd k pgdir free k2 d free2 j j (omega arith) (omega arith)
                              c;
                        undone = back;
                        released = r;
                      }),
                    ),
                  )
              | inr (k', free', h, c) ↦
                  let b = Grown-Beside c.grown in
                  (
                    k',
                    free',
                    b,
                    parent_of k' free' b,
                    inl (
                      d,
                      nonzero,
                      steps ∙ child_of_copied (setupkvm kd k) copy (freevm ke) d k1 k' e nonzero h,
                      subst (λ x. Copied kd k pgdir free k' d free' x) (omega arith) c,
                      Copied-IsUser kd k pgdir free k' d free' (0 + rounds sz * pgsize) sz
                          (omega arith) small c,
                    ),
                  )
            ]
    ]
