-- ===== src/Vm/Copy.antt =====
-- One round of the loop of `copyuvm`: a page of the child.
use nunix.Prelude.{ℕ, ◌/◌, ◌%◌, ◌^◌, ◌≤◌, ◌<◌, ◌≡◌, true, if◌then◌else◌, List, arith, ap, ap₂}
use nunix.Pages.{Kmem, pgsize, kernbase}
use nunix.Vm.{pdx, ptx, pte_flags, present, kmap}
use nunix.Vm.Space.{table, has_table, pte, IsSpace}
use nunix.Vm.Grow.{IsFresh}
use nunix.Vm.Given.{frame, Placed}
use nunix.Vm.Kernel.{Grown, mapped_entry}

-- A directory with a page of its own for each page of the `sz` bytes of a process.
pub record IsUser (k : Kmem) (pgdir : ℕ) (free : List ℕ) (sz : ℕ) : Type 0 where
  pub space : IsSpace k pgdir free
  pub small : sz ≤ kernbase
  pub there : (u : ℕ) → u < sz → present (pte k pgdir u) ≡ true
  pub own : (u : ℕ) → u < sz → IsFresh k pgdir free (frame k pgdir u)
  pub apart :
      (u v : ℕ) → u < sz → v < sz → frame k pgdir u ≡ frame k pgdir v → u / pgsize ≡ v / pgsize

-- The child's page for an address: another page than the parent's, with the same bytes and the same flags.
abbrev pub CopiedPage : Kmem → ℕ → List ℕ → Kmem → ℕ → List ℕ → ℕ → Type 0
CopiedPage k0 pgdir free0 k d free u =
    Placed free0 (pte_flags (pte k0 pgdir u)) (k0.words (frame k0 pgdir u)) k d free u

-- The pages below `i` are copied, each into a page of its own; above it the user's part is empty, and above that stand the kernel's regions.
pub record Copied (kernel_data : ℕ) (k0 : Kmem) (pgdir : ℕ) (free0 : List ℕ) (k : Kmem) (d : ℕ)
    (free : List ℕ) (i : ℕ) : Type 0 where
  pub grown : Grown k0 free0 k d free
  pub pages : (u : ℕ) → u < i → CopiedPage k0 pgdir free0 k d free u
  pub apart : (u v : ℕ) → u < i → v < i → frame k d u ≡ frame k d v → u / pgsize ≡ v / pgsize
  pub rest : (u : ℕ) → i ≤ u → u < kernbase → pte k d u ≡ 0
  pub kernel : (u : ℕ) → kernbase ≤ u → u < 2 ^ 32 → pte k d u ≡ mapped_entry (kmap kernel_data) u 0

pub pte-page : (k : Kmem) (pgdir u v : ℕ) → u / pgsize ≡ v / pgsize → pte k pgdir u ≡ pte k pgdir v
pte-page k pgdir u v e =
    let a : pdx u ≡ pdx v = omega arith in
    let b : ptx u ≡ ptx v = ap (λ x. x % 1024) e in
    ap₂ (λ i j. if has_table k pgdir i then k.words (table k pgdir i) j else 0) a b
