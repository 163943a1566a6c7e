-- ===== src/Vm/Sample.antt =====
-- A process of one page and eighty free pages, which are enough for a copy of it.
use mathlib.Core.Path.{subst}
use nunix.Prelude.{
  ℕ, zero, suc, ◌+◌, none, ◌*◌, ◌%◌, ◌≤◌, ◌<◌, ◌≡◌, ◌⊎◌, refl, true, false, ◌&&◌, ◌==◌, ==→eq, ltb,
  leb, if◌then◌else◌, List, [], ◌∷◌, inl, inr, arith, Bool-cases, ap, sym, ◌∙◌,
}
use nunix.Pages.{Kmem, pgsize, kernbase}
use nunix.Vm.Walk.{pte-absent, pte-there}
use nunix.Pages.FreeList.{mem, Distinct, Linked}
use nunix.Vm.{pdx, ptx, present, p2v, pte_addr}
use nunix.Vm.Given.{frame}
use nunix.Proc.Table.{Proc, running, nowhere}
use nunix.Vm.Space.{has_table, table, pte, IsFrame}
use nunix.Vm.Grow.{IsFresh}
use nunix.Vm.Kernel.{IsFree}
use nunix.Vm.Tables.{IsOwned}
use nunix.Vm.Setup.{IsImage}
use nunix.Vm.Copy.{IsUser, pte-page}

-- `n` pages from `p` on
abbrev pub run : ℕ → ℕ → List ℕ
run zero p = []
run (suc n) p = p ∷ run n (p + pgsize)

run-mem :
    (n p q : ℕ)
    → mem q (run n p) ≡ true
    → (p ≤ q) × (q < p + n * pgsize) × (q % pgsize ≡ p % pgsize)
run-mem zero p q h = absurd (cc h)
run-mem (suc n) p q h = elim (Bool-cases (q == p)) [
  | inl e ↦ let same = ==→eq q p e in (omega arith, omega arith, ap (λ x. x % pgsize) same)
  | inr e ↦
      let later : mem q (run n (p + pgsize)) ≡ true = ground arith in
      let (a, b, c) = run-mem n (p + pgsize) q later in (omega arith, omega arith, omega arith)
]

run-Distinct : (n p : ℕ) → Distinct (run n p)
unfolding Distinct
run-Distinct zero p = record {}
run-Distinct (suc n) p =
    (apart (Bool-cases (mem p (run n (p + pgsize)))), run-Distinct n (p + pgsize))
  where
    apart :
        (mem p (run n (p + pgsize)) ≡ true) ⊎ (mem p (run n (p + pgsize)) ≡ false)
        → mem p (run n (p + pgsize)) ≡ false
    apart (inl h) = let (a, b, c) = run-mem n (p + pgsize) p h in absurd (omega arith)
    apart (inr h) = h

-- Every page but the last has a link to the next.
run-Linked :
    (words : ℕ → ℕ → ℕ) (n p : ℕ)
    → 0 < p
    → ((q : ℕ) → p ≤ q → q < p + n * pgsize → words q 0 ≡ q + pgsize)
    → words (p + n * pgsize) 0 ≡ 0
    → Linked words p (run (suc n) p)
unfolding Linked
run-Linked words zero p positive next last =
    (refl, ground arith, ap (λ x. words x 0) (omega arith) ∙ last)
run-Linked words (suc n) p positive next last = (
  refl,
  ground arith,
  subst (λ x. Linked words x (run (suc n) (p + pgsize))) (sym (next p (omega arith) (omega arith)))
      (run-Linked words n (p + pgsize) (omega arith) (λ q a b. next q (omega arith) (omega arith))
        (ap (λ x. words x 0) (omega arith) ∙ last)),
)

abbrev pub dir : ℕ
dir = 2149580800

abbrev pub first_table : ℕ
first_table = 2149584896

abbrev user_page : ℕ
user_page = 2149588992

abbrev pub first_free : ℕ
first_free = 2149593088

-- The directory has one table, for user addresses, and that has one page.
abbrev pub words : ℕ → ℕ → ℕ
words p i =
    if p == dir
    then (if i == 0 then 2101248 + 7 else 0)
    else if p == first_table
    then (if i == 0 then 2105344 + 7 else 0)
    else if leb first_free p && ltb p (first_free + 79 * pgsize)
    then p + pgsize
    else 0

abbrev pub memory : Kmem
memory = record { freelist = first_free; words = words }

abbrev pub free : List ℕ
free = run 80 first_free

words-next : (q : ℕ) → first_free ≤ q → q < first_free + 79 * pgsize → words q 0 ≡ q + pgsize
words-next q a b = ground arith

free-frames : (p : ℕ) → mem p free ≡ true → IsFrame p
free-frames p h =
    let (a, b, c) = run-mem 80 first_free p h in
    record { aligned = c; above = omega arith; below = omega arith }

pub memory-IsFree : IsFree memory free
memory-IsFree = record {
  linked = run-Linked words 79 first_free (omega arith) words-next refl;
  distinct = run-Distinct 80 first_free;
  frames = free-frames;
}

one_table : (i : ℕ) → has_table memory dir i ≡ true → i ≡ 0
one_table i h = elim (Bool-cases (i == 0)) [
  | inl e ↦ ==→eq i 0 e
  | inr e ↦ absurd (cc (ap (λ b. present (if b then 2101255 else 0)) e, h))
]

pub memory-IsUser : IsUser memory dir free 100
memory-IsUser = record {
  space = record {
    linked = run-Linked words 79 first_free (omega arith) words-next refl;
    distinct = run-Distinct 80 first_free;
    frames = free-frames;
    dir_out = refl;
    tab_out = λ i h. ap (λ x. mem (table memory dir x) free) (one_table i h);
    tab_apart = λ i h e. absurd (omega (arith, sym (ap (table memory dir) (one_table i h)) ∙ e));
    tab_inj = λ i j h h' e. one_table i h ∙ sym (one_table j h');
  };
  small = omega arith;
  there = λ u l. ap present (pte-page memory dir u 0 (omega arith));
  own = λ u l.
      subst (λ w. IsFresh memory dir free (p2v (pte_addr w)))
        (sym (pte-page memory dir u 0 (omega arith)))
        (record {
          frame = record { aligned = refl; above = omega arith; below = omega arith };
          out = refl;
          apart = λ e. absurd (omega (arith, e));
          no_table = λ i h e. absurd (omega (arith, e ∙ ap (table memory dir) (one_table i h)));
        });
  apart = λ u v l l' e. omega arith;
}

-- the addresses `end` and `data`
abbrev pub kernel_end : ℕ
kernel_end = 2149576704

abbrev pub kernel_data : ℕ
kernel_data = 2148564992

pub image : IsImage kernel_data
image = record { aligned = refl; above = omega arith; below = omega arith }

pub free_above : (q : ℕ) → mem q free ≡ true → kernel_end ≤ q
free_above q h = let (a, b, c) = run-mem 80 first_free q h in omega arith

-- above the first page the process has no entry
pub nothing_above : (u : ℕ) → 4096 ≤ u → u < kernbase → present (pte memory dir u) ≡ false
nothing_above u a b = elim (Bool-cases (has_table memory dir (pdx u))) [
  | inr h ↦ ap present (pte-absent memory dir u h)
  | inl h ↦
      let i : pdx u ≡ 0 = one_table (pdx u) h in
      let j : (ptx u == 0) ≡ false = ground (arith, i) in
      let empty : words (table memory dir 0) (ptx u) ≡ 0 = rw j refl in
      ap present (pte-there memory dir u h ∙ ap (λ x. words (table memory dir x) (ptx u)) i ∙ empty)
]

pub page_above : (u : ℕ) → u < 100 → kernel_end ≤ frame memory dir u
page_above u l =
    subst (λ w. kernel_end ≤ p2v (pte_addr w)) (sym (pte-page memory dir u 0 (omega arith)))
      (let above : kernel_end ≤ p2v (pte_addr (pte memory dir 0)) = omega arith in above)

table_frame : IsFrame first_table
table_frame = record { aligned = refl; above = omega arith; below = omega arith }

pub memory-IsOwned : IsOwned kernel_end memory dir
memory-IsOwned = record {
  directory = record { aligned = refl; above = omega arith; below = omega arith };
  directory_above = omega arith;
  tables = λ i l h. subst IsFrame (sym (ap (table memory dir) (one_table i h))) table_frame;
  tables_above = λ i l h.
      subst (λ q. kernel_end ≤ q) (sym (ap (table memory dir) (one_table i h))) (omega arith);
}

abbrev pub a_process : Proc
a_process = record {
  sz = 100;
  pgdir = dir;
  kstack = 0;
  state = running;
  pid = 1;
  parent = none;
  tf = λ i. 0;
  context = λ i. 0;
  returns_to = 0;
  chan = nowhere;
  killed = false;
  ofile = λ i. 0;
  cwd = 0;
  name = [];
  trace_flag = false;
  total_sys_call = 0;
}
