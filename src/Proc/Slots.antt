-- ===== src/Proc/Slots.antt =====
-- The writes of one slot by which a process is born, dies and is buried.
use mathlib.Core.Path.{subst}
use nunix.Prelude.{
  ℕ, ◌<◌, ◌≡◌, ◌≢◌, true, false, none, some, inl, inr, arith, ◌==◌, ==→eq, Bool-cases, update, ap,
  sym, ◌∙◌,
}
use nunix.Proc.Table.{Proc, proc_at, Procs, nproc, is_free, is_zombie, is_some}
use nunix.Proc.Wakeup.{sleeps_on}
use nunix.Proc.Family.{IsFamily, is_alive}

-- A slot that nobody has for a parent is written.
module _ {init : ℕ} {t : Procs} (i : ℕ) (p : Proc) (f : IsFamily init t)
    (childless : (c : ℕ) → c < nproc → (t c).parent ≢ some i) (apart : (i == init) ≡ false) where
  -- What holds of the slot's own entry decides.
  written-IsFamily :
      ((q : ℕ) → p.parent ≡ some q → (q < nproc) × ((i == q) ≡ false) × (is_alive (t q) ≡ true))
      → (is_free p.state ≡ true → p.parent ≡ none)
      → (is_free p.state ≡ false → is_some p.parent ≡ true)
      → ((q : ℕ)
          → p.parent ≡ some q
          → is_zombie p.state ≡ true
          → sleeps_on (proc_at q) (t q) ≡ false)
      → IsFamily init (update t i p)
  written-IsFamily parent orphan adopted calm = record {
    init_slot = f.init_slot;
    init_alive = rw apart f.init_alive;
    init_orphan = rw apart f.init_orphan;
    no_loop = λ c l h. elim (Bool-cases (i == c)) [
      | inl e ↦ absurd (cc ((parent c (rw e at h)).1, e))
      | inr e ↦ f.no_loop c l (rw e at h)
    ];
    adopted = λ c l h a. elim (Bool-cases (i == c)) [
      | inl e ↦ rw e (adopted (rw e at h))
      | inr e ↦ rw e (f.adopted c l (rw e at h) a)
    ];
    parent_slot = λ c q l h. elim (Bool-cases (i == c)) [
      | inl e ↦ (parent q (rw e at h)).0
      | inr e ↦ f.parent_slot c q l (rw e at h)
    ];
    parent_alive = λ c q l h. elim (Bool-cases (i == c)) [
      | inl e ↦ let (s, ne, a) = parent q (rw e at h) in rw ne a
      | inr e ↦
          let h' : (t c).parent ≡ some q = rw e at h in
          rw (stranger c q l h') (f.parent_alive c q l h')
    ];
    orphans = λ c l h. elim (Bool-cases (i == c)) [
      | inl e ↦ rw e (orphan (rw e at h))
      | inr e ↦ rw e (f.orphans c l (rw e at h))
    ];
    attentive = λ c q l h z. elim (Bool-cases (i == c)) [
      | inl e ↦ let h' : p.parent ≡ some q = rw e at h in rw (parent q h').1 (calm q h' (rw e at z))
      | inr e ↦
          let h' : (t c).parent ≡ some q = rw e at h in
          rw (stranger c q l h') (f.attentive c q l h' (rw e at z))
    ];
  }
    where
      stranger : (c q : ℕ) → c < nproc → (t c).parent ≡ some q → (i == q) ≡ false
      stranger c q l h = elim (Bool-cases (i == q)) [
        | inl e ↦ absurd (childless c l (h ∙ ap some (sym (==→eq i q e))))
        | inr e ↦ e
      ]

not_parent_of_dead :
    {init : ℕ} {t : Procs} (i : ℕ)
    → IsFamily init t
    → is_alive (t i) ≡ false
    → (c : ℕ) → c < nproc
    → (t c).parent ≢ some i
not_parent_of_dead i f dead c l h = cc (f.parent_alive c i l h)

pub differ :
    (t : Procs) (i j : ℕ) → is_alive (t i) ≡ false → is_alive (t j) ≡ true → (i == j) ≡ false
differ t i j dead alive = elim (Bool-cases (i == j)) [
  | inl e ↦ absurd (cc (ap (λ k. is_alive (t k)) (==→eq i j e)))
  | inr e ↦ e
]

not_init_of_dead :
    {init : ℕ} {t : Procs} (i : ℕ) → IsFamily init t → is_alive (t i) ≡ false → (i == init) ≡ false
not_init_of_dead {init} {t} i f dead = differ t i init dead f.init_alive

-- A dead process, or a free slot, gives way to a free slot without a parent.
pub bury-IsFamily :
    {init : ℕ} {t : Procs} (i : ℕ) (p : Proc)
    → IsFamily init t
    → is_alive (t i) ≡ false
    → is_free p.state ≡ true
    → p.parent ≡ none
    → IsFamily init (update t i p)
bury-IsFamily i p f dead free orphan =
    written-IsFamily i p f (not_parent_of_dead i f dead) (not_init_of_dead i f dead)
      (λ q h. absurd (cc)) (λ u. orphan) (λ u. absurd (cc)) (λ q h z. absurd (cc))

-- A free slot gets a living child of a living process.
pub birth-IsFamily :
    {init : ℕ} {t : Procs} (i me : ℕ) (p : Proc)
    → IsFamily init t
    → is_alive (t i) ≡ false
    → is_alive p ≡ true
    → p.parent ≡ some me
    → me < nproc
    → is_alive (t me) ≡ true
    → IsFamily init (update t i p)
birth-IsFamily {init} {t} i me p f free alive child l lives =
    written-IsFamily i p f (not_parent_of_dead i f free) (not_init_of_dead i f free)
      (λ q h.
        let m : me ≡ q = ground arith in
        subst (λ x. (x < nproc) × ((i == x) ≡ false) × (is_alive (t x) ≡ true)) m
          (l, differ t i me free lives, lives))
      (λ u. absurd (ground arith)) (λ u. ground arith) (λ q h z. absurd (ground arith))

-- A process that nobody has for a parent dies, and its parent does not sleep in `wait`.
pub die-IsFamily :
    {init : ℕ} {t : Procs} (me : ℕ) (p : Proc)
    → IsFamily init t
    → me < nproc
    → ((c : ℕ) → c < nproc → (t c).parent ≢ some me)
    → (me == init) ≡ false
    → p.parent ≡ (t me).parent
    → is_free (t me).state ≡ false
    → is_free p.state ≡ false
    → ((q : ℕ) → (t me).parent ≡ some q → sleeps_on (proc_at q) (t q) ≡ false)
    → IsFamily init (update t me p)
die-IsFamily {init} {t} me p f l childless apart same was kept calm =
    written-IsFamily me p f childless apart
      (λ q h.
        let h' = sym same ∙ h in
        (f.parent_slot me q l h', not_own_parent q h', f.parent_alive me q l h'))
      (λ u. absurd (cc)) (λ u. ap is_some same ∙ f.adopted me l was apart)
      (λ q h z. calm q (sym same ∙ h))
  where
    not_own_parent : (q : ℕ) → (t me).parent ≡ some q → (me == q) ≡ false
    not_own_parent q h = elim (Bool-cases (me == q)) [
      | inl e ↦ absurd (childless me l (h ∙ ap some (sym (==→eq me q e))))
      | inr e ↦ e
    ]
