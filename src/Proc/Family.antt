-- ===== src/Proc/Family.antt =====
-- Parents and children in the process table: no process is left without a living parent, and no
-- parent sleeps in `wait` over a dead child.
use mathlib.Core.Path.{subst}
use nunix.Prelude.{
  ℕ, ◌<◌, ◌≡◌, ◌≢◌, refl, Bool, true, false, ◌&&◌, not, none, some, inl, inr, arith, ◌==◌, ltb,
  ==→eq, Bool-cases, update, ap, sym, ◌∙◌,
}
use nunix.Proc.Table.{Proc, Chan, proc_at, Procs, nproc, is_free, is_zombie, is_sleeping, is_some}
use nunix.Proc.Wakeup.{sleeps_on, woken, wakeup1_lem}
use nunix.Proc.{wakeup1}

abbrev pub is_alive : Proc → Bool
is_alive p = not (is_free p.state) && not (is_zombie p.state)

pub record IsFamily (init : ℕ) (t : Procs) : Type 0 where
  pub init_slot : init < nproc
  pub init_alive : is_alive (t init) ≡ true
  pub init_orphan : (t init).parent ≡ none
  pub no_loop : (c : ℕ) → c < nproc → (t c).parent ≢ some c
  pub adopted :
      (c : ℕ)
      → c < nproc
      → is_free (t c).state ≡ false
      → (c == init) ≡ false
      → is_some (t c).parent ≡ true
  pub parent_slot : (c q : ℕ) → c < nproc → (t c).parent ≡ some q → q < nproc
  pub parent_alive : (c q : ℕ) → c < nproc → (t c).parent ≡ some q → is_alive (t q) ≡ true
  -- an empty slot and a child in the making have no parent
  pub orphans : (c : ℕ) → c < nproc → is_free (t c).state ≡ true → (t c).parent ≡ none
  pub attentive :
      (c q : ℕ)
      → c < nproc
      → (t c).parent ≡ some q
      → is_zombie (t c).state ≡ true
      → sleeps_on (proc_at q) (t q) ≡ false

-- Slot `i` holds `q` in the place of `p`, which is as much alive or dead, has the same parent, and does
-- not begin to sleep on itself.
pub record Eased (i : ℕ) (p q : Proc) : Type 0 where
  pub same_parent : q.parent ≡ p.parent
  pub same_free : is_free q.state ≡ is_free p.state
  pub same_zombie : is_zombie q.state ≡ is_zombie p.state
  pub calmer : sleeps_on (proc_at i) p ≡ false → sleeps_on (proc_at i) q ≡ false

pub Eased-IsFamily :
    {init : ℕ} {t u : Procs} → ((i : ℕ) → Eased i (t i) (u i)) → IsFamily init t → IsFamily init u
Eased-IsFamily {init} {t} {u} e f = record {
  init_slot = f.init_slot;
  init_alive = ground (arith, e init, f.init_alive);
  init_orphan = (e init).same_parent ∙ f.init_orphan;
  no_loop = λ c l h. f.no_loop c l (sym (e c).same_parent ∙ h);
  adopted = λ c l h a. ground (arith, e c, f.adopted c l);
  parent_slot = λ c q l h. f.parent_slot c q l (sym (e c).same_parent ∙ h);
  parent_alive = λ c q l h. ground (arith, e q, f.parent_alive c q l (sym (e c).same_parent ∙ h));
  orphans = λ c l h. ground (arith, e c, f.orphans c l);
  attentive = λ c q l h z.
      (e q).calmer (f.attentive c q l (sym (e c).same_parent ∙ h) (sym (e c).same_zombie ∙ z));
}

self-Eased : (i : ℕ) (p : Proc) → Eased i p p
self-Eased i p = record {
  same_parent = refl;
  same_free = refl;
  same_zombie = refl;
  calmer = λ h. h;
}

sleeping-Eased : (i : ℕ) (p : Proc) → is_sleeping p.state ≡ true → Eased i p (woken p)
sleeping-Eased i p h = record {
  same_parent = refl;
  same_free = ground arith;
  same_zombie = ground arith;
  calmer = λ c. refl;
}

pub wakeup1-Eased : (c : Chan) (t : Procs) (i : ℕ) → Eased i (t i) (wakeup1 c t i)
wakeup1-Eased c t i =
    subst (Eased i (t i)) (sym (wakeup1_lem c t i)) (elim (Bool-cases (ltb i nproc)) [
      | inl l ↦ rw l (elim (Bool-cases (sleeps_on c (t i))) [
        | inl h ↦ rw h (sleeping-Eased i (t i) (ground arith))
        | inr h ↦ rw h (self-Eased i (t i))
      ])
      | inr l ↦ rw l (self-Eased i (t i))
    ])

pub update-parent :
    (t : Procs) (me : ℕ) (p : Proc)
    → p.parent ≡ (t me).parent
    → (c : ℕ) → (t c).parent ≡ (update t me p c).parent
update-parent t me p same c = elim (Bool-cases (me == c)) [
  | inl e ↦ rw e (sym (same ∙ ap (λ j. (t j).parent) (==→eq me c e)))
  | inr e ↦ rw e
]

-- A dead slot is not one that is written with a living process.
dead_elsewhere :
    (t : Procs) (me c : ℕ) (p : Proc)
    → is_alive p ≡ true
    → is_zombie (update t me p c).state ≡ true
    → is_zombie (t c).state ≡ true
dead_elsewhere t me c p alive z = elim (Bool-cases (me == c)) [
  | inl e ↦ absurd (ground arith)
  | inr e ↦ rw e at z
]

free_as_before :
    (t : Procs) (me c : ℕ) (p : Proc)
    → is_free (t me).state ≡ false
    → is_free (update t me p c).state ≡ false
    → is_free (t c).state ≡ false
free_as_before t me c p was h = elim (Bool-cases (me == c)) [
  | inl e ↦ ap (λ j. is_free (t j).state) (sym (==→eq me c e)) ∙ was
  | inr e ↦ rw e at h
]

-- A write to the slot of a living process that stays alive and keeps its parent.
pub slot-IsFamily :
    {init : ℕ} {t : Procs} (me : ℕ) (p : Proc)
    → IsFamily init t
    → is_free (t me).state ≡ false
    → is_alive p ≡ true
    → p.parent ≡ (t me).parent
    → ((c : ℕ)
        → c < nproc
        → (t c).parent ≡ some me
        → is_zombie (t c).state ≡ true
        → sleeps_on (proc_at me) p ≡ false)
    → IsFamily init (update t me p)
slot-IsFamily {init} {t} me p f was alive same calm = record {
  init_slot = f.init_slot;
  init_alive = ground (arith, f.init_alive);
  init_orphan = sym (update-parent t me p same init) ∙ f.init_orphan;
  no_loop = λ c l h. f.no_loop c l (update-parent t me p same c ∙ h);
  adopted = λ c l h a.
      ap is_some (sym (update-parent t me p same c))
      ∙ f.adopted c l (free_as_before t me c p was h) a;
  parent_slot = λ c q l h. f.parent_slot c q l (update-parent t me p same c ∙ h);
  parent_alive = λ c q l h. elim (Bool-cases (me == q)) [
    | inl e ↦ rw e alive
    | inr e ↦ rw e (f.parent_alive c q l (update-parent t me p same c ∙ h))
  ];
  orphans = λ c l h. elim (Bool-cases (me == c)) [
    | inl e ↦ absurd (ground arith)
    | inr e ↦ rw e (f.orphans c l (rw e at h))
  ];
  attentive = λ c q l h z.
      let h' = update-parent t me p same c ∙ h in
      let z' = dead_elsewhere t me c p alive z in
      elim (Bool-cases (me == q)) [
        | inl e ↦ let m = ==→eq me q e in rw (e, ← m) (calm c l (h' ∙ ap some (sym m)) z')
        | inr e ↦ rw e (f.attentive c q l h' z')
      ];
}
