-- ===== src/Proc/Exit.antt =====
-- `exit`: the children go to `init`, both parents are awake, and the process is dead.
use mathlib.Core.Path.{subst}
use nunix.Prelude.{
  ℕ, suc, ◌<◌, ◌≡◌, ◌≢◌, refl, true, false, ◌&&◌, some, inl, inr, arith, ◌==◌, ==→eq, ltb, lt→ltb,
  if◌then◌else◌, Bool-cases, update, ap, sym, ◌∙◌, for_upto_inv, ◌⊎◌,
}
use nunix.Proc.Table.{Proc, Chan, proc_at, Procs, nproc, is_free, is_zombie, is_parent}
use nunix.Proc.Wakeup.{sleeps_on, wakeup1_lem}
use nunix.Proc.Family.{IsFamily, is_alive, wakeup1-Eased}
use nunix.Proc.{wakeup1, abandon}

-- After `wakeup1` nobody in the table sleeps on the channel.
pub wakeup1_wakes : (c : Chan) (t : Procs) (i : ℕ) → i < nproc → sleeps_on c (wakeup1 c t i) ≡ false
wakeup1_wakes c t i l =
    rw (wakeup1_lem c t i, lt→ltb i nproc l)
      (elim (Bool-cases (sleeps_on c (t i))) [ inl h ↦ rw h | inr h ↦ rw h h ])

module _ (me init : ℕ) (t : Procs) where
  abbrev round : ℕ → Procs → Procs
  round i u =
      if is_parent (u i).parent me
      then (let v = update u i (record (u i) { parent = some init }) in
          if is_zombie (u i).state then wakeup1 (proc_at init) v else v)
      else u

  -- what `k` rounds of the loop of `exit` keep of each slot
  pub record Kept (k : ℕ) (u : Procs) : Type 0 where
    pub parent :
        (i : ℕ)
        → (u i).parent ≡ (if ltb i k && is_parent (t i).parent me then some init else (t i).parent)
    pub same_free : (i : ℕ) → is_free (u i).state ≡ is_free (t i).state
    pub same_zombie : (i : ℕ) → is_zombie (u i).state ≡ is_zombie (t i).state
    pub calmer : (i : ℕ) → sleeps_on (proc_at i) (t i) ≡ false → sleeps_on (proc_at i) (u i) ≡ false

  -- a dead child among the first `k` slots keeps `init` awake
  abbrev pub Attended : ℕ → Procs → Type 0
  Attended k u =
      (c : ℕ)
      → c < k
      → is_parent (t c).parent me ≡ true
      → is_zombie (t c).state ≡ true
      → sleeps_on (proc_at init) (u init) ≡ false

  wake-Kept : (k : ℕ) (u : Procs) (c : Chan) → Kept k u → Kept k (wakeup1 c u)
  wake-Kept k u c a = record {
    parent = λ i. (wakeup1-Eased c u i).same_parent ∙ a.parent i;
    same_free = λ i. (wakeup1-Eased c u i).same_free ∙ a.same_free i;
    same_zombie = λ i. (wakeup1-Eased c u i).same_zombie ∙ a.same_zombie i;
    calmer = λ i h. (wakeup1-Eased c u i).calmer (a.calmer i h);
  }

  not_reached : (k : ℕ) (u : Procs) → Kept k u → (u k).parent ≡ (t k).parent
  not_reached k u a = a.parent k ∙ ground arith

  -- A slot whose parent is another process is passed over.
  pass-Kept : (k : ℕ) (u : Procs) → is_parent (t k).parent me ≡ false → Kept k u → Kept (suc k) u
  pass-Kept k u other a = record {
    parent = λ i. a.parent i ∙ elim (Bool-cases (k == i)) [
      | inl e ↦ ground (arith, ap (λ j. is_parent (t j).parent me) (==→eq k i e))
      | inr e ↦ ground arith
    ];
    same_free = a.same_free;
    same_zombie = a.same_zombie;
    calmer = a.calmer;
  }

  abbrev given : ℕ → Procs → Procs
  given k u = update u k (record (u k) { parent = some init })

  same_given :
      {B : Type 0} (k : ℕ) (u : Procs) (g : Proc → B)
      → ((p : Proc) → g (record p { parent = some init }) ≡ g p)
      → (i : ℕ) → g (given k u i) ≡ g (u i)
  same_given k u g h i = elim (Bool-cases (k == i)) [
    | inl e ↦ rw e (h (u k) ∙ ap (λ j. g (u j)) (==→eq k i e))
    | inr e ↦ rw e
  ]

  -- A child is passed to `init`.
  give-Kept :
      (k : ℕ) (u : Procs) → is_parent (t k).parent me ≡ true → Kept k u → Kept (suc k) (given k u)
  give-Kept k u mine a = record {
    parent = λ i. elim (Bool-cases (k == i)) [
      | inl e ↦ rw e (ground (arith, ap (λ j. is_parent (t j).parent me) (==→eq k i e)))
      | inr e ↦ rw e (a.parent i ∙ ground arith)
    ];
    same_free = λ i. same_given k u (λ p. is_free p.state) (λ p. refl) i ∙ a.same_free i;
    same_zombie = λ i. same_given k u (λ p. is_zombie p.state) (λ p. refl) i ∙ a.same_zombie i;
    calmer = λ i h. same_given k u (sleeps_on (proc_at i)) (λ p. refl) i ∙ a.calmer i h;
  }

  abbrev pub Abandoned : ℕ → Procs → Type 0
  Abandoned k u = Kept k u × Attended k u

  strictly_before : (k c : ℕ) → c < suc k → k ≢ c → c < k
  strictly_before k c l apart = ground arith

  round-Abandoned :
      (k : ℕ) (u : Procs) → init < nproc → Abandoned k u → Abandoned (suc k) (round k u)
  round-Abandoned k u init_in (a, w) =
      rw (not_reached k u a) (elim (Bool-cases (is_parent (t k).parent me)) [
        | inr other ↦ rw other (
          pass-Kept k u other a,
          λ c l p z.
              w c (strictly_before k c l λ e. cc (ap (λ j. is_parent (t j).parent me) e)) p z,
        )
        | inl mine ↦ rw mine (elim (Bool-cases (is_zombie (u k).state)) [
          | inl dead ↦ rw dead (
            wake-Kept (suc k) (given k u) (proc_at init) (give-Kept k u mine a),
            λ c l p z. wakeup1_wakes (proc_at init) (given k u) init init_in,
          )
          | inr living ↦ rw living (
            give-Kept k u mine a,
            λ c l p z.
                same_given k u (sleeps_on (proc_at init)) (λ p. refl) init
                ∙ w c
                    (strictly_before k c l
                      λ e. cc (a.same_zombie k, ap (λ j. is_zombie (t j).state) e))
                    p z,
          )
        ])
      ])

  pub abandon-Abandoned : init < nproc → Abandoned nproc (abandon me init t)
  unfolding abandon
  abandon-Abandoned init_in =
      for_upto_inv Abandoned round nproc (λ i u l. round-Abandoned i u init_in) t
        (
          record {
            parent = λ i. ground arith;
            same_free = λ i. refl;
            same_zombie = λ i. refl;
            calmer = λ i h. h;
          },
          λ c l. absurd (ground arith),
        )

  -- When nobody is its own parent and `init` has none, the loop keeps the family, and the children of `me` are gone.
  module _ (f : IsFamily init t) (apart : (me == init) ≡ false) where
    parent_after :
        (u : Procs) (c q : ℕ)
        → Kept nproc u
        → c < nproc
        → (u c).parent ≡ some q
        → ((is_parent (t c).parent me ≡ true) × (q ≡ init))
          ⊎ ((is_parent (t c).parent me ≡ false) × ((t c).parent ≡ some q))
    parent_after u c q a l h = elim (Bool-cases (is_parent (t c).parent me)) [
      | inl m ↦ inl (m, ground (arith, a.parent c))
      | inr m ↦ inr (m, ground (arith, a.parent c))
    ]

    same_alive : (u : Procs) → Kept nproc u → (i : ℕ) → is_alive (u i) ≡ is_alive (t i)
    same_alive u a i = rw (a.same_free i, a.same_zombie i)

    Abandoned-IsFamily : (u : Procs) → Abandoned nproc u → IsFamily init u
    Abandoned-IsFamily u (a, w) = record {
      init_slot = f.init_slot;
      init_alive = same_alive u a init ∙ f.init_alive;
      init_orphan = ground (arith, a.parent init, f.init_orphan);
      no_loop = λ c l h. elim (parent_after u c c a l h) [
        | inl (m, e) ↦ absurd (ground (arith, ap (λ j. is_parent (t j).parent me) e, f.init_orphan))
        | inr (m, e) ↦ f.no_loop c l e
      ];
      adopted =
          λ c l h other. ground (arith, a.parent c, f.adopted c l (sym (a.same_free c) ∙ h) other);
      parent_slot = λ c q l h. elim (parent_after u c q a l h) [
        | inl (m, e) ↦ subst (λ j. j < nproc) (sym e) f.init_slot
        | inr (m, e) ↦ f.parent_slot c q l e
      ];
      parent_alive = λ c q l h. same_alive u a q ∙ elim (parent_after u c q a l h) [
        | inl (m, e) ↦ ap (λ j. is_alive (t j)) e ∙ f.init_alive
        | inr (m, e) ↦ f.parent_alive c q l e
      ];
      orphans = λ c l h. ground (arith, a.parent c, f.orphans c l (sym (a.same_free c) ∙ h));
      attentive = λ c q l h z. elim (parent_after u c q a l h) [
        | inl (m, e) ↦
            subst (λ j. sleeps_on (proc_at j) (u j) ≡ false) (sym e)
              (w c l m (sym (a.same_zombie c) ∙ z))
        | inr (m, e) ↦ a.calmer q (f.attentive c q l e (sym (a.same_zombie c) ∙ z))
      ];
    }

    pub childless : (u : Procs) → Kept nproc u → (c : ℕ) → c < nproc → (u c).parent ≢ some me
    childless u a c l h = elim (parent_after u c me a l h) [
      | inl (m, e) ↦ absurd (ground arith)
      | inr (m, e) ↦ absurd (ground arith)
    ]

    -- What the loop leaves is a family in which nobody has `me` for a parent, and the parent of `me` does not begin to sleep on itself.
    pub abandon-IsFamily : IsFamily init (abandon me init t)
    abandon-IsFamily = Abandoned-IsFamily (abandon me init t) (abandon-Abandoned f.init_slot)

    pub abandon-calm :
        (q : ℕ) → me < nproc → (abandon me init t me).parent ≡ some q → (t me).parent ≡ some q
    abandon-calm q l h =
        elim (parent_after (abandon me init t) me q (abandon-Abandoned f.init_slot).0 l h) [
          | inl (m, e) ↦ absurd (f.no_loop me l (ground arith))
          | inr (m, e) ↦ e
        ]
