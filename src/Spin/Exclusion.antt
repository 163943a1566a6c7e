-- ===== src/Spin/Exclusion.antt =====
-- One processor at most has the lock, in every interleaving of their steps.
use mathlib.Core.Path.{subst}
use nunix.Prelude.{
  ℕ, ◌≡◌, refl, true, false, ◌==◌, ==→eq, inl, inr, arith, ap, sym, ◌∙◌, Bool-cases, update, none,
  Result, ok, panic, ◌>>=◌,
}
use nunix.Spin.Steps.{
  Place, outside, spinning, entering, inside, leaving, is_outside, is_inside, is_leaving, owns,
  System, Step, begun, spun, took, entered, left, freed, pushed, popped, switched, restored, Reach,
  start, step, started,
}
use nunix.Spin.Masks.{leaving-popcli}
use nunix.Spin.{
  Spinlock, Cpu, initlock, acquire_begin, xchg, release_begin, release_end, holding, is_cpu,
  pushcli, popcli,
}

pub record IsExclusive (lk : Spinlock) (place : ℕ → Place) : Type 0 where
  pub one : (c d : ℕ) → owns (place c) ≡ true → owns (place d) ≡ true → c ≡ d
  pub taken : (c : ℕ) → owns (place c) ≡ true → lk.locked ≡ true
  pub recorded : (c : ℕ) → is_inside (place c) ≡ true → is_cpu lk.cpu c ≡ true
  pub named : (c : ℕ) → is_cpu lk.cpu c ≡ true → is_inside (place c) ≡ true

-- The processor that has the lock goes on to another place.
moved-IsExclusive :
    (lk lk' : Spinlock) (place : ℕ → Place) (me : ℕ) (p : Place)
    → IsExclusive lk place
    → ((c : ℕ) → (me == c) ≡ false → owns (place c) ≡ false)
    → (owns p ≡ true → lk'.locked ≡ true)
    → (is_inside p ≡ true → is_cpu lk'.cpu me ≡ true)
    → ((c : ℕ) → is_cpu lk'.cpu c ≡ true → ((me == c) ≡ true) × (is_inside p ≡ true))
    → IsExclusive lk' (update place me p)
moved-IsExclusive lk lk' place me p e alone taken recorded named = record {
  one = λ c d h k. sym (==→eq me c (mine c h)) ∙ ==→eq me d (mine d k);
  taken = λ c h. taken (rw (mine c h) at h);
  recorded = λ c h.
      subst (λ j. is_cpu lk'.cpu j ≡ true) (==→eq me c (mine c (inside_owns c h)))
        (recorded (rw (mine c (inside_owns c h)) at h));
  named = λ c h. let (y, i) = named c h in rw y i;
}
  where
    mine : (c : ℕ) → owns (update place me p c) ≡ true → (me == c) ≡ true
    mine c h = elim (Bool-cases (me == c)) [
      | inl y ↦ y
      | inr y ↦ absurd (cc (alone c y, rw y at h))
    ]

    inside_owns :
        (c : ℕ) → is_inside (update place me p c) ≡ true → owns (update place me p c) ≡ true
    inside_owns c h = ground arith

-- A processor that does not have the lock goes on to another place without it.
idle-IsExclusive :
    (lk : Spinlock) (place : ℕ → Place) (me : ℕ) (p : Place)
    → IsExclusive lk place
    → owns (place me) ≡ false
    → owns p ≡ false
    → IsExclusive lk (update place me p)
idle-IsExclusive lk place me p e before after = record {
  one = λ c d h k. e.one c d (still c h) (still d k);
  taken = λ c h. e.taken c (still c h);
  recorded = λ c h. elim (Bool-cases (me == c)) [
    | inl y ↦ absurd (ground arith)
    | inr y ↦ e.recorded c (rw y at h)
  ];
  named = λ c h. elim (Bool-cases (me == c)) [
    | inl y ↦ absurd (ground (arith, e.named c h, ap (λ j. owns (place j)) (==→eq me c y)))
    | inr y ↦ rw y (e.named c h)
  ];
}
  where
    still : (c : ℕ) → owns (update place me p c) ≡ true → owns (place c) ≡ true
    still c h = elim (Bool-cases (me == c)) [ inl y ↦ absurd (ground arith) | inr y ↦ rw y at h ]

-- While `me` has the lock no other processor has it.
others_wait :
    {lk : Spinlock} {place : ℕ → Place} (me : ℕ)
    → IsExclusive lk place
    → owns (place me) ≡ true
    → (c : ℕ) → (me == c) ≡ false
    → owns (place c) ≡ false
others_wait {place} me e mine c other = elim (Bool-cases (owns (place c))) [
  | inl y ↦ absurd (ground (arith, e.one me c mine y))
  | inr y ↦ y
]

-- What `release` finds and leaves before its `xchg`.
release_begin-ok :
    (me : ℕ) (lk lk' : Spinlock)
    → release_begin me lk ≡ ok lk'
    → (lk'.locked ≡ lk.locked) × (lk'.cpu ≡ none)
unfolding release_begin
release_begin-ok me lk lk' h = elim (Bool-cases (holding me lk)) [
  | inl y ↦ ground arith
  | inr y ↦ absurd (ground arith)
]

release_end-ok :
    (lk lk' : Spinlock) (c c' : Cpu) → release_end lk c ≡ ok (lk', c') → (xchg false lk).1 ≡ lk'
unfolding release_end
release_end-ok lk lk' c c' h = freed_lock (popcli c) h
  where
    freed_lock :
        (r : Result Cpu)
        → ◌>>=◌ {B = Spinlock × Cpu} r (λ k. ok ((xchg false lk).1, k)) ≡ ok (lk', c')
        → (xchg false lk).1 ≡ lk'
    freed_lock (ok k) h = ground arith
    freed_lock (panic m) h = absurd (cc h)

step-IsExclusive :
    {a b : System} → Step a b → IsExclusive a.lock a.place → IsExclusive b.lock b.place
step-IsExclusive {a} (begun me k o h) e =
    idle-IsExclusive a.lock a.place me spinning e (ground arith) refl
step-IsExclusive (spun me o h) e = record {
  one = e.one;
  taken = λ c h. refl;
  recorded = e.recorded;
  named = e.named;
}
step-IsExclusive {a} (took me o h) e =
    moved-IsExclusive a.lock _ a.place me entering e (λ c other. unowned c) (λ y. refl)
      (λ i. absurd (cc i)) (λ c y. absurd (ground (arith, unowned c, e.named c y)))
  where
    unowned : (c : ℕ) → owns (a.place c) ≡ false
    unowned c = elim (Bool-cases (owns (a.place c))) [
      | inl y ↦ absurd (cc (e.taken c y, h))
      | inr y ↦ y
    ]
step-IsExclusive {a} (entered me o) e =
    moved-IsExclusive a.lock _ a.place me inside e (others_wait me e (ap owns o))
      (λ y. e.taken me (ap owns o)) (λ i. ground arith) (λ c y. (y, refl))
step-IsExclusive {a} (left me lk o h) e =
    let mine : owns (a.place me) ≡ true = ground arith in
    let (same, gone) = release_begin-ok me a.lock lk h in
    moved-IsExclusive a.lock lk a.place me leaving e (others_wait me e mine)
      (λ y. same ∙ e.taken me mine) (λ i. absurd (cc i)) (λ c y. absurd (ground (arith, gone)))
step-IsExclusive {a} (freed me lk k o h) e =
    subst (λ l. IsExclusive l (update a.place me outside))
      (release_end-ok a.lock lk (a.cpus me) k h)
      (moved-IsExclusive a.lock _ a.place me outside e (others_wait me e (ap owns o))
        (λ y. absurd (cc y)) (λ i. absurd (cc i))
        (λ c y. absurd (
          ground (
            arith,
            o,
            e.named c y,
            ap a.place (e.one me c (ap owns o) (ground (arith, e.named c y))),
          ))))
step-IsExclusive (pushed me) e = e
step-IsExclusive (popped me k l h) e = e
step-IsExclusive (switched me on z) e = e
step-IsExclusive (restored me on) e = e

started-IsExclusive : IsExclusive initlock (λ c. outside)
started-IsExclusive = record {
  one = λ c d h k. absurd (cc h);
  taken = λ c h. absurd (cc h);
  recorded = λ c h. absurd (cc h);
  named = λ c h. absurd (cc h);
}

pub reach-IsExclusive :
    {a b : System} → Reach a b → IsExclusive a.lock a.place → IsExclusive b.lock b.place
reach-IsExclusive start e = e
reach-IsExclusive (step r s) e = step-IsExclusive s (reach-IsExclusive r e)

-- Let every processor start without open calls of `pushcli`, and close for other locks only those that it opened for them. In every state that processors
-- reach by interleaving the steps of `acquire` and `release` with these, at most one of them has the lock, from the `xchg`
-- that takes it to the one that gives it back; neither half of `release` panics in a processor that is past `acquire`, and gives the lock back, nor
-- does `acquire` panic in one that is past `release`.
pub mutual_exclusion :
    (cpus : ℕ → Cpu) (s : System) (c d : ℕ)
    → ((b : ℕ) → (cpus b).ncli ≡ 0)
    → Reach (started cpus) s
    → (owns (s.place c) ≡ true → owns (s.place d) ≡ true → c ≡ d)
      × (is_inside (s.place c) ≡ true → release_begin c s.lock ≡ ok (record s.lock { cpu = none }))
      × (is_leaving (s.place c) ≡ true
          → (k : Cpu) × (release_end s.lock (s.cpus c) ≡ ok (record s.lock { locked = false }, k)))
      × (is_outside (s.place c) ≡ true
          → acquire_begin c s.lock (s.cpus c) ≡ ok (pushcli (s.cpus c)))
unfolding release_begin release_end acquire_begin
mutual_exclusion cpus s c d fresh r =
    let e = reach-IsExclusive r started-IsExclusive in
    (
      e.one c d,
      λ i. let h : holding c s.lock ≡ true = ground (arith, e.taken c, e.recorded c i) in rw h,
      λ i. let (k, h) = leaving-popcli cpus s c fresh r i in (k, rw h refl),
      λ o. let h : holding c s.lock ≡ false = not_named c e o in rw h,
    )
  where
    not_named :
        (c : ℕ)
        → IsExclusive s.lock s.place
        → is_outside (s.place c) ≡ true
        → holding c s.lock ≡ false
    not_named c e o = elim (Bool-cases (is_cpu s.lock.cpu c)) [
      | inl y ↦ absurd (ground (arith, e.named c y))
      | inr y ↦ ground arith
    ]
