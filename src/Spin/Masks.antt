-- ===== src/Spin/Masks.antt =====
-- The calls of `pushcli` that are open on a processor: those for other locks, and one from `acquire` to the end of `release`.
use mathlib.Core.Path.{subst}
use nunix.Prelude.{
  ℕ, ◌+◌, ◌-◌, ◌<◌, ◌≡◌, refl, true, false, ◌&&◌, ◌==◌, ==→eq, if◌then◌else◌, inl, inr, arith, ap,
  sym, ◌∙◌, Bool-cases, update, Result, ok, panic, ◌>>=◌, ok-inj,
}
use nunix.Spin.{Spinlock, Cpu, acquire_begin, release_end, xchg, holding, pushcli, popcli}
use nunix.Spin.Steps.{
  Place, outside, spinning, entering, inside, leaving, is_outside, is_leaving, System, Step, begun,
  spun, took, entered, left, freed, pushed, popped, switched, restored, Reach, start, step, started,
}

abbrev mine : Place → ℕ
mine p = if is_outside p then 0 else 1

-- The count, and interrupts off while it is not 0.
record IsMasked (k : Cpu) (open_calls : ℕ) : Type 0 where
  count : k.ncli ≡ open_calls
  off : 0 < open_calls → k.interrupts ≡ false

abbrev AllMasked : System → Type 0
AllMasked s = (c : ℕ) → IsMasked (s.cpus c) (s.others c + mine (s.place c))

pushcli-IsMasked : (k : Cpu) (n : ℕ) → IsMasked k n → IsMasked (pushcli k) (n + 1)
unfolding pushcli
pushcli-IsMasked k n m = record { count = ground (arith, m.count); off = λ l. refl }

popcli-ok :
    (k : Cpu) (n : ℕ)
    → IsMasked k n
    → 0 < n
    → popcli k ≡ ok (record k { ncli = k.ncli - 1; interrupts = (k.ncli - 1 == 0) && k.intena })
unfolding popcli
popcli-ok k n m l =
    let some_open : (k.ncli == 0) ≡ false = ground (arith, m.count) in
    let off = m.off l in rw (popcli, off, some_open) refl

popcli-IsMasked :
    (k k' : Cpu) (n : ℕ) → IsMasked k n → 0 < n → popcli k ≡ ok k' → IsMasked k' (n - 1)
popcli-IsMasked k k' n m l h =
    subst (λ x. IsMasked x (n - 1)) (ok-inj (sym (popcli-ok k n m l) ∙ h))
      (record { count = ground (arith, m.count); off = λ p. ground (arith, m.count) })

acquire_begin-ok :
    (me : ℕ) (lk : Spinlock) (k k' : Cpu) → acquire_begin me lk k ≡ ok k' → pushcli k ≡ k'
unfolding acquire_begin
acquire_begin-ok me lk k k' h = elim (Bool-cases (holding me lk)) [
  | inl e ↦ absurd (cc (rw e at h))
  | inr e ↦ ok-inj (rw e at h)
]

release_end-popcli :
    (lk lk' : Spinlock) (k k' : Cpu) → release_end lk k ≡ ok (lk', k') → popcli k ≡ ok k'
unfolding release_end
release_end-popcli lk lk' k k' h = of_bind (popcli k) h
  where
    of_bind :
        (r : Result Cpu)
        → ◌>>=◌ {B = Spinlock × Cpu} r (λ x. ok ((xchg false lk).1, x)) ≡ ok (lk', k')
        → r ≡ ok k'
    of_bind (ok x) h = ap (λ p. ok p.1) (ok-inj h)
    of_bind (panic m) h = absurd (cc h)

-- One processor goes on: its count changes with what it has open.
moved-AllMasked :
    (cpus : ℕ → Cpu) (place : ℕ → Place) (others : ℕ → ℕ) (me : ℕ) (k : Cpu) (p : Place) (n : ℕ)
    → ((c : ℕ) → IsMasked (cpus c) (others c + mine (place c)))
    → IsMasked k (n + mine p)
    → (c : ℕ) → IsMasked (update cpus me k c) (update others me n c + mine (update place me p c))
moved-AllMasked cpus place others me k p n all here c = elim (Bool-cases (me == c)) [
  | inl e ↦ rw e here
  | inr e ↦ rw e (all c)
]

-- The same where the processor, the place or the calls for other locks stay.
stay : {A : Type 0} (f : ℕ → A) (me c : ℕ) → update f me (f me) c ≡ f c
stay f me c = elim (Bool-cases (me == c)) [ inl e ↦ rw e (ap f (==→eq me c e)) | inr e ↦ rw e refl ]

-- A processor that goes on from one place to another with as much open.
same_mine :
    (a : System) (me : ℕ) (p : Place)
    → mine (a.place me) ≡ mine p
    → AllMasked a
    → (c : ℕ) → IsMasked (a.cpus c) (a.others c + mine (update a.place me p c))
same_mine a me p e all c = elim (Bool-cases (me == c)) [
  | inl y ↦
      subst (λ n. IsMasked (a.cpus c) (a.others c + n))
        (ap (λ j. mine (a.place j)) (sym (==→eq me c y)) ∙ e ∙ here y) (all c)
  | inr y ↦ rw y (all c)
]
  where
    here : (me == c) ≡ true → mine p ≡ mine (update a.place me p c)
    here y = rw y refl

-- A processor whose place stays.
same_place :
    (a : System) (me : ℕ) (k : Cpu) (n : ℕ)
    → AllMasked a
    → IsMasked k (n + mine (a.place me))
    → (c : ℕ) → IsMasked (update a.cpus me k c) (update a.others me n c + mine (a.place c))
same_place a me k n all here c =
    subst (λ p. IsMasked (update a.cpus me k c) (update a.others me n c + mine p))
      (stay a.place me c) (moved-AllMasked a.cpus a.place a.others me k (a.place me) n all here c)

-- A processor that has the same open for other locks.
same_others :
    (a : System) (me : ℕ) (k : Cpu) (p : Place)
    → AllMasked a
    → IsMasked k (a.others me + mine p)
    → (c : ℕ) → IsMasked (update a.cpus me k c) (a.others c + mine (update a.place me p c))
same_others a me k p all here c =
    subst (λ n. IsMasked (update a.cpus me k c) (n + mine (update a.place me p c)))
      (stay a.others me c) (moved-AllMasked a.cpus a.place a.others me k p (a.others me) all here c)

-- A processor that has as much open as before.
same_open :
    (a : System) (me : ℕ) (k : Cpu)
    → AllMasked a
    → IsMasked k (a.others me + mine (a.place me))
    → (c : ℕ) → IsMasked (update a.cpus me k c) (a.others c + mine (a.place c))
same_open a me k all here c =
    subst (λ n. IsMasked (update a.cpus me k c) (n + mine (a.place c))) (stay a.others me c)
      (same_place a me k (a.others me) all here c)

counted_as : {k : Cpu} {m n : ℕ} → m ≡ n → IsMasked k m → IsMasked k n
counted_as {k} e m = subst (IsMasked k) e m

step-AllMasked : {a b : System} → Step a b → AllMasked a → AllMasked b
step-AllMasked {a} (begun me k o h) all =
    let none_open : a.others me + mine (a.place me) ≡ a.others me = ground arith in
    same_others a me k spinning all (
      subst (λ x. IsMasked x (a.others me + 1)) (acquire_begin-ok me a.lock (a.cpus me) k h)
        (pushcli-IsMasked (a.cpus me) (a.others me) (counted_as none_open (all me))))
step-AllMasked (spun me o h) all = all
step-AllMasked {a} (took me o h) all = same_mine a me entering (ground arith) all
step-AllMasked {a} (entered me o) all = same_mine a me inside (ap mine o) all
step-AllMasked {a} (left me lk o h) all = same_mine a me leaving (ground arith) all
step-AllMasked {a} (freed me lk k o h) all =
    let one_open : mine (a.place me) ≡ 1 = ap mine o in
    same_others a me k outside all (
      counted_as (omega (arith, one_open)) (
        popcli-IsMasked (a.cpus me) k (a.others me + mine (a.place me)) (all me)
          (omega (arith, one_open)) (release_end-popcli a.lock lk (a.cpus me) k h)))
step-AllMasked {a} (pushed me) all = same_place a me (pushcli (a.cpus me)) (a.others me + 1) all (
    counted_as (omega arith)
      (pushcli-IsMasked (a.cpus me) (a.others me + mine (a.place me)) (all me)))
step-AllMasked {a} (popped me k l h) all = same_place a me k (a.others me - 1) all (
    counted_as (omega arith)
      (popcli-IsMasked (a.cpus me) k (a.others me + mine (a.place me)) (all me) (omega arith) h))
step-AllMasked {a} (switched me on z) all =
    let count = (all me).count in
    same_open a me (record (a.cpus me) { interrupts = on }) all
      (record { count = count; off = λ l. absurd (omega (arith, count, z)) })
step-AllMasked {a} (restored me on) all =
    let m = all me in
    same_open a me (record (a.cpus me) { intena = on }) all
      (record { count = m.count; off = m.off })

reach-AllMasked : {a b : System} → Reach a b → AllMasked a → AllMasked b
reach-AllMasked start all = all
reach-AllMasked (step r s) all = step-AllMasked s (reach-AllMasked r all)

-- The `popcli` of `release` finds its `pushcli` open, and interrupts off.
pub leaving-popcli :
    (cpus : ℕ → Cpu) (s : System) (c : ℕ)
    → ((b : ℕ) → (cpus b).ncli ≡ 0)
    → Reach (started cpus) s
    → is_leaving (s.place c) ≡ true
    → (k : Cpu) × (popcli (s.cpus c) ≡ ok k)
leaving-popcli cpus s c fresh r o =
    let all =
      reach-AllMasked r (λ b. record { count = fresh b; off = λ l. absurd (omega arith) }) in
    (_, popcli-ok (s.cpus c) (s.others c + mine (s.place c)) (all c) (ground arith))
