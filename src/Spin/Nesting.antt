-- ===== src/Spin/Nesting.antt =====
-- Calls of `pushcli` and `popcli` that match: they hold interrupts off, and leave them as they were.
use nunix.Prelude.{
  ◌-◌, ◌≡◌, ◌<◌, refl, false, ◌&&◌, ◌==◌, arith, ◌∙◌, List, [], ◌∷◌, ◌++◌, Result, ok, panic, ◌>>=◌,
}
use nunix.Spin.{Cpu, pushcli, popcli}

pub data Call : Type 0 where
  push pop : Call

pub run_call : Call → Cpu → Result Cpu
unfolding pushcli popcli
run_call push c = ok (pushcli c)
run_call pop c = popcli c

pub run_calls : List Call → Cpu → Result Cpu
unfolding run_call
run_calls [] c = ok c
run_calls (call ∷ calls) c = run_call call c >>= run_calls calls

-- Every `pushcli` has its `popcli`.
pub data Matched : List Call → Type 0 where
  nothing : Matched []
  pair :
      {inner outer : List Call}
      → Matched inner
      → Matched outer
      → Matched (push ∷ inner ++ (pop ∷ outer))

-- Interrupts are off while calls of `pushcli` are open.
abbrev pub IsMasked : Cpu → Type 0
IsMasked c = 0 < c.ncli → c.interrupts ≡ false

-- The calls leave the count and the flag, and `intena` while calls are open.
pub record Restored (c d : Cpu) : Type 0 where
  same_ncli : d.ncli ≡ c.ncli
  same_interrupts : d.interrupts ≡ c.interrupts
  same_intena : 0 < c.ncli → d.intena ≡ c.intena

bind_pointwise :
    (r : Result Cpu) (f g h : Cpu → Result Cpu)
    → ((c : Cpu) → f c ≡ (g c >>= h))
    → (r >>= f) ≡ ((r >>= g) >>= h)
bind_pointwise (ok c) f g h e = e c
bind_pointwise (panic m) f g h e = refl

run_calls-append :
    (xs ys : List Call) (c : Cpu) → run_calls (xs ++ ys) c ≡ (run_calls xs c >>= run_calls ys)
unfolding run_calls
run_calls-append [] ys c = refl
run_calls-append (x ∷ xs) ys c =
    bind_pointwise (run_call x c) (run_calls (xs ++ ys)) (run_calls xs) (run_calls ys)
      (run_calls-append xs ys)

pushcli-IsMasked : (c : Cpu) → IsMasked (pushcli c)
unfolding pushcli
pushcli-IsMasked c l = refl

-- The `popcli` that matches a `pushcli`.
popcli-Restored :
    (c d : Cpu) → IsMasked c → Restored (pushcli c) d → (b : Cpu) × (popcli d ≡ ok b) × Restored c b
unfolding pushcli popcli
popcli-Restored c d m r =
    let off : d.interrupts ≡ false = r.same_interrupts in
    let some_left : (d.ncli == 0) ≡ false = ground (arith, r.same_ncli) in
    let kept = r.same_intena (omega arith) in
    (
      record d { ncli = d.ncli - 1; interrupts = (d.ncli - 1 == 0) && d.intena },
      rw (popcli, off, some_left) refl,
      record {
        same_ncli = ground (arith, r.same_ncli);
        same_interrupts = ground (arith, r.same_ncli, kept, m);
        same_intena = λ l. ground (arith, kept);
      },
    )

Restored-IsMasked : (c d : Cpu) → IsMasked c → Restored c d → IsMasked d
Restored-IsMasked c d m r l = r.same_interrupts ∙ m (ground (arith, r.same_ncli))

Restored-trans : (c d b : Cpu) → Restored c d → Restored d b → Restored c b
Restored-trans c d b r q = record {
  same_ncli = q.same_ncli ∙ r.same_ncli;
  same_interrupts = q.same_interrupts ∙ r.same_interrupts;
  same_intena = λ l. q.same_intena (ground (arith, r.same_ncli)) ∙ r.same_intena l;
}

-- Where interrupts are off if calls of `pushcli` are open, matched calls of `pushcli` and `popcli` do not panic, and leave the count of open
-- calls and the interrupt flag as they were, and `intena` too while calls are open.
pub Matched-restores :
    (calls : List Call) (c : Cpu)
    → Matched calls
    → IsMasked c
    → (d : Cpu) × (run_calls calls c ≡ ok d) × Restored c d
unfolding run_calls
Matched-restores calls c nothing m =
    (c, refl, record { same_ncli = refl; same_interrupts = refl; same_intena = λ l. refl })
Matched-restores calls c (pair {inner} {outer} i o) m =
    let (d, e, r) = Matched-restores inner (pushcli c) i (pushcli-IsMasked c) in
    let (b, p, q) = popcli-Restored c d m r in
    let (a, f, u) = Matched-restores outer b o (Restored-IsMasked c b m q) in
    (a, run_calls-append inner (pop ∷ outer) (pushcli c) ∙ rw (e, p) f, Restored-trans c b a q u)
