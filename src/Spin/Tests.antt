-- ===== src/Spin/Tests.antt =====
-- The theorems on spinlock.c at two processors.
use nunix.Prelude.{ℕ, ◌≡◌, refl, true, false, [], ◌∷◌, update, none, ok}
use nunix.Spin.{Cpu, acquire_begin, release_begin, release_end, pushcli}
use nunix.Spin.Nesting.{push, pop, Matched, nothing, pair, run_calls, Restored, Matched-restores}
use nunix.Spin.Steps.{
  System, Reach, Place, start, step, begun, took, entered, left, spinning, entering, inside,
  leaving, owns, is_inside, is_leaving, is_outside, started,
}
use nunix.Spin.Exclusion.{mutual_exclusion}

abbrev idle : Cpu
idle = record { ncli = 0; intena = false; interrupts = true }

twice_nested : Matched (push ∷ push ∷ pop ∷ pop ∷ [])
twice_nested = pair (pair nothing nothing) nothing

Matched-restores_example :
    (d : Cpu) × (run_calls (push ∷ push ∷ pop ∷ pop ∷ []) (pushcli idle) ≡ ok d)
    × Restored (pushcli idle) d
unfolding pushcli
Matched-restores_example =
    Matched-restores (push ∷ push ∷ pop ∷ pop ∷ []) (pushcli idle) twice_nested (λ l. refl)

-- Processor 1 is about to give the lock back, processor 0 has not begun.
abbrev one_leaving : System
one_leaving = record {
  lock = record { locked = true; cpu = none };
  cpus = update (λ c. idle) 1 (pushcli idle);
  place =
      update (update (update (update (λ c. Place.outside) 1 spinning) 1 entering) 1 inside) 1
        leaving;
  others = λ c. 0;
}

one_leaving-Reach : Reach (started (λ c. idle)) one_leaving
unfolding acquire_begin release_begin pushcli
one_leaving-Reach =
    step
      (step (step (step start (begun 1 (pushcli idle) refl refl)) (took 1 refl refl))
        (entered 1 refl))
      (left 1 one_leaving.lock refl refl)

mutual_exclusion_example :
    (owns (one_leaving.place 1) ≡ true → owns (one_leaving.place 0) ≡ true → ◌≡◌ {A = ℕ} 1 0)
    × (is_inside (one_leaving.place 1) ≡ true
        → release_begin 1 one_leaving.lock ≡ ok (record one_leaving.lock { cpu = none }))
    × (is_leaving (one_leaving.place 1) ≡ true
        → (k : Cpu) × (release_end one_leaving.lock (one_leaving.cpus 1)
            ≡ ok (record one_leaving.lock { locked = false }, k)))
    × (is_outside (one_leaving.place 1) ≡ true
        → acquire_begin 1 one_leaving.lock (one_leaving.cpus 1) ≡ ok (pushcli (one_leaving.cpus 1)))
mutual_exclusion_example =
    mutual_exclusion (λ c. idle) one_leaving 1 0 (λ c. refl) one_leaving-Reach
