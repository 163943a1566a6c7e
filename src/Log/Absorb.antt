-- ===== src/Log/Absorb.antt =====
-- `log_write` records its sector once: absorption into an entry that is there, or a new entry.
use native.Mathlib.Numerals.{add-one}
use nunix.Prelude.{
  ℕ, zero, suc, ◌+◌, ◌≤◌, ◌<◌, ◌≡◌, ap, sym, ◌∙◌, ◌⊎◌, true, ◌||◌, arith, ◌==◌, ==→eq, Bool-cases,
  inl, inr, update,
}
use nunix.Log.{Log, find_sector, absorb}
use nunix.Log.Recovery.{logged, logged_ext}

-- The loop stops at the sector, or at the end.
find_sector_bounds :
    (sector : ℕ → ℕ) (n k i : ℕ)
    → (i ≤ find_sector sector n k i) × (find_sector sector n k i ≤ i + k)
unfolding find_sector
find_sector_bounds sector n zero i = omega arith
find_sector_bounds sector n (suc k) i = ground (arith, find_sector_bounds sector n k (i + 1))

find_sector_hit :
    (sector : ℕ → ℕ) (n k i : ℕ)
    → find_sector sector n k i < i + k
    → sector (find_sector sector n k i) ≡ n
unfolding find_sector
find_sector_hit sector n zero i h = absurd (omega arith)
find_sector_hit sector n (suc k) i h = elim (Bool-cases (sector i == n)) [
  | inl e ↦ rw e (==→eq (sector i) n e)
  | inr e ↦ rw e (find_sector_hit sector n k (i + 1) (ground arith))
]

logged_mem : (sector : ℕ → ℕ) (n i : ℕ) → i < n → logged sector n (sector i) ≡ true
logged_mem sector zero i l = absurd (omega arith)
logged_mem sector (suc n) i l = elim (Bool-cases (n == i)) [
  | inl e ↦ ground (arith, ap sector (==→eq n i e))
  | inr e ↦ ground (arith, logged_mem sector n i)
]

logged_new :
    (sector : ℕ → ℕ) (k n b : ℕ)
    → logged (update sector k n) (k + 1) b ≡ (n == b || logged sector k b)
logged_new sector k n b =
    rw (add-one, logged_ext (update sector k n) sector k b (λ i l. ground arith)) (ground arith)

logged_old :
    (sector : ℕ → ℕ) (k n b : ℕ)
    → logged sector k n ≡ true
    → logged sector k b ≡ (n == b || logged sector k b)
logged_old sector k n b h = elim (Bool-cases (n == b)) [
  | inl e ↦ rw e (sym (ap (logged sector k) (==→eq n b e)) ∙ h)
  | inr e ↦ rw e
]

module _ (log : Log) (n : ℕ) where
  abbrev slot : ℕ
  slot = find_sector log.sector n log.lh_n 0

  same_of_hit : slot < log.lh_n → (i : ℕ) → update log.sector slot n i ≡ log.sector i
  same_of_hit h i = elim (Bool-cases (slot == i)) [
    | inl e ↦ rw e (
        sym (find_sector_hit log.sector n log.lh_n 0 (omega arith))
        ∙ ap log.sector (==→eq slot i e))
    | inr e ↦ rw e
  ]

  -- The log grows by at most one entry.
  pub lh_n-absorb : ((absorb log n).lh_n ≡ log.lh_n) ⊎ ((absorb log n).lh_n ≡ log.lh_n + 1)
  unfolding absorb
  lh_n-absorb = ground arith

  pub absorb_homes :
      ((i : ℕ) → i < log.lh_n → log.sector i < log.start)
      → n < log.start
      → (i : ℕ) → i < (absorb log n).lh_n
      → (absorb log n).sector i < log.start
  unfolding absorb
  absorb_homes homes l i m = elim (Bool-cases (slot == i)) [
    | inl e ↦ rw e l
    | inr e ↦ rw e (homes i (ground (arith, find_sector_bounds log.sector n log.lh_n 0)))
  ]

  -- After it exactly the sectors from before and the new one are logged.
  pub logged-absorb :
      (b : ℕ)
      → logged (absorb log n).sector (absorb log n).lh_n b
        ≡ (n == b || logged log.sector log.lh_n b)
  unfolding absorb
  logged-absorb b = elim (Bool-cases (slot == log.lh_n)) [
    | inl new ↦ rw new (rw (==→eq slot log.lh_n new) (logged_new log.sector log.lh_n n b))
    | inr old ↦
        let h : slot < log.lh_n = ground (arith, find_sector_bounds log.sector n log.lh_n 0) in
        let hit : log.sector slot ≡ n = find_sector_hit log.sector n log.lh_n 0 (omega arith) in
        rw old (
          logged_ext (update log.sector slot n) log.sector log.lh_n b (λ i l. same_of_hit h i)
          ∙ logged_old log.sector log.lh_n n b
              (sym (ap (logged log.sector log.lh_n) hit) ∙ logged_mem log.sector log.lh_n slot h))
  ]
