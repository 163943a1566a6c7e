-- ===== src/Log/Head.antt =====
-- The header block: what `write_head` puts there, and what `read_head` takes out.
use nunix.Prelude.{
  ℕ, suc, ◌+◌, ◌<◌, ◌≡◌, refl, ◌∙◌, arith, ◌==◌, update, for_upto_inv, Bool-cases, inl, inr, ap,
  ==→eq,
}
use nunix.Disk.{Block, Store}
use nunix.Log.{Log, head_block, take_head}

-- The block `b` is the header of a log of the `n` sectors `sector`.
pub record IsHead (n : ℕ) (sector : ℕ → ℕ) (b : Block) : Type 0 where
  pub number : b 0 ≡ n
  pub sectors : (i : ℕ) → i < n → b (i + 1) ≡ sector i

abbrev Filled : Log → ℕ → Block → Type 0
Filled log k b = (b 0 ≡ log.lh_n) × ((i : ℕ) → i < k → b (i + 1) ≡ log.sector i)

fill_one :
    (log : Log) (k : ℕ) (b : Block)
    → Filled log k b
    → Filled log (suc k) (update b (k + 1) (log.sector k))
fill_one log k b (number, sectors) = (
  ground arith,
  λ i h. elim (Bool-cases (k == i)) [
    | inl e ↦ ground (arith, ap log.sector (==→eq k i e))
    | inr e ↦ ground (arith, sectors i)
  ],
)

pub head_block-IsHead : (log : Log) (buf : Block) → IsHead log.lh_n log.sector (head_block log buf)
unfolding head_block
head_block-IsHead log buf =
    let f =
      for_upto_inv (Filled log) (λ i b. update b (i + 1) (log.sector i)) log.lh_n
        (λ i b l h. fill_one log i b h) (update buf 0 log.lh_n)
        (refl, λ i h. absurd (omega arith)) in
    record { number = f.0; sectors = f.1 }

abbrev Taken : Block → ℕ → (ℕ → ℕ) → Type 0
Taken b k a = (i : ℕ) → i < k → a i ≡ b (i + 1)

take_one : (b : Block) (k : ℕ) (a : ℕ → ℕ) → Taken b k a → Taken b (suc k) (update a k (b (k + 1)))
take_one b k a t i h = elim (Bool-cases (k == i)) [
  | inl e ↦ rw e (ap (λ j. b (j + 1)) (==→eq k i e))
  | inr e ↦ rw e (t i (ground arith))
]

-- `take_head` takes the number and the sectors from the header.
pub take_head-IsHead :
    (log : Log) (s : Store) (n : ℕ) (sector : ℕ → ℕ)
    → IsHead n sector (s.view log.start)
    → ((take_head log s).lh_n ≡ n) × ((i : ℕ) → i < n → (take_head log s).sector i ≡ sector i)
unfolding take_head
take_head-IsHead log s n sector h =
    let b = s.view log.start in
    let read =
      for_upto_inv (Taken b) (λ i a. update a i (b (i + 1))) n (λ i a l t. take_one b i a t)
        log.sector (λ i l. absurd (omega arith)) in
    (h.number, rw h.number (λ i l. read i l ∙ h.sectors i l))
