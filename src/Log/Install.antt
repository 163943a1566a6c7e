-- ===== src/Log/Install.antt =====
-- `install_trans` with a full log on the disk: every round keeps the log full, and so every disk on the
-- way recovers alike.
use mathlib.Core.Path.{subst}
use nunix.Prelude.{
  ℕ, zero, suc, ◌+◌, ◌≤◌, ◌<◌, ◌≡◌, refl, ap, ◌∙◌, inl, inr, false, arith, ◌==◌, ==→eq, Bool-cases,
  update, for_upto_inv, All,
}
use nunix.Disk.{Block, Disk, Store, bread, bwrite}
use nunix.Log.{Log, install_trans}
use nunix.Log.Head.{IsHead}
use nunix.Log.Recovery.{logged, IsFull, installed}

pub update_self : (f : Disk) (n : ℕ) (v : Block) → v ≡ update f n v n
update_self f n v = ground arith

pub update_ne : (f : Disk) {m n : ℕ} (v : Block) → m < n → f n ≡ update f m v n
update_ne f v h = ground arith

logged_mono :
    (sector : ℕ → ℕ) (k n b : ℕ) → k ≤ n → logged sector n b ≡ false → logged sector k b ≡ false
logged_mono sector zero n b l h = refl
logged_mono sector (suc k) zero b l h = absurd (omega arith)
logged_mono sector (suc k) (suc n) b l h = elim (Bool-cases (k == n)) [
  | inl e ↦ ap (λ j. logged sector (suc j) b) (==→eq k n e) ∙ h
  | inr e ↦ logged_mono sector (suc k) n b (ground arith) (ground arith)
]

module _ (log : Log) (image old : Disk) (P : Disk → Type 0) where
  -- the state of `install_trans` after `k` rounds
  pub record Installing (k : ℕ) (t : Store) : Type 0 where
    pub full : IsFull log.start log.lh_n log.sector image t.disk
    pub cached : (i : ℕ) → i < log.lh_n → t.view (log.start + i + 1) ≡ image (log.sector i)
    pub homes : (b : ℕ) → b < log.start → t.disk b ≡ installed log.sector k image old b
    pub past : All P t.history

-- `P` holds of every disk whose log is full and whose other blocks are those of `old`.
module _ (log : Log) (image old : Disk) (P : Disk → Type 0)
    (full-P : (d : Disk)
      → IsFull log.start log.lh_n log.sector image d
      → ((b : ℕ) → b < log.start → logged log.sector log.lh_n b ≡ false → d b ≡ old b)
      → P d) where
  install_one :
      (k : ℕ) (t : Store)
      → k < log.lh_n
      → Installing log image old P k t
      → Installing log image old P (suc k) (bwrite t (log.sector k) (bread t (log.start + k + 1)))
  unfolding bwrite
  install_one k t l h =
      let d = update t.disk (log.sector k) (t.view (log.start + k + 1)) in
      let f : IsFull log.start log.lh_n log.sector image d = record {
        head =
            subst (IsHead log.lh_n log.sector)
              (update_ne t.disk (t.view (log.start + k + 1)) (h.full.homes k l)) h.full.head;
        blocks = λ i m. ground (arith, h.full.homes k l, h.full.blocks i m);
        homes = h.full.homes;
      } in
      let done : (b : ℕ) → b < log.start → d b ≡ installed log.sector (suc k) image old b = λ b m.
        elim (Bool-cases (log.sector k == b)) [
          | inl e ↦ rw e (h.cached k l ∙ ap image (==→eq (log.sector k) b e))
          | inr e ↦ rw e (h.homes b m)
        ] in
      record {
        full = f;
        cached = λ i m. ground (arith, h.cached i m, h.full.homes k l);
        homes = done;
        past = (
          full-P d f
              (λ b m e. done b m ∙ ground (arith, logged_mono log.sector (suc k) log.lh_n b l e)),
          h.past,
        );
      }

  pub install_trans-Installing :
      (t : Store)
      → Installing log image old P 0 t
      → Installing log image old P log.lh_n (install_trans log t)
  unfolding install_trans
  install_trans-Installing t h =
      for_upto_inv (Installing log image old P)
        (λ tail u. bwrite u (log.sector tail) (bread u (log.start + tail + 1))) log.lh_n
        (λ k u l i. install_one k u l i) t h
