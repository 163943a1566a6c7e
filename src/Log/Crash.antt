-- ===== src/Log/Crash.antt =====
-- A crash at any point of `commit`: what the disk holds then recovers to the old or to the new blocks.
use mathlib.Core.Path.{subst}
use nunix.Prelude.{
  ℕ, suc, ◌+◌, ◌^◌, ◌≤◌, leb, ok, ◌<◌, ◌≡◌, refl, ap, sym, ◌∙◌, ◌⊎◌, inl, inr, false, arith, ◌==◌,
  ==→eq, ltb, Bool-cases, update, for_upto_inv, [], ◌∷◌, All,
}
use nunix.Disk.{Block, Disk, Store, bread, bwrite, reboot}
use nunix.Log.{
  Log, logsize, write_head, write_log, commit, head_block, take_head, read_head, recover_with,
  recover_from_log,
}
use nunix.Log.Head.{IsHead, head_block-IsHead}
use nunix.Log.Install.{update_self, Installing, install_trans-Installing}
use nunix.Log.Recovery.{
  logged, IsEmpty, IsFull, installed, recovered, recovered-IsFull, recovered-IsEmpty,
}

-- The recovery after a restart from the disk `d` succeeds, and gives the blocks of `target` at every block before the log.
abbrev pub RecoversTo : Log → Disk → Disk → Type 0
RecoversTo log target d =
    (r : Log × Store) × (recover_from_log log (reboot d) ≡ ok r)
    × ((b : ℕ) → b < log.start → r.1.disk b ≡ target b)

pub recover_from_log-ok :
    (log : Log) (d : Disk)
    → d log.start 0 ≤ logsize
    → recover_from_log log (reboot d) ≡ ok (recover_with (take_head log (reboot d)) (reboot d))
unfolding recover_from_log read_head
recover_from_log-ok log d fits =
    let whole : leb (2 ^ 31) (d log.start 0) ≡ false = ground arith in
    let small : ltb logsize (d log.start 0) ≡ false = ground arith in
    rw (recover_from_log, read_head, whole, small) refl

-- The header has no more entries than `log.lh.sector`.
pub recovered-RecoversTo :
    (log : Log) (target d : Disk)
    → d log.start 0 ≤ logsize
    → ((b : ℕ) → b < log.start → recovered log d b ≡ target b)
    → RecoversTo log target d
recovered-RecoversTo log target d fits same =
    (recover_with (take_head log (reboot d)) (reboot d), recover_from_log-ok log d fits, same)

-- What recovery gives, said of an equal disk.
pub RecoversTo-same :
    (log : Log) (a c d : Disk)
    → ((b : ℕ) → b < log.start → a b ≡ c b)
    → RecoversTo log a d
    → RecoversTo log c d
RecoversTo-same log a c d same (r, e, h) = (r, e, λ b l. h b l ∙ same b l)

-- A log between transactions: every home lies before the log, and the log on the disk is empty.
pub record IsReady (log : Log) (s : Store) : Type 0 where
  pub homes : (i : ℕ) → i < log.lh_n → log.sector i < log.start
  pub fits : log.lh_n ≤ logsize
  pub empty : IsEmpty log.start s.disk

-- what the transaction in the log makes of the disk
abbrev pub after : Log → Store → Disk
after log s = installed log.sector log.lh_n s.view s.disk

-- The disk `d` recovers to what the disk of `s` was, or to what the transaction makes of it.
abbrev pub IsAtomic : Log → Store → Disk → Type 0
IsAtomic log s d = RecoversTo log s.disk d ⊎ RecoversTo log (after log s) d

-- A row of blocks behind `start`, extended by one.
row_one :
    (f : Disk) (v : Block) (start k : ℕ) (image : ℕ → Block)
    → v ≡ image k
    → ((i : ℕ) → i < k → f (start + i + 1) ≡ image i)
    → (i : ℕ) → i < suc k
    → update f (start + k + 1) v (start + i + 1) ≡ image i
row_one f v start k image e row i m = elim (Bool-cases (k == i)) [
  | inl eq ↦ ground (arith, ap image (==→eq k i eq))
  | inr ne ↦ ground (arith, row i)
]

module _ (log : Log) (s : Store) (ready : IsReady log s) where
  empty-IsAtomic :
      (d : Disk)
      → IsEmpty log.start d
      → ((b : ℕ) → b < log.start → d b ≡ s.disk b)
      → IsAtomic log s d
  empty-IsAtomic d e same = inl (
      recovered-RecoversTo log s.disk d (omega (arith, e))
        (λ b l. recovered-IsEmpty log d e b l ∙ same b l))

  erased-IsAtomic :
      (d : Disk)
      → IsEmpty log.start d
      → ((b : ℕ) → b < log.start → d b ≡ after log s b)
      → IsAtomic log s d
  erased-IsAtomic d e same = inr (
      recovered-RecoversTo log (after log s) d (omega (arith, e))
        (λ b l. recovered-IsEmpty log d e b l ∙ same b l))

  full-IsAtomic :
      (d : Disk)
      → IsFull log.start log.lh_n log.sector s.view d
      → ((b : ℕ) → b < log.start → logged log.sector log.lh_n b ≡ false → d b ≡ s.disk b)
      → IsAtomic log s d
  full-IsAtomic d f same = inr (
      recovered-RecoversTo log (after log s) d (omega (arith, f.head.number, ready.fits))
        (λ b l. recovered-IsFull log log.lh_n log.sector s.view d f b l ∙ ground (arith, same b l)))

  -- the state of `write_log` after `k` rounds
  record Logging (k : ℕ) (t : Store) : Type 0 where
    empty : IsEmpty log.start t.disk
    homes : (b : ℕ) → b < log.start → t.disk b ≡ s.disk b
    views : (b : ℕ) → b < log.start → t.view b ≡ s.view b
    blocks : (i : ℕ) → i < k → t.disk (log.start + i + 1) ≡ s.view (log.sector i)
    cached : (i : ℕ) → i < k → t.view (log.start + i + 1) ≡ s.view (log.sector i)
    past : All (IsAtomic log s) t.history

  log_one :
      (k : ℕ) (t : Store)
      → k < log.lh_n
      → Logging k t
      → Logging (suc k) (bwrite t (log.start + k + 1) (bread t (log.sector k)))
  unfolding bwrite
  log_one k t l h = record {
    empty = ground (arith, h.empty);
    homes = λ b m. ground (arith, h.homes b m);
    views = λ b m. ground (arith, h.views b m);
    blocks =
        row_one t.disk (t.view (log.sector k)) log.start k (λ i. s.view (log.sector i))
          (h.views (log.sector k) (ready.homes k l)) h.blocks;
    cached =
        row_one t.view (t.view (log.sector k)) log.start k (λ i. s.view (log.sector i))
          (h.views (log.sector k) (ready.homes k l)) h.cached;
    past = (
      empty-IsAtomic (update t.disk (log.start + k + 1) (t.view (log.sector k)))
          (ground (arith, h.empty)) (λ b m. ground (arith, h.homes b m)),
      h.past,
    );
  }

  write_log-Logging : All (IsAtomic log s) s.history → Logging log.lh_n (write_log log s)
  unfolding write_log
  write_log-Logging past =
      for_upto_inv Logging (λ tail t. bwrite t (log.start + tail + 1) (bread t (log.sector tail)))
        log.lh_n (λ k t l h. log_one k t l h) s
        (record {
          empty = ready.empty;
          homes = λ b l. refl;
          views = λ b l. refl;
          blocks = λ i l. absurd (omega arith);
          cached = λ i l. absurd (omega arith);
          past = past;
        })

  -- The header is the commit.
  write_head-Installing :
      (t : Store)
      → Logging log.lh_n t
      → Installing log s.view s.disk (IsAtomic log s) 0 (write_head log t)
  unfolding write_head bwrite
  write_head-Installing t h =
      let head = head_block log (t.view log.start) in
      let f : IsFull log.start log.lh_n log.sector s.view (update t.disk log.start head) = record {
        head =
            subst (IsHead log.lh_n log.sector) (update_self t.disk log.start head)
              (head_block-IsHead log (t.view log.start));
        blocks = λ i l. ground (arith, h.blocks i l);
        homes = ready.homes;
      } in
      record {
        full = f;
        cached = λ i l. ground (arith, h.cached i l);
        homes = λ b l. ground (arith, h.homes b l);
        past = (
          full-IsAtomic (update t.disk log.start head) f (λ b l e. ground (arith, h.homes b l)),
          h.past,
        );
      }

  -- what the end of a commit leaves
  record Committed (erased : Log) (t : Store) : Type 0 where
    empty : IsEmpty log.start t.disk
    homes : (b : ℕ) → b < log.start → t.disk b ≡ after log s b
    past : All (IsAtomic log s) t.history

  erase-Committed :
      (t : Store)
      → Installing log s.view s.disk (IsAtomic log s) log.lh_n t
      → Committed (record log { lh_n = 0 }) (write_head (record log { lh_n = 0 }) t)
  unfolding write_head bwrite
  erase-Committed t h =
      let erased = record log { lh_n = 0 } in
      let head = head_block erased (t.view log.start) in
      let d = update t.disk log.start head in
      let e : IsEmpty log.start d =
        ap (λ (b : Block). b 0) (sym (update_self t.disk log.start head))
        ∙ (head_block-IsHead erased (t.view log.start)).number in
      let same : (b : ℕ) → b < log.start → d b ≡ after log s b =
        λ b l. ground (arith, h.homes b l) in
      record { empty = e; homes = same; past = (erased-IsAtomic d e same, h.past) }

  commit-Committed : All (IsAtomic log s) s.history → Committed (commit log s).0 (commit log s).1
  unfolding commit
  commit-Committed past = elim (Bool-cases (ltb 0 log.lh_n)) [
    | inl some_logged ↦ rw some_logged (
        erase-Committed _ (
          install_trans-Installing log s.view s.disk (IsAtomic log s) full-IsAtomic _
            (write_head-Installing _ (write_log-Logging past))))
    | inr none_logged ↦
        let z : log.lh_n ≡ 0 = ground arith in
        rw none_logged (record { empty = ready.empty; homes = λ b l. rw z; past = past })
  ]

module _ {log : Log} {s : Store} (ready : IsReady log s) (fresh : s.history ≡ s.disk ∷ []) where
  committed : Committed log s ready (commit log s).0 (commit log s).1
  committed =
      commit-Committed log s ready
        (rw fresh (empty-IsAtomic log s ready s.disk ready.empty (λ b l. refl), tt))

  -- Let the log be ready: all its sectors lie before the log, at most LOGSIZE of them, whose copy on the disk is empty. Then
  -- every disk that a crash can leave from the start of `commit` to its end recovers, at every block
  -- before the log, to the disk from before the commit, or, at every such block too, to that disk
  -- with the logged sectors as the buffers hold them.
  pub commit-IsAtomic : All (IsAtomic log s) (commit log s).1.history
  commit-IsAtomic = committed.past

  -- A `commit` that is not cut off puts the logged sectors, as the buffers hold them, in their homes,
  -- and changes no other block before the log.
  pub commit_installs :
      (b : ℕ)
      → b < log.start
      → (commit log s).1.disk b ≡ installed log.sector log.lh_n s.view s.disk b
  commit_installs = committed.homes
