-- ===== src/Log/Clean.antt =====
-- The flag B_DIRTY: a buffer without it holds what the disk holds, so bio.c may recycle it, and `commit`
-- takes the flag from every buffer that `log_write` gave it.
use nunix.Prelude.{
  ℕ, suc, ◌+◌, ◌≡◌, refl, ap, true, false, arith, ltb, Bool-cases, inl, inr, for_upto_inv,
}
use nunix.Disk.{Block, Store, bread, bwrite, modify}
use nunix.Log.{Log, install_trans, write_head, write_log, commit}
use nunix.Log.Recovery.{logged}

abbrev pub IsCoherent : Store → Type 0
IsCoherent s = (b : ℕ) → s.dirty b ≡ false → s.view b ≡ s.disk b

-- Every dirty buffer is one whose sector is logged.
abbrev pub IsPinned : Log → Store → Type 0
IsPinned log s = (b : ℕ) → s.dirty b ≡ true → logged log.sector log.lh_n b ≡ true

pub bwrite-IsCoherent : (s : Store) (n : ℕ) (d : Block) → IsCoherent s → IsCoherent (bwrite s n d)
unfolding bwrite
bwrite-IsCoherent s n d c b h = ground (arith, c b)

pub modify-IsCoherent : (s : Store) (n : ℕ) (d : Block) → IsCoherent s → IsCoherent (modify s n d)
unfolding modify
modify-IsCoherent s n d c b h = ground (arith, c b)

module _ (log : Log) where
  rows-IsCoherent : (s : Store) → IsCoherent s → IsCoherent (write_log log s)
  unfolding write_log
  rows-IsCoherent s =
      for_upto_inv (λ i t. IsCoherent t)
        (λ tail t. bwrite t (log.start + tail + 1) (bread t (log.sector tail))) log.lh_n
        (λ i t l c. bwrite-IsCoherent t (log.start + i + 1) (t.view (log.sector i)) c) s

  homes-IsCoherent : (s : Store) → IsCoherent s → IsCoherent (install_trans log s)
  unfolding install_trans
  homes-IsCoherent s =
      for_upto_inv (λ i t. IsCoherent t)
        (λ tail t. bwrite t (log.sector tail) (bread t (log.start + tail + 1))) log.lh_n
        (λ i t l c. bwrite-IsCoherent t (log.sector i) (t.view (log.start + i + 1)) c) s

head-IsCoherent : (log : Log) (s : Store) → IsCoherent s → IsCoherent (write_head log s)
unfolding write_head
head-IsCoherent log s c = bwrite-IsCoherent s log.start _ c

pub commit-IsCoherent : (log : Log) (s : Store) → IsCoherent s → IsCoherent (commit log s).1
unfolding commit
commit-IsCoherent log s c = elim (Bool-cases (ltb 0 log.lh_n)) [
  | inl h ↦ rw h (
      head-IsCoherent _ _
        (homes-IsCoherent log _ (head-IsCoherent log _ (rows-IsCoherent log s c))))
  | inr h ↦ rw h c
]

-- Of the dirty buffers only those are left whose sectors come at index `k` or later.
abbrev Washed : Log → ℕ → Store → Type 0
Washed log k t =
    (b : ℕ)
    → t.dirty b ≡ true
    → (logged log.sector log.lh_n b ≡ true) × (logged log.sector k b ≡ false)

bwrite-Washed :
    (log : Log) (k n : ℕ) (d : Block) (t : Store) → Washed log k t → Washed log k (bwrite t n d)
unfolding bwrite
bwrite-Washed log k n d t w b h = ground (arith, w b)

wash_one :
    (log : Log) (k : ℕ) (d : Block) (t : Store)
    → Washed log k t
    → Washed log (suc k) (bwrite t (log.sector k) d)
unfolding bwrite
wash_one log k d t w b h = ground (arith, w b)

rows-Washed : (log : Log) (s : Store) → IsPinned log s → Washed log 0 (write_log log s)
unfolding write_log
rows-Washed log s pinned =
    for_upto_inv (λ i t. Washed log 0 t)
      (λ tail t. bwrite t (log.start + tail + 1) (bread t (log.sector tail))) log.lh_n
      (λ i t l w. bwrite-Washed log 0 _ _ t w) s (λ b h. (pinned b h, refl))

homes-Washed : (log : Log) (s : Store) → Washed log 0 s → Washed log log.lh_n (install_trans log s)
unfolding install_trans
homes-Washed log s =
    for_upto_inv (Washed log)
      (λ tail t. bwrite t (log.sector tail) (bread t (log.start + tail + 1))) log.lh_n
      (λ i t l w. wash_one log i _ t w) s

head-Washed :
    (log : Log) (h : Log) (k : ℕ) (s : Store) → Washed log k s → Washed log k (write_head h s)
unfolding write_head
head-Washed log h k s w = bwrite-Washed log k _ _ s w

clean_of_Washed : (log : Log) (t : Store) → Washed log log.lh_n t → (b : ℕ) → t.dirty b ≡ false
clean_of_Washed log t w b = elim (Bool-cases (t.dirty b)) [
  | inl e ↦ absurd (ground (arith, w b e))
  | inr e ↦ e
]

none_dirty : (log : Log) (s : Store) → IsPinned log s → log.lh_n ≡ 0 → (b : ℕ) → s.dirty b ≡ false
none_dirty log s pinned z b = elim (Bool-cases (s.dirty b)) [
  | inl e ↦ absurd (cc (pinned b e, ap (λ k. logged log.sector k b) z))
  | inr e ↦ e
]

-- After `commit` no buffer is dirty, if only buffers of logged sectors were.
pub commit_clean :
    (log : Log) (s : Store) → IsPinned log s → (b : ℕ) → (commit log s).1.dirty b ≡ false
unfolding commit
commit_clean log s pinned b = elim (Bool-cases (ltb 0 log.lh_n)) [
  | inl h ↦
      let erased = record log { lh_n = 0 } in
      let t = install_trans log (write_head log (write_log log s)) in
      rw h (
        clean_of_Washed log (write_head erased t)
          (head-Washed log erased log.lh_n _
            (homes-Washed log _ (head-Washed log log 0 _ (rows-Washed log s pinned))))
          b)
  | inr h ↦ rw h (none_dirty log s pinned (ground arith) b)
]
