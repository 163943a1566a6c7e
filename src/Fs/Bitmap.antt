-- ===== src/Fs/Bitmap.antt =====
-- Blocks: `balloc` and `bfree` against the set of blocks in use.
use mathlib.Core.Path.{subst}
use nunix.Prelude.{
  ℕ, zero, suc, ◌+◌, ◌-◌, ◌*◌, ◌/◌, ◌%◌, ◌<◌, ◌≤◌, ◌≡◌, refl, Bool, true, false, ◌==◌, ==→eq,
  if◌then◌else◌, update, ok, panic, min, ltb, ◌⊎◌, none, some, inl, inr, arith, Bool-cases,
  Option-cases, ap, sym, ◌∙◌, ok-inj, >>=-eq-ok,
}
use nunix.Disk.{Block, modify}
use nunix.Log.{log_write, absorb}
use nunix.Log.Room.{HasRoom, log_write-returns}
use nunix.Log.Operations.Sound.{log_write-ok}
use nunix.Fs.Words.{bit, set_bit, clear_bit, bit-set_bit, bit-clear_bit}
use nunix.Fs.{
  Fs, block, put_block, sb_size, sb_ninodes, bpb, bblock, bzero, bitmap_bit, find_clear, take_block,
  balloc_from,
}

-- the bit of a block, with `ninodes` of the superblock
abbrev pub used_in : (ℕ → Block) → ℕ → ℕ → Bool
used_in view ninodes b = bitmap_bit (view (bblock b ninodes)) (b % bpb)

abbrev pub is_used : Fs → ℕ → Bool
is_used s b = used_in s.store.view (sb_ninodes s) b

-- What `put_block` leaves when the log has room.
pub put_block-ok :
    (b : ℕ) (d : Block) (s s' : Fs)
    → put_block b d s ≡ ok s'
    → (s'.store.view ≡ update s.store.view b d) × (s'.inode ≡ s.inode)
unfolding put_block modify
put_block-ok b d s s' h =
    let ((log, store), e, k) = >>=-eq-ok (log_write s.log s.store b d) _ h in
    let (l, m) = log_write-ok s.log s.store b d e in
    let t = ok-inj k in
    (sym (ap (λ x. x.store.view) t) ∙ ap (λ x. x.view) m, sym (ap (λ x. x.inode) t))

-- With room in the log `put_block` returns, and one block less fits.
pub put_block-returns :
    (b : ℕ) (d : Block) (s : Fs) (n : ℕ)
    → HasRoom s.log (suc n)
    → (s' : Fs) × (put_block b d s ≡ ok s') × HasRoom s'.log n
unfolding put_block
put_block-returns b d s n r =
    let (e, left) = log_write-returns s.log s.store b d n r in
    (record s { log = absorb s.log b; store = modify s.store b d }, rw (put_block, e) refl, left)

bit-in-bitmap :
    (d : Block) (bi bj v : ℕ)
    → bitmap_bit (update d (bi / 32) v) bj
      ≡ (if bi / 32 == bj / 32 then bit v (bj % 32) else bitmap_bit d bj)
bit-in-bitmap d bi bj v = ground arith

-- A bit of a bitmap block is set.
pub set_in_bitmap :
    (d : Block) (bi bj : ℕ)
    → bitmap_bit (update d (bi / 32) (set_bit (d (bi / 32)) (bi % 32))) bj
      ≡ (if bi == bj then true else bitmap_bit d bj)
set_in_bitmap d bi bj = elim (Bool-cases (bi / 32 == bj / 32)) [
  | inl e ↦ rw e (
      bit-set_bit (d (bi / 32)) (bi % 32) (bj % 32)
      ∙ ground (arith, ap d (==→eq (bi / 32) (bj / 32) e)))
  | inr e ↦ rw e (ground arith)
]

pub clear_in_bitmap :
    (d : Block) (bi bj : ℕ)
    → bitmap_bit (update d (bi / 32) (clear_bit (d (bi / 32)) (bi % 32))) bj
      ≡ (if bi == bj then false else bitmap_bit d bj)
clear_in_bitmap d bi bj = elim (Bool-cases (bi / 32 == bj / 32)) [
  | inl e ↦ rw e (
      bit-clear_bit (d (bi / 32)) (bi % 32) (bj % 32)
      ∙ ground (arith, ap d (==→eq (bi / 32) (bj / 32) e)))
  | inr e ↦ rw e (ground arith)
]

find_clear-found :
    (d : Block) (n bi k : ℕ)
    → find_clear d n bi ≡ some k
    → (bi ≤ k) × (k < bi + n) × (bitmap_bit d k ≡ false)
unfolding find_clear
find_clear-found d zero bi k h = absurd (cc h)
find_clear-found d (suc n) bi k h = elim (Bool-cases (bitmap_bit d bi)) [
  | inl e ↦
      let (a, b, c) = find_clear-found d n (bi + 1) k (rw e at h) in (omega arith, omega arith, c)
  | inr e ↦
      let same : bi ≡ k = cc (rw e at h) in
      (omega arith, omega arith, ap (bitmap_bit d) (sym same) ∙ e)
]

find_clear-none :
    (d : Block) (n bi : ℕ)
    → find_clear d n bi ≡ none
    → (k : ℕ) → bi ≤ k
    → k < bi + n
    → bitmap_bit d k ≡ true
unfolding find_clear
find_clear-none d zero bi h k a b = absurd (omega arith)
find_clear-none d (suc n) bi h k a b = elim (Bool-cases (bitmap_bit d bi)) [
  | inl e ↦ elim (Bool-cases (bi == k)) [
    | inl y ↦ ap (bitmap_bit d) (sym (==→eq bi k y)) ∙ e
    | inr y ↦ find_clear-none d n (bi + 1) (rw e at h) k (ground arith) (omega arith)
  ]
  | inr e ↦ absurd (cc (rw e at h))
]

-- What `balloc` did to get the block `a`.
pub record Allocated (s : Fs) (a : ℕ) (s' : Fs) : Type 0 where
  pub within : a < sb_size s
  pub was_free : is_used s a ≡ false
  pub same_inode : s'.inode ≡ s.inode
  pub view :
      let bn = bblock a (sb_ninodes s) in
      let bi = a % bpb in
      let d = block s bn in
      s'.store.view
      ≡ update
          (update s.store.view bn (update d (bi / 32) (set_bit (d (bi / 32)) (bi % 32))))
          a
          (λ i. 0)

-- The bitmap block and the bit of a block, from where the bitmap block begins.
pub bit_place :
    (b bi : ℕ) → b % bpb ≡ 0 → bi < bpb → ((b + bi) / bpb ≡ b / bpb) × ((b + bi) % bpb ≡ bi)
bit_place b bi start l = omega arith

take_block-Allocated :
    (s s' : Fs) (b bi a : ℕ)
    → b % bpb ≡ 0
    → find_clear (block s (bblock b (sb_ninodes s))) (min bpb (sb_size s - b)) 0 ≡ some bi
    → take_block b bi s ≡ ok (a, s')
    → Allocated s a s'
unfolding take_block bzero
take_block-Allocated s s' b bi a start e h =
    let (s1, p1, h1) = >>=-eq-ok (put_block (bblock b (sb_ninodes s)) _ s) _ h in
    let (s2, p2, h2) = >>=-eq-ok (put_block (b + bi) (λ i. 0) s1) _ h1 in
    let (v1, i1) = put_block-ok (bblock b (sb_ninodes s)) _ s s1 p1 in
    let (v2, i2) = put_block-ok (b + bi) (λ i. 0) s1 s2 p2 in
    let t = ok-inj h2 in
    let (low, high, clear) = find_clear-found (block s (bblock b (sb_ninodes s))) _ 0 bi e in
    let (row, place) = bit_place b bi start (omega arith) in
    subst (λ r. Allocated s r.0 r.1) t
      (record {
        within = omega arith;
        was_free = rw (row, place) clear;
        same_inode = i2 ∙ i1;
        view = rw (row, place) (v2 ∙ ap (λ f. update f (b + bi) (λ i. 0)) v1);
      })

pub balloc_from-Allocated :
    (n b : ℕ) (s s' : Fs) (a : ℕ) → b % bpb ≡ 0 → balloc_from n b s ≡ ok (a, s') → Allocated s a s'
unfolding balloc_from
balloc_from-Allocated zero b s s' a start h = absurd (cc h)
balloc_from-Allocated (suc n) b s s' a start h =
    elim (Option-cases
      (find_clear (block s (bblock b (sb_ninodes s))) (min bpb (sb_size s - b)) 0)) [
        | inl e ↦ balloc_from-Allocated n (b + bpb) s s' a (omega arith) (rw (balloc_from, e) at h)
        | inr (bi, e) ↦ take_block-Allocated s s' b bi a start e (rw (balloc_from, e) at h)
      ]

-- With room in the log `take_block` returns.
take_block-returns :
    (s : Fs) (b bi : ℕ) → HasRoom s.log 2 → (s' : Fs) × (take_block b bi s ≡ ok (b + bi, s'))
unfolding take_block bzero
take_block-returns s b bi r =
    let bn = bblock b (sb_ninodes s) in
    let d = block s bn in
    let (s1, p1, r1) =
      put_block-returns bn (update d (bi / 32) (set_bit (d (bi / 32)) (bi % 32))) s 1 r in
    let (s2, p2, r2) = put_block-returns (b + bi) (λ i. 0) s1 0 r1 in
    (s2, rw (take_block, p1, bzero, p2) refl)

-- With room in the log the loop of `balloc` returns a block, or panics when every block that it looks at is in use.
pub balloc_from-returns :
    (n b : ℕ) (s : Fs)
    → b % bpb ≡ 0
    → HasRoom s.log 2
    → ((balloc_from n b s ≡ panic "balloc: out of blocks")
        × ((a : ℕ) → b ≤ a → a < b + n * bpb → a < sb_size s → is_used s a ≡ true))
      ⊎ ((a : ℕ) × (s' : Fs) × (balloc_from n b s ≡ ok (a, s')))
unfolding balloc_from
balloc_from-returns zero b s start r = inl (refl, λ a l u k. absurd (omega arith))
balloc_from-returns (suc n) b s start r =
    elim (Option-cases
      (find_clear (block s (bblock b (sb_ninodes s))) (min bpb (sb_size s - b)) 0)) [
        | inr (bi, e) ↦
            let (s', p) = take_block-returns s b bi r in inr (b + bi, s', rw (balloc_from, e) p)
        | inl e ↦ elim (balloc_from-returns n (b + bpb) s (omega arith) r) [
          | inr (a, s', p) ↦ inr (a, s', rw (balloc_from, e) p)
          | inl (p, used) ↦ inl (
            rw (balloc_from, e) p,
            λ a l u k. elim (Bool-cases (ltb a (b + bpb))) [
              | inl y ↦
                  let there : a < b + bpb = ground (arith, y) in
                  let (row, place) = bit_place b (a - b) start (omega arith) in
                  let same : b + (a - b) ≡ a = omega arith in
                  subst (λ x. is_used s x ≡ true) same
                    (rw (row, place)
                      (find_clear-none (block s (bblock b (sb_ninodes s))) _ 0 e (a - b)
                        (omega arith) (omega arith)))
              | inr y ↦ used a (ground arith) (omega arith) k
            ],
          )
        ]
      ]
