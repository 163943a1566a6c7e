-- ===== src/Fs/Marks.antt =====
-- Blocks: what `balloc` and `bfree` do to every bit of the bitmap.
use nunix.Prelude.{
  ℕ, ◌+◌, ◌-◌, ◌/◌, ◌%◌, ◌<◌, ◌≡◌, ◌≢◌, ◌⊎◌, refl, Bool, true, false, ◌==◌, ==→eq, if◌then◌else◌,
  update, ok, panic, inl, inr, arith, Bool-cases, ap, ap₂, ◌∙◌,
}
use nunix.Disk.{Block}
use nunix.Fs.Words.{set_bit, clear_bit}
use nunix.Fs.{Fs, block, sb_size, sb_ninodes, bpb, bblock, bitmap_bit, balloc, bfree}
use nunix.Log.Room.{HasRoom}
use nunix.Fs.Bitmap.{
  used_in, is_used, put_block-ok, set_in_bitmap, clear_in_bitmap, balloc_from-Allocated,
  balloc_from-returns, put_block-returns,
}

-- The superblock and the bitmap blocks are in use, as mkfs.c marks them.
pub record Reserved (s : Fs) : Type 0 where
  pub super_within : 1 < sb_size s
  pub super : is_used s 1 ≡ true
  pub bitmap_within : (b : ℕ) → b < sb_size s → bblock b (sb_ninodes s) < sb_size s
  pub bitmap : (b : ℕ) → b < sb_size s → is_used s (bblock b (sb_ninodes s)) ≡ true

same_row : (a b n : ℕ) → bblock a n ≡ bblock b n → ((a % bpb) == (b % bpb)) ≡ (a == b)
same_row a b n h = ground arith

other_row : (a b n : ℕ) → bblock a n ≢ bblock b n → (a == b) ≡ false
other_row a b n h = elim (Bool-cases (a == b)) [
  | inl e ↦ absurd (h (ap (λ x. bblock x n) (==→eq a b e)))
  | inr e ↦ e
]

-- Bit `b` when the word that holds the bit of `a` was changed in its bitmap block.
module _ (view : ℕ → Block) (a b n : ℕ) (f : ℕ → ℕ → ℕ) (v : Bool)
    (change : (d : Block) (bi bj : ℕ)
      → bitmap_bit (update d (bi / 32) (f (d (bi / 32)) (bi % 32))) bj
        ≡ (if bi == bj then v else bitmap_bit d bj)) where
  changed :
      let bn = bblock a n in
      let bi = a % bpb in
      used_in (update view bn (update (view bn) (bi / 32) (f (view bn (bi / 32)) (bi % 32)))) n b
      ≡ (if a == b then v else used_in view n b)
  changed = elim (Bool-cases (bblock a n == bblock b n)) [
    | inl e ↦
        let same = ==→eq (bblock a n) (bblock b n) e in
        rw e (
          change (view (bblock a n)) (a % bpb) (b % bpb)
          ∙ ap₂ (λ c d. if c then v else bitmap_bit d (b % bpb)) (same_row a b n same)
              (ap view same))
    | inr e ↦ rw (e, other_row a b n (λ h. ground (arith, h))) refl
  ]

-- What zeroing a block that is not a bitmap block leaves.
zeroed :
    (view : ℕ → Block) (a b n : ℕ)
    → a ≢ bblock b n
    → used_in (update view a (λ i. 0)) n b ≡ used_in view n b
zeroed view a b n apart = elim (Bool-cases (a == bblock b n)) [
  | inl e ↦ absurd (apart (==→eq a (bblock b n) e))
  | inr e ↦ rw e refl
]

differ : (s : Fs) (a b : ℕ) → is_used s a ≡ false → is_used s b ≡ true → a ≢ b
differ s a b free used e = cc (ap (is_used s) e)

update-ne : (view : ℕ → Block) (k : ℕ) (d : Block) (j : ℕ) → k ≢ j → update view k d j ≡ view j
update-ne view k d j apart = elim (Bool-cases (k == j)) [
  | inl e ↦ absurd (apart (==→eq k j e))
  | inr e ↦ rw e refl
]

update-eq : (view : ℕ → Block) (k : ℕ) (d : Block) → update view k d k ≡ d
update-eq view k d = elim (Bool-cases (k == k)) [
  | inl e ↦ rw e refl
  | inr e ↦ absurd (ground (arith, e))
]

-- The bitmap of `s'` is that of `s` but for the bit of `a`, which is `v`, and the superblock stays.
pub record Marked (s : Fs) (a : ℕ) (v : Bool) (s' : Fs) : Type 0 where
  pub same_inode : s'.inode ≡ s.inode
  pub same_super : block s' 1 ≡ block s 1
  pub bits : (b : ℕ) → b < sb_size s → is_used s' b ≡ (if a == b then v else is_used s b)
  pub others : (b : ℕ) → a ≢ b → bblock a (sb_ninodes s) ≢ b → block s' b ≡ block s b

balloc_marks :
    (s s' : Fs) (a : ℕ)
    → Reserved s
    → balloc s ≡ ok (a, s')
    → (a < sb_size s) × (is_used s a ≡ false) × (block s' a ≡ (λ i. 0)) × Marked s a true s'
unfolding balloc
balloc_marks s s' a r h =
    let n = sb_ninodes s in
    let bn = bblock a n in
    let got = balloc_from-Allocated ((sb_size s + bpb - 1) / bpb) 0 s s' a refl h in
    let mid =
      update s.store.view bn
        (update (block s bn) (a % bpb / 32) (set_bit (block s bn (a % bpb / 32)) (a % bpb % 32))) in
    let view' = got.view in
    let apart : (b : ℕ) → is_used s b ≡ true → a ≢ b = λ b u. differ s a b got.was_free u in
    let super : block s' 1 ≡ block s 1 =
      ap (λ f. f 1) view'
      ∙ update-ne mid a (λ i. 0) 1 (apart 1 r.super)
      ∙ update-ne s.store.view bn _ 1 (λ e. omega arith) in
    (
      got.within,
      got.was_free,
      ap (λ f. f a) view' ∙ update-eq mid a (λ i. 0),
      record {
        same_inode = got.same_inode;
        same_super = super;
        bits = λ b l.
            ap₂ (λ f d. used_in f (d 2) b) view' super
            ∙ zeroed mid a b n (apart (bblock b n) (r.bitmap b l))
            ∙ changed s.store.view a b n set_bit true set_in_bitmap;
        others = λ b e1 e2.
            ap (λ f. f b) view' ∙ update-ne mid a (λ i. 0) b e1 ∙ update-ne s.store.view bn _ b e2;
      },
    )

-- When a file system's superblock and bitmap blocks are marked in use, so they are after `balloc`.
balloc-Reserved : (s s' : Fs) (a : ℕ) → Reserved s → balloc s ≡ ok (a, s') → Reserved s'
balloc-Reserved s s' a r h =
    let (l, free, zeros, m) = balloc_marks s s' a r h in
    let stays : (b : ℕ) → b < sb_size s → is_used s b ≡ true → is_used s' b ≡ true =
      λ b k u. m.bits b k ∙ elim (Bool-cases (a == b)) [ inl e ↦ rw e refl | inr e ↦ rw e u ] in
    record {
      super_within = rw m.same_super r.super_within;
      super = stays 1 r.super_within r.super;
      bitmap_within = λ b k. rw m.same_super (r.bitmap_within b (rw m.same_super at k));
      bitmap = λ b k.
          ap (λ d. is_used s' (bblock b (d 2))) m.same_super
          ∙ stays (bblock b (sb_ninodes s)) (r.bitmap_within b (rw m.same_super at k))
              (r.bitmap b (rw m.same_super at k));
    }

-- In a file system whose superblock and bitmap blocks are marked in use, with room for two blocks in the log of an operation, `balloc` either
-- panics, when every block is in use, or returns a block inside the file system whose bit was clear. It fills the block with zeros, sets
-- exactly its bit, and changes no other block than this one and its bitmap block; the superblock and the bitmap blocks stay marked.
pub balloc-Marked :
    (s : Fs)
    → Reserved s
    → HasRoom s.log 2
    → ((balloc s ≡ panic "balloc: out of blocks") × ((a : ℕ) → a < sb_size s → is_used s a ≡ true))
      ⊎ ((a : ℕ) × (s' : Fs) × (balloc s ≡ ok (a, s'))
          × (a < sb_size s)
          × (is_used s a ≡ false)
          × (block s' a ≡ (λ i. 0))
          × Marked s a true s'
          × Reserved s')
unfolding balloc
balloc-Marked s r room = elim (balloc_from-returns ((sb_size s + bpb - 1) / bpb) 0 s refl room) [
  | inl (p, used) ↦ inl (p, λ a l. used a (omega arith) (omega arith) l)
  | inr (a, s', p) ↦
      let (l, free, zeros, m) = balloc_marks s s' a r p in
      inr (a, s', p, l, free, zeros, m, balloc-Reserved s s' a r p)
]

bfree_marks : (s s' : Fs) (b : ℕ) → is_used s b ≡ true → bfree b s ≡ ok s' → Marked s b false s'
unfolding bfree
bfree_marks s s' b e h =
    let n = sb_ninodes s in
    let bn = bblock b n in
    let (view', inodes) = put_block-ok bn _ s s' (rw (bfree, e) at h) in
    let super : block s' 1 ≡ block s 1 =
      ap (λ f. f 1) view' ∙ update-ne s.store.view bn _ 1 (λ e. omega arith) in
    record {
      same_inode = inodes;
      same_super = super;
      bits = λ j l.
          ap₂ (λ f d. used_in f (d 2) j) view' super
          ∙ changed s.store.view b j n clear_bit false clear_in_bitmap;
      others = λ j e1 e2. ap (λ f. f j) view' ∙ update-ne s.store.view bn _ j e2;
    }

-- With room for a block in the log of an operation, `bfree` panics for a block whose bit is clear; for another it returns, has cleared exactly
-- the bit of this block, and has changed no other block than its bitmap block.
pub bfree-Marked :
    (s : Fs) (b : ℕ)
    → HasRoom s.log 1
    → ((is_used s b ≡ false) × (bfree b s ≡ panic "freeing free block"))
      ⊎ ((is_used s b ≡ true) × ((s' : Fs) × (bfree b s ≡ ok s') × Marked s b false s'))
unfolding bfree
bfree-Marked s b r = elim (Bool-cases (is_used s b)) [
  | inl e ↦
      let d = block s (bblock b (sb_ninodes s)) in
      let bi = b % bpb in
      let (s', p, r1) =
        put_block-returns (bblock b (sb_ninodes s))
          (update d (bi / 32) (clear_bit (d (bi / 32)) (bi % 32))) s 0 r in
      let h : bfree b s ≡ ok s' = rw (bfree, e) p in inr (e, (s', h, bfree_marks s s' b e h))
  | inr e ↦ inl (e, rw (bfree, e) refl)
]
