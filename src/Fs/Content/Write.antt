-- ===== src/Fs/Content/Write.antt =====
-- `writei` over bytes whose blocks are allocated.
use mathlib.Core.Path.{subst}
use nunix.Prelude.{
  ℕ, zero, suc, ◌+◌, ◌-◌, ◌*◌, ◌/◌, ◌%◌, ◌<◌, ◌≤◌, ◌≡◌, ◌≢◌, refl, true, ◌==◌, ==→eq, ltb,
  if◌then◌else◌, update, ok, min, List, [], ◌∷◌, take, drop, length, get_or, length-take,
  length-drop, inl, inr, arith, Bool-cases, ap, ap₂, sym, ◌∙◌, ok-inj, >>=-eq-ok,
}
use nunix.Disk.{Block}
use nunix.Fs.{Fs, block, put_block}
use nunix.Log.Room.{HasRoom}
use nunix.Fs.Bitmap.{put_block-ok, put_block-returns}
use nunix.Fs.Inodes.Trunc.{ndirect}
use nunix.Fs.Content.{bsize, byte_at, put_bytes, chunk, write_blocks}
use nunix.Fs.Content.Bytes.{addr_of, Mapped, file_byte, eq_false, bmap-Mapped, byte_at-put_bytes}

-- No two of the first `hi` blocks of the file are one block, and none is the block of its indirect addresses.
pub record Apart (s : Fs) (i hi : ℕ) : Type 0 where
  pub distinct : (p q : ℕ) → p < hi → q < hi → addr_of s i p ≡ addr_of s i q → p ≡ q
  pub unlisted : (p : ℕ) → p < hi → ndirect < hi → addr_of s i p ≢ (s.inode i).addrs ndirect

-- The bytes of the file from `off` on are now `bs`; the others, the inodes and the blocks of the file are as they were.
pub record Written (s s' : Fs) (i hi off : ℕ) (bs : List ℕ) : Type 0 where
  pub same_inode : s'.inode ≡ s.inode
  pub same_addr : (p : ℕ) → p < hi → addr_of s' i p ≡ addr_of s i p
  pub bytes :
      (k : ℕ)
      → k < hi * bsize
      → file_byte s' i k ≡ (
          if ltb k off
          then file_byte s i k
          else if ltb k (off + length bs)
          then get_or bs (k - off) 0 % 256
          else file_byte s i k)

view-at :
    (view : ℕ → Block) (b : ℕ) (d : Block) (j : ℕ)
    → update view b d j ≡ (if b == j then d else view j)
view-at view b d j = refl

get_or-take : (n : ℕ) (bs : List ℕ) (k : ℕ) → k < n → get_or (take n bs) k 0 ≡ get_or bs k 0
get_or-take zero bs k l = absurd (omega arith)
get_or-take (suc n) [] k l = refl
get_or-take (suc n) (b ∷ bs) zero l = refl
get_or-take (suc n) (b ∷ bs) (suc k) l = get_or-take n bs k (omega arith)

get_or-drop : (n : ℕ) (bs : List ℕ) (k j : ℕ) → j ≡ n + k → get_or (drop n bs) k 0 ≡ get_or bs j 0
get_or-drop zero bs k j h = ap (λ x. get_or bs x 0) (omega arith)
get_or-drop (suc n) [] k j h = refl
get_or-drop (suc n) (b ∷ bs) k zero h = absurd (omega arith)
get_or-drop (suc n) (b ∷ bs) k (suc j) h = get_or-drop n bs k j (omega arith)

pub Mapped-Written :
    {s s' : Fs} {i hi off : ℕ} {bs : List ℕ}
    → Written s s' i hi off bs
    → Mapped s i hi
    → Mapped s' i hi
Mapped-Written {s} {s'} {i} w m = record {
  fits = m.fits;
  index = λ l e. m.index l (ap (λ t. (t i).addrs ndirect) (sym w.same_inode) ∙ e);
  there = λ p l e. m.there p l (sym (w.same_addr p l) ∙ e);
}

Apart-Written :
    {s s' : Fs} {i hi off : ℕ} {bs : List ℕ}
    → Written s s' i hi off bs
    → Apart s i hi
    → Apart s' i hi
Apart-Written {s} {s'} {i} w a = record {
  distinct = λ p q l k e. a.distinct p q l k (sym (w.same_addr p l) ∙ e ∙ w.same_addr q k);
  unlisted = λ p l k e.
      a.unlisted p l k (sym (w.same_addr p l) ∙ e ∙ ap (λ t. (t i).addrs ndirect) w.same_inode);
}

Written-nil : (s : Fs) (i hi off : ℕ) → Written s s i hi off []
Written-nil s i hi off = record {
  same_inode = refl;
  same_addr = λ p l. refl;
  bytes = λ k l. ground arith;
}

-- Two writes, one behind the other.
Written-next :
    {s s1 s' : Fs} {i hi off : ℕ} (n : ℕ) (bs : List ℕ)
    → n ≤ length bs
    → Written s s1 i hi off (take n bs)
    → Written s1 s' i hi (off + n) (drop n bs)
    → Written s s' i hi off bs
Written-next {s} {s1} {s'} {i} {hi} {off} n bs l a b = record {
  same_inode = b.same_inode ∙ a.same_inode;
  same_addr = λ p k. b.same_addr p k ∙ a.same_addr p k;
  bytes = λ k inside.
      b.bytes k inside
      ∙ ground (
        arith,
        a.bytes k inside,
        length-take n bs,
        length-drop n bs,
        get_or-take n bs (k - off),
        get_or-drop n bs (k - (off + n)) (k - off),
      );
}

-- The blocks of the file stay when one of them is written.
addr_of-put :
    (s s' : Fs) (i hi q p : ℕ) (d : Block)
    → Apart s i hi
    → q < hi
    → p < hi
    → s'.store.view ≡ update s.store.view (addr_of s i q) d
    → s'.inode ≡ s.inode
    → addr_of s' i p ≡ addr_of s i p
addr_of-put s s' i hi q p d a l k v e = elim (Bool-cases (ltb p ndirect)) [
  | inl y ↦ rw y (ap (λ t. (t i).addrs p) e)
  | inr y ↦ rw y (
      ap₂ (λ f t. f ((t i).addrs ndirect) (p - ndirect)) v e
      ∙ rw (eq_false (addr_of s i q) _ (a.unlisted q l (ground arith))) refl)
]

eq_true : (a b : ℕ) → a ≡ b → (a == b) ≡ true
eq_true a b h = ground arith

-- Offsets in the file and in a block of it.
same_place :
    (off k : ℕ)
    → off / bsize ≡ k / bsize
    → (k % bsize - off % bsize ≡ k - off)
      × ((n : ℕ) → ltb (k % bsize) (off % bsize + n) ≡ ltb k (off + n))
same_place off k h = (omega arith, λ n. ground arith)

-- The bytes of the file after bytes of one of its blocks were written.
bytes-put :
    (s s' : Fs) (i hi off : ℕ) (bs : List ℕ) (k : ℕ)
    → Apart s i hi
    → off / bsize < hi
    → off % bsize + length bs ≤ bsize
    → k < hi * bsize
    → s'.store.view
      ≡ update s.store.view
          (addr_of s i (off / bsize))
          (put_bytes (block s (addr_of s i (off / bsize))) (off % bsize) bs)
    → addr_of s' i (k / bsize) ≡ addr_of s i (k / bsize)
    → file_byte s' i k ≡ (
        if ltb k off
        then file_byte s i k
        else if ltb k (off + length bs)
        then get_or bs (k - off) 0 % 256
        else file_byte s i k)
bytes-put s s' i hi off bs k a l fits inside v same =
    ap₂ (λ f b. byte_at (f b) (k % bsize)) v same ∙ elim (Bool-cases (off / bsize == k / bsize)) [
      | inl e ↦
          let row : off / bsize ≡ k / bsize = ==→eq (off / bsize) (k / bsize) e in
          let there : (addr_of s i (off / bsize) == addr_of s i (k / bsize)) ≡ true =
            eq_true _ _ (ap (addr_of s i) row) in
          let (index, test) = same_place off k row in
          let front : ltb (k % bsize) (off % bsize) ≡ ltb k off = ground arith in
          let byte : byte_at (block s (addr_of s i (off / bsize))) (k % bsize) ≡ file_byte s i k =
            ap (λ q. byte_at (block s (addr_of s i q)) (k % bsize)) row in
          rw there (
            byte_at-put_bytes (block s (addr_of s i (off / bsize))) (off % bsize) bs (k % bsize)
            ∙ rw (front, test (length bs), index, byte) refl)
      | inr e ↦
          let apart : addr_of s i (off / bsize) ≢ addr_of s i (k / bsize) =
            λ x. ground (arith, a.distinct (off / bsize) (k / bsize) l (omega arith) x) in
          rw (eq_false _ _ apart) (ground arith)
    ]

-- The first `n` bytes are written to the block that `off` is in.
put-Written :
    (s s1 : Fs) (i hi off n : ℕ) (src : List ℕ)
    → Mapped s i hi
    → Apart s i hi
    → n ≤ length src
    → (off / bsize < hi) × (off % bsize + n ≤ bsize) × (off + n ≤ hi * bsize)
    → put_block
        (addr_of s i (off / bsize))
        (put_bytes (block s (addr_of s i (off / bsize))) (off % bsize) (take n src))
        s
      ≡ ok s1
    → Written s s1 i hi off (take n src)
put-Written s s1 i hi off n src m a short (within, fits, inside) p =
    let (v, inodes) = put_block-ok (addr_of s i (off / bsize)) _ s s1 p in
    let piece : length (take n src) ≡ n = length-take n src ∙ omega arith in
    record {
      same_inode = inodes;
      same_addr = λ r x. addr_of-put s s1 i hi (off / bsize) r _ a within x v inodes;
      bytes = λ j x.
          bytes-put s s1 i hi off (take n src) j a within (omega arith) x v
            (addr_of-put s s1 i hi (off / bsize) (j / bsize) _ a within (omega arith) v inodes);
    }

pub write_blocks-Written :
    (s s' : Fs) (i hi fuel off e : ℕ) (src : List ℕ)
    → Mapped s i hi
    → Apart s i hi
    → off + length src ≤ hi * bsize
    → length src ≤ fuel
    → write_blocks i fuel off src s ≡ ok (e, s')
    → (e ≡ off + length src) × Written s s' i hi off src
unfolding write_blocks
write_blocks-Written s s' i hi zero off e [] m a inside l h =
    let same = ok-inj h in
    (
      sym (ap (λ r. r.0) same) ∙ omega arith,
      subst (λ t. Written s t i hi off []) (ap (λ r. r.1) same) (Written-nil s i hi off),
    )
write_blocks-Written s s' i hi zero off e (c ∷ cs) m a inside l h = absurd (omega arith)
write_blocks-Written s s' i hi (suc fuel) off e [] m a inside l h =
    let same = ok-inj h in
    (
      sym (ap (λ r. r.0) same) ∙ omega arith,
      subst (λ t. Written s t i hi off []) (ap (λ r. r.1) same) (Written-nil s i hi off),
    )
write_blocks-Written s s' i hi (suc fuel) off e (c ∷ cs) m a inside l h =
    let src = c ∷ cs in
    let n = chunk off (length src) in
    let q = off / bsize in
    let within : q < hi = omega arith in
    let (s1, p, k) =
      >>=-eq-ok
        (put_block (addr_of s i q) (put_bytes (block s (addr_of s i q)) (off % bsize) (take n src))
          s)
        _ (rw (bmap-Mapped s i q hi m within) at h) in
    let first =
      put-Written s s1 i hi off n src m a (omega arith) (within, omega arith, omega arith) p in
    let left : length (drop n src) ≡ length src - n = length-drop n src in
    let (end, rest) =
      write_blocks-Written s1 s' i hi fuel (off + n) e (drop n src) (Mapped-Written first m)
        (Apart-Written first a) (omega arith) (omega arith) k in
    (omega arith, Written-next n src (omega arith) first rest)

-- how many blocks the loop of `writei` writes
abbrev pub rounds : ℕ → ℕ → ℕ
rounds off n = min n ((off % bsize + n + bsize - 1) / bsize)

-- With room in the log for its blocks the loop returns.
pub write_blocks-returns :
    (s : Fs) (i hi fuel off k : ℕ) (src : List ℕ)
    → Mapped s i hi
    → Apart s i hi
    → off + length src ≤ hi * bsize
    → length src ≤ fuel
    → rounds off (length src) ≤ k
    → HasRoom s.log k
    → (e : ℕ) × (s' : Fs) × (write_blocks i fuel off src s ≡ ok (e, s'))
unfolding write_blocks
write_blocks-returns s i hi zero off k src m a inside l few r = (off, s, refl)
write_blocks-returns s i hi (suc fuel) off k [] m a inside l few r = (off, s, refl)
write_blocks-returns s i hi (suc fuel) off zero (c ∷ cs) m a inside l few r = absurd (omega arith)
write_blocks-returns s i hi (suc fuel) off (suc k) (c ∷ cs) m a inside l few r =
    let src = c ∷ cs in
    let n = chunk off (length src) in
    let q = off / bsize in
    let within : q < hi = omega arith in
    let (s1, p, r1) =
      put_block-returns (addr_of s i q)
        (put_bytes (block s (addr_of s i q)) (off % bsize) (take n src)) s k r in
    let first =
      put-Written s s1 i hi off n src m a (omega arith) (within, omega arith, omega arith) p in
    let left : length (drop n src) ≡ length src - n = length-drop n src in
    let (e, s', rest) =
      write_blocks-returns s1 i hi fuel (off + n) k (drop n src) (Mapped-Written first m)
        (Apart-Written first a) (omega arith) (omega arith) (omega arith) r1 in
    (e, s', rw (write_blocks, bmap-Mapped s i q hi m within, p) rest)
