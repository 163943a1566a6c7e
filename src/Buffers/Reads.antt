-- ===== src/Buffers/Reads.antt =====
-- `bget` and `bread` as a whole.
use nunix.Prelude.{
  ℕ, ◌<◌, ◌≡◌, ◌≢◌, ◌⊎◌, refl, Bool, true, false, not, ◌&&◌, ◌==◌, ==→eq, ok, panic, List, inl, inr,
  arith, Bool-cases, ap, sym, ◌∙◌,
}
use nunix.Disk.{Store}
use nunix.Buffers.{
  Buf, Bcache, Blocks, Drive, nbuf, set_buf, is_block, recyclable, bget, got, asleep, ready,
  waiting, bread,
}
use nunix.Buffers.Ring.{update-other, update-same}
use nunix.Buffers.Search.{backwards, mem-backwards, forward, backward, first_in-mem}
use nunix.Buffers.View.{IsCache, written-IsCache}
use nunix.Buffers.Serve.{
  Elsewhere-refl, IsReady, IsServed, others_apart, busy_kept, read_buf-IsReady,
}

is_block-fields : (dev n : ℕ) (x : Buf) → is_block dev n x ≡ true → (x.dev ≡ dev) × (x.sector ≡ n)
is_block-fields dev n x h = (
  ==→eq x.dev dev (both (x.dev == dev) (x.sector == n) h).0,
  ==→eq x.sector n (both (x.dev == dev) (x.sector == n) h).1,
)
  where
    both : (a b : Bool) → (a && b) ≡ true → (a ≡ true) × (b ≡ true)
    both true b h = (refl, h)
    both false b h = absurd (cc h)

is_block-apart : (dev n : ℕ) (x : Buf) → is_block dev n x ≡ false → x.dev ≡ dev → x.sector ≢ n
is_block-apart dev n x h d e = absurd (ground (arith, h, d, e))

-- The buffer that `bget` hands out, before its data are read.
pub record IsTaken (dev n : ℕ) (order : List ℕ) (s : Store) (m : Blocks) (b : ℕ) (m' : Blocks)
    : Type 0 where
  pub cache : IsCache dev order m' s
  pub inside : b < nbuf
  pub was_idle : (m.cache.buf b).busy ≡ false
  pub busy : (m'.cache.buf b).busy ≡ true
  pub dev_of : (m'.cache.buf b).dev ≡ dev
  pub sector_of : (m'.cache.buf b).sector ≡ n
  pub unread : (m'.cache.buf b).valid ≡ false → s.view n ≡ s.disk n
  pub others : (i : ℕ) → b ≢ i → m'.cache.buf i ≡ m.cache.buf i

-- A buffer that can be recycled is idle and has no changes.
idle_and_clean : (x : Buf) → recyclable x ≡ true → x.busy ≡ false
idle_and_clean x h = go x.busy x.dirty h
  where
    go : (s t : Bool) → (not s && not t) ≡ true → s ≡ false
    go false t h = refl
    go true t h = absurd (cc h)

abbrev cached_buf : Buf → Buf
cached_buf x = record x { busy = true }

abbrev recycled_buf : ℕ → ℕ → Buf → Buf
recycled_buf dev n x = record {
  busy = true;
  valid = false;
  dirty = false;
  dev = dev;
  sector = n;
  block = x.block;
}

module _ (dev n : ℕ) (order : List ℕ) (s : Store) (m : Blocks) (c : IsCache dev order m s) where
  -- The block has a buffer that is idle.
  cached_buf-IsTaken :
      (b : ℕ)
      → b < nbuf
      → (m.cache.buf b).busy ≡ false
      → is_block dev n (m.cache.buf b) ≡ true
      → IsTaken dev n order s m b
          (record m { cache = set_buf b (cached_buf (m.cache.buf b)) m.cache })
  cached_buf-IsTaken b l idle h =
      let x = cached_buf (m.cache.buf b) in
      let (d, e) = is_block-fields dev n (m.cache.buf b) h in
      let at = update-same m.cache.buf b x in
      let apart = others_apart dev order m s b n c l d e in
      record {
        cache =
            written-IsCache dev order m s s c b n x m.disks l
              (record {
                its_dev = d;
                its_sector = e;
                its_data = λ y. c.held b l d y ∙ ap s.view e;
                its_load = c.loaded b l d;
                its_flag = c.flags b l d ∙ ap s.dirty e;
                its_disk = λ y. absurd (busy_kept x refl y);
              })
              (Elsewhere-refl n s) apart (λ y ne. absurd (ne e)) c.on_disk;
        inside = l;
        was_idle = idle;
        busy = ap (λ y. y.busy) at;
        dev_of = ap (λ y. y.dev) at ∙ d;
        sector_of = ap (λ y. y.sector) at ∙ e;
        unread = λ y. c.clean n (λ i li di ei. elim (Bool-cases (b == i)) [
          | inl same ↦
              ap (λ j. recyclable (m.cache.buf j)) (sym (==→eq b i same))
              ∙ idle_clean (ap (λ z. z.valid) (sym at) ∙ y) d idle
          | inr other ↦ absurd (apart i li (λ p. absurd (ground (arith, other, p))) di ei)
        ]);
        others = λ i ne. update-other m.cache.buf b i x ne;
      }
    where
      idle_clean :
          (m.cache.buf b).valid ≡ false
          → (m.cache.buf b).dev ≡ dev
          → (m.cache.buf b).busy ≡ false
          → recyclable (m.cache.buf b) ≡ true
      idle_clean invalid d idle = elim (Bool-cases (m.cache.buf b).dirty) [
        | inl h ↦ let y = c.loaded b l d h in absurd (cc (y, invalid))
        | inr h ↦ rw (idle, h) refl
      ]

  -- The block has no buffer, and one can be recycled.
  recycled_buf-IsTaken :
      (b : ℕ)
      → b < nbuf
      → recyclable (m.cache.buf b) ≡ true
      → ((i : ℕ) → i < nbuf → (m.cache.buf i).dev ≡ dev → (m.cache.buf i).sector ≢ n)
      → IsTaken dev n order s m b
          (record m { cache = set_buf b (recycled_buf dev n (m.cache.buf b)) m.cache })
  recycled_buf-IsTaken b l can none_has =
      let x = recycled_buf dev n (m.cache.buf b) in
      let at = update-same m.cache.buf b x in
      record {
        cache =
            written-IsCache dev order m s s c b n x m.disks l
              (record {
                its_dev = refl;
                its_sector = refl;
                its_data = λ y. absurd (cc y);
                its_load = λ y. absurd (cc y);
                its_flag = sym (c.unlisted n none_has);
                its_disk = λ y. absurd (busy_kept x refl y);
              })
              (Elsewhere-refl n s) (λ i li ne. none_has i li) (λ d ne. can) c.on_disk;
        inside = l;
        was_idle = idle_and_clean (m.cache.buf b) can;
        busy = ap (λ y. y.busy) at;
        dev_of = ap (λ y. y.dev) at;
        sector_of = ap (λ y. y.sector) at;
        unread = λ y. c.clean n (λ i li di ei. absurd (none_has i li di ei));
        others = λ i ne. update-other m.cache.buf b i x ne;
      }

  pub bget-IsTaken :
      ((b : ℕ) × (b < nbuf)
        × (bget dev n m.cache ≡ ok (asleep b))
        × ((m.cache.buf b).busy ≡ true)
        × (is_block dev n (m.cache.buf b) ≡ true))
      ⊎ ((b : ℕ) × (c' : Bcache) × (bget dev n m.cache ≡ ok (got b c'))
          × IsTaken dev n order s m b (record m { cache = c' }))
      ⊎ ((bget dev n m.cache ≡ panic "bget: no buffers")
          × ((i : ℕ)
              → i < nbuf
              → (is_block dev n (m.cache.buf i) ≡ false) × (recyclable (m.cache.buf i) ≡ false)))
  unfolding bget
  bget-IsTaken = elim (first_in-mem (is_block dev n) m.cache.buf order) [
    | inl (b, h, mm, t) ↦
        let found = forward (is_block dev n) m.cache order c.ring ∙ h in
        let l = (c.ring.covers b).1 mm in
        elim (Bool-cases (m.cache.buf b).busy) [
          | inl busy ↦ inl (b, l, rw (bget, found, busy) refl, busy, t)
          | inr idle ↦ inr (
              inl (
                b,
                set_buf b (cached_buf (m.cache.buf b)) m.cache,
                rw (bget, found, idle) refl,
                cached_buf-IsTaken b l idle t,
              ))
        ]
    | inr (h, none_is) ↦
        let missing = forward (is_block dev n) m.cache order c.ring ∙ h in
        let none_has : (i : ℕ) → i < nbuf → is_block dev n (m.cache.buf i) ≡ false =
          λ i l. none_is i ((c.ring.covers i).0 l) in
        elim (first_in-mem recyclable m.cache.buf (backwards order)) [
          | inl (b, h', mm, t) ↦
              let found = backward recyclable m.cache order c.ring ∙ h' in
              let l = (c.ring.covers b).1 (sym (mem-backwards b order) ∙ mm) in
              inr (
                inl (
                  b,
                  set_buf b (recycled_buf dev n (m.cache.buf b)) m.cache,
                  rw (bget, missing, found) refl,
                  recycled_buf-IsTaken b l t
                      (λ i li. is_block-apart dev n (m.cache.buf i) (none_has i li)),
                ))
          | inr (h', none_can) ↦
              let found = backward recyclable m.cache order c.ring ∙ h' in
              inr (
                inr (
                  rw (bget, missing, found) refl,
                  λ i l. (none_has i l, none_can i (mem-backwards i order ∙ (c.ring.covers i).0 l)),
                ))
        ]
  ]

-- What a turn of `bread` comes to.
pub data Turn (drive : Drive) (dev n : ℕ) (order : List ℕ) (s : Store) (m : Blocks) : Type 0 where
  waits :
      (b : ℕ)
      → b < nbuf
      → bread drive dev n m ≡ ok (waiting b)
      → (m.cache.buf b).busy ≡ true
      → is_block dev n (m.cache.buf b) ≡ true
      → Turn drive dev n order s m
  serves :
      (b : ℕ) (m' : Blocks)
      → bread drive dev n m ≡ ok (ready b m')
      → (m.cache.buf b).busy ≡ false
      → IsCache dev order m' s
      → IsReady dev n s b m'
      → ((i : ℕ) → b ≢ i → m'.cache.buf i ≡ m.cache.buf i)
      → Turn drive dev n order s m
  fails :
      bread drive dev n m ≡ panic "bget: no buffers"
      → ((i : ℕ)
          → i < nbuf
          → (is_block dev n (m.cache.buf i) ≡ false) × (recyclable (m.cache.buf i) ≡ false))
      → Turn drive dev n order s m

-- A turn of `bread` on a cache that stands for the store, for a sector that the drive can read. It sleeps on the buffer of the block
-- when that is busy; it panics when no buffer is for the block and every one is busy or dirty; else it hands out a buffer
-- that was idle and now is busy, with the data that `Disk.bread` gives. Then the cache stands for the same store
-- in the same order, and the other buffers are as before.
pub bread-Turn :
    (drive : Drive) (dev n : ℕ) (order : List ℕ) (s : Store) (m : Blocks)
    → IsCache dev order m s
    → IsServed drive dev n
    → Turn drive dev n order s m
unfolding bread
bread-Turn drive dev n order s m c v = elim (bget-IsTaken dev n order s m c) [
  | inl (b, l, e, busy, t) ↦ waits b l (rw (bread, e) refl) busy t
  | inr (inl (b, c', e, k)) ↦
      let (m', h, c'', r, same) =
        read_buf-IsReady drive dev n order s v (record m { cache = c' }) b k.cache k.inside k.busy
          k.dev_of k.sector_of k.unread in
      serves b m' (rw (bread, e) h) k.was_idle c'' r (λ i ne. same i ne ∙ k.others i ne)
  | inr (inr (e, none_left)) ↦ fails (rw (bread, e) refl) none_left
]
