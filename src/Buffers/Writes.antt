-- ===== src/Buffers/Writes.antt =====
-- What a caller does with a buffer that it holds: new data, B_DIRTY, `bwrite` and `brelse`.
use nunix.Prelude.{
  ℕ, ◌%◌, ◌^◌, ◌<◌, ◌≡◌, refl, Bool, true, false, not, ◌&&◌, ◌==◌, if◌then◌else◌, update, ok, panic,
  List, arith, ap, sym, ◌∙◌,
}
use nunix.Disk.{Block, Store, modify}
use nunix.Buffers.{Blocks, Drive, set_buf, recyclable, iderw, bwrite}
use nunix.Buffers.Ring.{update-other, update-same}
use nunix.Buffers.View.{IsCache, written-IsCache}
use nunix.Buffers.Serve.{IsReady, IsServed, others_apart, busy_kept}

-- The caller writes the data of a buffer, and sets its B_DIRTY.
abbrev pub put_data : ℕ → Block → Blocks → Blocks
put_data b d m = record m { cache = set_buf b (record (m.cache.buf b) { block = d }) m.cache }

abbrev pub put_dirty : ℕ → Blocks → Blocks
put_dirty b m = record m { cache = set_buf b (record (m.cache.buf b) { dirty = true }) m.cache }

-- the store in which callers see the new data
abbrev seen : Store → ℕ → Block → Store
seen s n d = record s { view = update s.view n d }

iderw-write :
    (drive : Drive) (b : ℕ) (m : Blocks) (dev n : ℕ)
    → (m.cache.buf b).busy ≡ true
    → (m.cache.buf b).valid ≡ true
    → (m.cache.buf b).dirty ≡ true
    → (not ((m.cache.buf b).dev == 0) && not drive.havedisk1) ≡ false
    → (m.cache.buf b).dev ≡ dev
    → (m.cache.buf b).sector % 2 ^ 28 ≡ n
    → iderw drive b m
      ≡ ok (record {
        cache = set_buf b (record (m.cache.buf b) { valid = true; dirty = false }) m.cache;
        disks = update m.disks (dev % 2) (update (m.disks (dev % 2)) n (m.cache.buf b).block);
      })
unfolding iderw
iderw-write drive b m dev n busy valid dirty present d e =
    rw (present, busy, valid, dirty, d, e) refl

bwrite-iderw :
    (drive : Drive) (b : ℕ) (m : Blocks)
    → (m.cache.buf b).busy ≡ true
    → bwrite drive b m ≡ iderw drive b (put_dirty b m)
unfolding bwrite
bwrite-iderw drive b m busy =
    ap (λ t. if not t then panic "bwrite" else iderw drive b (put_dirty b m)) busy

module _ (drive : Drive) (dev n : ℕ) (order : List ℕ) (s : Store) (m : Blocks) (b : ℕ) (d : Block)
    (c : IsCache dev order m s) (r : IsReady dev n s b m) where
  abbrev filled : Blocks
  filled = put_data b d m

  at_filled : filled.cache.buf b ≡ record (m.cache.buf b) { block = d }
  at_filled = update-same m.cache.buf b (record (m.cache.buf b) { block = d })

  filled-IsCache : IsCache dev order filled (seen s n d)
  filled-IsCache =
      let busy = r.busy in
      let l = r.inside in
      let di = r.dev_of in
      let e = r.sector_of in
      written-IsCache dev order m s (seen s n d) c b n (record (m.cache.buf b) { block = d })
        m.disks l
        (record {
          its_dev = di;
          its_sector = e;
          its_data = λ y. sym (update-same s.view n d);
          its_load = c.loaded b l di;
          its_flag = c.flags b l di ∙ ap s.dirty e;
          its_disk = λ y. absurd (busy_kept (m.cache.buf b) busy y);
        })
        (record {
          same_view = λ o ne. update-other s.view n o d ne;
          same_disk = λ o ne. refl;
          same_dirty = λ o ne. refl;
        })
        (others_apart dev order m s b n c l di e) (λ y ne. absurd (ne e)) c.on_disk

  abbrev marked : Blocks
  marked = put_dirty b filled

  at_marked : marked.cache.buf b ≡ record (filled.cache.buf b) { dirty = true }
  at_marked = update-same filled.cache.buf b (record (filled.cache.buf b) { dirty = true })

  -- As log_write leaves it.
  pub marked-IsCache : IsCache dev order marked (modify s n d)
  unfolding modify
  marked-IsCache =
      let l = r.inside in
      let di = ap (λ y. y.dev) at_filled ∙ r.dev_of in
      let e = ap (λ y. y.sector) at_filled ∙ r.sector_of in
      let f = filled-IsCache in
      let busy = ap (λ y. y.busy) at_filled ∙ r.busy in
      let valid = ap (λ y. y.valid) at_filled ∙ r.valid in
      written-IsCache dev order filled (seen s n d) (modify s n d) f b n
        (record (filled.cache.buf b) { dirty = true }) m.disks l
        (record {
          its_dev = di;
          its_sector = e;
          its_data = λ y. f.held b l di valid ∙ ap (seen s n d).view e;
          its_load = λ y. valid;
          its_flag = sym (update-same s.dirty n true);
          its_disk = λ y. absurd (busy_kept (filled.cache.buf b) busy (still y));
        })
        (record {
          same_view = λ o ne. refl;
          same_disk = λ o ne. refl;
          same_dirty = λ o ne. update-other s.dirty n o true ne;
        })
        (others_apart dev order filled (seen s n d) b n f l di e) (λ y ne. absurd (ne e)) c.on_disk
    where
      still :
          recyclable (record (filled.cache.buf b) { dirty = true }) ≡ true
          → recyclable (filled.cache.buf b) ≡ true
      still h = absurd (never (filled.cache.buf b).busy h)
        where
          never : (t : Bool) → (not t && not true) ≡ true → ⊥
          never true h = cc h
          never false h = cc h

  module _ (v : IsServed drive dev n) where
    abbrev pub stored : Blocks
    stored = record {
      cache = set_buf b (record (marked.cache.buf b) { valid = true; dirty = false }) marked.cache;
      disks = update m.disks (dev % 2) (update (m.disks (dev % 2)) n (marked.cache.buf b).block);
    }

    marked_data : (marked.cache.buf b).block ≡ d
    marked_data = ap (λ y. y.block) at_marked ∙ ap (λ y. y.block) at_filled

    bwrite_runs : bwrite drive b filled ≡ ok stored
    bwrite_runs =
        let range = v.in_range in
        let whole : n % 2 ^ 28 ≡ n = omega arith in
        let di = ap (λ y. y.dev) at_marked ∙ ap (λ y. y.dev) at_filled ∙ r.dev_of in
        let e =
          ap (λ y. y.sector % 2 ^ 28) at_marked
          ∙ ap (λ y. y.sector % 2 ^ 28) at_filled
          ∙ ap (λ t. t % 2 ^ 28) r.sector_of
          ∙ whole in
        let busy = ap (λ y. y.busy) at_filled ∙ r.busy in
        bwrite-iderw drive b filled busy
        ∙ iderw-write drive b marked dev n (ap (λ y. y.busy) at_marked ∙ busy)
            (ap (λ y. y.valid) at_marked ∙ ap (λ y. y.valid) at_filled ∙ r.valid)
            (ap (λ y. y.dirty) at_marked)
            (ap (λ t. not (t == 0) && not drive.havedisk1) di ∙ v.present) di e

    stored-IsCache : IsCache dev order stored (nunix.Disk.bwrite s n d)
    unfolding nunix.Disk.bwrite modify
    stored-IsCache =
        let l = r.inside in
        let f = marked-IsCache in
        let di = ap (λ y. y.dev) at_marked ∙ ap (λ y. y.dev) at_filled ∙ r.dev_of in
        let e = ap (λ y. y.sector) at_marked ∙ ap (λ y. y.sector) at_filled ∙ r.sector_of in
        let s' = nunix.Disk.bwrite s n d in
        written-IsCache dev order marked (modify s n d) s' f b n
          (record (marked.cache.buf b) { valid = true; dirty = false })
          (update m.disks (dev % 2) (update (m.disks (dev % 2)) n (marked.cache.buf b).block)) l
          (record {
            its_dev = di;
            its_sector = e;
            its_data = λ y. marked_data ∙ sym (update-same s.view n d);
            its_load = λ y. refl;
            its_flag = sym (update-same s.dirty n false);
            its_disk = λ y. update-same s.view n d ∙ sym (update-same s.disk n d);
          })
          (record {
            same_view = λ o ne. refl;
            same_disk = λ o ne. update-other s.disk n o d ne;
            same_dirty =
                λ o ne. update-other s.dirty n o false ne ∙ sym (update-other s.dirty n o true ne);
          })
          (others_apart dev order marked (modify s n d) b n f l di e) (λ y ne. absurd (ne e))
          (λ o lo. now o lo)
      where
        now :
            (o : ℕ)
            → o < 2 ^ 28
            → update m.disks
                (dev % 2)
                (update (m.disks (dev % 2)) n (marked.cache.buf b).block)
                (dev % 2)
                o
              ≡ update s.disk n d o
        now o lo =
            ap (λ f. f o)
              (update-same m.disks (dev % 2)
                (update (m.disks (dev % 2)) n (marked.cache.buf b).block))
            ∙ ap (λ t. update (m.disks (dev % 2)) n t o) marked_data
            ∙ ap (λ t. if n == o then d else t) (c.on_disk o lo)

    stored-IsReady : IsReady dev n (nunix.Disk.bwrite s n d) b stored
    unfolding nunix.Disk.bwrite
    stored-IsReady =
        let at =
          update-same marked.cache.buf b
            (record (marked.cache.buf b) { valid = true; dirty = false }) in
        record {
          inside = r.inside;
          busy =
              ap (λ y. y.busy) at
              ∙ ap (λ y. y.busy) at_marked
              ∙ ap (λ y. y.busy) at_filled
              ∙ r.busy;
          valid = ap (λ y. y.valid) at;
          dev_of =
              ap (λ y. y.dev) at ∙ ap (λ y. y.dev) at_marked ∙ ap (λ y. y.dev) at_filled ∙ r.dev_of;
          sector_of =
              ap (λ y. y.sector) at
              ∙ ap (λ y. y.sector) at_marked
              ∙ ap (λ y. y.sector) at_filled
              ∙ r.sector_of;
          data_of = ap (λ y. y.block) at ∙ marked_data ∙ sym (update-same s.view n d);
        }

    -- Let a cache stand for a store, and a caller put new data into a buffer that it holds as `bread` gave it, for a sector of a disk that is there. With `bwrite` of it the cache
    -- stands for what `Disk.bwrite` makes of the store, and the caller still has the buffer; with B_DIRTY set
    -- instead, for what `Disk.modify` makes of it.
    pub bwrite-stores :
        ((m' : Blocks) × (bwrite drive b (put_data b d m) ≡ ok m')
          × IsCache dev order m' (nunix.Disk.bwrite s n d)
          × IsReady dev n (nunix.Disk.bwrite s n d) b m')
        × IsCache dev order (put_dirty b (put_data b d m)) (modify s n d)
    bwrite-stores = ((stored, bwrite_runs, stored-IsCache, stored-IsReady), marked-IsCache)
