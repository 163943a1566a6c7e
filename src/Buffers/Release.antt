-- ===== src/Buffers/Release.antt =====
-- `brelse`: the buffer is idle again, and the first of the list.
use nunix.Prelude.{ℕ, ◌≡◌, true, false, not, if◌then◌else◌, ok, panic, List, ◌∷◌, ◌++◌, ap, ◌∙◌}
use nunix.Disk.{Store}
use nunix.Buffers.{Bcache, Blocks, set_buf, brelse, insert_front, unlink_buf}
use nunix.Buffers.Ring.{update-same}
use nunix.Buffers.Turns.{to_front-IsRing}
use nunix.Buffers.View.{IsCache, not_dirty, written-IsCache}
use nunix.Buffers.Serve.{Elsewhere-refl, IsReady, others_apart}

abbrev front : ℕ → Blocks → Blocks
front b m = record m { cache = insert_front b (unlink_buf b m.cache) }

front-IsCache :
    (dev : ℕ) (m : Blocks) (s : Store) (b : ℕ) (xs ys : List ℕ)
    → IsCache dev (xs ++ b ∷ ys) m s
    → IsCache dev (b ∷ xs ++ ys) (front b m) s
front-IsCache dev m s b xs ys c = record {
  ring = to_front-IsRing m.cache b xs ys c.ring;
  unique = c.unique;
  held = c.held;
  loaded = c.loaded;
  flags = c.flags;
  unlisted = c.unlisted;
  clean = c.clean;
  on_disk = c.on_disk;
}

brelse_runs :
    (b : ℕ) (c : Bcache)
    → (c.buf b).busy ≡ true
    → brelse b c
      ≡ ok (set_buf b (record (c.buf b) { busy = false }) (insert_front b (unlink_buf b c)))
unfolding brelse
brelse_runs b c busy =
    ap
      (λ t.
        if not t
        then panic "brelse"
        else ok (set_buf b (record (c.buf b) { busy = false }) (insert_front b (unlink_buf b c))))
      busy

-- When the holder of a buffer has changed nothing, or has written its changes, or has marked them with B_DIRTY, `brelse` makes the buffer idle: the
-- cache stands for the same store, and the list is as before but for the buffer, which comes to the front.
pub brelse-IsCache :
    (dev n : ℕ) (s : Store) (m : Blocks) (b : ℕ) (xs ys : List ℕ)
    → IsCache dev (xs ++ b ∷ ys) m s
    → IsReady dev n s b m
    → ((m.cache.buf b).dirty ≡ false → s.view n ≡ s.disk n)
    → (c' : Bcache) × (brelse b m.cache ≡ ok c')
      × IsCache dev (b ∷ xs ++ ys) (record m { cache = c' }) s
      × ((c'.buf b).busy ≡ false)
brelse-IsCache dev n s m b xs ys c r kept =
    let busy = r.busy in
    let l = r.inside in
    let d = r.dev_of in
    let e = r.sector_of in
    let f = front-IsCache dev m s b xs ys c in
    let x = record (m.cache.buf b) { busy = false } in
    (
      set_buf b x (insert_front b (unlink_buf b m.cache)),
      brelse_runs b m.cache busy,
      written-IsCache dev (b ∷ xs ++ ys) (front b m) s s f b n x m.disks l
          (record {
            its_dev = d;
            its_sector = e;
            its_data = λ y. c.held b l d y ∙ ap s.view e;
            its_load = c.loaded b l d;
            its_flag = c.flags b l d ∙ ap s.dirty e;
            its_disk = λ y. kept (not_dirty x y);
          })
          (Elsewhere-refl n s) (others_apart dev (b ∷ xs ++ ys) (front b m) s b n f l d e)
          (λ y ne. absurd (ne e)) c.on_disk,
      ap (λ y. y.busy) (update-same m.cache.buf b x),
    )
