-- ===== src/Buffers/Serve.antt =====
-- `bread` on all of its branches, against `Disk.bread`.
use nunix.Prelude.{
  ℕ, ◌%◌, ◌^◌, ◌<◌, ◌≡◌, ◌≢◌, ◌⊎◌, refl, true, false, not, ◌&&◌, ◌==◌, if◌then◌else◌, ok, List, inl,
  inr, arith, Bool-cases, ap, sym, ◌∙◌,
}
use nunix.Disk.{Block, Store}
use nunix.Buffers.{Buf, Blocks, Drive, nbuf, set_buf, recyclable, iderw, ready, read_buf}
use nunix.Buffers.Ring.{update-other, update-same}
use nunix.Buffers.View.{IsCache, Elsewhere, written-IsCache}

pub Elsewhere-refl : (n : ℕ) (s : Store) → Elsewhere n s s
Elsewhere-refl n s = record {
  same_view = λ o e. refl;
  same_disk = λ o e. refl;
  same_dirty = λ o e. refl;
}

-- The buffer that `bread` hands out: busy, and with the data of its block.
pub record IsReady (dev n : ℕ) (s : Store) (b : ℕ) (m : Blocks) : Type 0 where
  pub inside : b < nbuf
  pub busy : (m.cache.buf b).busy ≡ true
  pub valid : (m.cache.buf b).valid ≡ true
  pub dev_of : (m.cache.buf b).dev ≡ dev
  pub sector_of : (m.cache.buf b).sector ≡ n
  pub data_of : (m.cache.buf b).block ≡ nunix.Disk.bread s n

-- A drive that has the disk of the device and can read the sector.
pub record IsServed (drive : Drive) (dev n : ℕ) : Type 0 where
  pub present : (not (dev == 0) && not drive.havedisk1) ≡ false
  pub can_read : drive.readable (dev % 2) n ≡ true
  pub in_range : n < 2 ^ 28

-- The other buffers of the device are for other blocks.
pub others_apart :
    (dev : ℕ) (order : List ℕ) (m : Blocks) (s : Store) (b n : ℕ)
    → IsCache dev order m s
    → b < nbuf
    → (m.cache.buf b).dev ≡ dev
    → (m.cache.buf b).sector ≡ n
    → (i : ℕ) → i < nbuf
    → b ≢ i
    → (m.cache.buf i).dev ≡ dev
    → (m.cache.buf i).sector ≢ n
others_apart dev order m s b n c l d e i li ne di ei = ne (c.unique b i l li d di (e ∙ sym ei))

-- A busy buffer is not to be recycled.
pub busy_kept : (x : Buf) → x.busy ≡ true → recyclable x ≡ true → ⊥
busy_kept x b h = cc (ap (λ t. not t && not x.dirty) b, h)

-- The buffer after a read of its sector.
abbrev loaded_buf : Drive → ℕ → Blocks → Buf
loaded_buf drive b m =
    let x = m.cache.buf b in
    record x {
      valid = true;
      block =
          if drive.readable (x.dev % 2) (x.sector % 2 ^ 28)
          then m.disks (x.dev % 2) (x.sector % 2 ^ 28)
          else x.block;
    }

iderw-read :
    (drive : Drive) (b : ℕ) (m : Blocks)
    → (m.cache.buf b).busy ≡ true
    → (m.cache.buf b).valid ≡ false
    → (m.cache.buf b).dirty ≡ false
    → (not ((m.cache.buf b).dev == 0) && not drive.havedisk1) ≡ false
    → iderw drive b m ≡ ok (record m { cache = set_buf b (loaded_buf drive b m) m.cache })
unfolding iderw
iderw-read drive b m busy valid dirty present = rw (busy, valid, present, dirty) refl

module _ (drive : Drive) (dev n : ℕ) (order : List ℕ) (s : Store) (v : IsServed drive dev n) where
  pub read_buf-IsReady :
      (m : Blocks) (b : ℕ)
      → IsCache dev order m s
      → b < nbuf
      → (m.cache.buf b).busy ≡ true
      → (m.cache.buf b).dev ≡ dev
      → (m.cache.buf b).sector ≡ n
      → ((m.cache.buf b).valid ≡ false → s.view n ≡ s.disk n)
      → (m' : Blocks) × (read_buf drive b m ≡ ok (ready b m'))
        × IsCache dev order m' s
        × IsReady dev n s b m'
        × ((i : ℕ) → b ≢ i → m'.cache.buf i ≡ m.cache.buf i)
  unfolding read_buf
  read_buf-IsReady m b c l busy d e fresh = elim (Bool-cases (m.cache.buf b).valid) [
    | inl valid ↦ (
      m,
      rw (read_buf, valid) refl,
      c,
      record {
        inside = l;
        busy = busy;
        valid = valid;
        dev_of = d;
        sector_of = e;
        data_of = c.held b l d valid ∙ ap s.view e;
      },
      λ i ne. refl,
    )
    | inr invalid ↦
        let x = loaded_buf drive b m in
        let dirty = clean_of (Bool-cases (m.cache.buf b).dirty) invalid in
        let read =
          iderw-read drive b m busy invalid dirty
            (ap (λ t. not (t == 0) && not drive.havedisk1) d ∙ v.present) in
        let block = got_block ∙ sym (fresh invalid) in
        let at = update-same m.cache.buf b x in
        (
          record m { cache = set_buf b x m.cache },
          rw (read_buf, read, invalid) refl,
          written-IsCache dev order m s s c b n x m.disks l
              (record {
                its_dev = d;
                its_sector = e;
                its_data = λ y. block;
                its_load = λ y. refl;
                its_flag = c.flags b l d ∙ ap s.dirty e;
                its_disk = λ y. fresh invalid;
              })
              (Elsewhere-refl n s) (others_apart dev order m s b n c l d e) (λ y ne. absurd (ne e))
              c.on_disk,
          record {
            inside = l;
            busy = ap (λ y. y.busy) at ∙ busy;
            valid = ap (λ y. y.valid) at;
            dev_of = ap (λ y. y.dev) at ∙ d;
            sector_of = ap (λ y. y.sector) at ∙ e;
            data_of = ap (λ y. y.block) at ∙ block;
          },
          λ i ne. update-other m.cache.buf b i x ne,
        )
  ]
    where
      clean_of :
          ((m.cache.buf b).dirty ≡ true) ⊎ ((m.cache.buf b).dirty ≡ false)
          → (m.cache.buf b).valid ≡ false
          → (m.cache.buf b).dirty ≡ false
      clean_of (inl h) invalid = let y = c.loaded b l d h in cc (y, invalid)
      clean_of (inr h) invalid = h

      got_block : (loaded_buf drive b m).block ≡ s.disk n
      got_block =
          let range = v.in_range in
          let whole : n % 2 ^ 28 ≡ n = omega arith in
          let place = ap (λ t. t % 2 ^ 28) e ∙ whole in
          rw (d, place, v.can_read) (c.on_disk n range)
