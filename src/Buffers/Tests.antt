-- ===== src/Buffers/Tests.antt =====
-- The theorems on bio.c after `binit`, and with a buffer handed out.
use nunix.Prelude.{ℕ, ◌≡◌, ◌≢◌, refl, true, false, ok, [], ◌∷◌, arith, sym, ◌∙◌}
use nunix.Disk.{Block, Store, reboot, modify}
use nunix.Buffers.{Buf, Bcache, Blocks, Drive, nbuf, no_dev, set_buf, binit, bwrite, brelse}
use nunix.Buffers.View.{IsCache, written-IsCache}
use nunix.Buffers.Serve.{Elsewhere-refl, IsReady, IsServed, busy_kept}
use nunix.Buffers.Reads.{Turn, bread-Turn}
use nunix.Buffers.Writes.{put_data, put_dirty, bwrite-stores}
use nunix.Buffers.Release.{brelse-IsCache}
use nunix.Buffers.Boot.{down, binit-dev, binit-IsCache}

abbrev one_disk : Drive
one_disk = record { havedisk1 = false; readable = λ u n. true }

abbrev zeros : Bcache
zeros = record {
  buf = λ i. record {
    busy = false;
    valid = false;
    dirty = false;
    dev = 0;
    sector = 0;
    block = λ k. 0;
  };
  next = λ i. 0;
  prev = λ i. 0;
}

-- each sector filled with its number
abbrev numbered : ℕ → ℕ → Block
numbered u n k = n

abbrev booted : Blocks
booted = record { cache = binit zeros; disks = numbered }

abbrev disk : Store
disk = reboot (numbered 0)

booted-IsCache : IsCache 0 (down nbuf) booted disk
booted-IsCache = binit-IsCache 0 zeros numbered (λ e. absurd (omega arith))

fifth-IsServed : IsServed one_disk 0 5
fifth-IsServed = record { present = refl; can_read = refl; in_range = omega arith }

bread-Turn_example : Turn one_disk 0 5 (down nbuf) disk booted
bread-Turn_example = bread-Turn one_disk 0 5 (down nbuf) disk booted booted-IsCache fifth-IsServed

-- Buffer 28, which is the second of the list, is handed out for sector 5.
abbrev fifth : Buf
fifth = record { busy = true; valid = true; dirty = false; dev = 0; sector = 5; block = λ k. 5 }

abbrev handed_out : Blocks
handed_out = record booted { cache = set_buf 28 fifth booted.cache }

handed_out-IsCache : IsCache 0 (down nbuf) handed_out disk
handed_out-IsCache =
    written-IsCache 0 (down nbuf) booted disk disk booted-IsCache 28 5 fifth numbered (omega arith)
      (record {
        its_dev = refl;
        its_sector = refl;
        its_data = λ y. refl;
        its_load = λ y. refl;
        its_flag = refl;
        its_disk = λ y. absurd (busy_kept fifth refl y);
      })
      (Elsewhere-refl 5 disk) (λ i l ne d. absurd (unused i (binit-dev zeros i l) d))
      (λ d ne. absurd (unused 28 (binit-dev zeros 28 (omega arith)) d)) (λ n l. refl)
  where
    unused : (i : ℕ) → ((binit zeros).buf i).dev ≡ no_dev → ((binit zeros).buf i).dev ≢ 0
    unused i e d = absurd (omega (arith, sym e ∙ d))

handed_out-IsReady : IsReady 0 5 disk 28 handed_out
handed_out-IsReady = record {
  inside = omega arith;
  busy = refl;
  valid = refl;
  dev_of = refl;
  sector_of = refl;
  data_of = refl;
}

bwrite-stores_example :
    ((m' : Blocks) × (bwrite one_disk 28 (put_data 28 (λ k. 7) handed_out) ≡ ok m')
      × IsCache 0 (down nbuf) m' (nunix.Disk.bwrite disk 5 (λ k. 7))
      × IsReady 0 5 (nunix.Disk.bwrite disk 5 (λ k. 7)) 28 m')
    × IsCache 0
        (down nbuf)
        (put_dirty 28 (put_data 28 (λ k. 7) handed_out))
        (modify disk 5 (λ k. 7))
bwrite-stores_example =
    bwrite-stores one_disk 0 5 (down nbuf) disk handed_out 28 (λ k. 7) handed_out-IsCache
      handed_out-IsReady fifth-IsServed

brelse-IsCache_example :
    (c' : Bcache) × (brelse 28 handed_out.cache ≡ ok c')
    × IsCache 0 (28 ∷ 29 ∷ down 28) (record handed_out { cache = c' }) disk
    × ((c'.buf 28).busy ≡ false)
brelse-IsCache_example =
    brelse-IsCache 0 5 disk handed_out 28 (29 ∷ []) (down 28) handed_out-IsCache handed_out-IsReady
      (λ e. refl)
