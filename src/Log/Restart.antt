-- ===== src/Log/Restart.antt =====
-- A crash while the log is recovered: the next recovery gives the same blocks.
use nunix.Prelude.{ℕ, ◌≤◌, ok, ◌<◌, ◌≡◌, refl, ap, sym, ◌∙◌, false, arith, All, All-map, update}
use nunix.Disk.{Block, Disk, Store, bwrite, reboot}
use nunix.Log.{
  Log, logsize, install_trans, take_head, write_head, recover_from_log, recover_with, head_block,
}
use nunix.Log.Head.{head_block-IsHead, take_head-IsHead}
use nunix.Log.Install.{update_self, Installing, install_trans-Installing}
use nunix.Log.Recovery.{
  logged, IsEmpty, IsFull, installed, recovered-IsFull, recovered-IsEmpty, logged_ext,
  take_head-start,
}
use nunix.Log.Crash.{RecoversTo, recovered-RecoversTo, RecoversTo-same, recover_from_log-ok}

-- What `take_head` takes from a full log describes the same log.
taken-IsFull :
    (log : Log) (n : ℕ) (sector : ℕ → ℕ) (image d : Disk)
    → IsFull log.start n sector image d
    → let t = take_head log (reboot d) in IsFull t.start t.lh_n t.sector image d
taken-IsFull log n sector image d f =
    let (number, sectors) = take_head-IsHead log (reboot d) n sector f.head in
    let start = take_head-start log (reboot d) in
    record {
      head = record {
        number = rw (start, number) f.head.number;
        sectors = λ i l. rw (start, sectors i (rw number at l)) (f.head.sectors i (rw number at l));
      };
      blocks = λ i l. rw (start, sectors i (rw number at l)) (f.blocks i (rw number at l));
      homes = λ i l. rw (start, sectors i (rw number at l)) (f.homes i (rw number at l));
    }

-- The log on `d` is full with what `take_head` takes from it. `log` is the log before that.
module _ (log : Log) (image d : Disk)
    (f : IsFull
      (take_head log (reboot d)).start
      (take_head log (reboot d)).lh_n
      (take_head log (reboot d)).sector
      image
      d)
    (fits : (take_head log (reboot d)).lh_n ≤ logsize) where
  taken : Log
  taken = take_head log (reboot d)

  target : Disk
  unfolding taken
  target = installed taken.sector taken.lh_n image d

  full-RecoversTo :
      (e : Disk)
      → IsFull taken.start taken.lh_n taken.sector image e
      → ((b : ℕ) → b < taken.start → logged taken.sector taken.lh_n b ≡ false → e b ≡ d b)
      → RecoversTo log target e
  unfolding target take_head
  full-RecoversTo e g same =
      recovered-RecoversTo log target e (omega (arith, g.head.number, fits)) (λ b l.
        recovered-IsFull log taken.lh_n taken.sector image e g b l ∙ ground (arith, same b l))

  installs :
      Installing taken image d (RecoversTo log target) taken.lh_n (install_trans taken (reboot d))
  unfolding target
  installs =
      install_trans-Installing taken image d (RecoversTo log target) full-RecoversTo (reboot d)
        (record {
          full = f;
          cached = f.blocks;
          homes = λ b l. refl;
          past = (full-RecoversTo d f (λ b l e. refl), tt);
        })

  recover_with-RecoversTo :
      All (RecoversTo log target) (recover_with (take_head log (reboot d)) (reboot d)).1.history
  unfolding recover_with write_head bwrite target take_head
  recover_with-RecoversTo =
      let t = install_trans taken (reboot d) in
      let cleared = record taken { lh_n = 0 } in
      let head = head_block cleared (t.view log.start) in
      let e = update t.disk log.start head in
      let z : IsEmpty log.start e =
        ap (λ (b : Block). b 0) (sym (update_self t.disk log.start head))
        ∙ (head_block-IsHead cleared (t.view log.start)).number in
      (
        recovered-RecoversTo log target e (omega (arith, z))
            (λ b l. recovered-IsEmpty log e z b l ∙ ground (arith, installs.homes b l)),
        installs.past,
      )

target-installed :
    (log : Log) (n : ℕ) (sector : ℕ → ℕ) (image d : Disk)
    → IsFull log.start n sector image d
    → let t = take_head log (reboot d) in
      (g : IsFull t.start t.lh_n t.sector image d) (fits : t.lh_n ≤ logsize) (b : ℕ)
      → target log image d g fits b ≡ installed sector n image d b
unfolding target
target-installed log n sector image d f g fits b =
    let (number, sectors) = take_head-IsHead log (reboot d) n sector f.head in
    rw (number, logged_ext (take_head log (reboot d)).sector sector n b sectors)

-- Let the log on the disk `d` be full: its header and its blocks are those of a transaction that writes
-- `image` to the `n` sectors, at most LOGSIZE. Then the recovery from `d` does not write past the sectors of the log, and every disk
-- that a crash can leave in it recovers, at every block before the log, to `d` with that transaction installed.
pub recovery_restarts :
    (log : Log) (n : ℕ) (sector : ℕ → ℕ) (image d : Disk)
    → IsFull log.start n sector image d
    → n ≤ logsize
    → (r : Log × Store) × (recover_from_log log (reboot d) ≡ ok r)
      × All (RecoversTo log (installed sector n image d)) r.1.history
recovery_restarts log n sector image d f small =
    let (number, sectors) = take_head-IsHead log (reboot d) n sector f.head in
    let g = taken-IsFull log n sector image d f in
    let fits : (take_head log (reboot d)).lh_n ≤ logsize = omega (arith, number) in
    (
      recover_with (take_head log (reboot d)) (reboot d),
      recover_from_log-ok log d (omega (arith, f.head.number)),
      All-map (RecoversTo log (target log image d g fits))
          (RecoversTo log (installed sector n image d))
          (recover_with (take_head log (reboot d)) (reboot d)).1.history
          (λ e r.
            RecoversTo-same log (target log image d g fits) (installed sector n image d) e
              (λ b l. target-installed log n sector image d f g fits b) r)
          (recover_with-RecoversTo log image d g fits),
    )
