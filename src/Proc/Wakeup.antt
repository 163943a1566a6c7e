-- ===== src/Proc/Wakeup.antt =====
-- What `wakeup1` does to each slot.
use nunix.Prelude.{ℕ, ◌≡◌, Bool, ◌&&◌, ltb, if◌then◌else◌, for_upto-pointwise, update_if}
use nunix.Proc.Table.{runnable, Proc, Chan, Procs, nproc, is_sleeping, same_chan}
use nunix.Proc.{wakeup1}

-- `p` sleeps on the channel
abbrev pub sleeps_on : Chan → Proc → Bool
sleeps_on c p = is_sleeping p.state && same_chan p.chan c

abbrev pub woken : Proc → Proc
woken p = record p { state = runnable }

-- `wakeup1` makes exactly the processes that sleep on the channel RUNNABLE.
pub wakeup1_lem :
    (c : Chan) (t : Procs) (i : ℕ)
    → wakeup1 c t i
      ≡ (if ltb i nproc then (if sleeps_on c (t i) then woken (t i) else t i) else t i)
unfolding wakeup1
wakeup1_lem c t i =
    for_upto-pointwise _ (λ p. if sleeps_on c p then woken p else p)
      (λ k u j. update_if (sleeps_on c (u k)) u k (woken (u k)) j) nproc t i
