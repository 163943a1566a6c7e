-- ===== src/Buffers/Boot.antt =====
-- `binit`: the ring of all buffers, none of which is for a block.
use mathlib.Core.Path.{subst}
use nunix.Prelude.{
  ℕ, zero, suc, ◌+◌, ◌%◌, ◌<◌, ◌≤◌, ◌≡◌, ◌≢◌, ◌⊎◌, refl, true, false, ◌==◌, ==→eq, update, List, [],
  ◌∷◌, length, inl, inr, arith, Bool-cases, ap, sym, ◌∙◌,
}
use nunix.Disk.{Block, reboot}
use nunix.Pages.FreeList.{mem, Distinct}
use nunix.Buffers.{Bcache, nbuf, head, no_dev, set_buf, insert_front, init_from, binit}
use nunix.Buffers.Ring.{Links, update-same}
use nunix.Buffers.Turns.{insert_front-Links}
use nunix.Buffers.View.{IsCache}

-- the first `n` buffers, the last of them in front
abbrev pub down : ℕ → List ℕ
down zero = []
down (suc n) = n ∷ down n

down-mem : (n i : ℕ) → (mem i (down n) ≡ true) → i < n
down-mem zero i h = absurd (cc h)
down-mem (suc n) i h = elim (Bool-cases (i == n)) [
  | inl e ↦ let same = ==→eq i n e in omega arith
  | inr e ↦ let below = down-mem n i (ground arith) in omega arith
]

mem-down : (n i : ℕ) → i < n → mem i (down n) ≡ true
mem-down zero i l = absurd (omega arith)
mem-down (suc n) i l = elim (Bool-cases (i == n)) [
  | inl e ↦ rw e refl
  | inr e ↦ rw e (mem-down n i (ground arith))
]

out_down : (n i : ℕ) → n ≤ i → mem i (down n) ≡ false
out_down n i l = elim (Bool-cases (mem i (down n))) [
  | inl h ↦ let below = down-mem n i h in absurd (omega arith)
  | inr h ↦ h
]

down-Distinct : (n : ℕ) → Distinct (down n)
unfolding Distinct
down-Distinct zero = record {}
down-Distinct (suc n) = (out_down n n (omega arith), down-Distinct n)

length-down : (n : ℕ) → length (down n) ≡ n
length-down zero = refl
length-down (suc n) = ap suc (length-down n)

init_from-Links :
    (n b : ℕ) (c : Bcache)
    → b + n ≤ nbuf
    → Links c.next c.prev head (down b) head
    → Links (init_from n b c).next (init_from n b c).prev head (down (b + n)) head
unfolding init_from
init_from-Links zero b c l links =
    subst (λ x. Links c.next c.prev head (down x) head) (omega arith) links
init_from-Links (suc n) b c l links =
    let c1 = set_buf b (record (c.buf b) { dev = no_dev }) c in
    let c2 = insert_front b (set_buf b (record (c.buf b) { dev = no_dev }) c) in
    let one : b + 1 ≡ suc b = omega arith in
    let made =
      insert_front-Links c1 b (down b) (λ e. absurd (omega arith)) (out_down b b (omega arith))
        (out_down b head (omega arith)) (down-Distinct b) links in
    let total : b + 1 + n ≡ b + suc n = omega arith in
    subst
      (λ x. Links (init_from n (b + 1) c2).next (init_from n (b + 1) c2).prev head (down x) head)
      total
      (init_from-Links n (b + 1) c2 (omega arith)
        (subst (λ x. Links c2.next c2.prev head (down x) head) (sym one) made))

-- No buffer is for a device.
init_from-dev :
    (n b : ℕ) (c : Bcache) (i : ℕ)
    → ((b ≤ i) × (i < b + n)) ⊎ ((c.buf i).dev ≡ no_dev)
    → ((init_from n b c).buf i).dev ≡ no_dev
unfolding init_from
init_from-dev zero b c i (inl (x, y)) = absurd (omega arith)
init_from-dev zero b c i (inr e) = e
init_from-dev (suc n) b c i h =
    init_from-dev n (b + 1) c2 i
      (elim (Bool-cases (b == i)) [ inl e ↦ inr (rw e refl) | inr e ↦ rest e h ])
  where
    c2 : Bcache
    c2 = insert_front b (set_buf b (record (c.buf b) { dev = no_dev }) c)

    rest :
        (b == i) ≡ false
        → ((b ≤ i) × (i < b + suc n)) ⊎ ((c.buf i).dev ≡ no_dev)
        → ((b + 1 ≤ i) × (i < b + 1 + n)) ⊎ ((c2.buf i).dev ≡ no_dev)
    rest e (inl (x, y)) = inl (ground arith, omega arith)
    rest e (inr d) = inr (rw e d)

pub binit-dev : (c : Bcache) (i : ℕ) → i < nbuf → ((binit c).buf i).dev ≡ no_dev
unfolding binit
binit-dev c i l =
    init_from-dev nbuf 0
      (record c { prev = update c.prev head head; next = update c.next head head }) i
      (inl (omega arith, l))

binit-Links : (c : Bcache) → Links (binit c).next (binit c).prev head (down nbuf) head
unfolding binit Links
binit-Links c =
    init_from-Links nbuf 0
      (record c { prev = update c.prev head head; next = update c.next head head }) (omega arith)
      (update-same c.next head head, update-same c.prev head head)

-- Whatever was in memory, after `binit` the cache stands for the store of a device after a restart.
pub binit-IsCache :
    (dev : ℕ) (c : Bcache) (disks : ℕ → ℕ → Block)
    → dev ≢ no_dev
    → IsCache dev (down nbuf) (record { cache = binit c; disks = disks }) (reboot (disks (dev % 2)))
binit-IsCache dev c disks apart =
    let none : (i : ℕ) → i < nbuf → ((binit c).buf i).dev ≢ dev =
      λ i l d. apart (sym d ∙ binit-dev c i l) in
    record {
      ring = record {
        links = binit-Links c;
        distinct = down-Distinct nbuf;
        no_head = out_down nbuf head (omega arith);
        all = length-down nbuf;
        covers = λ i. (mem-down nbuf i, down-mem nbuf i);
      };
      unique = λ i j l l' d. absurd (none i l d);
      held = λ i l d. absurd (none i l d);
      loaded = λ i l d. absurd (none i l d);
      flags = λ i l d. absurd (none i l d);
      unlisted = λ n h. refl;
      clean = λ n h. refl;
      on_disk = λ n l. refl;
    }
