-- ===== src/Buffers/View.antt =====
-- What the cache stands for: the blocks of one device as `Disk` describes them, and a write of one buffer.
use mathlib.Core.Path.{subst}
use nunix.Prelude.{
  ℕ, ◌%◌, ◌^◌, ◌<◌, ◌≡◌, ◌≢◌, ◌⊎◌, refl, Bool, true, false, not, ◌&&◌, ◌==◌, ==→eq, List, inl, inr,
  arith, Bool-cases, ap, sym, ◌∙◌,
}
use nunix.Disk.{Block, Store}
use nunix.Buffers.{Buf, Blocks, nbuf, set_buf, recyclable}
use nunix.Buffers.Ring.{update-same}
use nunix.Buffers.Turns.{IsRing}

-- The buffers of the device `dev` against the store: one buffer at most for a block, valid data are those that callers see,
-- and what callers see is on the disk unless a buffer is busy or dirty.
pub record IsCache (dev : ℕ) (order : List ℕ) (m : Blocks) (s : Store) : Type 0 where
  pub ring : IsRing m.cache order
  pub unique :
      (i j : ℕ)
      → i < nbuf
      → j < nbuf
      → (m.cache.buf i).dev ≡ dev
      → (m.cache.buf j).dev ≡ dev
      → (m.cache.buf i).sector ≡ (m.cache.buf j).sector
      → i ≡ j
  pub held :
      (i : ℕ)
      → i < nbuf
      → (m.cache.buf i).dev ≡ dev
      → (m.cache.buf i).valid ≡ true
      → (m.cache.buf i).block ≡ s.view (m.cache.buf i).sector
  pub loaded :
      (i : ℕ)
      → i < nbuf
      → (m.cache.buf i).dev ≡ dev
      → (m.cache.buf i).dirty ≡ true
      → (m.cache.buf i).valid ≡ true
  pub flags :
      (i : ℕ)
      → i < nbuf
      → (m.cache.buf i).dev ≡ dev
      → (m.cache.buf i).dirty ≡ s.dirty (m.cache.buf i).sector
  pub unlisted :
      (n : ℕ)
      → ((i : ℕ) → i < nbuf → (m.cache.buf i).dev ≡ dev → (m.cache.buf i).sector ≢ n)
      → s.dirty n ≡ false
  pub clean :
      (n : ℕ)
      → ((i : ℕ)
          → i < nbuf
          → (m.cache.buf i).dev ≡ dev
          → (m.cache.buf i).sector ≡ n
          → recyclable (m.cache.buf i) ≡ true)
      → s.view n ≡ s.disk n
  pub on_disk : (n : ℕ) → n < 2 ^ 28 → m.disks (dev % 2) n ≡ s.disk n

-- What a buffer for block `n` must be for the store.
pub record Stands (dev n : ℕ) (x : Buf) (s : Store) : Type 0 where
  pub its_dev : x.dev ≡ dev
  pub its_sector : x.sector ≡ n
  pub its_data : x.valid ≡ true → x.block ≡ s.view n
  pub its_load : x.dirty ≡ true → x.valid ≡ true
  pub its_flag : x.dirty ≡ s.dirty n
  pub its_disk : recyclable x ≡ true → s.view n ≡ s.disk n

-- The stores differ at block `n` at most.
pub record Elsewhere (n : ℕ) (s s' : Store) : Type 0 where
  pub same_view : (o : ℕ) → n ≢ o → s'.view o ≡ s.view o
  pub same_disk : (o : ℕ) → n ≢ o → s'.disk o ≡ s.disk o
  pub same_dirty : (o : ℕ) → n ≢ o → s'.dirty o ≡ s.dirty o

pub not_dirty : (x : Buf) → recyclable x ≡ true → x.dirty ≡ false
not_dirty x h = go x.busy x.dirty h
  where
    go : (s t : Bool) → (not s && not t) ≡ true → t ≡ false
    go s false h = refl
    go true true h = absurd (cc h)
    go false true h = absurd (cc h)

-- Buffer `b` is written, for block `n`, which no other buffer has. If it was for another block it could be recycled.
module _ (dev : ℕ) (order : List ℕ) (m : Blocks) (s s' : Store) (c : IsCache dev order m s)
    (b n : ℕ) (x : Buf) (disks' : ℕ → ℕ → Block) (inside : b < nbuf) (st : Stands dev n x s')
    (same : Elsewhere n s s')
    (others : (i : ℕ) → i < nbuf → b ≢ i → (m.cache.buf i).dev ≡ dev → (m.cache.buf i).sector ≢ n)
    (given_up : (m.cache.buf b).dev ≡ dev
      → (m.cache.buf b).sector ≢ n
      → recyclable (m.cache.buf b) ≡ true)
    (now : (o : ℕ) → o < 2 ^ 28 → disks' (dev % 2) o ≡ s'.disk o) where
  abbrev pub written : Blocks
  written = record { cache = set_buf b x m.cache; disks = disks' }

  -- A buffer is the written one or as before.
  which :
      (i : ℕ)
      → ((b ≡ i) × (written.cache.buf i ≡ x)) ⊎ ((b ≢ i) × (written.cache.buf i ≡ m.cache.buf i))
  which i = elim (Bool-cases (b == i)) [
    | inl e ↦ inl (==→eq b i e, rw e refl)
    | inr e ↦ inr (differ e, rw e refl)
  ]
    where
      differ : (b == i) ≡ false → b ≢ i
      differ e p = absurd (ground arith)

  written_unique :
      (i j : ℕ)
      → i < nbuf
      → j < nbuf
      → (written.cache.buf i).dev ≡ dev
      → (written.cache.buf j).dev ≡ dev
      → (written.cache.buf i).sector ≡ (written.cache.buf j).sector
      → i ≡ j
  written_unique i j li lj di dj e = elim (which i) [
    | inl (bi, wi) ↦ elim (which j) [
      | inl (bj, wj) ↦ sym bi ∙ bj
      | inr (bj, wj) ↦ absurd (
          others j lj bj (ap (λ y. y.dev) (sym wj) ∙ dj)
            (ap (λ y. y.sector) (sym wj) ∙ sym e ∙ ap (λ y. y.sector) wi ∙ st.its_sector))
    ]
    | inr (bi, wi) ↦ elim (which j) [
      | inl (bj, wj) ↦ absurd (
          others i li bi (ap (λ y. y.dev) (sym wi) ∙ di)
            (ap (λ y. y.sector) (sym wi) ∙ e ∙ ap (λ y. y.sector) wj ∙ st.its_sector))
      | inr (bj, wj) ↦
          c.unique i j li lj (ap (λ y. y.dev) (sym wi) ∙ di) (ap (λ y. y.dev) (sym wj) ∙ dj)
            (ap (λ y. y.sector) (sym wi) ∙ e ∙ ap (λ y. y.sector) wj)
    ]
  ]

  -- The buffers at other blocks.
  apart : (i : ℕ) → i < nbuf → b ≢ i → (m.cache.buf i).dev ≡ dev → n ≢ (m.cache.buf i).sector
  apart i l e d p = others i l e d (sym p)

  written_unlisted :
      (o : ℕ)
      → ((i : ℕ) → i < nbuf → (written.cache.buf i).dev ≡ dev → (written.cache.buf i).sector ≢ o)
      → s'.dirty o ≡ false
  written_unlisted o none_has =
      let at = update-same m.cache.buf b x in
      let off : n ≢ o = λ e.
        none_has b inside (ap (λ y. y.dev) at ∙ st.its_dev)
          (ap (λ y. y.sector) at ∙ st.its_sector ∙ e) in
      same.same_dirty o off
      ∙ old off (Bool-cases ((m.cache.buf b).dev == dev)) (Bool-cases ((m.cache.buf b).sector == o))
    where
      not_listed : ((m.cache.buf b).dev ≡ dev → (m.cache.buf b).sector ≢ o) → s.dirty o ≡ false
      not_listed h = c.unlisted o (λ i l d. elim (which i) [
        | inl (e, w) ↦
            λ p. h (ap (λ j. (m.cache.buf j).dev) e ∙ d) (ap (λ j. (m.cache.buf j).sector) e ∙ p)
        | inr (e, w) ↦ λ p. none_has i l (ap (λ y. y.dev) w ∙ d) (ap (λ y. y.sector) w ∙ p)
      ])

      differ : (i j : ℕ) → (i == j) ≡ false → i ≢ j
      differ i j e p = absurd (ground arith)

      old :
          n ≢ o
          → ((m.cache.buf b).dev == dev ≡ true) ⊎ ((m.cache.buf b).dev == dev ≡ false)
          → ((m.cache.buf b).sector == o ≡ true) ⊎ ((m.cache.buf b).sector == o ≡ false)
          → s.dirty o ≡ false
      old off (inl d) (inl e) =
          let is_dev = ==→eq (m.cache.buf b).dev dev d in
          let is_o = ==→eq (m.cache.buf b).sector o e in
          ap s.dirty (sym is_o)
          ∙ sym (c.flags b inside is_dev)
          ∙ not_dirty (m.cache.buf b) (given_up is_dev (λ p. off (sym p ∙ is_o)))
      old off (inr d) e = not_listed (λ p. absurd (differ (m.cache.buf b).dev dev d p))
      old off (inl d) (inr e) = not_listed (λ p. differ (m.cache.buf b).sector o e)

  written_clean :
      (o : ℕ)
      → ((i : ℕ)
          → i < nbuf
          → (written.cache.buf i).dev ≡ dev
          → (written.cache.buf i).sector ≡ o
          → recyclable (written.cache.buf i) ≡ true)
      → s'.view o ≡ s'.disk o
  written_clean o all_can = elim (Bool-cases (n == o)) [
    | inl e ↦
        let here = ==→eq n o e in
        let at = update-same m.cache.buf b x in
        subst (λ p. s'.view p ≡ s'.disk p) here
          (st.its_disk (
            ap recyclable (sym at)
            ∙ all_can b inside (ap (λ y. y.dev) at ∙ st.its_dev)
                (ap (λ y. y.sector) at ∙ st.its_sector ∙ here)))
    | inr e ↦
        same.same_view o (differ e)
        ∙ c.clean o (λ i l d p. elim (which i) [
          | inl (bi, w) ↦
              ap (λ j. recyclable (m.cache.buf j)) (sym bi)
              ∙ given_up (ap (λ j. (m.cache.buf j).dev) bi ∙ d)
                  (λ q. differ e (sym q ∙ ap (λ j. (m.cache.buf j).sector) bi ∙ p))
          | inr (bi, w) ↦
              ap recyclable (sym w) ∙ all_can i l (ap (λ y. y.dev) w ∙ d) (ap (λ y. y.sector) w ∙ p)
        ])
        ∙ sym (same.same_disk o (differ e))
  ]
    where
      differ : (n == o) ≡ false → n ≢ o
      differ e p = absurd (ground arith)

  pub written-IsCache : IsCache dev order written s'
  written-IsCache = record {
    ring = record {
      links = c.ring.links;
      distinct = c.ring.distinct;
      no_head = c.ring.no_head;
      all = c.ring.all;
      covers = c.ring.covers;
    };
    unique = written_unique;
    held = λ i l d v. elim (which i) [
      | inl (e, w) ↦
          ap (λ y. y.block) w
          ∙ st.its_data (ap (λ y. y.valid) (sym w) ∙ v)
          ∙ ap s'.view (sym st.its_sector ∙ ap (λ y. y.sector) (sym w))
      | inr (e, w) ↦
          let d' = ap (λ y. y.dev) (sym w) ∙ d in
          ap (λ y. y.block) w
          ∙ c.held i l d' (ap (λ y. y.valid) (sym w) ∙ v)
          ∙ sym (same.same_view (m.cache.buf i).sector (apart i l e d'))
          ∙ ap (λ y. s'.view y.sector) (sym w)
    ];
    loaded = λ i l d v. elim (which i) [
      | inl (e, w) ↦ ap (λ y. y.valid) w ∙ st.its_load (ap (λ y. y.dirty) (sym w) ∙ v)
      | inr (e, w) ↦
          ap (λ y. y.valid) w
          ∙ c.loaded i l (ap (λ y. y.dev) (sym w) ∙ d) (ap (λ y. y.dirty) (sym w) ∙ v)
    ];
    flags = λ i l d. elim (which i) [
      | inl (e, w) ↦
          ap (λ y. y.dirty) w
          ∙ st.its_flag
          ∙ ap s'.dirty (sym st.its_sector ∙ ap (λ y. y.sector) (sym w))
      | inr (e, w) ↦
          let d' = ap (λ y. y.dev) (sym w) ∙ d in
          ap (λ y. y.dirty) w
          ∙ c.flags i l d'
          ∙ sym (same.same_dirty (m.cache.buf i).sector (apart i l e d'))
          ∙ ap (λ y. s'.dirty y.sector) (sym w)
    ];
    unlisted = written_unlisted;
    clean = written_clean;
    on_disk = now;
  }
