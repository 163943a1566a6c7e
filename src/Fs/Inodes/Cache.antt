-- ===== src/Fs/Inodes/Cache.antt =====
-- The cache of inodes: `iget` keeps one entry for an inode.
use mathlib.Core.Path.{subst}
use nunix.Prelude.{
  ℕ, zero, suc, ◌+◌, ◌≤◌, ◌<◌, ◌≡◌, ◌≢◌, ◌⊎◌, refl, Bool, true, false, ◌&&◌, ◌==◌, ==→eq, ltb,
  update, ok, panic, Option, none, some, inl, inr, arith, Bool-cases, ap, sym, ◌∙◌,
}
use nunix.Fs.{Inode, Fs}
use nunix.Fs.Inodes.{ninode, set_inode, Scan, cached, missing, first_slot, scan_cache, iget}

-- The entry is in use, for this inode.
pub record IsFor (dev inum : ℕ) (ip : Inode) : Type 0 where
  pub held : 0 < ip.ref
  pub same_dev : ip.dev ≡ dev
  pub same_inum : ip.inum ≡ inum

is_for : ℕ → ℕ → Inode → Bool
is_for dev inum ip = ltb 0 ip.ref && (ip.dev == dev) && (ip.inum == inum)

is_for-IsFor : (dev inum : ℕ) (ip : Inode) → is_for dev inum ip ≡ true → IsFor dev inum ip
unfolding is_for
is_for-IsFor dev inum ip h = record {
  held = ground arith;
  same_dev = ground arith;
  same_inum = ground arith;
}

IsFor-is_for : (dev inum : ℕ) (ip : Inode) → IsFor dev inum ip → is_for dev inum ip ≡ true
unfolding is_for
IsFor-is_for dev inum ip h =
    let a = h.held in let b = h.same_dev in let c = h.same_inum in ground arith

scan_cache-cached :
    (dev inum n i : ℕ) (e : Option ℕ) (t : ℕ → Inode) (k : ℕ)
    → scan_cache dev inum n i e t ≡ cached k
    → (k < i + n) × IsFor dev inum (t k)
unfolding scan_cache is_for
scan_cache-cached dev inum zero i e t k h = absurd (cc h)
scan_cache-cached dev inum (suc n) i e t k h = elim (Bool-cases (is_for dev inum (t i))) [
  | inl y ↦
      let same : i ≡ k =
        ap (λ r. elim r [ cached x ↦ x | missing x ↦ k ]) (rw (scan_cache, y) at h) in
      (omega arith, subst (λ x. IsFor dev inum (t x)) same (is_for-IsFor dev inum (t i) y))
  | inr y ↦
      let (l, f) =
        scan_cache-cached dev inum n (i + 1) (first_slot e i (t i).ref) t k
          (rw (scan_cache, y) at h) in
      (omega arith, f)
]

-- The slot that the scan remembers is free, and when there is none every slot that it passed is in use.
pub record Slots (t : ℕ → Inode) (i : ℕ) (e : Option ℕ) : Type 0 where
  pub free : (k : ℕ) → e ≡ some k → (k < i) × ((t k).ref ≡ 0)
  pub full : e ≡ none → (k : ℕ) → k < i → 0 < (t k).ref

first_slot-Slots :
    (t : ℕ → Inode) (i : ℕ) (e : Option ℕ)
    → Slots t i e
    → Slots t (i + 1) (first_slot e i (t i).ref)
first_slot-Slots t i none h = elim (Bool-cases ((t i).ref == 0)) [
  | inl y ↦ rw y (record {
    free = λ k q.
        let same : i ≡ k = cc q in
        (omega arith, ap (λ x. (t x).ref) (sym same) ∙ ==→eq (t i).ref 0 y);
    full = λ q. absurd (cc q);
  })
  | inr y ↦ rw y (record {
    free = λ k q. absurd (cc q);
    full = λ q k l. elim (Bool-cases (i == k)) [
      | inl z ↦ subst (λ x. 0 < (t x).ref) (==→eq i k z) (ground (arith, y))
      | inr z ↦ h.full refl k (ground arith)
    ];
  })
]
first_slot-Slots t i (some k) h = record {
  free = λ j q. let (l, z) = h.free j q in (omega arith, z);
  full = λ q. absurd (cc q);
}

scan_cache-missing :
    (dev inum n i : ℕ) (e e' : Option ℕ) (t : ℕ → Inode)
    → Slots t i e
    → scan_cache dev inum n i e t ≡ missing e'
    → Slots t (i + n) e' × ((k : ℕ) → i ≤ k → k < i + n → is_for dev inum (t k) ≡ false)
unfolding scan_cache is_for
scan_cache-missing dev inum zero i e e' t sl h =
    let same : e ≡ e' = ap (λ r. elim r [ cached x ↦ e | missing x ↦ x ]) h in
    let here : i ≡ i + 0 = omega arith in
    (
      subst (λ x. Slots t x e') here (subst (λ x. Slots t i x) same sl),
      λ k l u. absurd (omega arith),
    )
scan_cache-missing dev inum (suc n) i e e' t sl h = elim (Bool-cases (is_for dev inum (t i))) [
  | inl y ↦ absurd (cc (rw (scan_cache, y) at h))
  | inr y ↦
      let (a, b) =
        scan_cache-missing dev inum n (i + 1) _ e' t (first_slot-Slots t i e sl)
          (rw (scan_cache, y) at h) in
      let on : i + 1 + n ≡ i + suc n = omega arith in
      (
        subst (λ x. Slots t x e') on a,
        λ k l u. elim (Bool-cases (i == k)) [
          | inl z ↦ ap (λ x. is_for dev inum (t x)) (sym (==→eq i k z)) ∙ y
          | inr z ↦ b k (ground arith) (omega arith)
        ],
      )
]

-- No two entries in use are for one inode.
unfoldable pub IsUnique : (ℕ → Inode) → Type 0
IsUnique t =
    (j k dev inum : ℕ)
    → j < ninode
    → k < ninode
    → IsFor dev inum (t j)
    → IsFor dev inum (t k)
    → j ≡ k

-- What `iget` leaves when it returns entry `i`.
pub record Got (dev inum : ℕ) (s : Fs) (i : ℕ) (s' : Fs) : Type 0 where
  pub within : i < ninode
  pub is_for : IsFor dev inum (s'.inode i)
  pub counted : (s'.inode i).ref ≡ (s.inode i).ref + 1
  pub others : (k : ℕ) → k ≢ i → s'.inode k ≡ s.inode k
  pub same_store : s'.store ≡ s.store
  pub same_log : s'.log ≡ s.log

-- The search of `iget` found no entry: each is free or for another inode.
unfoldable pub Absent : ℕ → ℕ → Fs → Type 0
Absent dev inum s = (k : ℕ) → k < ninode → ¬ IsFor dev inum (s.inode k)

update-other : (t : ℕ → Inode) (i : ℕ) (ip : Inode) (k : ℕ) → k ≢ i → update t i ip k ≡ t k
update-other t i ip k apart = elim (Bool-cases (i == k)) [
  | inl e ↦ absurd (apart (sym (==→eq i k e)))
  | inr e ↦ rw e refl
]

update-same : (t : ℕ → Inode) (i : ℕ) (ip : Inode) → update t i ip i ≡ ip
update-same t i ip = elim (Bool-cases (i == i)) [
  | inl e ↦ rw e refl
  | inr e ↦ absurd (ground (arith, e))
]

-- What is for the inode that `ip` is for.
same_key :
    (d n dev inum : ℕ) (ip x : Inode)
    → IsFor d n ip
    → IsFor dev inum ip
    → IsFor d n x
    → IsFor dev inum x
same_key d n dev inum ip x a b f = record {
  held = f.held;
  same_dev = f.same_dev ∙ sym a.same_dev ∙ b.same_dev;
  same_inum = f.same_inum ∙ sym a.same_inum ∙ b.same_inum;
}

-- An entry that is changed to one for the inode keeps the cache unique, where it was for it before or none was.
update-IsUnique :
    (t : ℕ → Inode) (i : ℕ) (ip : Inode) (dev inum : ℕ)
    → IsUnique t
    → i < ninode
    → IsFor dev inum ip
    → ((k : ℕ) → k < ninode → IsFor dev inum (t k) → k ≡ i)
    → IsUnique (update t i ip)
unfolding IsUnique
update-IsUnique t i ip dev inum u l f only j k d n lj lk fj fk = elim (Bool-cases (i == j)) [
  | inl ej ↦ elim (Bool-cases (i == k)) [
    | inl ek ↦ sym (==→eq i j ej) ∙ ==→eq i k ek
    | inr ek ↦
        sym (==→eq i j ej)
        ∙ sym (only k lk (same_key d n dev inum ip (t k) (rw ej at fj) f (rw ek at fk)))
  ]
  | inr ej ↦ elim (Bool-cases (i == k)) [
    | inl ek ↦
        only j lj (same_key d n dev inum ip (t j) (rw ek at fk) f (rw ej at fj)) ∙ ==→eq i k ek
    | inr ek ↦ u j k d n lj lk (rw ej at fj) (rw ek at fk)
  ]
]

Scan-cases :
    (r : Scan)
    → ((i : ℕ) × (r ≡ cached i)) ⊎ ((r ≡ missing none) ⊎ ((i : ℕ) × (r ≡ missing (some i))))
Scan-cases (cached i) = inl (i, refl)
Scan-cases (missing none) = inr (inl refl)
Scan-cases (missing (some i)) = inr (inr (i, refl))

zero-Slots : (t : ℕ → Inode) → Slots t 0 none
zero-Slots t = record { free = λ k q. absurd (cc q); full = λ q k l. absurd (omega arith) }

absent :
    (dev inum : ℕ) (s : Fs)
    → ((k : ℕ) → 0 ≤ k → k < 0 + ninode → is_for dev inum (s.inode k) ≡ false)
    → Absent dev inum s
unfolding Absent
absent dev inum s h k l f =
    cc (h k (omega arith) (omega arith), IsFor-is_for dev inum (s.inode k) f)

-- In a cache with one entry at most for each inode, `iget` either panics, when every entry is in use and none is for the inode, or returns an
-- entry for the inode with one reference more than it had. It changes no other entry and not the disk, and keeps one entry for each inode.
pub iget-IsUnique :
    (dev inum : ℕ) (s : Fs)
    → IsUnique s.inode
    → ((iget dev inum s ≡ panic "iget: no inodes")
        × ((k : ℕ) → k < ninode → 0 < (s.inode k).ref)
        × Absent dev inum s)
      ⊎ ((i : ℕ) × (s' : Fs) × (iget dev inum s ≡ ok (i, s'))
          × Got dev inum s i s'
          × IsUnique s'.inode)
unfolding iget IsUnique Absent
iget-IsUnique dev inum s u = elim (Scan-cases (scan_cache dev inum ninode 0 none s.inode)) [
  | inl (i, e) ↦
      let (l, f) = scan_cache-cached dev inum ninode 0 none s.inode i e in
      let ip = s.inode i in
      let new : Inode = record ip { ref = ip.ref + 1 } in
      let g : IsFor dev inum new = record {
        held = omega arith;
        same_dev = f.same_dev;
        same_inum = f.same_inum;
      } in
      inr (
        i,
        set_inode i (λ x. record x { ref = x.ref + 1 }) s,
        rw (iget, e) refl,
        got s i new l g refl,
        update-IsUnique s.inode i new dev inum u l g (λ k lk fk. u k i dev inum lk l fk f),
      )
  | inr (inl e) ↦
      let (sl, unmet) =
        scan_cache-missing dev inum ninode 0 none none s.inode (zero-Slots s.inode) e in
      inl (rw (iget, e) refl, (λ k l. sl.full refl k l), absent dev inum s unmet)
  | inr (inr (i, e)) ↦
      let (sl, unmet) =
        scan_cache-missing dev inum ninode 0 none (some i) s.inode (zero-Slots s.inode) e in
      let (l, free) = sl.free i refl in
      let new : Inode = record (s.inode i) {
        dev = dev;
        inum = inum;
        ref = 1;
        busy = false;
        valid = false;
      } in
      let g : IsFor dev inum new = record {
        held = omega arith;
        same_dev = refl;
        same_inum = refl;
      } in
      inr (
        i,
        set_inode i
            (λ ip. record ip { dev = dev; inum = inum; ref = 1; busy = false; valid = false }) s,
        rw (iget, e) refl,
        got s i new l g (omega (arith, free)),
        update-IsUnique s.inode i new dev inum u l g
            (λ k lk fk. absurd (absent dev inum s unmet k lk fk)),
      )
]
  where
    got :
        (s : Fs) (i : ℕ) (new : Inode)
        → i < ninode
        → IsFor dev inum new
        → new.ref ≡ (s.inode i).ref + 1
        → Got dev inum s i (record s { inode = update s.inode i new })
    got s i new l g r = record {
      within = l;
      is_for = subst (IsFor dev inum) (sym (update-same s.inode i new)) g;
      counted = ap (λ x. x.ref) (update-same s.inode i new) ∙ r;
      others = λ k apart. update-other s.inode i new k apart;
      same_store = refl;
      same_log = refl;
    }
