-- ===== src/Buffers/Turns.antt =====
-- `brelse` moves a buffer to the front of the list.
use mathlib.Core.Path.{subst}
use nunix.Prelude.{
  ℕ, suc, ◌<◌, ◌≡◌, ◌≢◌, ◌⊎◌, ◌↔◌, refl, Bool, true, false, ◌||◌, ◌==◌, ==→eq, update, List, [],
  ◌∷◌, ◌++◌, append-nil, length, inl, inr, arith, Bool-cases, ap, sym, ◌∙◌,
}
use nunix.Pages.FreeList.{mem, Distinct}
use nunix.Buffers.{Bcache, head, nbuf, insert_front, unlink_buf}
use nunix.Buffers.Ring.{
  Links, Links-split, Links-join, Links-next, Links-prev, out_first, update-other, update-same,
  last, last-mem, last-prev, Links-last,
}

pub mem-append : (p : ℕ) (xs ys : List ℕ) → mem p (xs ++ ys) ≡ (mem p xs || mem p ys)
mem-append p [] ys = refl
mem-append p (x ∷ xs) ys =
    ap (λ t. (p == x) || t) (mem-append p xs ys) ∙ either_assoc (p == x) (mem p xs) (mem p ys)
  where
    either_assoc : (a b c : Bool) → (a || (b || c)) ≡ ((a || b) || c)
    either_assoc true b c = refl
    either_assoc false b c = refl

-- A list with `b` at a place in it, and nothing twice.
pub record Parts (b : ℕ) (xs ys : List ℕ) : Type 0 where
  pub front : Distinct xs
  pub rear : Distinct ys
  pub b_front : mem b xs ≡ false
  pub b_rear : mem b ys ≡ false
  pub disjoint : (p : ℕ) → mem p xs ≡ true → mem p ys ≡ false

pub Distinct-Parts : (b : ℕ) (xs ys : List ℕ) → Distinct (xs ++ b ∷ ys) → Parts b xs ys
unfolding Distinct
Distinct-Parts b [] ys (out, d) = record {
  front = record {};
  rear = d;
  b_front = refl;
  b_rear = out;
  disjoint = λ p h. absurd (cc h);
}
Distinct-Parts b (x ∷ xs) ys (out, d) =
    let r = Distinct-Parts b xs ys d in
    let out' = sym (mem-append x xs (b ∷ ys)) ∙ out in
    let (in_xs, in_rest) = neither (mem x xs) (mem x (b ∷ ys)) out' in
    let (xb, in_ys) = out_first x b ys in_rest in
    record {
      front = (in_xs, r.front);
      rear = r.rear;
      b_front = not_first b x xs (λ e. xb (sym e)) r.b_front;
      b_rear = r.b_rear;
      disjoint = λ p h. elim (Bool-cases (p == x)) [
        | inl e ↦ ap (λ q. mem q ys) (==→eq p x e) ∙ in_ys
        | inr e ↦ r.disjoint p (ground arith)
      ];
    }
  where
    neither : (s t : Bool) → (s || t) ≡ false → (s ≡ false) × (t ≡ false)
    neither false t h = (refl, h)
    neither true t h = absurd (cc h)

    not_first : (p x : ℕ) (xs : List ℕ) → p ≢ x → mem p xs ≡ false → mem p (x ∷ xs) ≡ false
    not_first p x xs ne h = elim (Bool-cases (p == x)) [
      | inl e ↦ absurd (ne (==→eq p x e))
      | inr e ↦ rw e h
    ]

pub Distinct-append :
    (xs ys : List ℕ)
    → Distinct xs
    → Distinct ys
    → ((p : ℕ) → mem p xs ≡ true → mem p ys ≡ false)
    → Distinct (xs ++ ys)
unfolding Distinct
Distinct-append [] ys d e apart = e
Distinct-append (x ∷ xs) ys (out, d) e apart = (
  mem-append x xs ys ∙ rw out (apart x (first x xs)),
  Distinct-append xs ys d e (λ p h. apart p (later p x xs h)),
)
  where
    first : (x : ℕ) (xs : List ℕ) → mem x (x ∷ xs) ≡ true
    first x xs = ground arith

    later : (p x : ℕ) (xs : List ℕ) → mem p xs ≡ true → mem p (x ∷ xs) ≡ true
    later p x xs h = ground arith

-- The list without `b`.
unlink_buf-Links :
    (c : Bcache) (b : ℕ) (xs ys : List ℕ)
    → Parts b xs ys
    → head ≢ b
    → mem head xs ≡ false
    → mem head ys ≡ false
    → Links c.next c.prev head xs b
    → Links c.next c.prev b ys head
    → Links (unlink_buf b c).next (unlink_buf b c).prev head (xs ++ ys) head
unfolding Links Distinct
unlink_buf-Links c b xs [] parts hb hx hy before (e, f) =
    let p = last-prev c.next c.prev head b xs before in
    let back : update c.prev (c.next b) (c.prev b) b ≡ last head xs =
      update-other c.prev (c.next b) b (c.prev b) (λ q. hb (sym e ∙ q)) ∙ p in
    subst (λ zs. Links (unlink_buf b c).next (unlink_buf b c).prev head zs head)
      (sym (append-nil xs))
      (subst
        (λ q. Links (update c.next q (c.next b)) (update c.prev (c.next b) (c.prev b)) head xs head)
        (sym back)
        (subst
          (λ q.
            Links (update c.next (last head xs) (c.next b)) (update c.prev (c.next b) q) head xs
              head)
          (sym p)
          (subst
            (λ z.
              Links (update c.next (last head xs) z) (update c.prev z (last head xs)) head xs head)
            (sym e) (Links-last c.next c.prev head b head xs hx parts.front hx before))))
unlink_buf-Links c b xs (y ∷ ys) parts hb hx hy before (e, f, l) =
    let p = last-prev c.next c.prev head b xs before in
    let (by, b_rest) = out_first b y ys parts.b_rear in
    let (hy1, h_rest) = out_first head y ys hy in
    let back : update c.prev (c.next b) (c.prev b) b ≡ last head xs =
      update-other c.prev (c.next b) b (c.prev b) (λ q. by (sym q ∙ e)) ∙ p in
    let y_out : mem y xs ≡ false = not_in (Bool-cases (mem y xs)) in
    let (l_y, l_rest) = out_first (last head xs) y ys (last_out (last-mem head xs)) in
    subst
      (λ q.
        Links (update c.next q (c.next b)) (update c.prev (c.next b) (c.prev b)) head (xs ++ y ∷ ys)
          head)
      (sym back)
      (subst
        (λ q.
          Links (update c.next (last head xs) (c.next b)) (update c.prev (c.next b) q) head
            (xs ++ y ∷ ys) head)
        (sym p)
        (subst
          (λ z.
            Links (update c.next (last head xs) z) (update c.prev z (last head xs)) head
              (xs ++ y ∷ ys) head)
          (sym e)
          (Links-join (update c.next (last head xs) y) (update c.prev y (last head xs)) head y head
            xs ys (Links-last c.next c.prev head b y xs hx parts.front y_out before)
            (Links-next c.next (update c.prev y (last head xs)) y head (last head xs) y ys l_y
              l_rest
              (Links-prev c.next c.prev y head y (last head xs) ys (λ q. hy1 (sym q)) parts.rear.0
                l)))))
  where
    first : (y : ℕ) (ys : List ℕ) → mem y (y ∷ ys) ≡ true
    first y ys = ground arith

    not_in : (mem y xs ≡ true) ⊎ (mem y xs ≡ false) → mem y xs ≡ false
    not_in (inl h) = let out = parts.disjoint y h in cc (first y ys, out)
    not_in (inr h) = h

    last_out :
        (last head xs ≡ head) ⊎ (mem (last head xs) xs ≡ true) → mem (last head xs) (y ∷ ys) ≡ false
    last_out (inl s) = ap (λ q. mem q (y ∷ ys)) s ∙ hy
    last_out (inr s) = parts.disjoint (last head xs) s

pub insert_front-Links :
    (c : Bcache) (b : ℕ) (ws : List ℕ)
    → head ≢ b
    → mem b ws ≡ false
    → mem head ws ≡ false
    → Distinct ws
    → Links c.next c.prev head ws head
    → Links (insert_front b c).next (insert_front b c).prev head (b ∷ ws) head
unfolding Links Distinct
insert_front-Links c b [] hb bo ho d (e, f) =
    let n1 = update c.next b (c.next head) in
    let p1 = update c.prev b head in
    let at : update c.next b (c.next head) head ≡ head =
      update-other c.next b head (c.next head) (λ q. hb (sym q)) ∙ e in
    subst (λ q. Links (update n1 head b) (update p1 q b) head (b ∷ []) head) (sym at)
      (
        update-same n1 head b,
        update-other p1 head b b hb ∙ update-same c.prev b head,
        (
          update-other n1 head b b hb ∙ update-same c.next b (c.next head) ∙ e,
          update-same p1 head b,
        ),
      )
insert_front-Links c b (w ∷ ws) hb bo ho (dw, d) (e, f, l) =
    let n1 = update c.next b (c.next head) in
    let p1 = update c.prev b head in
    let at : update c.next b (c.next head) head ≡ w =
      update-other c.next b head (c.next head) (λ q. hb (sym q)) ∙ e in
    let (bw, b_rest) = out_first b w ws bo in
    let (hw, h_rest) = out_first head w ws ho in
    subst (λ q. Links (update n1 head b) (update p1 q b) head (b ∷ w ∷ ws) head) (sym at)
      (
        update-same n1 head b,
        update-other p1 w b b (λ q. bw (sym q)) ∙ update-same c.prev b head,
        (
          update-other n1 head b b hb ∙ update-same c.next b (c.next head) ∙ e,
          update-same p1 w b,
          Links-next n1 (update p1 w b) w head head b ws hw h_rest (
              Links-next c.next (update p1 w b) w head b (c.next head) ws bw b_rest (
                Links-prev c.next p1 w head w b ws (λ q. hw (sym q)) dw
                  (Links-prev c.next c.prev w head b head ws (λ q. hb (sym q)) b_rest l))),
        ),
      )

-- The list of the buffers from the one used last to the one used longest ago: a ring over the head with each buffer once.
pub record IsRing (c : Bcache) (order : List ℕ) : Type 0 where
  pub links : Links c.next c.prev head order head
  pub distinct : Distinct order
  pub no_head : mem head order ≡ false
  pub all : length order ≡ nbuf
  pub covers : (i : ℕ) → (i < nbuf) ↔ (mem i order ≡ true)

-- A buffer of the ring leaves its place and comes to the front.
pub to_front-IsRing :
    (c : Bcache) (b : ℕ) (xs ys : List ℕ)
    → IsRing c (xs ++ b ∷ ys)
    → IsRing (insert_front b (unlink_buf b c)) (b ∷ xs ++ ys)
unfolding Distinct
to_front-IsRing c b xs ys r =
    let parts = Distinct-Parts b xs ys r.distinct in
    let (hx, h_rest) =
      neither (mem head xs) (mem head (b ∷ ys)) (sym (mem-append head xs (b ∷ ys)) ∙ r.no_head) in
    let (hb, hy) = out_first head b ys h_rest in
    let (before, behind) = Links-split c.next c.prev head b head xs ys r.links in
    let b_out = mem-append b xs ys ∙ rw parts.b_front parts.b_rear in
    let h_out = mem-append head xs ys ∙ rw hx hy in
    let rest = Distinct-append xs ys parts.front parts.rear parts.disjoint in
    record {
      links =
          insert_front-Links (unlink_buf b c) b (xs ++ ys) hb b_out h_out rest
            (unlink_buf-Links c b xs ys parts hb hx hy before behind);
      distinct = (b_out, rest);
      no_head = also head b (xs ++ ys) hb h_out;
      all = moved_length b xs ys ∙ r.all;
      covers = λ i. same_members i (r.covers i);
    }
  where
    moved_length : (b : ℕ) (xs ys : List ℕ) → length (b ∷ xs ++ ys) ≡ length (xs ++ b ∷ ys)
    moved_length b [] ys = refl
    moved_length b (x ∷ xs) ys = ap suc (moved_length b xs ys)

    neither : (s t : Bool) → (s || t) ≡ false → (s ≡ false) × (t ≡ false)
    neither false t h = (refl, h)
    neither true t h = absurd (cc h)

    also : (p x : ℕ) (zs : List ℕ) → p ≢ x → mem p zs ≡ false → mem p (x ∷ zs) ≡ false
    also p x zs ne h = elim (Bool-cases (p == x)) [
      | inl e ↦ absurd (ne (==→eq p x e))
      | inr e ↦ rw e h
    ]

    swap : (s t u : Bool) → (s || (t || u)) ≡ (t || (s || u))
    swap true true u = refl
    swap true false u = refl
    swap false true u = refl
    swap false false u = refl

    members : (i : ℕ) → mem i (xs ++ b ∷ ys) ≡ mem i (b ∷ xs ++ ys)
    members i =
        mem-append i xs (b ∷ ys)
        ∙ swap (mem i xs) (i == b) (mem i ys)
        ∙ ap (λ t. (i == b) || t) (sym (mem-append i xs ys))

    same_members :
        (i : ℕ)
        → (i < nbuf) ↔ (mem i (xs ++ b ∷ ys) ≡ true)
        → (i < nbuf) ↔ (mem i (b ∷ xs ++ ys) ≡ true)
    same_members i h = subst (λ t. (i < nbuf) ↔ (t ≡ true)) (members i) h
