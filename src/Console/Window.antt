-- ===== src/Console/Window.antt =====
-- The bytes between two counters of the input buffer.
use nunix.Prelude.{
  ℕ, zero, suc, ◌+◌, ◌-◌, ◌%◌, ◌^◌, ◌≤◌, ◌<◌, ◌≡◌, ◌≢◌, refl, ◌==◌, ==→eq, update, List, [], ◌∷◌,
  ◌++◌, length, inl, inr, arith, Bool-cases, ap, ap₂, ◌∙◌,
}
use nunix.Console.{input_buf, plus_uint}

-- the `n` bytes from counter `r` on
abbrev pub window : (ℕ → ℕ) → ℕ → ℕ → List ℕ
window buf r zero = []
window buf r (suc n) = buf (r % input_buf) ∷ window buf (plus_uint r 1) n

pub length-window : (buf : ℕ → ℕ) (r n : ℕ) → length (window buf r n) ≡ n
length-window buf r zero = refl
length-window buf r (suc n) = ap suc (length-window buf (plus_uint r 1) n)

update-ne : (f : ℕ → ℕ) (i v j : ℕ) → i ≢ j → update f i v j ≡ f j
update-ne f i v j apart = elim (Bool-cases (i == j)) [
  | inl e ↦ absurd (apart (==→eq i j e))
  | inr e ↦ rw e refl
]

update-eq : (f : ℕ → ℕ) (i v j : ℕ) → i ≡ j → update f i v j ≡ v
update-eq f i v j same = ground (arith, same)

-- A byte written outside the window, at `m` bytes from its start.
pub window-outside :
    (buf : ℕ → ℕ) (v n r m i : ℕ)
    → r < 2 ^ 32
    → n ≤ m
    → m < input_buf
    → i ≡ (r + m) % input_buf
    → window (update buf i v) r n ≡ window buf r n
window-outside buf v zero r m i hr l k e = refl
window-outside buf v (suc n) r m i hr l k e =
    ap₂ ◌∷◌ (update-ne buf i v (r % input_buf) (λ x. omega arith)) (
      window-outside buf v n (plus_uint r 1) (m - 1) i (omega arith) (omega arith) (omega arith)
        (omega arith))

-- Two windows one behind the other.
pub window-append :
    (buf : ℕ → ℕ) (n m r q : ℕ)
    → r < 2 ^ 32
    → q ≡ plus_uint r n
    → window buf r (n + m) ≡ window buf r n ++ window buf q m
window-append buf zero m r q hr e =
    let same : r ≡ q = omega arith in
    let count : 0 + m ≡ m = omega arith in ap₂ (window buf) same count
window-append buf (suc n) m r q hr e =
    let count : suc n + m ≡ suc (n + m) = omega arith in
    ap (window buf r) count
    ∙ ap (λ t. buf (r % input_buf) ∷ t)
        (window-append buf n m (plus_uint r 1) q (omega arith) (omega arith))

-- A byte written behind the window extends it.
pub window-behind :
    (buf : ℕ → ℕ) (v n r i : ℕ)
    → r < 2 ^ 32
    → n < input_buf
    → i ≡ (r + n) % input_buf
    → window (update buf i v) r (n + 1) ≡ window buf r n ++ (v ∷ [])
window-behind buf v n r i hr l e =
    window-append (update buf i v) n 1 r (plus_uint r n) hr refl
    ∙ ap₂ (λ x y. x ++ y ∷ []) (window-outside buf v n r n i hr (omega arith) l e)
        (update-eq buf i v (plus_uint r n % input_buf) (omega (arith, e)))
