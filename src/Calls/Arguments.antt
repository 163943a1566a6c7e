-- ===== src/Calls/Arguments.antt =====
-- The kernel reads nothing of a process but its own memory, and takes all that is there.
use nunix.Prelude.{
  ℕ, zero, suc, ◌+◌, ◌-◌, ◌%◌, ◌<◌, ◌≤◌, ◌≡◌, true, false, ◌||◌, ◌==◌, ==→eq, ltb, leb,
  if◌then◌else◌, Option, none, some, inl, inr, arith, Bool-cases, Option-cases, ap, sym, ◌∙◌,
}
use nunix.Memory.{Bytes}
use nunix.Proc.Table.{Proc}
use nunix.Calls.{fetchint, fetchstr, string_end, argint, argptr, word_at}

-- `fetchint` takes a word exactly when all of it lies in the process, whose size is at most KERNBASE.
fetchint-within :
    (p : Proc) (m : Bytes) (addr : ℕ)
    → p.sz ≤ 2147483648
    → fetchint p m addr ≡ (if leb (addr + 4) p.sz then some (word_at m addr) else none)
unfolding fetchint
fetchint-within p m addr small =
    elim (Bool-cases (leb p.sz addr || ltb p.sz ((addr + 4) % 4294967296))) [
      | inl e ↦ rw e (ground arith)
      | inr e ↦ rw e (ground arith)
    ]

-- `fetchstr` against the bytes of the process: a string that ends in it, or none.
data Fetched (p : Proc) (m : Bytes) (addr : ℕ) : Option ℕ → Type 0 where
  found :
      (n : ℕ)
      → addr + n < p.sz
      → (m (addr + n) == 0) ≡ true
      → ((j : ℕ) → j < n → (m (addr + j) == 0) ≡ false)
      → Fetched p m addr (some n)
  unended : ((j : ℕ) → addr + j < p.sz → (m (addr + j) == 0) ≡ false) → Fetched p m addr none

string_end-Fetched :
    (p : Proc) (m : Bytes) (addr n i : ℕ)
    → addr + i + n ≡ p.sz
    → ((j : ℕ) → j < i → (m (addr + j) == 0) ≡ false)
    → Fetched p m addr (string_end m addr n i)
unfolding string_end
string_end-Fetched p m addr zero i e before = unended (λ j l. before j (omega arith))
string_end-Fetched p m addr (suc n) i e before = elim (Bool-cases (m (addr + i) == 0)) [
  | inl z ↦ rw z (found i (omega arith) z before)
  | inr z ↦ rw z (
      string_end-Fetched p m addr n (i + 1) (omega arith) (λ j l. elim (Bool-cases (i == j)) [
        | inl y ↦ ap (λ x. m (addr + x) == 0) (sym (==→eq i j y)) ∙ z
        | inr y ↦ before j (ground arith)
      ]))
]

-- `fetchstr` returns the length of the string when its NUL lies in the process, and -1 when no NUL follows in the process.
fetchstr-Fetched : (p : Proc) (m : Bytes) (addr : ℕ) → Fetched p m addr (fetchstr p m addr)
unfolding fetchstr
fetchstr-Fetched p m addr = elim (Bool-cases (leb p.sz addr)) [
  | inl e ↦ rw e (unended (λ j l. absurd (ground arith)))
  | inr e ↦
      rw e
        (string_end-Fetched p m addr (p.sz - addr) 0 (ground arith) (λ j l. absurd (omega arith)))
]

-- A block that `argptr` admits, of a size that is not negative as an `int`, lies in the process, whose size is at most KERNBASE.
pub argptr-within :
    (p : Proc) (m : Bytes) (n size i : ℕ)
    → p.sz ≤ 2147483648
    → size < 2147483648
    → argptr p m n size ≡ some i
    → i + size ≤ p.sz
unfolding argptr
argptr-within p m n size i small positive h = elim (Option-cases (argint p m n)) [
  | inl e ↦ absurd (cc (rw (argptr, e) at h))
  | inr (a, e) ↦
      let h' : (if leb p.sz a || ltb p.sz ((a + size) % 4294967296) then none else some a)
          ≡ some i =
        rw (argptr, e) at h in
      ground arith
]
