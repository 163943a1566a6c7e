-- ===== src/Calls/Counts.antt =====
-- The count that `trace` returns.
use nunix.Prelude.{
  ℕ, suc, ◌+◌, ◌%◌, ◌^◌, ◌≡◌, refl, Bool, true, false, ◌&&◌, ltb, if◌then◌else◌, update, List, [],
  ◌∷◌, All, inl, inr, arith, Bool-cases, ap, ◌∙◌,
}
use nunix.Proc.Table.{Proc}
use nunix.Calls.{syscall, eax, nelem}

add_count :
    (b : Bool) (c t k : ℕ)
    → c ≡ (if b then (t + 1) % 4294967296 else t)
    → (c + k) % 4294967296 ≡ (t + (if b then suc k else k)) % 4294967296
add_count true c t k h = rw h (omega arith)
add_count false c t k h = rw h

-- how many of the numbers are in the table
pub known : List ℕ → ℕ
known [] = 0
known (num ∷ nums) = if ltb 0 num && ltb num nelem then suc (known nums) else known nums

module _ {W : Type 0} (handler : ℕ → Proc × W → ℕ × (Proc × W)) where
  -- A process makes the calls with these numbers, one after the other.
  pub make_calls : List ℕ → Proc × W → Proc × W
  make_calls [] s = s
  make_calls (num ∷ nums) (p, w) =
      make_calls nums (syscall handler (record p { tf = update p.tf eax num }, w))

  -- a call that does not touch what is counted
  abbrev pub Keeps : ℕ → Type 0
  Keeps num =
      (s : Proc × W)
      → ((handler num s).1.0.trace_flag ≡ s.0.trace_flag)
        × ((handler num s).1.0.total_sys_call ≡ s.0.total_sys_call)

  syscall-count :
      (num : ℕ) (p : Proc) (w : W)
      → Keeps num
      → p.trace_flag ≡ true
      → let q : Proc = (syscall handler (record p { tf = update p.tf eax num }, w)).0 in
        (q.trace_flag ≡ true)
        × (q.total_sys_call ≡ (
            if ltb 0 num && ltb num nelem
            then (p.total_sys_call + 1) % 2 ^ 32
            else p.total_sys_call))
  unfolding syscall
  syscall-count num p w keeps t = elim (Bool-cases (ltb 0 num && ltb num nelem)) [
    | inl e ↦
        let counted : Proc = record p {
          tf = update p.tf eax num;
          total_sys_call = (p.total_sys_call + 1) % 2 ^ 32;
          trace_flag = true;
        } in
        rw (syscall, e, t) (keeps (counted, w))
    | inr e ↦ rw (syscall, e) (t, refl)
  ]

  -- While a process is traced, its count grows by one with each call of a number in the table, modulo 2^32, in any sequence of calls that
  -- do not touch the count themselves.
  make_calls-count :
      (nums : List ℕ) (p : Proc) (w : W)
      → All Keeps nums
      → p.trace_flag ≡ true
      → (make_calls nums (p, w)).0.total_sys_call % 2 ^ 32
        ≡ (p.total_sys_call + known nums) % 2 ^ 32
  unfolding make_calls known
  make_calls-count [] p w keeps t = ap (λ x. x % 4294967296) (omega arith)
  make_calls-count (num ∷ nums) p w (k, keeps) t =
      let (q, v) = syscall handler (record p { tf = update p.tf eax num }, w) in
      let (u, e) = syscall-count num p w k t in
      make_calls-count nums q v keeps u ∙ add_count _ _ _ (known nums) e
