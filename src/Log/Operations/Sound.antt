-- ===== src/Log/Operations/Sound.antt =====
-- What holds in every state that operations reach.
use mathlib.Core.Path.{subst}
use nunix.Prelude.{
  ℕ, suc, ◌+◌, ◌*◌, ◌≤◌, ◌≡◌, refl, ap, Bool, true, false, List, [], ◌∷◌, ◌++◌, some, ok, arith,
  length, length-append, All, All-drop, All-put,
}
use nunix.Disk.{Block, Disk, Store, modify}
use nunix.Log.{
  Log, logsize, maxopblocks, begin_op, log_write, leave_op, finish_commit, absorb, commit,
}
use nunix.Log.Recovery.{IsEmpty}
use nunix.Log.Absorb.{lh_n-absorb}
use nunix.Log.Operations.Stored.{
  IsStored, enter-IsStored, leave-IsStored, absorb-IsStored, finish-IsStored,
}
use nunix.Log.Operations.{System, Step, enter, write, leave, finish, Reach, here, next, booted}

abbrev pub sum : List ℕ → ℕ
sum [] = 0
sum (x ∷ xs) = x + sum xs

pub sum-append : (xs ys : List ℕ) → sum (xs ++ ys) ≡ sum xs + sum ys
sum-append [] ys = omega arith
sum-append (x ∷ xs) ys = omega (arith, sum-append xs ys)

abbrev pub InBudget : ℕ → Type 0
InBudget b = b ≤ maxopblocks

sum_capped : (xs : List ℕ) → All InBudget xs → sum xs ≤ length xs * maxopblocks
sum_capped [] h = omega arith
sum_capped (x ∷ xs) h = omega (arith, sum_capped xs h.1)

-- The part of the invariant that is about the reservation of log space.
pub record IsReserved (log : Log) (budgets : List ℕ) : Type 0 where
  pub fits : log.lh_n + sum budgets ≤ logsize
  pub counted : length budgets ≡ log.outstanding
  pub capped : All InBudget budgets
  pub quiet : log.committing ≡ true → log.outstanding ≡ 0

pub record IsSound (o : System) : Type 0 where
  pub reserved : IsReserved o.log o.budgets
  pub stored : IsStored o.log o.store

enter-IsReserved :
    {log log' : Log} (budgets : List ℕ)
    → begin_op log ≡ some log'
    → IsReserved log budgets
    → IsReserved log' (maxopblocks ∷ budgets)
unfolding begin_op
enter-IsReserved budgets h r = ground (arith, sum_capped budgets r.capped)

-- What a successful `log_write` did.
pub log_write-ok :
    (log : Log) (s : Store) (n : ℕ) (d : Block) {log' : Log} {s' : Store}
    → log_write log s n d ≡ ok (log', s')
    → (log' ≡ absorb log n) × (s' ≡ modify s n d)
unfolding log_write
log_write-ok log s n d h = ground arith

absorb-IsReserved :
    (log : Log) (n left : ℕ) (xs ys budgets : List ℕ)
    → budgets ≡ xs ++ (suc left ∷ ys)
    → IsReserved log budgets
    → IsReserved (absorb log n) (xs ++ (left ∷ ys))
unfolding absorb
absorb-IsReserved log n left xs ys budgets e r =
    let facts : (sum budgets ≡ sum (xs ++ (left ∷ ys)) + 1)
        × (length budgets ≡ length (xs ++ (left ∷ ys))) =
      omega (
        arith,
        ap sum e,
        ap length e,
        sum-append xs (suc left ∷ ys),
        sum-append xs (left ∷ ys),
        length-append xs (suc left ∷ ys),
        length-append xs (left ∷ ys),
      ) in
    let (top, others) = All-drop InBudget xs ys (suc left) (subst (All InBudget) e r.capped) in
    record {
      fits = omega (arith, lh_n-absorb log n);
      counted = omega arith;
      capped = All-put InBudget xs ys left (omega arith) others;
      quiet = r.quiet;
    }

leave-IsReserved :
    {log log' : Log} (left : ℕ) (xs ys : List ℕ) {budgets : List ℕ} {c : Bool}
    → leave_op log ≡ ok (log', c)
    → budgets ≡ xs ++ (left ∷ ys)
    → IsReserved log budgets
    → IsReserved log' (xs ++ ys)
unfolding leave_op
leave-IsReserved left xs ys {budgets} h e r =
    let facts : (sum budgets ≡ sum (xs ++ ys) + left) × (length budgets ≡ length (xs ++ ys) + 1) =
      omega (
        arith,
        ap sum e,
        ap length e,
        sum-append xs (left ∷ ys),
        sum-append xs ys,
        length-append xs (left ∷ ys),
        length-append xs ys,
      ) in
    let (top, others) = All-drop InBudget xs ys left (subst (All InBudget) e r.capped) in
    record { fits = ground arith; counted = ground arith; capped = others; quiet = ground arith }

finish-IsReserved :
    (log : Log) (s : Store) (budgets : List ℕ)
    → log.committing ≡ true
    → IsReserved log budgets
    → IsReserved (finish_commit log s).0 budgets
unfolding finish_commit commit
finish-IsReserved log s budgets h r =
    let z : sum budgets ≡ 0 = omega (arith, sum_capped budgets r.capped, r.quiet h) in
    record { fits = ground arith; counted = ground arith; capped = r.capped; quiet = ground arith }

-- Every step keeps the system sound.
pub Step-IsSound : {o p : System} → Step o p → IsSound o → IsSound p
Step-IsSound {o} (enter log h) i = record {
  reserved = enter-IsReserved o.budgets h i.reserved;
  stored = enter-IsStored h i.stored;
}
Step-IsSound {o} (write xs ys left n d log store e l h) i =
    let (log_is, store_is) = log_write-ok o.log o.store n d h in
    record {
      reserved = rw log_is (absorb-IsReserved o.log n left xs ys o.budgets e i.reserved);
      stored = rw (log_is, store_is) (absorb-IsStored o.log o.store n d l i.stored);
    }
Step-IsSound {o} (leave xs ys left log c e h) i = record {
  reserved = leave-IsReserved left xs ys h e i.reserved;
  stored = leave-IsStored h i.stored;
}
Step-IsSound {o} (finish h) i = record {
  reserved = finish-IsReserved o.log o.store o.budgets h i.reserved;
  stored = finish-IsStored o.log o.store i.stored;
}

pub Reach-IsSound : {o p : System} → IsSound o → Reach o p → IsSound p
Reach-IsSound i here = i
Reach-IsSound i (next r st) = Step-IsSound st (Reach-IsSound i r)

-- a log as `initlog` leaves it, and the disk under it
pub record IsBooted (log : Log) (d : Disk) : Type 0 where
  pub no_sectors : log.lh_n ≡ 0
  pub no_operations : log.outstanding ≡ 0
  pub no_commit : log.committing ≡ false
  pub empty : IsEmpty log.start d

pub booted-IsSound : {log : Log} {d : Disk} → IsBooted log d → IsSound (booted log d)
booted-IsSound {log} b = record {
  reserved = record {
    fits = omega arith;
    counted = omega arith;
    capped = tt;
    quiet = ground arith;
  };
  stored = record {
    homes = λ i l. absurd (omega arith);
    empty = b.empty;
    coherent = λ n h. refl;
    pinned = λ n h. absurd (cc);
  };
}
