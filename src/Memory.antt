-- ===== src/Memory.antt =====
-- string.c: the copying, filling and comparing of bytes in memory. An address is a number, and no
-- range of addresses that is passed wraps around.
pub mod Copy
pub mod Fill
pub mod Names
mod Tests
use nunix.Prelude.{
  ℕ, zero, suc, ◌+◌, ◌*◌, ◌/◌, ◌%◌, ◌<◌, Bool, true, false, ◌&&◌, ◌||◌, not, ◌==◌, ltb, leb,
  if◌then◌else◌, update, for_upto, ℤ, pos, ◌-ℤ◌, Option, none, some,
}

-- the byte at each address
abbrev pub Bytes : Type 0
Bytes = ℕ → ℕ

-- `stosb` of x86.h
pub stosb : ℕ → ℕ → ℕ → Bytes → Bytes
stosb addr value count = for_upto count λ i m. update m (addr + i) (value % 256)

-- a double word in memory, with the low byte first
abbrev pub put_word : ℕ → ℕ → Bytes → Bytes
put_word addr value m =
    update
      (update (update (update m addr (value % 256)) (addr + 1) (value / 256 % 256)) (addr + 2)
        (value / 65536 % 256))
      (addr + 3) (value / 16777216 % 256)

-- `stosl` of x86.h
pub stosl : ℕ → ℕ → ℕ → Bytes → Bytes
stosl addr value count = for_upto count λ i. put_word (addr + 4 * i) value

pub memset : ℕ → ℕ → ℕ → Bytes → Bytes
unfolding stosb stosl
memset dst c n m =
    if (dst % 4 == 0) && (n % 4 == 0)
    then (let b = c % 256 in stosl dst (b * 16777216 + b * 65536 + b * 256 + b) (n / 4) m)
    else stosb dst c n m

-- The loop of `memcmp`: the bytes are unsigned, and the result is an `int`.
pub memcmp : ℕ → ℕ → ℕ → Bytes → ℤ
memcmp s1 s2 zero m = pos 0
memcmp s1 s2 (suc n) m =
    let rest = memcmp (s1 + 1) (s2 + 1) n m in if not (m s1 == m s2) then m s1 -ℤ m s2 else rest

-- the loop of `memmove` from the end down
pub move_down : ℕ → ℕ → ℕ → Bytes → Bytes
move_down d s zero m = m
move_down d s (suc n) m = move_down d s n (update m (d + n) (m (s + n)))

-- the loop of `memmove` from the start up
pub move_up : ℕ → ℕ → ℕ → Bytes → Bytes
move_up d s n = for_upto n λ i m. update m (d + i) (m (s + i))

pub memmove : ℕ → ℕ → ℕ → Bytes → Bytes
unfolding move_down move_up
memmove dst src n =
    if ltb src dst && ltb dst (src + n) then move_down dst src n else move_up dst src n

unfoldable pub strncmp : ℕ → ℕ → ℕ → Bytes → ℤ
strncmp p q zero m = pos 0
strncmp p q (suc n) m =
    let rest = strncmp (p + 1) (q + 1) n m in
    if not (m p == 0) && (m p == m q) then rest else m p -ℤ m q

-- the second loop of `strncpy`
pub pad : ℕ → ℕ → Bytes → Bytes
pad s n = for_upto n λ i m. update m (s + i) 0

unfoldable pub strncpy : ℕ → ℕ → ℕ → Bytes → Bytes
unfolding pad
strncpy s t zero m = m
strncpy s t (suc n) m =
    let m' = update m s (m t) in
    let rest = strncpy (s + 1) (t + 1) n m' in if m t == 0 then pad (s + 1) n m' else rest

-- The loop of `safestrcpy` with `n` bytes left to copy, and the NUL after it.
pub safe_copy : ℕ → ℕ → ℕ → Bytes → Bytes
safe_copy s t zero m = update m s 0
safe_copy s t (suc n) m =
    let m' = update m s (m t) in
    let rest = safe_copy (s + 1) (t + 1) n m' in if m t == 0 then update m' (s + 1) 0 else rest

-- `n` is an `int` that is not negative; `safestrcpy` does nothing for a negative one either.
pub safestrcpy : ℕ → ℕ → ℕ → Bytes → Bytes
unfolding safe_copy
safestrcpy s t zero m = m
safestrcpy s t (suc n) m = safe_copy s t n m
