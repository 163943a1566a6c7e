-- ===== src/Memory/Tests.antt =====
-- The theorems on string.c at a small memory: "ab" and a NUL at 0, the same at 8, and zeroes.
use nunix.Prelude.{ℕ, ◌<◌, ◌≤◌, ◌≡◌, ◌⊎◌, inl, refl, arith, pos, [], ◌∷◌, get_or}
use nunix.Memory.{Bytes, memmove, strncmp, safestrcpy}
use nunix.Memory.Copy.{moved, memmove-moved}
use nunix.Memory.Names.{IsCopy, safestrcpy-IsCopy}

abbrev ram : Bytes
ram i = get_or (97 ∷ 98 ∷ 0 ∷ 0 ∷ 0 ∷ 0 ∷ 0 ∷ 0 ∷ 97 ∷ 98 ∷ []) i 0

memmove-moved_example : memmove 1 0 4 ram 2 ≡ moved 1 0 4 ram 2
memmove-moved_example = memmove-moved 1 0 4 ram 2

safestrcpy-IsCopy_example :
    ((k : ℕ) × (k < 4) × IsCopy 20 0 ram 3 k (safestrcpy 20 0 4 ram))
    × ((i : ℕ) → (i < 20) ⊎ (24 ≤ i) → safestrcpy 20 0 4 ram i ≡ ram i)
safestrcpy-IsCopy_example = safestrcpy-IsCopy 20 0 3 ram (inl (omega arith))

same_name : strncmp 0 8 14 ram ≡ pos 0
unfolding strncmp
same_name = refl

shifted_up : memmove 1 0 2 ram 2 ≡ 98
unfolding memmove
shifted_up = refl
