-- ===== src/Files/Empty.antt =====
-- `isdirempty` of sysfile.c, in a directory of whole entries whose blocks are allocated.
use nunix.Prelude.{
  ℕ, zero, suc, ◌+◌, ◌*◌, ◌≤◌, ◌<◌, ◌≡◌, ◌⊎◌, refl, Bool, true, false, ◌==◌, ==→eq, ltb, Result, ok,
  inl, inr, arith, Bool-cases, ap,
}
use nunix.Fs.{Fs}
use nunix.Fs.Content.{Devices}
use nunix.Fs.Directories.{dirent_size, de_inum}
use nunix.Fs.Directories.Lookup.{IsDirectory, entry, read_entry, behind, at_end, before_end}
use nunix.Files.Links.{empty_from, isdirempty}

-- Entry `k` is in use.
pub record IsUsed (s : Fs) (dp k : ℕ) : Type 0 where
  pub within : k * dirent_size < (s.inode dp).size
  pub in_use : (de_inum (entry s dp k) == 0) ≡ false

-- No entry from `k` on is in use, or one is.
pub Emptied : ℕ → ℕ → Fs → Result (Bool × Fs) → Type 0
Emptied dp k s r =
    ((r ≡ ok (true, s)) × ((j : ℕ) → k ≤ j → ¬ IsUsed s dp j))
    ⊎ ((r ≡ ok (false, s)) × (j : ℕ) × (k ≤ j) × IsUsed s dp j)

passed :
    (dp k : ℕ) (s : Fs) (r : Result (Bool × Fs))
    → (de_inum (entry s dp k) == 0) ≡ true
    → Emptied dp (suc k) s r
    → Emptied dp k s r
unfolding Emptied
passed dp k s r unused (inl (e, none_left)) = inl (
  e,
  λ j l u. elim (Bool-cases (k == j)) [
    | inl y ↦
        let used = u.in_use in
        cc (ap (λ i. de_inum (entry s dp i) == 0) (==→eq k j y), unused, used)
    | inr y ↦ none_left j (behind k j l y) u
  ],
)
passed dp k s r unused (inr (e, j, l, u)) = inr (e, j, omega arith, u)

empty_from-Emptied :
    (devsw : Devices) (s : Fs) (dp hi fuel k : ℕ)
    → IsDirectory s dp hi
    → (s.inode dp).size ≤ (k + fuel) * dirent_size
    → Emptied dp k s (empty_from devsw dp fuel (k * dirent_size) s)
unfolding empty_from Emptied
empty_from-Emptied devsw s dp hi zero k d l = inl (refl, λ j a u. let w = u.within in omega arith)
empty_from-Emptied devsw s dp hi (suc fuel) k d l =
    elim (Bool-cases (ltb (k * dirent_size) (s.inode dp).size)) [
      | inr e ↦
          rw (empty_from, e)
            (inl (
              refl,
              λ j a u.
                  let w = u.within in
                  let z = at_end (k * dirent_size) (s.inode dp).size e in omega arith,
            ))
      | inl e ↦
          let here = before_end (k * dirent_size) (s.inode dp).size e in
          let next : k * dirent_size + dirent_size ≡ suc k * dirent_size = omega arith in
          let read = read_entry devsw s dp hi k d here in
          let rest = empty_from-Emptied devsw s dp hi fuel (suc k) d (omega arith) in
          elim (Bool-cases (de_inum (entry s dp k) == 0)) [
            | inl e1 ↦ rw (empty_from, e, read, e1, next) (passed dp k s _ e1 rest)
            | inr e1 ↦
                rw (empty_from, e, read, e1)
                  (inr (refl, k, omega arith, record { within = here; in_use = e1 }))
          ]
    ]

-- In a directory of whole entries whose blocks are allocated, `isdirempty` does not panic and changes nothing: it returns 1 when no
-- entry from the third on is in use, and 0 when one is.
pub isdirempty-Emptied :
    (devsw : Devices) (s : Fs) (dp hi : ℕ)
    → IsDirectory s dp hi
    → Emptied dp 2 s (isdirempty devsw dp s)
unfolding isdirempty
isdirempty-Emptied devsw s dp hi d =
    empty_from-Emptied devsw s dp hi (s.inode dp).size 2 d (omega arith)
