-- ===== src/Fs/Directories/Lookup.antt =====
-- `dirlookup` in a directory whose blocks are allocated.
use mathlib.Core.Path.{subst}
use nunix.Prelude.{
  ℕ, zero, suc, ◌+◌, ◌-◌, ◌*◌, ◌%◌, ◌^◌, ◌≤◌, ◌<◌, ◌≡◌, ◌⊎◌, refl, true, false, ◌==◌, ==→eq, ◌||◌,
  ltb, leb, Result, ok, ◌>>=◌, min, Option, none, some, List, inl, inr, arith, Bool-cases, sym, ◌∙◌,
  pos,
}
use nunix.Fs.{Fs}
use nunix.Fs.Inodes.{iget}
use nunix.Fs.Content.{Devices, bsize, t_dir, t_dev, readi}
use nunix.Fs.Content.Bytes.{Mapped}
use nunix.Fs.Content.Read.{file_bytes, readi-file_bytes}
use nunix.Fs.Directories.{dirent_size, namecmp, de_inum, de_name, is_zero, lookup_from, dirlookup}

-- the bytes of entry `k` of a directory
abbrev pub entry : Fs → ℕ → ℕ → List ℕ
entry s dp k = file_bytes s dp (k * dirent_size) dirent_size

-- Entry `k` is in use, with a name that `namecmp` takes for `name`.
pub record IsEntry (s : Fs) (dp : ℕ) (name : List ℕ) (k : ℕ) : Type 0 where
  pub within : k * dirent_size < (s.inode dp).size
  pub in_use : (de_inum (entry s dp k) == 0) ≡ false
  pub named : is_zero (namecmp name (de_name (entry s dp k))) ≡ true

-- A directory of whole entries, with its blocks allocated.
pub record IsDirectory (s : Fs) (dp hi : ℕ) : Type 0 where
  pub directory : (s.inode dp).type ≡ t_dir
  pub mapped : Mapped s dp hi
  pub fits : (s.inode dp).size ≤ hi * bsize
  pub whole : (s.inode dp).size % dirent_size ≡ 0

pub read_entry :
    (devsw : Devices) (s : Fs) (dp hi k : ℕ)
    → IsDirectory s dp hi
    → k * dirent_size < (s.inode dp).size
    → readi devsw dp (k * dirent_size) dirent_size s ≡ ok (pos dirent_size, entry s dp k, s)
read_entry devsw s dp hi k d l =
    let size = (s.inode dp).size in
    let off = k * dirent_size in
    let short = d.mapped.fits in
    let fits = d.fits in
    let whole = d.whole in
    let dir = d.directory in
    let file : ((s.inode dp).type == t_dev) ≡ false = ground (arith, dir) in
    let inside : (ltb size off || leb (2 ^ 32) (off + dirent_size)) ≡ false = ground arith in
    let count : min dirent_size (size - off) ≡ dirent_size = omega arith in
    readi-file_bytes devsw s dp hi off dirent_size file d.mapped fits (omega arith) (omega arith)
    ∙ rw (inside, count) refl

-- What `dirlookup` from entry `k` on comes to: the first entry with the name and its inode, or none.
pub Looked : ℕ → List ℕ → ℕ → Fs → Result (Option (ℕ × ℕ) × Fs) → Type 0
Looked dp name k s r =
    ((r ≡ ok (none, s)) × ((j : ℕ) → k ≤ j → ¬ IsEntry s dp name j))
    ⊎ ((j : ℕ) × (k ≤ j)
        × IsEntry s dp name j
        × ((i : ℕ) → k ≤ i → i < j → ¬ IsEntry s dp name i)
        × (r ≡ (
            iget (s.inode dp).dev (de_inum (entry s dp j)) s >>= λ (ip, s').
            ok (some (j * dirent_size, ip), s'))))

pub behind : (k j : ℕ) → k ≤ j → (k == j) ≡ false → suc k ≤ j
behind k j l h = ground arith

pub at_end : (a b : ℕ) → ltb a b ≡ false → b ≤ a
at_end a b h = ground arith

pub before_end : (a b : ℕ) → ltb a b ≡ true → a < b
before_end a b h = ground arith

-- An entry that is not the one is passed.
passed :
    (dp : ℕ) (name : List ℕ) (k : ℕ) (s : Fs) (r : Result (Option (ℕ × ℕ) × Fs))
    → ¬ IsEntry s dp name k
    → Looked dp name (suc k) s r
    → Looked dp name k s r
unfolding Looked
passed dp name k s r other (inl (e, none_left)) = inl (
  e,
  λ j l f. elim (Bool-cases (k == j)) [
    | inl y ↦ other (subst (IsEntry s dp name) (sym (==→eq k j y)) f)
    | inr y ↦ none_left j (behind k j l y) f
  ],
)
passed dp name k s r other (inr (j, l, f, before, e)) = inr (
  j,
  omega arith,
  f,
  (λ i a b g. elim (Bool-cases (k == i)) [
    | inl y ↦ other (subst (IsEntry s dp name) (sym (==→eq k i y)) g)
    | inr y ↦ before i (behind k i a y) b g
  ]),
  e,
)

lookup_from-Looked :
    (devsw : Devices) (s : Fs) (dp hi : ℕ) (name : List ℕ) (fuel k : ℕ)
    → IsDirectory s dp hi
    → (s.inode dp).size ≤ (k + fuel) * dirent_size
    → Looked dp name k s (lookup_from devsw dp name fuel (k * dirent_size) s)
unfolding lookup_from Looked
lookup_from-Looked devsw s dp hi name zero k d l =
    inl (refl, λ j a f. let w = f.within in omega arith)
lookup_from-Looked devsw s dp hi name (suc fuel) k d l =
    elim (Bool-cases (ltb (k * dirent_size) (s.inode dp).size)) [
      | inr e ↦
          rw (lookup_from, e)
            (inl (
              refl,
              λ j a f.
                  let w = f.within in
                  let z = at_end (k * dirent_size) (s.inode dp).size e in omega arith,
            ))
      | inl e ↦
          let here = before_end (k * dirent_size) (s.inode dp).size e in
          let next : k * dirent_size + dirent_size ≡ suc k * dirent_size = omega arith in
          let read = read_entry devsw s dp hi k d here in
          let rest = lookup_from-Looked devsw s dp hi name fuel (suc k) d (omega arith) in
          elim (Bool-cases (de_inum (entry s dp k) == 0)) [
            | inl e1 ↦
                rw (lookup_from, e, read, e1, next)
                  (passed dp name k s _ (λ f. cc (e1, f.in_use)) rest)
            | inr e1 ↦ elim (Bool-cases (is_zero (namecmp name (de_name (entry s dp k))))) [
              | inl e2 ↦
                  rw (lookup_from, e, read, e1, e2)
                    (inr (
                      k,
                      omega arith,
                      record { within = here; in_use = e1; named = e2 },
                      (λ i a b. absurd (omega arith)),
                      refl,
                    ))
              | inr e2 ↦
                  rw (lookup_from, e, read, e1, e2, next)
                    (passed dp name k s _ (λ f. cc (e2, f.named)) rest)
            ]
          ]
    ]

-- In a directory of whole entries whose blocks are allocated, `dirlookup` does not panic itself: it finds nothing when no entry in use has the name,
-- and otherwise goes to `iget` with the inode number of the first entry in use that has the name, and returns the offset of this entry.
pub dirlookup-Looked :
    (devsw : Devices) (s : Fs) (dp hi : ℕ) (name : List ℕ)
    → IsDirectory s dp hi
    → Looked dp name 0 s (dirlookup devsw dp name s)
unfolding dirlookup
dirlookup-Looked devsw s dp hi name d =
    rw (dirlookup, d.directory)
      (lookup_from-Looked devsw s dp hi name (s.inode dp).size 0 d (omega arith))
