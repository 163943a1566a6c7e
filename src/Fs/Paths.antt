-- ===== src/Fs/Paths.antt =====
-- fs.c, the names layer. A path is the list of its bytes up to the NUL; `name` is a buffer of `DIRSIZ`
-- bytes.
pub mod Elements
use nunix.Prelude.{
  ℕ, zero, suc, ◌+◌, ◌-◌, Bool, true, false, ◌==◌, ◌&&◌, not, leb, if◌then◌else◌, Result, ok, panic,
  ◌>>=◌, Option, none, some, List, [], ◌∷◌, ◌++◌, take, drop, length,
}
use nunix.Fs.{Inode, Fs}
use nunix.Fs.Inodes.{iget, idup, ilock, iunlock}
use nunix.Fs.Inodes.Trunc.{iput, iunlockput}
use nunix.Fs.Content.{Devices, t_dir}
use nunix.Fs.Directories.{dirsiz, dirlookup}

-- '/'
abbrev pub slash : ℕ
slash = 47

-- `while(*path == '/') path++`
pub skip_slashes : List ℕ → List ℕ
skip_slashes [] = []
skip_slashes (c ∷ cs) = let rest = skip_slashes cs in if c == slash then rest else c ∷ cs

-- `while(*path != '/' && *path != 0) path++`: the bytes that it passes, and the path after them.
pub pass_element : List ℕ → List ℕ × List ℕ
pass_element [] = ([], [])
pass_element (c ∷ cs) =
    let (e, rest) = pass_element cs in if c == slash then ([], c ∷ cs) else (c ∷ e, rest)

-- what the buffer `name` holds with the element moved to it
pub put_name : List ℕ → List ℕ → List ℕ
put_name s name =
    if leb dirsiz (length s)
    then take dirsiz s ++ drop dirsiz name
    else s ++ 0 ∷ drop (length s + 1) name

-- The path after its first element, and the buffer `name`.
pub skipelem : List ℕ → List ℕ → Option (List ℕ × List ℕ)
unfolding skip_slashes pass_element put_name
skipelem path name = elim (skip_slashes path) [
  | [] ↦ none
  | c ∷ cs ↦ (let (s, rest) = pass_element (c ∷ cs) in some (skip_slashes rest, put_name s name))
]

abbrev pub is_end : List ℕ → Bool
is_end [] = true
is_end (c ∷ cs) = false

abbrev pub starts_at_root : List ℕ → Bool
starts_at_root [] = false
starts_at_root (c ∷ cs) = c == slash

-- What `namex` does with an element, and what it goes on with.
pub data Turn : Type 0 where
  done : Option ℕ → Fs → Turn
  next : ℕ → Fs → Turn

-- The rounds of `namex` after one.
abbrev pub go_on :
    List ℕ → (ℕ → Fs → Result (Option ℕ × List ℕ × Fs)) → Turn → Result (Option ℕ × List ℕ × Fs)
go_on name f (done r s) = ok (r, name, s)
go_on name f (next ip s) = f ip s

-- `proc->cwd`, what waiting in `ilock` does, and the devices stay the same in a lookup.
module _ (devsw : Devices) (others : ℕ → Fs → Fs) where
  -- One round of the loop of `namex`, at the inode `ip`; `last` is `*path == '\0'` after `name`.
  pub turn : Bool → Bool → List ℕ → ℕ → Fs → Result Turn
  unfolding ilock iunlock iunlockput dirlookup
  turn nameiparent last name ip s = do
    s1 ← ilock others ip s
    if not ((s1.inode ip).type == t_dir)
        then (do s2 ← iunlockput ip s1; ok (done none s2))
        else if nameiparent && last
        then (do s2 ← iunlock ip s1; ok (done (some ip) s2))
        else (do
          (found, s2) ← dirlookup devsw ip name s1
          s3 ← iunlockput ip s2
          ok (elim found [ none ↦ done none s3 | some (off, nxt) ↦ next nxt s3 ]))

  -- What `namex` does when no element is left.
  pub at_last : Bool → ℕ → Fs → Result (Option ℕ × Fs)
  unfolding iput
  at_last nameiparent ip s =
      if nameiparent then (do s1 ← iput ip s; ok (none, s1)) else ok (some ip, s)

  -- The loop of `namex`: the inode, the buffer `name` and the state.
  pub namex_from : Bool → ℕ → List ℕ → List ℕ → ℕ → Fs → Result (Option ℕ × List ℕ × Fs)
  unfolding skipelem turn at_last
  namex_from nameiparent zero path name ip s = ok (none, name, s)
  namex_from nameiparent (suc fuel) path name ip s = elim (skipelem path name) [
    | none ↦ (do (r, s1) ← at_last nameiparent ip s; ok (r, name, s1))
    | some (path', name') ↦ (do
      t ← turn nameiparent (is_end path') name' ip s
      go_on name' (namex_from nameiparent fuel path' name') t)
  ]

  pub namex : ℕ → List ℕ → Bool → List ℕ → Fs → Result (Option ℕ × List ℕ × Fs)
  unfolding namex_from iget idup
  namex cwd path nameiparent name s = do
    (ip, s1) ← if starts_at_root path then iget 1 1 s else ok (idup cwd s)
    namex_from nameiparent (suc (length path)) path name ip s1

  -- `stack` is what the buffer of `namei` holds.
  unfoldable pub namei : ℕ → List ℕ → List ℕ → Fs → Result (Option ℕ × Fs)
  unfolding namex
  namei cwd stack path s = do (r, name, s1) ← namex cwd path false stack s; ok (r, s1)

  unfoldable pub nameiparent : ℕ → List ℕ → List ℕ → Fs → Result (Option ℕ × List ℕ × Fs)
  unfolding namex
  nameiparent cwd path name s = namex cwd path true name s
