-- ===== src/Fs/Tests.antt =====
-- A small file system: the theorems on fs.c at concrete inputs.
use nunix.Prelude.{
  ℕ, ◌<◌, ◌≡◌, ◌⊎◌, refl, true, false, ◌==◌, if◌then◌else◌, ok, panic, ◌>>=◌, none, [], ◌∷◌, arith,
  ap, pos,
}
use nunix.Disk.{Block, reboot}
use nunix.Log.{Log}
use nunix.Log.Room.{HasRoom}
use nunix.Fs.Words.{bit}
use nunix.Fs.{Inode, Fs, block, bblock, balloc, bfree}
use nunix.Fs.Bitmap.{is_used}
use nunix.Fs.Marks.{Reserved, Marked, balloc-Marked, bfree-Marked}
use nunix.Fs.Inodes.{ninode, iget}
use nunix.Fs.Inodes.Cache.{IsUnique, Absent, Got, iget-IsUnique}
use nunix.Fs.Content.{Devices, writei, readi}
use nunix.Fs.Content.Bytes.{Mapped}
use nunix.Fs.Content.Read.{file_bytes, readi-file_bytes}
use nunix.Fs.Content.Write.{Apart}
use nunix.Fs.Content.Replace.{readi-writei}
use nunix.Fs.Directories.{dirlookup}
use nunix.Fs.Directories.Lookup.{IsDirectory, Looked, dirlookup-Looked}
use nunix.Files.Links.{isdirempty}
use nunix.Files.Empty.{Emptied, isdirempty-Emptied}
use nunix.Fs.Paths.{namex}
use nunix.Fs.Paths.Elements.{walk, namex-walk}

-- 20 blocks with 8 inodes: block 4 is the bitmap, where blocks 0 to 6 are marked; 5 and 6 hold a file.
abbrev small_block : ℕ → Block
small_block b i =
    if b == 1
    then (if i == 0 then 20 else if i == 2 then 8 else 0)
    else if b == 4
    then (if i == 0 then 127 else 0)
    else if b == 5
    then 67305985
    else 134678021

abbrev no_inode : Inode
no_inode = record {
  dev = 0;
  inum = 0;
  ref = 0;
  busy = false;
  valid = false;
  type = 0;
  major = 0;
  minor = 0;
  nlink = 0;
  size = 0;
  addrs = λ k. 0;
}

abbrev file_inode : Inode
file_inode = record {
  dev = 1;
  inum = 3;
  ref = 1;
  busy = true;
  valid = true;
  type = 2;
  major = 0;
  minor = 0;
  nlink = 1;
  size = 600;
  addrs = λ k. if k == 0 then 5 else 6;
}

abbrev small_log : Log
small_log = record {
  start = 100;
  size = 40;
  outstanding = 1;
  committing = false;
  lh_n = 0;
  sector = λ i. 0;
}

abbrev small : Fs
small = record {
  log = small_log;
  store = reboot small_block;
  inode = λ k. if k == 0 then file_inode else no_inode;
}

small_room : (n : ℕ) → n < 30 → HasRoom small_log n
small_room n l = record { begun = omega arith; below = omega arith; fits = omega arith }

bitmap_row : (b : ℕ) → b < 20 → bblock b 8 ≡ 4
bitmap_row b l = omega arith

small-Reserved : Reserved small
unfolding bit
small-Reserved = record {
  super_within = omega arith;
  super = refl;
  bitmap_within = λ b l. omega (arith, bitmap_row b l);
  bitmap = λ b l. ap (is_used small) (bitmap_row b l);
}

small-Mapped : Mapped small 0 2
small-Mapped = record {
  fits = omega arith;
  index = λ l. absurd (omega arith);
  there = λ p l. ground arith;
}

small-Apart : Apart small 0 2
small-Apart = record {
  distinct = λ p q l k e. ground arith;
  unlisted = λ p l k. absurd (omega arith);
}

small-IsUnique : IsUnique small.inode
unfolding IsUnique
small-IsUnique j k dev inum lj lk fj fk = let a = fj.held in let b = fk.held in ground arith

abbrev no_devices : Devices
no_devices = record { read = λ major. none; write = λ major. none }

balloc-Marked_example :
    ((balloc small ≡ panic "balloc: out of blocks") × ((a : ℕ) → a < 20 → is_used small a ≡ true))
    ⊎ ((a : ℕ) × (s' : Fs) × (balloc small ≡ ok (a, s'))
        × (a < 20)
        × (is_used small a ≡ false)
        × (block s' a ≡ (λ i. 0))
        × Marked small a true s'
        × Reserved s')
balloc-Marked_example = balloc-Marked small small-Reserved (small_room 2 (omega arith))

bfree-Marked_example :
    ((is_used small 6 ≡ false) × (bfree 6 small ≡ panic "freeing free block"))
    ⊎ ((is_used small 6 ≡ true) × ((s' : Fs) × (bfree 6 small ≡ ok s') × Marked small 6 false s'))
bfree-Marked_example = bfree-Marked small 6 (small_room 1 (omega arith))

iget-IsUnique_example :
    ((iget 1 3 small ≡ panic "iget: no inodes")
      × ((k : ℕ) → k < ninode → 0 < (small.inode k).ref)
      × Absent 1 3 small)
    ⊎ ((i : ℕ) × (s' : Fs) × (iget 1 3 small ≡ ok (i, s')) × Got 1 3 small i s' × IsUnique s'.inode)
iget-IsUnique_example = iget-IsUnique 1 3 small small-IsUnique

readi-file_bytes_example :
    readi no_devices 0 510 4 small ≡ ok (pos 4, file_bytes small 0 510 4, small)
readi-file_bytes_example =
    readi-file_bytes no_devices small 0 2 510 4 refl small-Mapped (omega arith) (omega arith)
      (omega arith)

readi-writei_example :
    (s' : Fs) × (writei no_devices 0 (65 ∷ 66 ∷ 67 ∷ []) 511 small ≡ ok (pos 3, s'))
    × (readi no_devices 0 511 3 s' ≡ ok (pos 3, 65 ∷ 66 ∷ 67 ∷ [], s'))
readi-writei_example =
    readi-writei no_devices small 0 2 511 (65 ∷ 66 ∷ 67 ∷ []) refl small-Mapped small-Apart
      (omega arith) (omega arith) (small_room 2 (omega arith))
      (omega arith, (omega arith, (omega arith, tt)))

-- "/a//b"
namex-walk_example : namex no_devices (λ i s. s) 0 (47 ∷ 97 ∷ 47 ∷ 47 ∷ 98 ∷ []) false [] small ≡ (
    iget 1 1 small >>= λ (ip, s1).
    walk no_devices (λ i s. s) false ((97 ∷ []) ∷ (98 ∷ []) ∷ []) [] ip s1)
namex-walk_example = namex-walk no_devices (λ i s. s) 0 (47 ∷ 97 ∷ 47 ∷ 47 ∷ 98 ∷ []) [] false small

-- A directory with the entries "." and "a" in block 7, and an entry that is not in use.
abbrev directory_block : ℕ → Block
directory_block b i =
    if b == 7 then (if i == 0 then 3014657 else if i == 4 then 6356997 else 0) else small_block b i

abbrev directory_inode : Inode
directory_inode = record file_inode { inum = 1; type = 1; size = 48; addrs = λ k. 7 }

abbrev small_dir : Fs
small_dir = record {
  log = small_log;
  store = reboot directory_block;
  inode = λ k. if k == 0 then directory_inode else no_inode;
}

small_dir-IsDirectory : IsDirectory small_dir 0 1
small_dir-IsDirectory = record {
  directory = refl;
  mapped = record {
    fits = omega arith;
    index = λ l. absurd (omega arith);
    there = λ p l. ground arith;
  };
  fits = omega arith;
  whole = refl;
}

dirlookup-Looked_example :
    Looked 0 (97 ∷ []) 0 small_dir (dirlookup no_devices 0 (97 ∷ []) small_dir)
dirlookup-Looked_example = dirlookup-Looked no_devices small_dir 0 1 (97 ∷ []) small_dir-IsDirectory

isdirempty-Emptied_example : Emptied 0 2 small_dir (isdirempty no_devices 0 small_dir)
isdirempty-Emptied_example = isdirempty-Emptied no_devices small_dir 0 1 small_dir-IsDirectory
