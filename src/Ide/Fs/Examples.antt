-- ===== src/Ide/Fs/Examples.antt =====
-- Concrete runs of the file system of A.ide on a small disk.
use class_example.Prelude.{
  ℕ, zero, suc, ◌+◌, ◌%◌, ◌<◌, ◌≡◌, ◌≢◌, ◌⊎◌, refl, ap, true, none, some, [], ◌∷◌, arith, length,
  if◌then◌else◌, ◌==◌, replicate, is_positive,
}
use mathlib.Core.Option.{some-injective}
use class_example.Prelude.Returns.{Returns}
use class_example.Memory.{load32}
use class_example.Memory.Words.{load16}
use class_example.Ide.Path.{name_bytes}
use class_example.Ide.Path.Names.{IsElement, joined}
use class_example.Ide.Fs.{Blocks, Superblock, iblock, bblock}
use class_example.Ide.Fs.Blocks.{readsb, balloc, bfree}
use class_example.Ide.Fs.Bitmap.{used}
use class_example.Ide.Fs.Claim.{IsMarked, IsLayout, Claimed, balloc-Claimed, bfree-balloc}
use class_example.Ide.Fs.Inode.{Inode, ilock, iupdate, dinode_at}
use class_example.Ide.Fs.Inode.Copy.{IsSized, ilock-iupdate}
use class_example.Ide.Fs.Content.{Devices, readi, writei}
use class_example.Ide.Fs.File.{IsMapped}
use class_example.Ide.Fs.File.Roundtrip.{Stored, writei-Stored, readi-writei}
use class_example.Ide.Fs.Buffers.{Buffer, Buffers, is_held, shown, without, recycle, change, view}
use class_example.Ide.Fs.Buffers.Run.{
  Changes, change_all, edit_all, is_seen, used_by, change_all-edit_all,
}
use class_example.Ide.Fs.Icache.{Fs, iget}
use class_example.Ide.Fs.Icache.Get.{IsCache, Answer, iget-Answer}
use class_example.Ide.Fs.Namex.{namei}
use class_example.Ide.Fs.Namex.Unread.{zero_inode, started, with_root, namei_root, namei_unread}

-- 40 blocks, 8 inodes; the bitmap is block 4, and blocks 0 to 9 are used.
abbrev pub disk : Blocks
disk d b i =
    if b == 1
    then if i == 0 then 40 else if i == 8 then 8 else 0
    else if b == 4
    then if i == 0 then 255 else if i == 1 then 3 else 0
    else 0

disk_super : readsb 1 disk ≡ record { size = 40; nblocks = 0; ninodes = 8; nlog = 0 }
unfolding readsb load32
disk_super = refl

disk-IsMarked : IsMarked 1 (record { size = 40; nblocks = 0; ninodes = 8; nlog = 0 }) disk
disk-IsMarked = record {
  boot_used = omega arith;
  super_used = omega arith;
  map_used = λ b lt. let e : bblock b 8 ≡ 4 = omega arith in rw e (omega arith);
  map_inside = λ b lt. omega arith;
  bytes = λ b i. ground arith;
}

disk-IsLayout : IsLayout 1 disk
disk-IsLayout = rw disk_super disk-IsMarked

disk_claim : balloc 1 disk ≡ (10, (balloc 1 disk).1)
unfolding balloc class_example.Ide.Fs.Blocks.balloc_loop class_example.Ide.Fs.Blocks.free_bit readsb
    load32
disk_claim = refl

balloc-Claimed_example :
    ((balloc 1 disk ≡ (0, disk))
      × ((j : ℕ) → j < (readsb 1 disk).size → used 1 (readsb 1 disk).ninodes disk j ≢ 0))
    ⊎ Claimed 1 disk ((balloc 1 disk).0) ((balloc 1 disk).1)
balloc-Claimed_example = balloc-Claimed 1 disk disk-IsLayout

disk_some : (balloc 1 disk).0 ≢ 0
disk_some = rw disk_claim (omega arith)

disk_inside : 10 < (readsb 1 disk).size
disk_inside = rw disk_super (omega arith)

bfree-balloc_example :
    used 1 (readsb 1 disk).ninodes (bfree 1 ((balloc 1 disk).0) ((balloc 1 disk).1)) 10
    ≡ used 1 (readsb 1 disk).ninodes disk 10
bfree-balloc_example = bfree-balloc 1 disk disk-IsLayout disk_some 10 disk_inside

-- A file of 100 bytes in block 7.
abbrev pub file : Inode
file = record {
  dev = 1;
  inum = 3;
  ref = 1;
  flags = 2;
  type = 2;
  major = 0;
  minor = 0;
  nlink = 1;
  ownerid = 0;
  groupid = 0;
  mode = 0;
  size = 100;
  addrs = 7 ∷ replicate 10 0;
}

abbrev pub no_devices : Devices
no_devices = record { read = λ i. none; write = λ i. none }

pub file-IsMapped : IsMapped file disk (λ bn. 7) 1
file-IsMapped = record {
  count = omega arith;
  nonzero = λ bn lt. omega arith;
  direct = λ bn lt low. let e : bn ≡ 0 = omega arith in rw e refl;
  table = λ h. absurd (omega arith);
  listed = λ bn lt high. absurd (omega arith);
  apart = λ bn j bn_lt j_lt ne. absurd (omega arith);
  off_table = λ bn lt. omega arith;
}

-- A clean buffer, and one with a change that the disk does not have.
abbrev clean_buffer : Buffer
clean_buffer = record { dev = 1; blockno = 7; bytes = disk 1 7 }

abbrev changed_buffer : Buffer
changed_buffer = record { dev = 1; blockno = 8; bytes = λ i. 9 }

abbrev two_buffers : Buffers
two_buffers = record { disk = disk; ring = changed_buffer ∷ clean_buffer ∷ [] }

-- The buffer that is recycled for block 5 is the clean one; then the next one loses its change.
kept_then_lost :
    (view (change 1 5 (λ f. f) two_buffers) 1 8 0 ≡ 9)
    × (view (change 1 6 (λ f. f) (change 1 5 (λ f. f) two_buffers)) 1 8 0 ≡ 0)
unfolding change shown recycle without is_held
kept_then_lost = (refl, refl)

-- Two blocks are changed in turn.
abbrev in_turn : Changes
in_turn = (1, 5, λ f. λ i. 3) ∷ (1, 6, λ f. λ i. 4) ∷ (1, 5, λ f. λ i. f i + 1) ∷ []

abbrev clean_buffers : Buffers
clean_buffers = record {
  disk = disk;
  ring = record clean_buffer { blockno = 8; bytes = disk 1 8 } ∷ clean_buffer ∷ [];
}

two_used : length (used_by in_turn []) ≡ 2
unfolding used_by is_seen
two_used = refl

change_all-edit_all_example :
    view (change_all in_turn clean_buffers) ≡ edit_all in_turn (view clean_buffers)
change_all-edit_all_example =
    change_all-edit_all in_turn clean_buffers (refl, (refl, tt)) (omega arith)
      (omega (arith, two_used))

writei-Stored_example :
    Stored file disk
      (λ bn. 7)
      1
      (λ a. a % 256)
      90
      20
      1000
      (writei no_devices 1000 90 20 (record { inode = file; blocks = disk; memory = λ a. a % 256 }))
writei-Stored_example =
    writei-Stored no_devices file disk (λ bn. 7) 1 (λ a. a % 256) file-IsMapped (omega arith) 90 20
      (omega arith) 1000 (omega arith) (omega arith) (omega arith) (λ bn lt. omega arith)
      (omega arith)

readi-writei_example :
    (readi no_devices 5000 90 20
        (writei no_devices 1000 90 20
          (record { inode = file; blocks = disk; memory = λ a. a % 256 })).1).1.memory
      5003
    ≡ 1003 % 256
readi-writei_example =
    readi-writei no_devices file disk (λ bn. 7) 1 (λ a. a % 256) file-IsMapped (omega arith)
      (omega arith) 90 20 1000 5000 (omega arith) (omega arith) (omega arith) (omega arith)
      (λ bn lt. omega arith) (omega arith) 3 (omega arith)

file-IsSized : IsSized file
file-IsSized = record {
  type_small = omega arith;
  major_small = omega arith;
  minor_small = omega arith;
  nlink_small = omega arith;
  size_small = omega arith;
  mode_small = omega arith;
  addrs_small = (
    omega arith,
    (
      omega arith,
      (
        omega arith,
        (
          omega arith,
          (
            omega arith,
            (
              omega arith,
              (omega arith, (omega arith, (omega arith, (omega arith, (omega arith, tt))))),
            ),
          ),
        ),
      ),
    ),
  );
  addrs_count = refl;
}

ilock-iupdate_example :
    ilock (iupdate file disk) (record zero_inode { dev = 1; inum = 3; ref = 1 })
    ≡ some (record file {
      ref = 1;
      flags = 3;
      ownerid = load16 (disk 1 (iblock 3)) (dinode_at 3 + 8);
      groupid = load16 (disk 1 (iblock 3)) (dinode_at 3 + 10);
    })
ilock-iupdate_example =
    ilock-iupdate file (record zero_inode { dev = 1; inum = 3; ref = 1 }) disk file-IsSized refl
      refl refl refl

-- Two entries, the first one in use.
abbrev two_entries : Fs
two_entries = record { blocks = disk; icache = file ∷ zero_inode ∷ [] }

unused : (a : Inode) → some zero_inode ≡ some a → is_positive a.ref ≡ true → ⊥
unused a e p =
    let q : 0 ≡ a.ref = ap (λ (x : Inode). x.ref) (some-injective zero_inode a e) in
    ground (arith, q, p)

two_entries_unique : IsCache (file ∷ zero_inode ∷ [])
two_entries_unique zero zero a b ea eb pa pb d n = refl
two_entries_unique (suc (suc i)) j a b ea eb pa pb d n = absurd (ground (arith, ea))
two_entries_unique zero (suc (suc j)) a b ea eb pa pb d n = absurd (ground (arith, eb))
two_entries_unique (suc zero) j a b ea eb pa pb d n = absurd (unused a ea pa)
two_entries_unique zero (suc zero) a b ea eb pa pb d n = absurd (unused b eb pb)

iget-Answer_example : Returns (Answer 1 3 two_entries) (iget 1 3 two_entries)
iget-Answer_example =
    iget-Answer 1 3 two_entries two_entries_unique (omega arith, (omega arith, tt))

root_found : namei no_devices (47 ∷ []) (started disk) ≡ some (some 0, [], with_root disk)
root_found = namei_root no_devices disk 1

letter_a : IsElement (b'a' ∷ [])
letter_a = record { nonempty = λ e. ground (arith, e); no_slash = (omega arith, tt) }

namei_unread_example :
    namei no_devices (joined 1 (b'a' ∷ []) [] 0) (started disk)
    ≡ some (none, name_bytes (b'a' ∷ []), with_root disk)
namei_unread_example = namei_unread no_devices disk 1 (b'a' ∷ []) [] 0 letter_a
