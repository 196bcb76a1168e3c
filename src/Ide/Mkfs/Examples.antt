-- ===== src/Ide/Mkfs/Examples.antt =====
-- Concrete runs of A.ide/tools/mkfs.c.
use class_example.Prelude.{ℕ, ◌+◌, ◌≡◌, refl, Option, some, none, List, [], ◌∷◌, arith}
use class_example.Prelude.Returns.{Returns}
use class_example.Memory.{Memory}
use class_example.Ide.Fs.Blocks
use class_example.Ide.Mkfs.{Image, nmeta, mkfs}
use class_example.Ide.Mkfs.Fill.{cost}
use class_example.Ide.Mkfs.Bitmap.{on, Formatted}
use class_example.Ide.Mkfs.Disk.{Fits, Unowned, mkfs-Formatted, mkfs-balloc}

-- "a" with 612 bytes, in two reads, and ".fs/b", empty.
abbrev two_files : List (List ℕ × List (Memory × ℕ))
two_files =
    (b'a' ∷ [], (λ a. 1, 512) ∷ (λ a. 1, 100) ∷ [])
    ∷ (b'.' ∷ b'f' ∷ b's' ∷ b'/' ∷ b'b' ∷ [], [])
    ∷ []

two_files-Fits : Fits two_files
unfolding class_example.Ide.Mkfs.has_slash
two_files-Fits = record {
  count = omega arith;
  room_for = omega arith;
  good = (
    (
      refl,
      (omega arith, tt),
      omega arith,
      ((omega arith, λ a. omega arith), ((omega arith, λ a. omega arith), tt)),
    ),
    ((refl, (omega arith, tt), omega arith, tt), tt),
  );
}

abbrev next_block : Option Image → Option ℕ
next_block none = none
next_block (some img) = some img.freeblock

-- One block for the root directory and two for the first file.
two_files_blocks : next_block (mkfs two_files) ≡ some (nmeta + 3)
unfolding mkfs class_example.Ide.Mkfs.fill_root class_example.Ide.Mkfs.finish
    class_example.Ide.Mkfs.add_files class_example.Ide.Mkfs.add_file
    class_example.Ide.Mkfs.append_chunks class_example.Ide.Mkfs.iappend
    class_example.Ide.Mkfs.ialloc class_example.Ide.Mkfs.balloc class_example.Ide.Mkfs.winode
    class_example.Ide.Mkfs.rinode class_example.Ide.Mkfs.append_loop
    class_example.Ide.Mkfs.block_for class_example.Ide.Mkfs.take_block
    class_example.Ide.Mkfs.take_indirect class_example.Ide.Mkfs.has_slash
    class_example.Memory.load32 class_example.Memory.store32 class_example.Memory.Words.store16
    class_example.Ide.Fs.Dir.copy_name
two_files_blocks = refl

mkfs-Formatted_example : Returns (Formatted 1 (nmeta + 8 + cost two_files) 4) (mkfs two_files)
mkfs-Formatted_example = mkfs-Formatted 1 two_files two_files-Fits

mkfs-balloc_example : Returns (λ img. Unowned (Blocks.balloc 1 (on img)).0 img) (mkfs two_files)
mkfs-balloc_example = mkfs-balloc 1 two_files two_files-Fits (omega arith)
