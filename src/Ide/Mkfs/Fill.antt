-- ===== src/Ide/Mkfs/Fill.antt =====
-- What the loop of A.ide/tools/mkfs.c over the files makes of the image.
use class_example.Prelude.{
  ℕ, zero, suc, ◌+◌, ◌*◌, ◌≤◌, ◌<◌, ◌≡◌, ◌≢◌, subst, ◌∙◌, Bool, true, false, List, [], ◌∷◌, arith,
  if◌then◌else◌, ◌==◌, All, length,
}
use class_example.Prelude.Returns.{Returns, returns, Returns-bind, Returns-mono}
use class_example.Memory.{Memory}
use class_example.Memory.Words.{store16}
use class_example.Ide.Fs.{bsize, maxfile, rootino}
use class_example.Ide.Fs.Dir.{copy_name, dirent_size}
use class_example.Ide.Drive.{fssize}
use class_example.Ide.Mkfs.{
  Image, zeroes, t_file, iappend, new_dirent, base_name, has_slash, append_chunks, add_file,
  add_files,
}
use class_example.Ide.Mkfs.Sound.{room, Sound}
use class_example.Ide.Mkfs.Inodes.{size_of, iappend-Appended, Created, ialloc-Created}

-- The image is in order, its next inode is `i`, at most the blocks below `b` are taken, and the root directory
-- has at most `r` bytes.
pub record Made (b i r : ℕ) (img : Image) : Type 0 where
  pub kind : ℕ → Bool
  pub sound : Sound kind img
  pub blocks : img.freeblock ≤ b
  pub inode : img.freeinode ≡ i
  pub root : size_of rootino img ≤ r

-- What one call of `read` returns, and a file that fits into an inode, without a slash in its name.
abbrev pub IsChunk : Memory × ℕ → Type 0
IsChunk (buf, cc) = (cc ≤ bsize) × ((a : ℕ) → buf a < 256)

abbrev pub IsFile : List ℕ × List (Memory × ℕ) → Type 0
IsFile (arg, chunks) =
    (has_slash (base_name arg) ≡ false)
    × All (λ c. c < 256) (base_name arg)
    × (length chunks ≤ maxfile)
    × All IsChunk chunks

-- The blocks that the files may take.
abbrev pub cost : List (List ℕ × List (Memory × ℕ)) → ℕ
cost [] = 0
cost ((arg, chunks) ∷ files) = 4 + 4 * length chunks + cost files

copy_name-lt :
    (n i : ℕ) (name : List ℕ) (de : Memory)
    → All (λ c. c < 256) name
    → ((a : ℕ) → de a < 256)
    → (a : ℕ) → copy_name n i name de a < 256
unfolding copy_name
copy_name-lt zero i name de small h a = h a
copy_name-lt (suc n) i [] de small h a =
    copy_name-lt n (i + 1) [] (λ x. if x == 2 + i then 0 else de x) tt (λ x. ground (arith, h x)) a
copy_name-lt (suc n) i (c ∷ cs) de small h a =
    copy_name-lt n (i + 1) (if c == 0 then [] else cs) (λ x. if x == 2 + i then c else de x)
      (rest (c == 0)) (λ x. ground (arith, h x, small.0)) a
  where
    rest : (stop : Bool) → All (λ c. c < 256) (if stop then [] else cs)
    rest true = tt
    rest false = small.1

pub new_dirent-lt :
    (inum : ℕ) (name : List ℕ) (a : ℕ) → All (λ c. c < 256) name → new_dirent inum name a < 256
new_dirent-lt inum name a small =
    copy_name-lt 14 0 name (store16 zeroes 0 inum) small (λ x. entry_lt inum x) a
  where
    entry_lt : (inum x : ℕ) → store16 zeroes 0 inum x < 256
    entry_lt inum x = unfold store16 in ground arith

-- An entry is appended to the root directory.
pub root-Made :
    (b i r inum : ℕ) (name : List ℕ) (img : Image)
    → Made b i r img
    → All (λ c. c < 256) name
    → r + dirent_size ≤ maxfile * bsize
    → b + 4 ≤ fssize
    → Returns
        (λ img'.
          Made (b + 4) i (r + dirent_size) img'
          × ((j : ℕ) → j < room → j ≢ rootino → size_of j img' ≡ size_of j img))
        (iappend rootino (new_dirent inum name) dirent_size img)
root-Made b i r inum name img m small fits budget =
    Returns-mono
      (iappend-Appended m.kind rootino (new_dirent inum name) dirent_size img m.sound (omega arith)
        (λ a. new_dirent-lt inum name a small) (omega arith) (omega (arith, m.root, fits))
        (omega (arith, m.blocks, budget)))
      (λ img' t. (
        record {
          kind = t.kind;
          sound = t.sound;
          blocks = omega (arith, t.most, m.blocks);
          inode = t.freeinode_kept ∙ m.inode;
          root = omega (arith, t.size_now, m.root);
        },
        t.others,
      ))

append_chunks-Made :
    (chunks : List (Memory × ℕ)) (b i r inum s : ℕ) (img : Image)
    → Made b i r img
    → rootino < inum
    → inum < room
    → size_of inum img ≤ s
    → s + bsize * length chunks ≤ maxfile * bsize
    → b + 4 * length chunks ≤ fssize
    → All IsChunk chunks
    → Returns (Made (b + 4 * length chunks) i r) (append_chunks inum chunks img)
unfolding append_chunks
append_chunks-Made [] b i r inum s img m after lt size fits budget good = returns (record {
  kind = m.kind;
  sound = m.sound;
  blocks = omega (arith, m.blocks);
  inode = m.inode;
  root = m.root;
})
append_chunks-Made ((buf, cc) ∷ chunks) b i r inum s img m after lt size fits budget good =
    Returns-bind
      (iappend-Appended m.kind inum buf cc img m.sound lt good.0.1 good.0.0
        (omega (arith, size, fits, good.0.0)) (omega (arith, m.blocks, budget)))
      (λ img' t.
        subst (λ x. Returns (Made x i r) (append_chunks inum chunks img')) (omega arith)
          (append_chunks-Made chunks (b + 4) i r inum (s + bsize) img'
            (record {
              kind = t.kind;
              sound = t.sound;
              blocks = omega (arith, t.most, m.blocks);
              inode = t.freeinode_kept ∙ m.inode;
              root = omega (arith, t.others rootino (omega arith) (omega (arith, after)), m.root);
            })
            after lt (omega (arith, t.size_now, size, good.0.0)) (omega (arith, fits))
            (omega (arith, budget)) good.1))

pub Created-Made :
    (b i r inum : ℕ) (img img' : Image)
    → Made b i r img
    → rootino < i
    → Created img inum img'
    → Made b (i + 1) r img'
Created-Made b i r inum img img' m after t = record {
  kind = t.kind;
  sound = t.sound;
  blocks = omega (arith, t.freeblock_kept, m.blocks);
  inode = omega (arith, t.next, m.inode);
  root = omega (arith, t.others rootino (omega (arith, t.number, m.inode, after)), m.root);
}

add_file-Made :
    (arg : List ℕ) (chunks : List (Memory × ℕ)) (b i r : ℕ) (img : Image)
    → Made b i r img
    → rootino < i
    → i < room
    → r + dirent_size ≤ maxfile * bsize
    → b + 4 + 4 * length chunks ≤ fssize
    → IsFile (arg, chunks)
    → Returns
        (Made (b + 4 + 4 * length chunks) (i + 1) (r + dirent_size))
        (add_file (arg, chunks) img)
unfolding add_file
add_file-Made arg chunks b i r img m after lt fits budget good =
    let plain = good.0 in
    rw (add_file, plain)
      (Returns-bind (ialloc-Created m.kind t_file img m.sound (omega (arith, m.inode, lt)))
        (λ (inum, img1) t.
          let is : inum ≡ i = t.number ∙ m.inode in
          Returns-bind
            (root-Made b (i + 1) r inum (base_name arg) img1
              (Created-Made b i r inum img img1 m after t) good.1 fits (omega (arith, budget)))
            (λ img2 (m2, others).
              append_chunks-Made chunks (b + 4) (i + 1) (r + dirent_size) inum 0 img2 m2
                (omega (arith, is, after)) (omega (arith, is, lt))
                (omega (
                  arith,
                  others inum (omega (arith, is, lt)) (omega (arith, is, after)),
                  t.size_now,
                ))
                (omega (arith, good.2)) budget (good.3))))

pub add_files-Made :
    (files : List (List ℕ × List (Memory × ℕ))) (b i r : ℕ) (img : Image)
    → Made b i r img
    → rootino < i
    → i + length files ≤ room
    → r + dirent_size * length files ≤ maxfile * bsize
    → b + cost files ≤ fssize
    → All IsFile files
    → Returns
        (Made (b + cost files) (i + length files) (r + dirent_size * length files))
        (add_files files img)
unfolding add_files
add_files-Made [] b i r img m after lt fits budget good = returns (record {
  kind = m.kind;
  sound = m.sound;
  blocks = omega (arith, m.blocks);
  inode = omega (arith, m.inode);
  root = omega (arith, m.root);
})
add_files-Made ((arg, chunks) ∷ files) b i r img m after lt fits budget good =
    Returns-bind
      (add_file-Made arg chunks b i r img m after (omega (arith, lt)) (omega (arith, fits))
        (omega (arith, budget)) good.0)
      (λ img' m'.
        Returns-mono
          (add_files-Made files (b + 4 + 4 * length chunks) (i + 1) (r + dirent_size) img' m'
            (omega (arith, after)) (omega (arith, lt)) (omega (arith, fits)) (omega (arith, budget))
            good.1)
          (λ img2 m2. record {
            kind = m2.kind;
            sound = m2.sound;
            blocks = omega (arith, m2.blocks);
            inode = omega (arith, m2.inode);
            root = omega (arith, m2.root);
          }))
