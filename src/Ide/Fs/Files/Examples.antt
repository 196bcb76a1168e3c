-- ===== src/Ide/Fs/Files/Examples.antt =====
-- Concrete runs of the table of open files on the disk and the file of Ide/Fs/Examples.
use class_example.Prelude.{◌%◌, ◌≡◌, refl, [], ◌∷◌, arith}
use class_example.Prelude.Returns.{Returns}
use class_example.Ide.Fs.Examples.{disk, file, no_devices, file-IsMapped}
use class_example.Ide.Fs.Files.{fd_none, fd_inode, File, Files, fileread, filewrite}
use class_example.Ide.Fs.Files.Open.{IsOpen}
use class_example.Ide.Fs.Files.Saved.{Saved}
use class_example.Ide.Fs.Files.Write.{filewrite-Saved}
use class_example.Ide.Fs.Files.Read.{Fetched, fileread-Fetched}

-- The file is open at offset 40, to read and to write.
abbrev opened : File
opened = record { type = fd_inode; ref = 1; readable = 1; writable = 1; pipe = 0; ip = 0; off = 40 }

abbrev files : Files
files = record {
  fs = record { blocks = disk; icache = file ∷ [] };
  ftable = opened ∷ record opened { type = fd_none; ref = 0 } ∷ [];
  memory = λ a. a % 256;
}

files-IsOpen : IsOpen (λ bn. 7) 1 0 opened file files
files-IsOpen = record {
  file_at = refl;
  of_inode = refl;
  inode_at = refl;
  in_use = refl;
  free = refl;
  valid = refl;
  regular = omega arith;
  mapped = file-IsMapped;
  off_inode = λ bn lt. omega arith;
  table_off = omega arith;
  in_file = omega arith;
  held = omega arith;
}

filewrite-Saved_example :
    Returns
      (λ (r, s'). (r ≡ 300) × Saved (λ bn. 7) 1 0 opened file files 1000 300 s')
      (filewrite no_devices 0 1000 300 files)
filewrite-Saved_example =
    filewrite-Saved no_devices (λ bn. 7) 1 0 opened file 1000 300 files files-IsOpen (omega arith)
      (omega arith) (omega arith) (omega arith)

fileread-Fetched_example :
    Returns
      (λ (r, s'). (r ≡ 60) × Fetched (λ bn. 7) 1 0 opened file files 5000 60 s')
      (fileread no_devices 0 5000 60 files)
fileread-Fetched_example =
    fileread-Fetched no_devices (λ bn. 7) 1 0 opened file 5000 60 files files-IsOpen (omega arith)
      (omega arith) (omega arith)
