-- ===== src/Ide/Drive/Examples.antt =====
-- A concrete run of the driver of A.ide.
use class_example.Prelude.{true, none, some, [], if◌then◌else◌, ◌==◌}
use class_example.Prelude.Returns.{Returns}
use class_example.Ide.Drive.{Drive}

-- Buffer 1 waits to be written to block 7; buffer 0 is to be read from block 5.
abbrev waiting : Drive
waiting = record {
  cache = record {
    flags = λ b. if b == 1 then 5 else 1;
    dev = λ b. 1;
    blockno = λ b. if b == 1 then 7 else 5;
    prev = λ b. 0;
    next = λ b. 0;
  };
  qnext = λ b. none;
  bytes = λ b a. 0;
  idequeue = some 1;
  havedisk1 = true;
  sent = [];
}
