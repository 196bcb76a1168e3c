-- ===== src/MemPolicy/Examples.antt =====
-- A concrete page fault of 6.MemPolicy.
use class_example.Prelude.{◌+◌, ◌≡◌, refl, inl, arith, if◌then◌else◌, ◌==◌}
use class_example.Memory.{load32}
use class_example.UserProcess.Kalloc.{Heap}
use class_example.UserProcess.Page.{entry}
use class_example.MemPolicy.{page_fault_handler}
use class_example.MemPolicy.Repeated.{second_fault}

-- The directory is at 0x400000, and its entry 2 is the table at 0x401000 with its flags; 0x402000 is free.
abbrev one_table : Heap
one_table = record {
  memory = λ a.
      if a == 0x400008
      then 7
      else if a == 0x400009
      then 0x10
      else if a == 0x40000A
      then 0x40
      else 0;
  freelist = 0x402000;
}

table_there : entry one_table.memory 0x400000 2 ≡ 0x401000 + 7
unfolding load32
table_there = refl

second_fault_example :
    entry (page_fault_handler 0x803000 0x400000 one_table).memory 0x401000 3
    ≡ entry one_table.memory 0x401000 3
second_fault_example =
    second_fault 0x803000 0x400000 0x401000 one_table table_there (omega arith) (inl (omega arith))
