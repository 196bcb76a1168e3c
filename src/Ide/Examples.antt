-- ===== src/Ide/Examples.antt =====
-- Concrete runs of the path parser, the block cache and the interrupts of A.ide.
use class_example.Prelude.{
  ℕ, ◌+◌, ◌≡◌, ◌≢◌, refl, some, List, [], ◌∷◌, arith, if◌then◌else◌, ◌==◌, false, ◌>>=◌,
}
use class_example.Prelude.Returns.{Returns}
use class_example.Ide.Irq.{Interrupts, interrupts_irq_register, interrupts_irq_handler}
use class_example.Ide.Irq.Registered.{Handled, register-Handled}
use class_example.Ide.Pic.{Pic}
use class_example.Ide.Path.{skipelem, skip_slashes, slash}
use class_example.Ide.Bcache.{Cache, nbuf, binit, brelse, bget, is_busy}
use class_example.Ide.Bcache.Ring.{IsRing}
use class_example.Ide.Bcache.Release.{stacked, brelse-IsRing, binit-IsRing}
use class_example.Ide.Bcache.Get.{Got, bget-Got, bget_twice}

abbrev letter_a : List ℕ
letter_a = b'a' ∷ []

abbrev letters_bb : List ℕ
letters_bb = b'b' ∷ b'b' ∷ []

skipelem_test : skipelem (b'/' ∷ b'a' ∷ b'/' ∷ b'b' ∷ []) ≡ some (b'a' ∷ 0 ∷ [], b'b' ∷ [])
unfolding skipelem skip_slashes class_example.Ide.Path.pass_element
skipelem_test = refl

-- Three buffers in the ring, 2, 1 and 0; the second one is busy for block 5 of device 1.
abbrev three : Cache
three = record {
  flags = λ b. if b == 1 then 3 else 0;
  dev = λ b. 1;
  blockno = λ b. if b == 1 then 5 else 0;
  prev = λ b. if b == 30 then 0 else if b == 2 then 30 else b + 1;
  next = λ b. if b == 30 then 2 else if b == 0 then 30 else if b == 1 then 0 else 1;
}

three-IsRing : IsRing three (2 ∷ 1 ∷ 0 ∷ [])
three-IsRing = record {
  linked = ((refl, refl), ((refl, refl), ((refl, refl), (refl, refl))));
  below = (omega arith, (omega arith, (omega arith, tt)));
  distinct = ((omega arith, (omega arith, tt)), ((omega arith, tt), (tt, tt)));
  size = omega arith;
}

brelse-IsRing_example :
    IsRing (brelse 1 three) (1 ∷ 2 ∷ 0 ∷ []) × (is_busy ((brelse 1 three).flags 1) ≡ false)
brelse-IsRing_example = brelse-IsRing three (2 ∷ []) (0 ∷ []) 1 three-IsRing refl

binit-IsRing_example : IsRing (binit three) (stacked nbuf 0 [])
binit-IsRing_example = binit-IsRing three

bget-Got_example : Got 1 7 three (2 ∷ 1 ∷ 0 ∷ []) (bget 1 7 three)
bget-Got_example = bget-Got 1 7 three (2 ∷ 1 ∷ 0 ∷ []) three-IsRing (2 ∷ 1 ∷ []) [] 0 refl refl

bget_twice_example :
    ((bget 1 5 three).0 ≢ 1)
    × ((bget 1 5 three).1.dev 1 ≡ (bget 1 5 three).1.dev ((bget 1 5 three).0))
    × ((bget 1 5 three).1.blockno 1 ≡ (bget 1 5 three).1.blockno ((bget 1 5 three).0))
bget_twice_example =
    bget_twice 1 5 three (2 ∷ 1 ∷ 0 ∷ []) three-IsRing (2 ∷ 1 ∷ []) [] 0 1 refl refl refl refl refl

-- Lines 0 and 9 are on.
abbrev masks : Pic
masks = record { mask1 = 0xfe; mask2 = 0xfd }

-- No handler is there yet; all lines are off, and the handlers that were called are counted by their sum.
abbrev no_handlers : Interrupts ℕ
no_handlers = record {
  pic = record { mask1 = 255; mask2 = 255 };
  idt = λ i. 0;
  irq_handlers = λ i. 0;
  commands = [];
  program = 0;
}

-- The interrupt of the disk.
register-Handled_example : Returns (Handled (λ f n. f + n) 0x2E 700 800 no_handlers) (
    interrupts_irq_register 0x2E 700 800 no_handlers >>= interrupts_irq_handler (λ f n. f + n) 0x2E)
register-Handled_example =
    register-Handled (λ f n. f + n) 0x2E 700 800 no_handlers (omega arith) (omega arith)
      (omega arith)
