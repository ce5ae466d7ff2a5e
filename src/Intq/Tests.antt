-- ===== src/Intq/Tests.antt =====
-- The interrupt queue's theorems at a queue that wraps and holds two bytes.
use algorithms_prepare.Prelude.{ℕ, ◌≡◌, ◌==◌, true, some, none, arith, if◌then◌else◌}
use algorithms_prepare.Intq.{Intq, returns, intq_getc}
use algorithms_prepare.Intq.Fifo.{IsValid, count, Taken, intq_getc-Taken}

abbrev wrapped : Intq
wrapped = record {
  not_full = none;
  not_empty = some 4;
  buf = λ i. if i == 63 then 7 else 8;
  head = 1;
  tail = 63;
}

wrapped-IsValid : IsValid wrapped
wrapped-IsValid = record { head-lt = omega arith; tail-lt = omega arith }

getc_example :
    (byte : ℕ) × (q' : Intq) × (intq_getc true 3 wrapped ≡ some (returns byte q' none))
    × Taken wrapped byte q'
getc_example = intq_getc-Taken true 3 wrapped wrapped-IsValid (unfold count in omega arith)
