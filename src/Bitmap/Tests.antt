-- ===== src/Bitmap/Tests.antt =====
-- The bitmap's theorems at a bitmap of eight bits, of which the bits 0 and 2 are on.
use algorithms_prepare.Prelude.{[], ◌∷◌, arith}
use algorithms_prepare.Bitmap.{Bitmap}
use algorithms_prepare.Bitmap.View.{IsValid}

abbrev eight : Bitmap
eight = record { bit_cnt = 8; bits = 5 ∷ [] }

eight-IsValid : IsValid eight
eight-IsValid = record { small = omega arith; enough = omega arith; words = (omega arith, tt) }
