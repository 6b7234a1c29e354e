-- ===== src/Ctype/Tests.antt =====
-- The theorems on character classes at an input.
use ceres_standard_library.Prelude.{◌≡◌, false, ◌&&◌, ◌||◌}
use ceres_standard_library.Ctype.{pos, isalnum, iscntrl, isprint, ispunct, isascii, is}
use ceres_standard_library.Ctype.Classes.{classes_partition}

classes_partition_example :
    (isascii (pos 65)
      ≡ (iscntrl (pos 65) || is 32 (pos 65) || isalnum (pos 65) || ispunct (pos 65)))
    × ((iscntrl (pos 65) && isprint (pos 65)) ≡ false)
    × ((is 32 (pos 65) && (isalnum (pos 65) || ispunct (pos 65))) ≡ false)
    × ((isalnum (pos 65) && ispunct (pos 65)) ≡ false)
    × (isprint (pos 65) ≡ (is 32 (pos 65) || isalnum (pos 65) || ispunct (pos 65)))
classes_partition_example = classes_partition (pos 65)
