-- ===== src/Str/Tests.antt =====
-- Searches in "abcab": for "ca", and for "b", which stands there twice.
use ceres_standard_library.Prelude.{ℕ, ◌≡◌, refl, List, [], ◌∷◌, some}
use ceres_standard_library.Str.{memmem}
use ceres_standard_library.Str.Search.{IsFirst, memmem_lem}

abbrev text : List ℕ
text = 97 ∷ 98 ∷ 99 ∷ 97 ∷ 98 ∷ []

runs : (memmem text 5 (99 ∷ 97 ∷ []) 2 ≡ some 2) × (memmem text 5 (98 ∷ []) 1 ≡ some 1)
unfolding memmem
runs = (refl, refl)

memmem_lem_example : IsFirst text (99 ∷ 97 ∷ []) 2 0 4 (memmem text 5 (99 ∷ 97 ∷ []) 2)
memmem_lem_example = memmem_lem text 5 (99 ∷ 97 ∷ []) 2
