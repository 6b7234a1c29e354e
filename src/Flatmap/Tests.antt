-- ===== src/Flatmap/Tests.antt =====
-- A map of three keys: an answer, a change, an insertion that grows the vector, a removal.
use ceres_standard_library.Prelude.{
  ℕ, ◌≡◌, ◌⊎◌, refl, arith, none, some, List, [], ◌∷◌, true, false,
}
use ceres_standard_library.Prelude.Int.{ℤ, sub_ℕ}
use ceres_standard_library.Prelude.Growth.{CannotGrow}
use ceres_standard_library.Flatmap.{Flatmap, fmap_get, fmap_has, fmap_set, fmap_remove}
use ceres_standard_library.Flatmap.Order.{IsKeyOrder, lookup}
use ceres_standard_library.Flatmap.Refine.{Pairs, is_some, fmap_get_lem, fmap_remove_lem}
use ceres_standard_library.Flatmap.Set.{fmap_set_lem}
use ceres_standard_library.Flatmap.Updates.{updated}

abbrev by_size : ℕ → ℕ → ℤ
by_size j k = sub_ℕ j k

by_size-IsKeyOrder : IsKeyOrder by_size
by_size-IsKeyOrder = record {
  flips = λ j k. ground arith;
  trans = λ i j k g h. ground arith;
  alike = λ i j k h. ground arith;
}

abbrev three_pairs : List (ℕ × ℕ)
three_pairs = (2, 20) ∷ (5, 50) ∷ (9, 90) ∷ []

abbrev three_keys : Flatmap ℕ ℕ
three_keys = record {
  pairs = record {
    cells = some (2, 20) ∷ some (5, 50) ∷ some (9, 90) ∷ [];
    len = 3;
    cap = 3;
    elem = 8;
  };
  key_size = 4;
  value_size = 4;
}

three_keys-Pairs : Pairs by_size three_keys three_pairs
three_keys-Pairs = record {
  holds = record {
    size = refl;
    within = omega arith;
    object = refl;
    elem_pos = omega arith;
    bytes = omega arith;
    prefix = refl;
  };
  ordered = ((refl, (refl, tt)), ((refl, tt), (tt, tt)));
}

fmap_get_lem_example :
    (fmap_get by_size three_keys 5 ≡ some (lookup by_size 5 three_pairs))
    × (fmap_has by_size three_keys 5 ≡ some (is_some (lookup by_size 5 three_pairs)))
fmap_get_lem_example =
    fmap_get_lem by_size three_keys three_pairs 5 by_size-IsKeyOrder three_keys-Pairs

fmap_remove_lem_example :
    (m' : Flatmap ℕ ℕ) × (ys : List (ℕ × ℕ)) × (fmap_remove by_size three_keys 5
      ≡ some (is_some (lookup by_size 5 three_pairs), m'))
    × Pairs by_size m' ys
    × ((k : ℕ) → lookup by_size k ys ≡ updated by_size k 5 none (lookup by_size k three_pairs))
fmap_remove_lem_example =
    fmap_remove_lem by_size three_keys three_pairs 5 by_size-IsKeyOrder three_keys-Pairs

fmap_set_lem_example :
    (m' : Flatmap ℕ ℕ) × (ys : List (ℕ × ℕ)) × Pairs by_size m' ys
    × (((fmap_set by_size (λ bytes. true) three_keys 4 40 ≡ some (true, m'))
          × ((k : ℕ)
              → lookup by_size k ys ≡ updated by_size k 4 (some 40) (lookup by_size k three_pairs)))
        ⊎ ((fmap_set by_size (λ bytes. true) three_keys 4 40 ≡ some (false, m'))
            × (ys ≡ three_pairs)
            × (lookup by_size 4 three_pairs ≡ none)
            × CannotGrow (λ bytes. true) 3 3 8))
fmap_set_lem_example =
    fmap_set_lem by_size (λ bytes. true) three_keys three_pairs 4 40 by_size-IsKeyOrder
      three_keys-Pairs
