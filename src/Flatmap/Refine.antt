-- ===== src/Flatmap/Refine.antt =====
-- The operations of the sorted map against the map that its pairs are.
use mathlib.Core.Path.{subst}
use ceres_standard_library.Prelude.{
  ◌+◌, ◌≡◌, sym, ap, ap₂, ◌∙◌, arith, Option, none, some, List, [], ◌∷◌, ◌++◌, true, false, Bool,
  length, length-append, get_elem?, take, drop, append_assoc,
}
use ceres_standard_library.Prelude.Int.{ℤ}
use ceres_standard_library.Prelude.Cells.{take_front, drop_front}
use ceres_standard_library.Prelude.Store.{◌>>=◌}
use ceres_standard_library.Vector.{vector_at, vector_remove}
use ceres_standard_library.Vector.Represents.{Holds}
use ceres_standard_library.Vector.Access.{vector_at_lem, vector_remove-Holds}
use ceres_standard_library.Sort.Order.{All}
use ceres_standard_library.Flatmap.{Flatmap, same, way, fmap_get, fmap_has, fmap_remove}
use ceres_standard_library.Flatmap.Order.{
  IsKeyOrder, Over, Under, Ascending, lookup, present, absent, locate, lookup_miss,
  lookup_miss_left, Ascending-remove,
}
use ceres_standard_library.Flatmap.Bisect.{bisect_present, bisect_absent, middle_elem}
use ceres_standard_library.Flatmap.Updates.{updated, lookup_remove, lookup_gone}

module _ {V : Type 0} where
  abbrev pub is_some : Option V → Bool
  is_some none = false
  is_some (some v) = true

module _ {K V : Type 0} (cmp : K → K → ℤ) where
  -- the map's vector holds these pairs, in ascending order of their keys
  pub record Pairs (m : Flatmap K V) (xs : List (K × V)) : Type 0 where
    pub holds : Holds m.pairs xs
    pub ordered : Ascending cmp xs

  lookup_there :
      (key : K) (left right : List (K × V)) (p : K × V)
      → way (cmp key p.0) ≡ same
      → All (Over cmp key) left
      → lookup cmp key (left ++ p ∷ right) ≡ some p.1
  lookup_there key left right p s l = lookup_miss_left cmp key left (p ∷ right) l ∙ rw (lookup, s)

  pub lookup_absent :
      (key : K) (left right : List (K × V))
      → All (Over cmp key) left
      → All (Under cmp key) right
      → lookup cmp key (left ++ right) ≡ none
  lookup_absent key left right l r =
      lookup_miss_left cmp key left right l ∙ lookup_miss cmp key right r

  pub at_middle :
      (m : Flatmap K V) {xs : List (K × V)} (left right : List (K × V)) (p : K × V)
      → Holds m.pairs xs
      → xs ≡ left ++ p ∷ right
      → vector_at m.pairs (length left) ≡ some p
  at_middle m left right p h e =
      vector_at_lem (length left) h
      ∙ ap (λ (l : List (K × V)). get_elem? l (length left)) e
      ∙ middle_elem left right p

  removed :
      (left right : List (K × V)) (p : K × V) (xs : List (K × V))
      → xs ≡ left ++ p ∷ right
      → take (length left) xs ++ drop (length left + 1) xs ≡ left ++ right
  removed left right p xs e =
      let len : length left + 1 ≡ length (left ++ p ∷ []) =
        omega (arith, length-append left (p ∷ [])) in
      ap₂ (λ (a b : List (K × V)). a ++ b) (ap (take (length left)) e ∙ take_front left (p ∷ right))
        (ap₂ drop len (e ∙ sym (append_assoc left (p ∷ []) right))
          ∙ drop_front (left ++ p ∷ []) right)

  -- On a map whose pairs are in ascending order fmap_get ends, and answers what a search through
  -- all pairs does; fmap_has says whether there is an answer.
  pub fmap_get_lem :
      (m : Flatmap K V) (xs : List (K × V)) (key : K)
      → IsKeyOrder cmp
      → Pairs m xs
      → (fmap_get cmp m key ≡ some (lookup cmp key xs))
        × (fmap_has cmp m key ≡ some (is_some (lookup cmp key xs)))
  unfolding fmap_get fmap_has
  fmap_get_lem m xs key o h = elim (locate cmp o key xs h.ordered) [
    | present left right p e s l r ↦
        let found = bisect_present cmp m h.holds key left right p e s l r in
        let at = at_middle m left right p h.holds e in
        let answer = ap (lookup cmp key) e ∙ lookup_there key left right p s l in
        (rw (found, ◌>>=◌, at, ◌>>=◌, answer), rw (found, ◌>>=◌, answer))
    | absent left right e l r ↦
        let missed = bisect_absent cmp m h.holds key left right e l r in
        let answer = ap (lookup cmp key) e ∙ lookup_absent key left right l r in
        (rw (missed, ◌>>=◌, answer), rw (missed, ◌>>=◌, answer))
  ]

  -- On a map whose pairs are in ascending order fmap_remove ends. It says whether the key was there,
  -- and leaves ascending pairs in which that key has no answer and every other key its old one.
  pub fmap_remove_lem :
      (m : Flatmap K V) (xs : List (K × V)) (key : K)
      → IsKeyOrder cmp
      → Pairs m xs
      → (m' : Flatmap K V) × (ys : List (K × V)) × (fmap_remove cmp m key
          ≡ some (is_some (lookup cmp key xs), m'))
        × Pairs m' ys
        × ((k : K) → lookup cmp k ys ≡ updated cmp k key none (lookup cmp k xs))
  unfolding fmap_remove
  fmap_remove_lem m xs key o h = elim (locate cmp o key xs h.ordered) [
    | present left right p e s l r ↦
        let found = bisect_present cmp m h.holds key left right p e s l r in
        let answer = ap (lookup cmp key) e ∙ lookup_there key left right p s l in
        let taken = vector_remove-Holds (length left) h.holds in
        (
          record m { pairs = vector_remove m.pairs (length left) },
          left ++ right,
          rw (found, ◌>>=◌, answer),
          record {
            holds =
                subst (Holds (vector_remove m.pairs (length left))) (removed left right p xs e)
                  taken;
            ordered = Ascending-remove cmp left right p (subst (Ascending cmp) e h.ordered);
          },
          λ k.
              lookup_remove cmp o k key left right l r p.0 s p.1
              ∙ ap (λ (q : List (K × V)). updated cmp k key none (lookup cmp k q)) (sym e),
        )
    | absent left right e l r ↦
        let missed = bisect_absent cmp m h.holds key left right e l r in
        let answer = ap (lookup cmp key) e ∙ lookup_absent key left right l r in
        (
          m,
          xs,
          rw (missed, ◌>>=◌, answer),
          h,
          λ k.
              subst (λ q. lookup cmp k q ≡ updated cmp k key none (lookup cmp k q)) (sym e)
                (lookup_gone cmp o k key left right l r),
        )
  ]
