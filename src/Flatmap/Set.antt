-- ===== src/Flatmap/Set.antt =====
-- fmap_set: the value changes where the key is, or a pair goes in where the key lies.
use mathlib.Core.Path.{subst}
use mathlib.Core.List.{map-append}
use ceres_standard_library.Prelude.{
  ℕ, zero, suc, ◌+◌, ◌<◌, ◌≤◌, ◌≡◌, refl, sym, ap, ap₂, ◌∙◌, arith, ◌⊎◌, inl, inr, none, some, List,
  [], ◌∷◌, ◌++◌, true, false, Bool, length, length-append, length-map, length-set, take, drop, set,
  map, le→ltb_false, Bool-cases,
}
use ceres_standard_library.Prelude.Int.{ℤ}
use ceres_standard_library.Prelude.Cells.{Cells, take_front, drop_front, set-append}
use ceres_standard_library.Prelude.Store.{◌>>=◌}
use ceres_standard_library.Vector.{Vector, vector_insert, make_room_for_one}
use ceres_standard_library.Vector.Represents.{Holds}
use ceres_standard_library.Prelude.Growth.{CannotGrow}
use ceres_standard_library.Vector.Refine.{vector_insert_lem}
use ceres_standard_library.Flatmap.{
  Flatmap, Way, below, same, above, way, fmap_set, grow_pairs, insert_new, replace_value,
}
use ceres_standard_library.Flatmap.Order.{
  IsKeyOrder, flip, Ascending, lookup, present, absent, locate, Ascending-value, Ascending-insert,
}
use ceres_standard_library.Flatmap.Bisect.{bisect_present, bisect_absent}
use ceres_standard_library.Flatmap.Updates.{updated, lookup_put, lookup_change}
use ceres_standard_library.Flatmap.Refine.{Pairs, at_middle, lookup_absent}

module _ {A : Type 0} where
  take-set_inside :
      (n i : ℕ) (xs : List A) (z : A) → i < n → take n (set xs i z) ≡ set (take n xs) i z
  take-set_inside zero i xs z h = absurd (omega arith)
  take-set_inside (suc n) i [] z h = refl
  take-set_inside (suc n) zero (x ∷ xs) z h = refl
  take-set_inside (suc n) (suc i) (x ∷ xs) z h =
      ap (λ (l : List A). x ∷ l) (take-set_inside n i xs z (omega arith))

module _ {A : Type 0} where
  -- an element overwritten
  overwritten-Holds :
      {v : Vector A} {xs : List A} (left right : List A) (p q : A)
      → Holds v xs
      → xs ≡ left ++ p ∷ right
      → Holds (record v { cells = set v.cells (length left) (some q) }) (left ++ q ∷ right)
  overwritten-Holds {v} {xs} left right p q h e =
      let len : length xs ≡ length left + suc (length right) =
        omega (arith, ap length e, length-append left (p ∷ right)) in
      record {
        size = omega (arith, length-append left (q ∷ right), h.size);
        within = h.within;
        object = length-set v.cells (length left) (some q) ∙ h.object;
        elem_pos = h.elem_pos;
        bytes = h.bytes;
        prefix =
            take-set_inside v.len (length left) v.cells (some q) (omega (arith, h.size))
            ∙ ap₂ (λ (c : Cells A) (i : ℕ). set c i (some q))
                (h.prefix ∙ ap (map some) e ∙ map-append some left (p ∷ right))
                (sym (length-map left some))
            ∙ set-append (map some left) (some p) (some q) (map some right)
            ∙ sym (map-append some left (q ∷ right));
      }

module _ {K V : Type 0} (given : ℕ → Bool) where
  grown_as_vector :
      (v : Vector (K × V)) → v.len ≤ v.cap → grow_pairs given v ≡ make_room_for_one given v
  unfolding grow_pairs make_room_for_one
  grown_as_vector v h = ground arith

  -- the insertion is the vector's
  inserted_as_vector :
      (m : Flatmap K V) (i : ℕ) (key : K) (value : V)
      → m.pairs.len ≤ m.pairs.cap
      → i ≤ m.pairs.len
      → insert_new given m i key value ≡ (
        (vector_insert given m.pairs i (key, value)).0,
        record m { pairs = (vector_insert given m.pairs i (key, value)).1 },
      )
  unfolding insert_new vector_insert
  inserted_as_vector m i key value fits inside =
      elim (Bool-cases (make_room_for_one given m.pairs).0) [
        | inl room ↦ rw (grown_as_vector m.pairs fits, le→ltb_false i m.pairs.len inside, room)
        | inr full ↦ rw (grown_as_vector m.pairs fits, le→ltb_false i m.pairs.len inside, full)
      ]

module _ {K : Type 0} (cmp : K → K → ℤ) where
  same_key : IsKeyOrder cmp → (key : K) → way (cmp key key) ≡ same
  same_key o key = by_way (way (cmp key key)) refl
    where
      by_way : (w : Way) → way (cmp key key) ≡ w → way (cmp key key) ≡ same
      by_way same e = e
      by_way below e = absurd (cc (sym e ∙ o.flips key key ∙ ap flip e))
      by_way above e = absurd (cc (sym e ∙ o.flips key key ∙ ap flip e))

module _ {K V : Type 0} (cmp : K → K → ℤ) (given : ℕ → Bool) where
  -- On a map whose pairs are in ascending order fmap_set ends. On success it leaves ascending pairs
  -- in which the key has the value and every other key its old answer; on failure the pairs are the
  -- same, the key was not there, and the array is full and its doubled object too large or refused.
  pub fmap_set_lem :
      (m : Flatmap K V) (xs : List (K × V)) (key : K) (value : V)
      → IsKeyOrder cmp
      → Pairs cmp m xs
      → (m' : Flatmap K V) × (ys : List (K × V)) × Pairs cmp m' ys
        × (((fmap_set cmp given m key value ≡ some (true, m'))
              × ((k : K) → lookup cmp k ys ≡ updated cmp k key (some value) (lookup cmp k xs)))
            ⊎ ((fmap_set cmp given m key value ≡ some (false, m'))
                × (ys ≡ xs)
                × (lookup cmp key xs ≡ none)
                × CannotGrow given m.pairs.len m.pairs.cap m.pairs.elem))
  unfolding fmap_set replace_value
  fmap_set_lem m xs key value o h = elim (locate cmp o key xs h.ordered) [
    | present left right p e s l r ↦
        let found = bisect_present cmp m h.holds key left right p e s l r in
        let at = at_middle cmp m left right p h.holds e in
        (
          record m {
            pairs = record m.pairs { cells = set m.pairs.cells (length left) (some (p.0, value)) };
          },
          left ++ (p.0, value) ∷ right,
          record {
            holds = overwritten-Holds left right p (p.0, value) h.holds e;
            ordered =
                Ascending-value cmp left right p.0 p.1 value (subst (Ascending cmp) e h.ordered);
          },
          inl (
            rw (found, ◌>>=◌, at, ◌>>=◌),
            λ k.
                lookup_change cmp o k key left right l r p.0 s p.1 value
                ∙ ap (λ (q : List (K × V)). updated cmp k key (some value) (lookup cmp k q))
                    (sym e),
          ),
        )
    | absent left right e l r ↦
        let missed = bisect_absent cmp m h.holds key left right e l r in
        let len : length xs ≡ length left + length right =
          omega (arith, ap length e, length-append left right) in
        let r' = vector_insert given m.pairs (length left) (key, value) in
        let done : fmap_set cmp given m key value ≡ some (r'.0, record m { pairs = r'.1 }) =
          rw (missed, ◌>>=◌)
            (ap some (
              inserted_as_vector given m (length left) key value h.holds.within
                (omega (arith, h.holds.size)))) in
        let put : take (length left) xs ++ (key, value) ∷ drop (length left) xs
            ≡ left ++ (key, value) ∷ right =
          ap₂ (λ (a b : List (K × V)). a ++ (key, value) ∷ b)
            (ap (take (length left)) e ∙ take_front left right)
            (ap (drop (length left)) e ∙ drop_front left right) in
        elim (vector_insert_lem given (length left) (key, value) h.holds) [
          | inl (inside, ok, holds) ↦ (
            record m { pairs = r'.1 },
            left ++ (key, value) ∷ right,
            record {
              holds = subst (Holds r'.1) put holds;
              ordered =
                  Ascending-insert cmp o key value left right (subst (Ascending cmp) e h.ordered) l
                    r;
            },
            inl (
              done ∙ ap (λ (b : Bool). some (b, record m { pairs = r'.1 })) ok,
              λ k.
                  lookup_put cmp o k key left right l r key (same_key cmp o key) value
                  ∙ ap (λ (q : List (K × V)). updated cmp k key (some value) (lookup cmp k q))
                      (sym e),
            ),
          )
          | inr (failed, holds, reason) ↦ (
            record m { pairs = r'.1 },
            xs,
            record { holds = holds; ordered = h.ordered },
            inr (
              done ∙ ap (λ (b : Bool). some (b, record m { pairs = r'.1 })) failed,
              refl,
              ap (lookup cmp key) e ∙ lookup_absent cmp key left right l r,
              elim reason [
                | inl past ↦ absurd (omega (arith, len, h.holds.size))
                | inr stuck ↦ stuck
              ],
            ),
          )
        ]
  ]
