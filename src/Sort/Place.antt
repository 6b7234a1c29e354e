-- ===== src/Sort/Place.antt =====
-- Where insertion_run puts an element: the search for its place, and the move that makes room.
use mathlib.Core.Path.{subst}
use ceres_standard_library.Prelude.{
  ℕ, zero, suc, ◌+◌, ◌≡◌, refl, sym, ap, ap₂, ◌∙◌, arith, inl, inr, true, false, some, List, [],
  ◌∷◌, ◌++◌, append_assoc, append-nil, Bool-cases, map, length, length-append, take, drop, set,
  get_elem?,
}
use ceres_standard_library.Prelude.Int.{ℤ}
use ceres_standard_library.Prelude.Cells.{Cells, cell, cell-map, take_front}
use ceres_standard_library.Prelude.Store.{◌>>=◌}
use ceres_standard_library.Sort.{exceeds, hold_place}
use ceres_standard_library.Sort.Order.{
  snoc_cases, at_most_last, IsOrder, All, All-append, Sorted, Sorted-left,
}

module _ {B : Type 0} where
  drop_prefix : (U R : List B) (x : B) → drop (suc (length U)) (U ++ x ∷ R) ≡ R
  drop_prefix [] R x = refl
  drop_prefix (u ∷ U) R x = drop_prefix U R x

  -- an element taken out behind `V` and put back before it
  move_back :
      (U V R : List B) (x x' : B) (m : ℕ)
      → m ≡ suc (length U + length V)
      → let c = U ++ (V ++ x ∷ R) in
        set
          (take (suc (length U)) c ++ (take (length V) (drop (length U) c) ++ drop m c))
          (length U)
          x'
        ≡ U ++ (x' ∷ (V ++ R))
  move_back U V R x x' zero e = absurd (omega arith)
  move_back [] [] R x x' (suc m) e = ap (λ (k : ℕ). x' ∷ drop k R) {x = m} {y = 0} (omega arith)
  move_back [] (v ∷ V) R x x' (suc m) e =
      ap (λ (k : ℕ). x' ∷ v ∷ (take (length V) (V ++ x ∷ R) ++ drop k (V ++ x ∷ R))) {x = m}
        {y = suc (length V)} (omega arith)
      ∙ ap₂ (λ (l r : List B). x' ∷ v ∷ (l ++ r)) (take_front V (x ∷ R)) (drop_prefix V R x)
  move_back (u ∷ U) V R x x' (suc m) e =
      ap (λ (l : List B). u ∷ l) (move_back U V R x x' m (omega arith))

  -- the same as `memmove` has it
  pub moved_back :
      (U V R : List B) (x x' : B) (c : List B) (j n : ℕ)
      → c ≡ U ++ (V ++ x ∷ R)
      → j ≡ length U
      → n ≡ length V
      → set (take (suc j) c ++ (take n (drop j c) ++ drop (suc j + n) c)) j x'
        ≡ U ++ (x' ∷ (V ++ R))
  moved_back U V R x x' c j n ec ej en =
      rw (ec, ej, en) (move_back U V R x x' (suc (length U) + length V) (omega arith))

  pub middle : (U R : List B) (x : B) → get_elem? (U ++ x ∷ R) (length U) ≡ some x
  middle [] R x = refl
  middle (u ∷ U) R x = middle U R x

module _ {A : Type 0} (cmp : A → A → ℤ) (o : IsOrder cmp) where
  -- where the search for the place of `x` ends, coming from the end of `U`
  pub record Place (n : ℕ) (base : Cells A) (x : A) (U : List A) : Type 0 where
    pub left : List A
    pub right : List A
    pub parts : U ≡ left ++ right
    pub found : hold_place cmp base x n ≡ some (length left)
    pub greater : All (λ y. exceeds cmp y x ≡ true) right
    pub at_most : All (λ y. exceeds cmp y x ≡ false) left

  pub base_cell :
      (V R : List A) (y : A) (n : ℕ)
      → length V ≡ n
      → cell (map some ((V ++ y ∷ []) ++ R)) n ≡ some y
  base_cell V R y n e =
      cell-map ((V ++ y ∷ []) ++ R) n
      ∙ ap₂ (λ (l : List A) (k : ℕ). get_elem? l k) (append_assoc V (y ∷ []) R) (sym e)
      ∙ middle V R y

  pub place :
      (n : ℕ) (base : Cells A) (x : A) (U R : List A)
      → length U ≡ n
      → base ≡ map some (U ++ R)
      → Sorted cmp U
      → Place n base x U
  unfolding hold_place
  place zero base x [] R e is s = record {
    left = [];
    right = [];
    parts = refl;
    found = refl;
    greater = tt;
    at_most = tt;
  }
  place zero base x (u ∷ U) R e is s = absurd (omega arith)
  place (suc n) base x U R e is s = elim (snoc_cases U) [
    | inl none' ↦ absurd (omega (arith, ap length none'))
    | inr (V, y, split) ↦
        let len : length V ≡ n = omega (arith, ap length split, length-append V (y ∷ [])) in
        let is' : base ≡ map some ((V ++ y ∷ []) ++ R) =
          is ∙ ap (λ (l : List A). map some (l ++ R)) split in
        let s' : Sorted cmp (V ++ y ∷ []) = subst (Sorted cmp) split s in
        let here : cell base n ≡ some y =
          ap (λ (c : Cells A). cell c n) is' ∙ base_cell V R y n len in
        elim (Bool-cases (exceeds cmp y x)) [
          | inl high ↦
              let p =
                place n base x V (y ∷ R) len (is' ∙ ap (map some) (append_assoc V (y ∷ []) R))
                  (Sorted-left cmp V (y ∷ []) s') in
              record {
                left = p.left;
                right = p.right ++ y ∷ [];
                parts =
                    split
                    ∙ ap (λ (l : List A). l ++ y ∷ []) p.parts
                    ∙ append_assoc p.left p.right (y ∷ []);
                found = rw (here, ◌>>=◌, high) p.found;
                greater = All-append _ p.right (y ∷ []) p.greater (high, tt);
                at_most = p.at_most;
              }
          | inr low ↦ record {
            left = U;
            right = [];
            parts = sym (append-nil U);
            found = rw (here, ◌>>=◌, low) (ap some (sym e));
            greater = tt;
            at_most =
                subst (All (λ v. exceeds cmp v x ≡ false)) (sym split)
                  (at_most_last cmp o V y x s' low);
          }
        ]
  ]
