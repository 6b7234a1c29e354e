-- ===== src/Sort/Insertion.antt =====
-- insertion_run sorts the elements before an index and leaves the others.
use mathlib.Core.Path.{subst}
use mathlib.Core.List.{map-append}
use ceres_standard_library.Prelude.{
  ℕ, suc, ◌+◌, ◌-◌, ◌≡◌, refl, sym, ap, ap₂, ◌∙◌, arith, inl, inr, true, false, Option, some, List,
  [], ◌∷◌, ◌++◌, append_assoc, append-nil, Bool-cases, map, length, length-append, length-map,
}
use ceres_standard_library.Prelude.Int.{ℤ}
use ceres_standard_library.Prelude.Cells.{Cells, cell, cell-map}
use ceres_standard_library.Prelude.Store.{◌>>=◌}
use ceres_standard_library.Sort.{exceeds, insert_one, insert_from, insertion_run}
use ceres_standard_library.Sort.Order.{
  snoc_cases, at_most_last, IsOrder, equals, All, All-map, All-both, Sorted, Keeps, Keeps-append,
  Keeps-trans, Keeps-move, Sorted-append, Sorted-left, Sorted-right, Sorted-between,
}
use ceres_standard_library.Sort.Place.{moved_back, middle, base_cell, place}

module _ {A : Type 0} (cmp : A → A → ℤ) (o : IsOrder cmp) where
  -- what is known of the elements up to an index when the one behind them has been inserted
  record Inserted (U : List A) (x : A) (R : List A) (result : Option (Cells A)) : Type 0 where
    order : List A
    is : result ≡ some (map some (order ++ R))
    sorted : Sorted cmp order
    keeps : Keeps cmp (U ++ x ∷ []) order
    size : length order ≡ suc (length U)

  insert-Sorted :
      (left right : List A) (x : A)
      → Sorted cmp (left ++ right)
      → All (λ y. exceeds cmp y x ≡ true) right
      → All (λ y. exceeds cmp y x ≡ false) left
      → Sorted cmp (left ++ x ∷ right)
  insert-Sorted left right x s greater at_most =
      Sorted-append cmp left (x ∷ right) (Sorted-left cmp left right s)
        (All-map right (λ y h. o.asym y x h) greater, Sorted-right cmp left right s)
        (All-both (λ y. exceeds cmp y x ≡ false) (λ y. All (λ z. exceeds cmp y z ≡ false) right)
          left at_most (Sorted-between cmp left right s))

  insert_one-Inserted :
      (i : ℕ) (base : Cells A) (x : A) (U R : List A)
      → length U ≡ suc i
      → base ≡ map some (U ++ x ∷ R)
      → Sorted cmp U
      → Inserted U x R (insert_one cmp i base)
  unfolding insert_one
  insert_one-Inserted i base x U R e is s = elim (snoc_cases U) [
    | inl none' ↦ absurd (omega (arith, ap length none'))
    | inr (V, y, split) ↦
        let len : length V ≡ i = omega (arith, ap length split, length-append V (y ∷ [])) in
        let is' : base ≡ map some ((V ++ y ∷ []) ++ x ∷ R) =
          is ∙ ap (λ (l : List A). map some (l ++ x ∷ R)) split in
        let s' : Sorted cmp (V ++ y ∷ []) = subst (Sorted cmp) split s in
        let last : cell base i ≡ some y =
          ap (λ (c : Cells A). cell c i) is' ∙ base_cell cmp o V (x ∷ R) y i len in
        let next : cell base (suc i) ≡ some x =
          ap₂ (λ (c : Cells A) (k : ℕ). cell c k) is (sym e)
          ∙ cell-map (U ++ x ∷ R) (length U)
          ∙ middle U R x in
        elim (Bool-cases (exceeds cmp y x)) [
          | inr low ↦ record {
            order = U ++ x ∷ [];
            is =
                rw (last, ◌>>=◌, next, ◌>>=◌, low)
                  (ap some (is ∙ ap (map some) (sym (append_assoc U (x ∷ []) R))));
            sorted =
                Sorted-append cmp U (x ∷ []) s (tt, tt)
                  (All-map U (λ v h. (h, tt))
                    (subst (All (λ v. exceeds cmp v x ≡ false)) (sym split)
                      (at_most_last cmp o V y x s' low)));
            keeps = λ z. refl;
            size = omega (arith, length-append U (x ∷ []));
          }
          | inl high ↦
              let p = place cmp o (suc i) base x U (x ∷ R) e is s in
              let len' : length p.left + length p.right ≡ suc i =
                omega (arith, ap length p.parts, length-append p.left p.right) in
              let shape : base ≡ map some p.left ++ (map some p.right ++ some x ∷ map some R) =
                is
                ∙ ap (λ (l : List A). map some (l ++ x ∷ R)) p.parts
                ∙ simp (map-append, append_assoc) in
              let moved =
                moved_back (map some p.left) (map some p.right) (map some R) (some x) (some x) base
                  (length p.left) (suc i - length p.left) shape (sym (length-map p.left some))
                  (omega (arith, length-map p.right some)) in
              record {
                order = p.left ++ x ∷ p.right;
                is =
                    rw (last, ◌>>=◌, next, ◌>>=◌, high, p.found, ◌>>=◌)
                      (ap some (moved ∙ simp (map-append, append_assoc)));
                sorted =
                    insert-Sorted p.left p.right x (subst (Sorted cmp) p.parts s) p.greater
                      p.at_most;
                keeps =
                    subst (λ l. Keeps cmp l (p.left ++ x ∷ p.right))
                      (sym (append_assoc p.left p.right (x ∷ []))
                        ∙ ap (λ (l : List A). l ++ x ∷ []) (sym p.parts))
                      (Keeps-append cmp p.left (p.right ++ x ∷ []) p.left (x ∷ p.right) (λ z. refl)
                        (Keeps-move cmp x p.right o p.greater));
                size = omega (arith, length-append p.left (x ∷ p.right));
              }
        ]
  ]

  -- what is known when the elements from an index on have been inserted one after another
  pub record Ordered (U : List A) (R : List A) (result : Option (Cells A)) : Type 0 where
    pub order : List A
    pub is : result ≡ some (map some (order ++ R))
    pub sorted : Sorted cmp order
    pub keeps : Keeps cmp U order
    pub size : length order ≡ length U

  insert_from-Ordered :
      (V : List A) (i : ℕ) (U R : List A)
      → length U ≡ suc i
      → Sorted cmp U
      → Ordered (U ++ V) R (insert_from cmp (length V) i (map some (U ++ (V ++ R))))
  unfolding insert_from
  insert_from-Ordered [] i U R e s = record {
    order = U;
    is = refl;
    sorted = s;
    keeps = λ z. ap (equals cmp z) (sym (append-nil U));
    size = ap length (sym (append-nil U));
  }
  insert_from-Ordered (x ∷ V) i U R e s =
      let one = insert_one-Inserted i (map some (U ++ x ∷ (V ++ R))) x U (V ++ R) e refl s in
      let rest = insert_from-Ordered V (suc i) one.order R (omega (arith, one.size)) one.sorted in
      record {
        order = rest.order;
        is = rw (one.is, ◌>>=◌) rest.is;
        sorted = rest.sorted;
        keeps =
            Keeps-trans cmp (U ++ x ∷ V) (one.order ++ V) rest.order
              (subst (λ l. Keeps cmp l (one.order ++ V)) (append_assoc U (x ∷ []) V)
                (Keeps-append cmp (U ++ x ∷ []) V one.order V one.keeps (λ z. refl)))
              rest.keeps;
        size =
            omega (arith, rest.size, one.size, length-append one.order V, length-append U (x ∷ V));
      }

  pub insertion_run-Ordered :
      (V R : List A) → Ordered V R (insertion_run cmp (map some (V ++ R)) (length V))
  unfolding insertion_run insert_from
  insertion_run-Ordered [] R = record {
    order = [];
    is = refl;
    sorted = tt;
    keeps = λ z. refl;
    size = refl;
  }
  insertion_run-Ordered (x ∷ V) R =
      let same : length V ≡ suc (length V) - 1 = omega arith in
      subst (λ k. Ordered (x ∷ V) R (insert_from cmp k 0 (map some (x ∷ (V ++ R))))) same
        (insert_from-Ordered V 0 (x ∷ []) R refl (tt, tt))
