-- ===== src/Sort/Merged.antt =====
-- The merge of two lists: sorted, and with equal elements of the first list first.
use mathlib.Core.Path.{subst}
use ceres_standard_library.Prelude.{
  ◌+◌, ◌≡◌, refl, sym, ap, ◌∙◌, arith, inl, inr, true, false, List, [], ◌∷◌, ◌++◌, append_assoc,
  append-nil, Bool-cases, length,
}
use ceres_standard_library.Prelude.Int.{ℤ}
use ceres_standard_library.Sort.{exceeds}
use ceres_standard_library.Sort.Order.{
  IsOrder, All, All-map, Sorted, equals, Keeps, Keeps-append, Keeps-move,
}

module _ {A : Type 0} (cmp : A → A → ℤ) where
  -- the merge of two lists
  unfoldable pub merged : List A → List A → List A
  merged [] ys = ys
  merged (x ∷ xs) [] = x ∷ xs
  merged (x ∷ xs) (y ∷ ys) = elim (exceeds cmp x y) [
    | false ↦ x ∷ merged xs (y ∷ ys)
    | true ↦ y ∷ merged (x ∷ xs) ys
  ]

  pub merged_high :
      (x y : A) (xs ys : List A)
      → exceeds cmp x y ≡ true
      → merged (x ∷ xs) (y ∷ ys) ≡ y ∷ merged (x ∷ xs) ys
  unfolding merged
  merged_high x y xs ys h = rw (merged, h)

  pub merged_low :
      (x y : A) (xs ys : List A)
      → exceeds cmp x y ≡ false
      → merged (x ∷ xs) (y ∷ ys) ≡ x ∷ merged xs (y ∷ ys)
  unfolding merged
  merged_low x y xs ys h = rw (merged, h)

  pub length-merged : (xs ys : List A) → length (merged xs ys) ≡ length xs + length ys
  unfolding merged
  length-merged [] ys = omega arith
  length-merged (x ∷ xs) [] = omega arith
  length-merged (x ∷ xs) (y ∷ ys) =
      ground (arith, length-merged xs (y ∷ ys), length-merged (x ∷ xs) ys)

  All-merged : (P : A → Type 0) (xs ys : List A) → All P xs → All P ys → All P (merged xs ys)
  unfolding merged
  All-merged P [] ys h k = k
  All-merged P (x ∷ xs) [] h k = h
  All-merged P (x ∷ xs) (y ∷ ys) (hx, h) (ky, k) =
      (elim (exceeds cmp x y)
        as (λ b.
          All P (elim b [ false ↦ x ∷ merged xs (y ∷ ys) | true ↦ y ∷ merged (x ∷ xs) ys ])) [
            | false ↦ (hx, All-merged P xs (y ∷ ys) h (ky, k))
            | true ↦ (ky, All-merged P (x ∷ xs) ys (hx, h) k)
          ])

module _ {A : Type 0} (cmp : A → A → ℤ) (o : IsOrder cmp) where
  pub merged-Sorted :
      (xs ys : List A) → Sorted cmp xs → Sorted cmp ys → Sorted cmp (merged cmp xs ys)
  merged-Sorted [] ys h k = unfold merged in k
  merged-Sorted (x ∷ xs) [] h k = unfold merged in h
  merged-Sorted (x ∷ xs) (y ∷ ys) (low, h) (low', k) = elim (Bool-cases (exceeds cmp x y)) [
    | inl high ↦ subst (Sorted cmp) (sym (merged_high cmp x y xs ys high)) (
      All-merged cmp _ (x ∷ xs) ys
          (o.asym x y high, All-map xs (λ z p. o.trans y x z (o.asym x y high) p) low) low',
      merged-Sorted (x ∷ xs) ys (low, h) k,
    )
    | inr le ↦ subst (Sorted cmp) (sym (merged_low cmp x y xs ys le)) (
      All-merged cmp _ xs (y ∷ ys) low (le, All-map ys (λ z p. o.trans x y z le p) low'),
      merged-Sorted xs (y ∷ ys) h (low', k),
    )
  ]

  -- an element before elements that are above it, in the classes
  equals_before :
      (z y : A) (xs ys : List A)
      → All (λ x. exceeds cmp x y ≡ true) xs
      → equals cmp z (xs ++ y ∷ ys) ≡ equals cmp z (y ∷ (xs ++ ys))
  equals_before z y xs ys h =
      ap (equals cmp z) (sym (append_assoc xs (y ∷ []) ys))
      ∙ Keeps-append cmp (y ∷ xs) ys (xs ++ y ∷ []) ys (λ w. sym (Keeps-move cmp y xs o h w))
          (λ w. refl) z

  pub merged-Keeps : (xs ys : List A) → Sorted cmp xs → Keeps cmp (xs ++ ys) (merged cmp xs ys)
  merged-Keeps [] ys h z = unfold merged in refl
  merged-Keeps (x ∷ xs) [] h z = unfold merged in sym (ap (equals cmp z) (append-nil (x ∷ xs)))
  merged-Keeps (x ∷ xs) (y ∷ ys) (low, h) z = elim (Bool-cases (exceeds cmp x y)) [
    | inl high ↦
        ap (equals cmp z) (merged_high cmp x y xs ys high)
        ∙ Keeps-append cmp (y ∷ []) ((x ∷ xs) ++ ys) (y ∷ []) (merged cmp (x ∷ xs) ys) (λ w. refl)
            (merged-Keeps (x ∷ xs) ys (low, h)) z
        ∙ sym (
            equals_before z y (x ∷ xs) ys (
              high,
              All-map xs
                  (λ w p. elim (Bool-cases (exceeds cmp w y)) [
                    | inl e ↦ e
                    | inr e ↦ absurd (cc (o.trans x w y p e))
                  ])
                  low,
            ))
    | inr le ↦
        ap (equals cmp z) (merged_low cmp x y xs ys le)
        ∙ Keeps-append cmp (x ∷ []) (xs ++ y ∷ ys) (x ∷ []) (merged cmp xs (y ∷ ys)) (λ w. refl)
            (merged-Keeps xs (y ∷ ys) h) z
  ]
