-- ===== src/Sort/Order.antt =====
-- What is asked of a comparison, and what a stable sort promises: order, and in every class of
-- elements that compare equal the same elements one after another.
use ceres_standard_library.Prelude.{
  ◌≡◌, refl, sym, ap, ap₂, ◌∙◌, arith, ◌⊎◌, inl, inr, Bool, true, false, not, ◌&&◌, List, [], ◌∷◌,
  ◌++◌, append-nil, if◌then◌else◌, Bool-cases,
}
use ceres_standard_library.Prelude.Int.{ℤ}
use ceres_standard_library.Sort.{exceeds}

-- the C standard's demand on a comparison: a total order on the classes of equal elements
pub record IsOrder {A : Type 0} (cmp : A → A → ℤ) : Type 0 where
  pub asym : (x y : A) → exceeds cmp x y ≡ true → exceeds cmp y x ≡ false
  pub trans :
      (x y z : A) → exceeds cmp x y ≡ false → exceeds cmp y z ≡ false → exceeds cmp x z ≡ false

abbrev pub All {ℓ κ} : {A : Type ℓ} → (A → Type κ) → List A → Type κ
All P [] = Unit
All P (x ∷ xs) = P x × All P xs

pub All-append {ℓ κ} :
    {A : Type ℓ} (P : A → Type κ) (xs ys : List A) → All P xs → All P ys → All P (xs ++ ys)
All-append P [] ys h k = k
All-append P (x ∷ xs) ys (hx, h) k = (hx, All-append P xs ys h k)

pub All-left {ℓ κ} : {A : Type ℓ} (P : A → Type κ) (xs ys : List A) → All P (xs ++ ys) → All P xs
All-left P [] ys h = tt
All-left P (x ∷ xs) ys (hx, h) = (hx, All-left P xs ys h)

pub All-right {ℓ κ} : {A : Type ℓ} (P : A → Type κ) (xs ys : List A) → All P (xs ++ ys) → All P ys
All-right P [] ys h = h
All-right P (x ∷ xs) ys (hx, h) = All-right P xs ys h

pub All-map {ℓ κ} :
    {A : Type ℓ} {P Q : A → Type κ} (xs : List A) → ((x : A) → P x → Q x) → All P xs → All Q xs
All-map [] f h = tt
All-map (x ∷ xs) f (hx, h) = (f x hx, All-map xs f h)

module _ {A : Type 0} where
  pub snoc_cases : (U : List A) → (U ≡ []) ⊎ ((V : List A) × (y : A) × (U ≡ V ++ y ∷ []))
  snoc_cases [] = inl refl
  snoc_cases (u ∷ U) = elim (snoc_cases U) [
    | inl e ↦ inr ([], u, ap (λ (l : List A). u ∷ l) e)
    | inr (V, y, e) ↦ inr (u ∷ V, y, ap (λ (l : List A). u ∷ l) e)
  ]

pub All-both {ℓ κ} :
    {A : Type ℓ} (P Q : A → Type κ) (xs : List A) → All P xs → All Q xs → All (λ x. P x × Q x) xs
All-both P Q [] h k = tt
All-both P Q (x ∷ xs) (hx, h) (kx, k) = ((hx, kx), All-both P Q xs h k)

module _ {A : Type 0} (cmp : A → A → ℤ) where
  abbrev pub AtMost : A → A → Type 0
  AtMost y x = exceeds cmp x y ≡ false

  abbrev pub Sorted : List A → Type 0
  Sorted [] = Unit
  Sorted (x ∷ xs) = All (λ y. exceeds cmp x y ≡ false) xs × Sorted xs

  abbrev pub equal : A → A → Bool
  equal x y = not (exceeds cmp x y) && not (exceeds cmp y x)

  -- the elements that compare equal to `z`, in order
  abbrev pub equals : A → List A → List A
  equals z [] = []
  equals z (x ∷ xs) = let rest = equals z xs in if equal z x then x ∷ rest else rest

  -- the elements of every class, in the same order
  abbrev pub Keeps : List A → List A → Type 0
  Keeps xs ys = (z : A) → equals z ys ≡ equals z xs

  pub equals-append : (z : A) (xs ys : List A) → equals z (xs ++ ys) ≡ equals z xs ++ equals z ys
  equals-append z [] ys = refl
  equals-append z (x ∷ xs) ys = ground (arith, equals-append z xs ys)

  pub Keeps-append :
      (xs ys xs' ys' : List A) → Keeps xs xs' → Keeps ys ys' → Keeps (xs ++ ys) (xs' ++ ys')
  Keeps-append xs ys xs' ys' h k z =
      equals-append z xs' ys'
      ∙ ap₂ (λ (u v : List A). u ++ v) (h z) (k z)
      ∙ sym (equals-append z xs ys)

  pub Keeps-trans : (xs ys zs : List A) → Keeps xs ys → Keeps ys zs → Keeps xs zs
  Keeps-trans xs ys zs h k z = k z ∙ h z

  -- what lies above an element of a class is not in it
  pub equals_none :
      (z x : A) (xs : List A)
      → IsOrder cmp
      → equal z x ≡ true
      → All (λ y. exceeds cmp y x ≡ true) xs
      → equals z xs ≡ []
  equals_none z x [] o same h = refl
  equals_none z x (y ∷ xs) o same (hy, h) =
      let rest = equals_none z x xs o same h in ground (arith, rest, o.trans y z x)

  -- an element moves before elements above it
  pub Keeps-move :
      (x : A) (xs : List A)
      → IsOrder cmp
      → All (λ y. exceeds cmp y x ≡ true) xs
      → Keeps (xs ++ x ∷ []) (x ∷ xs)
  Keeps-move x xs o h z = elim (Bool-cases (equal z x)) [
    | inl e ↦
        let none' = equals_none z x xs o e h in sym (equals-append z xs (x ∷ []) ∙ rw (none', e))
    | inr e ↦ sym (equals-append z xs (x ∷ []) ∙ rw e (append-nil (equals z xs)))
  ]

  pub Sorted-append :
      (xs ys : List A)
      → Sorted xs
      → Sorted ys
      → All (λ x. All (λ y. exceeds cmp x y ≡ false) ys) xs
      → Sorted (xs ++ ys)
  Sorted-append [] ys h k between = k
  Sorted-append (x ∷ xs) ys (low, h) k (here, between) =
      (All-append (λ y. exceeds cmp x y ≡ false) xs ys low here, Sorted-append xs ys h k between)

  pub Sorted-left : (xs ys : List A) → Sorted (xs ++ ys) → Sorted xs
  Sorted-left [] ys h = tt
  Sorted-left (x ∷ xs) ys (low, h) = (All-left _ xs ys low, Sorted-left xs ys h)

  pub Sorted-right : (xs ys : List A) → Sorted (xs ++ ys) → Sorted ys
  Sorted-right [] ys h = h
  Sorted-right (x ∷ xs) ys (low, h) = Sorted-right xs ys h

  -- each element of the left part is at most each of the right one
  pub Sorted-between :
      (xs ys : List A) → Sorted (xs ++ ys) → All (λ x. All (λ y. exceeds cmp x y ≡ false) ys) xs
  Sorted-between [] ys h = tt
  Sorted-between (x ∷ xs) ys (low, h) = (All-right _ xs ys low, Sorted-between xs ys h)

  pub at_most_last :
      IsOrder cmp
      → (V : List A) (y x : A) → Sorted (V ++ y ∷ [])
      → exceeds cmp y x ≡ false
      → All (λ v. exceeds cmp v x ≡ false) (V ++ y ∷ [])
  at_most_last o V y x s last =
      All-append (λ v. exceeds cmp v x ≡ false) V (y ∷ [])
        (All-map V (λ v h. o.trans v y x h.0 last) (Sorted-between V (y ∷ []) s)) (last, tt)
