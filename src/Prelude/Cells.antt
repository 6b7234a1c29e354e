-- ===== src/Prelude/Cells.antt =====
-- A heap object that holds elements of one type: a list of cells, one for each element that fits.
-- A cell that was never written is `none`.
use Prim.Native.Nat.{ℕ, zero, suc, ◌+◌, ◌-◌, ◌≤◌, ◌<◌}
use mathlib.Core.Path.{◌≡◌, refl, ap, ◌∙◌}
use mathlib.Core.Logic.{◌≢◌}
use mathlib.Core.List.{List, [], ◌∷◌, ◌++◌, map}
use mathlib.Core.Option.{Option, none, some}
use native.Mathlib.Omega.{arith}
use ceres_standard_library.Prelude.Lists.{
  length, get_elem?, set, take, drop, replicate, get_elem?-set_self, get_elem?-set_ne, length-take,
  length-drop, length-append,
}

abbrev pub Cells {ℓ} : Type ℓ → Type ℓ
Cells A = List (Option A)

module _ {ℓ} {A : Type ℓ} where
  abbrev pub join : Option (Option A) → Option A
  join none = none
  join (some o) = o

  -- A read: `none` outside the object and of a cell never written, which C leaves undefined.
  abbrev pub cell : Cells A → ℕ → Option A
  cell cells i = join (get_elem? cells i)

  -- what `malloc` gives for `n` elements
  abbrev pub blank : ℕ → Cells A
  blank n = replicate n none

  -- `memmove(object + to, object + from, n)` inside one object
  abbrev pub memmove : Cells A → ℕ → ℕ → ℕ → Cells A
  memmove cells to from n = take to cells ++ (take n (drop from cells) ++ drop (to + n) cells)

  pub cell-set_self :
      (cells : Cells A) (i : ℕ) (o : Option A) → i < length cells → cell (set cells i o) i ≡ o
  cell-set_self cells i o h = ap join (get_elem?-set_self cells i o h)

  pub cell-set_ne :
      (cells : Cells A) (i j : ℕ) (o : Option A) → i ≢ j → cell (set cells i o) j ≡ cell cells j
  cell-set_ne cells i j o h = ap join (get_elem?-set_ne cells o h)

module _ {ℓ} {A : Type ℓ} where
  pub take-take : (m n : ℕ) (xs : List A) → m ≤ n → take m (take n xs) ≡ take m xs
  take-take zero n xs h = refl
  take-take (suc m) zero xs h = absurd (omega arith)
  take-take (suc m) (suc n) [] h = refl
  take-take (suc m) (suc n) (x ∷ xs) h = ap (λ (l : List A). x ∷ l) (take-take m n xs (omega arith))

  take-nil : (n : ℕ) → take {A = A} n [] ≡ []
  take-nil zero = refl
  take-nil (suc n) = refl

  pub take-drop : (m n k : ℕ) (xs : List A) → n + m ≡ k → take m (drop n xs) ≡ drop n (take k xs)
  take-drop m zero k xs e = ap (λ (j : ℕ). take j xs) (omega arith)
  take-drop m (suc n) zero xs e = absurd (omega arith)
  take-drop m (suc n) (suc k) [] e = take-nil m
  take-drop m (suc n) (suc k) (x ∷ xs) e = take-drop m n k xs (omega arith)

  pub take_all : (n : ℕ) (xs : List A) → length xs ≤ n → take n xs ≡ xs
  take_all zero [] h = refl
  take_all (suc n) [] h = refl
  take_all zero (x ∷ xs) h = absurd (omega arith)
  take_all (suc n) (x ∷ xs) h = ap (λ (l : List A). x ∷ l) (take_all n xs (omega arith))

  pub drop_all : (n : ℕ) (xs : List A) → length xs ≤ n → drop n xs ≡ []
  drop_all zero [] h = refl
  drop_all (suc n) [] h = refl
  drop_all zero (x ∷ xs) h = absurd (omega arith)
  drop_all (suc n) (x ∷ xs) h = drop_all n xs (omega arith)

  pub take-append :
      (n : ℕ) (xs ys : List A) → length xs ≤ n → take n (xs ++ ys) ≡ xs ++ take (n - length xs) ys
  take-append n [] ys h = ap (λ (m : ℕ). take m ys) (omega arith)
  take-append zero (x ∷ xs) ys h = absurd (omega arith)
  take-append (suc n) (x ∷ xs) ys h =
      ap (λ (l : List A). x ∷ l)
        (take-append n xs ys (omega arith) ∙ ap (λ (m : ℕ). xs ++ take m ys) (omega arith))

  pub take-append_left : (n : ℕ) (xs ys : List A) → n ≤ length xs → take n (xs ++ ys) ≡ take n xs
  take-append_left zero xs ys h = refl
  take-append_left (suc n) [] ys h = absurd (omega arith)
  take-append_left (suc n) (x ∷ xs) ys h =
      ap (λ (l : List A). x ∷ l) (take-append_left n xs ys (omega arith))

  -- Writing over the cell behind a prefix.
  pub set-append :
      (xs : List A) (y z : A) (ys : List A) → set (xs ++ y ∷ ys) (length xs) z ≡ xs ++ z ∷ ys
  set-append [] y z ys = refl
  set-append (x ∷ xs) y z ys = ap (λ (l : List A). x ∷ l) (set-append xs y z ys)

  pub take-set :
      (n : ℕ) (xs : List A) (z : A)
      → n < length xs
      → take (suc n) (set xs n z) ≡ take n xs ++ z ∷ []
  take-set n [] z h = absurd (omega arith)
  take-set zero (x ∷ xs) z h = refl
  take-set (suc n) (x ∷ xs) z h = ap (λ (l : List A). x ∷ l) (take-set n xs z (omega arith))

  pub take-map {κ} :
      {B : Type κ} (n : ℕ) (f : A → B) (xs : List A) → take n (map f xs) ≡ map f (take n xs)
  take-map zero f xs = refl
  take-map (suc n) f [] = refl
  take-map (suc n) f (x ∷ xs) = ap (λ l. f x ∷ l) (take-map n f xs)

  pub drop-map {κ} :
      {B : Type κ} (n : ℕ) (f : A → B) (xs : List A) → drop n (map f xs) ≡ map f (drop n xs)
  drop-map zero f xs = refl
  drop-map (suc n) f [] = refl
  drop-map (suc n) f (x ∷ xs) = drop-map n f xs

-- How `memmove` by one place and the store act on a prefix of the cells.
module _ {ℓ} {B : Type ℓ} where
  pub insert_cells :
      (i n k : ℕ) (c rest : List B) (y : B)
      → i < length c
      → k ≡ i + suc n
      → take k (set (take (suc i) c ++ rest) i y) ≡ take i c ++ y ∷ take n rest
  insert_cells i n k [] rest y h e = absurd (omega arith)
  insert_cells zero n k (b ∷ c) rest y h e =
      let e' : k ≡ suc n = omega arith in ap (λ (j : ℕ). take j (y ∷ rest)) e'
  insert_cells (suc i) n zero (b ∷ c) rest y h e = absurd (omega arith)
  insert_cells (suc i) n (suc k) (b ∷ c) rest y h e =
      ap (λ (l : List B). b ∷ l) (insert_cells i n k c rest y (omega arith) (omega arith))

  pub get_elem?-take : (n i : ℕ) (c : List B) → i < n → get_elem? (take n c) i ≡ get_elem? c i
  get_elem?-take zero i c h = absurd (omega arith)
  get_elem?-take (suc n) i [] h = refl
  get_elem?-take (suc n) zero (b ∷ c) h = refl
  get_elem?-take (suc n) (suc i) (b ∷ c) h = get_elem?-take n i c (omega arith)

  pub get_elem?-none : (c : List B) (i : ℕ) → length c ≤ i → get_elem? c i ≡ none
  get_elem?-none [] i h = refl
  get_elem?-none (b ∷ c) zero h = absurd (omega arith)
  get_elem?-none (b ∷ c) (suc i) h = get_elem?-none c i (omega arith)

  pub cell-map : (xs : List B) (i : ℕ) → cell (map some xs) i ≡ get_elem? xs i
  cell-map [] i = refl
  cell-map (x ∷ xs) zero = refl
  cell-map (x ∷ xs) (suc i) = cell-map xs i

module _ {ℓ} {A : Type ℓ} where
  pub length-memmove :
      (c : Cells A) (to from n : ℕ)
      → to + n ≤ length c
      → from + n ≤ length c
      → length (memmove c to from n) ≡ length c
  length-memmove c to from n h k = omega (
    arith,
    length-append (take to c) (take n (drop from c) ++ drop (to + n) c),
    length-append (take n (drop from c)) (drop (to + n) c),
    length-take to c,
    length-take n (drop from c),
    length-drop from c,
    length-drop (to + n) c,
  )

module _ {ℓ} {A : Type ℓ} where
  pub get_elem?-append_left :
      (xs ys : List A) (i : ℕ) → i < length xs → get_elem? (xs ++ ys) i ≡ get_elem? xs i
  get_elem?-append_left [] ys i h = absurd (omega arith)
  get_elem?-append_left (x ∷ xs) ys zero h = refl
  get_elem?-append_left (x ∷ xs) ys (suc i) h = get_elem?-append_left xs ys i (omega arith)

  pub get_elem?-append_last : (xs : List A) (y : A) → get_elem? (xs ++ y ∷ []) (length xs) ≡ some y
  get_elem?-append_last [] y = refl
  get_elem?-append_last (x ∷ xs) y = get_elem?-append_last xs y

  -- a list taken apart behind its front
  pub take_front : (xs ys : List A) → take (length xs) (xs ++ ys) ≡ xs
  take_front [] ys = refl
  take_front (x ∷ xs) ys = ap (λ (l : List A). x ∷ l) (take_front xs ys)

  pub drop_front : (xs ys : List A) → drop (length xs) (xs ++ ys) ≡ ys
  drop_front [] ys = refl
  drop_front (x ∷ xs) ys = drop_front xs ys
