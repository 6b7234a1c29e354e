-- ===== src/Prelude/Store.antt =====
-- Reads and stores that fault: the Option monad, stores into cells, copies between two objects, and
-- what such a copy writes.
use Prim.Native.Nat.{ℕ, zero, suc, ◌+◌, ◌≤◌, ◌<◌}
use mathlib.Core.Path.{◌≡◌, refl, ap₂, subst, ◌∙◌}
use mathlib.Core.List.{List, [], ◌∷◌, ◌++◌, map}
use mathlib.Core.Option.{Option, none, some}
use native.Mathlib.Omega.{arith}
use ceres_standard_library.Prelude.Tests.{ltb, lt→ltb, if◌then◌else◌}
use ceres_standard_library.Prelude.Lists.{length, set, length-set}
use ceres_standard_library.Prelude.Cells.{Cells, cell, cell-set_self, cell-set_ne}

infixl 5 ◌>>=◌
abbrev pub ◌>>=◌ {ℓ κ} : {A : Type ℓ} {B : Type κ} → Option A → (A → Option B) → Option B
none >>= f = none
some a >>= f = f a

module _ {ℓ} {A : Type ℓ} where
  unfoldable pub put_cell : Cells A → ℕ → A → Option (Cells A)
  put_cell cells i x = if ltb i (length cells) then some (set cells i (some x)) else none

  -- `memcpy(dst + d, src + s, n)` between two objects
  unfoldable pub memcpy : ℕ → Cells A → ℕ → Cells A → ℕ → Option (Cells A)
  unfolding put_cell
  memcpy zero dst d src s = some dst
  memcpy (suc n) dst d src s = do
    x ← cell src s
    dst' ← put_cell dst d x
    memcpy n dst' (suc d) src (suc s)

  -- the elements in an object from an index on
  abbrev pub Part : Cells A → ℕ → List A → Type ℓ
  Part cells i [] = Unit
  Part cells i (x ∷ xs) = (cell cells i ≡ some x) × Part cells (suc i) xs

  -- what a run of stores from `d` on leaves: the elements there, and all before as it was
  pub record Wrote (dst : Cells A) (d : ℕ) (xs : List A) (dst' : Cells A) : Type ℓ where
    pub placed : Part dst' d xs
    pub before : (k : ℕ) → k < d → cell dst' k ≡ cell dst k
    pub size : length dst' ≡ length dst

module _ {ℓ} {A : Type ℓ} where
  pub put_cell_lem :
      (cells : Cells A) (i : ℕ) (x : A)
      → i < length cells
      → put_cell cells i x ≡ some (set cells i (some x))
  unfolding put_cell
  put_cell_lem cells i x h = rw (lt→ltb i (length cells) h)

  pub Wrote-none : (dst : Cells A) (d : ℕ) → Wrote dst d [] dst
  Wrote-none dst d = record { placed = tt; before = λ k h. refl; size = refl }

  pub Wrote-store :
      {dst dst' : Cells A} {d : ℕ} {x : A} {xs : List A}
      → d < length dst
      → Wrote (set dst d (some x)) (suc d) xs dst'
      → Wrote dst d (x ∷ xs) dst'
  Wrote-store {dst} {dst'} {d} {x} h w = record {
    placed = (w.before d (omega arith) ∙ cell-set_self dst d (some x) h, w.placed);
    before = λ k less.
        w.before k (omega arith) ∙ cell-set_ne dst d k (some x) (λ e. absurd (omega (arith, e)));
    size = w.size ∙ length-set dst d (some x);
  }

  pub Part-kept :
      (c c' : Cells A) (i : ℕ) (xs : List A) {n : ℕ}
      → ((k : ℕ) → k < n → cell c' k ≡ cell c k)
      → i + length xs ≤ n
      → Part c i xs
      → Part c' i xs
  Part-kept c c' i [] same fits h = tt
  Part-kept c c' i (x ∷ xs) same fits (here, rest) =
      (same i (omega arith) ∙ here, Part-kept c c' (suc i) xs same (omega arith) rest)

  pub Part-append :
      (c : Cells A) (i j : ℕ) (xs ys : List A)
      → i + length xs ≡ j
      → Part c i xs
      → Part c j ys
      → Part c i (xs ++ ys)
  Part-append c i j [] ys e h k = subst (λ m. Part c m ys) {x = j} {y = i} (omega arith) k
  Part-append c i j (x ∷ xs) ys e (here, rest) k =
      (here, Part-append c (suc i) j xs ys (omega arith) rest k)

  pub Part-left : (c : Cells A) (i : ℕ) (xs ys : List A) → Part c i (xs ++ ys) → Part c i xs
  Part-left c i [] ys h = tt
  Part-left c i (x ∷ xs) ys (here, rest) = (here, Part-left c (suc i) xs ys rest)

  pub Part-right :
      (c : Cells A) (i j : ℕ) (xs ys : List A)
      → i + length xs ≡ j
      → Part c i (xs ++ ys)
      → Part c j ys
  Part-right c i j [] ys e h = subst (λ m. Part c m ys) {x = i} {y = j} (omega arith) h
  Part-right c i j (x ∷ xs) ys e (here, rest) = Part-right c (suc i) j xs ys (omega arith) rest

  pub Wrote-append :
      {dst dst' dst'' : Cells A} (d e : ℕ) {xs ys : List A}
      → d + length xs ≡ e
      → Wrote dst d xs dst'
      → Wrote dst' e ys dst''
      → Wrote dst d (xs ++ ys) dst''
  Wrote-append d e {xs} {ys} next v w = record {
    placed =
        Part-append _ d e xs ys next (Part-kept _ _ d xs w.before (omega arith) v.placed) w.placed;
    before = λ k less. w.before k (omega arith) ∙ v.before k less;
    size = w.size ∙ v.size;
  }

  pub memcpy-Wrote :
      (xs : List A) (dst : Cells A) (d : ℕ) (src : Cells A) (s : ℕ)
      → Part src s xs
      → d + length xs ≤ length dst
      → (dst' : Cells A) × (memcpy (length xs) dst d src s ≡ some dst') × Wrote dst d xs dst'
  unfolding memcpy
  memcpy-Wrote [] dst d src s h fits = (dst, refl, Wrote-none dst d)
  memcpy-Wrote (x ∷ xs) dst d src s (here, rest) fits =
      let (dst', e, w) =
        memcpy-Wrote xs (set dst d (some x)) (suc d) src (suc s) rest
          (omega (arith, length-set dst d (some x))) in
      (dst', rw (here, put_cell_lem dst d x (omega arith)) e, Wrote-store (omega arith) w)

  Part-shift :
      (o : Option A) (c : Cells A) (i : ℕ) (xs : List A) → Part c i xs → Part (o ∷ c) (suc i) xs
  Part-shift o c i [] h = tt
  Part-shift o c i (x ∷ xs) (here, rest) = (here, Part-shift o c (suc i) xs rest)

  Part-unshift :
      (o : Option A) (c : Cells A) (i : ℕ) (xs : List A) → Part (o ∷ c) (suc i) xs → Part c i xs
  Part-unshift o c i [] h = tt
  Part-unshift o c i (x ∷ xs) (here, rest) = (here, Part-unshift o c (suc i) xs rest)

  pub map-some-Part : (xs : List A) → Part (map some xs) 0 xs
  map-some-Part [] = tt
  map-some-Part (x ∷ xs) = (refl, Part-shift (some x) (map some xs) 0 xs (map-some-Part xs))

  pub Part-map-some :
      (c : Cells A) (xs : List A) → Part c 0 xs → length c ≡ length xs → c ≡ map some xs
  Part-map-some [] [] h e = refl
  Part-map-some [] (x ∷ xs) h e = absurd (omega arith)
  Part-map-some (o ∷ c) [] h e = absurd (omega arith)
  Part-map-some (none ∷ c) (x ∷ xs) (here, rest) e = absurd (cc)
  Part-map-some (some y ∷ c) (x ∷ xs) (here, rest) e =
      ap₂ (λ (o : Option A) (l : Cells A). o ∷ l) here
        (Part-map-some c xs (Part-unshift (some y) c 0 xs rest) (omega arith))
