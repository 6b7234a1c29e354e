-- ===== src/Flatmap/Order.antt =====
-- Pairs in ascending order of their keys: where a key lies among them, and the map that they are.
use ceres_standard_library.Prelude.{
  ◌≡◌, refl, sym, ap, ◌∙◌, arith, Option, none, some, List, [], ◌∷◌, ◌++◌,
}
use ceres_standard_library.Prelude.Int.{ℤ}
use ceres_standard_library.Sort.Order.{All, All-append, All-left, All-right, All-map}
use ceres_standard_library.Flatmap.{Way, below, same, above, way}

abbrev pub flip : Way → Way
flip below = above
flip same = same
flip above = below

-- a comparison of keys: a total order on classes of equal keys
pub record IsKeyOrder {K : Type 0} (cmp : K → K → ℤ) : Type 0 where
  pub flips : (j k : K) → way (cmp k j) ≡ flip (way (cmp j k))
  pub trans : (i j k : K) → way (cmp i j) ≡ below → way (cmp j k) ≡ below → way (cmp i k) ≡ below
  pub alike : (i j k : K) → way (cmp i j) ≡ same → way (cmp i k) ≡ way (cmp j k)

module _ {K : Type 0} (cmp : K → K → ℤ) where
  pub alike_right :
      IsKeyOrder cmp → (k key j : K) → way (cmp key j) ≡ same → way (cmp k key) ≡ way (cmp k j)
  alike_right o k key j e = o.flips key k ∙ ap flip (o.alike key j k e) ∙ sym (o.flips j k)

module _ {K V : Type 0} (cmp : K → K → ℤ) where
  -- the pairs that a key lies behind, and those that it lies before
  abbrev pub Over : K → K × V → Type 0
  Over key p = way (cmp key p.0) ≡ above

  abbrev pub Under : K → K × V → Type 0
  Under key p = way (cmp key p.0) ≡ below

  abbrev pub Ascending : List (K × V) → Type 0
  Ascending [] = Unit
  Ascending (p ∷ ps) = All (Under p.0) ps × Ascending ps

  -- the value of the first pair with a key, in a search through all of them
  abbrev pub lookup : K → List (K × V) → Option V
  lookup key [] = none
  lookup key (p ∷ ps) =
      let rest = lookup key ps in
      elim (way (cmp key p.0)) [ same ↦ some p.1 | below ↦ rest | above ↦ rest ]

  -- where a key lies among pairs
  pub data Located (key : K) (xs : List (K × V)) : Type 0 where
    present :
        (left right : List (K × V)) (p : K × V)
        → xs ≡ left ++ p ∷ right
        → way (cmp key p.0) ≡ same
        → All (Over key) left
        → All (Under key) right
        → Located key xs
    absent :
        (left right : List (K × V))
        → xs ≡ left ++ right
        → All (Over key) left
        → All (Under key) right
        → Located key xs

  Located-cons :
      {key : K} {p : K × V} {ps : List (K × V)} → Over key p → Located key ps → Located key (p ∷ ps)
  Located-cons {p} over (present left right q e s l r) =
      present (p ∷ left) right q (ap (λ (l : List (K × V)). p ∷ l) e) s (over, l) r
  Located-cons {p} over (absent left right e l r) =
      absent (p ∷ left) right (ap (λ (l : List (K × V)). p ∷ l) e) (over, l) r

  pub locate : IsKeyOrder cmp → (key : K) (xs : List (K × V)) → Ascending xs → Located key xs
  locate o key [] a = absent [] [] refl tt tt
  locate o key (p ∷ ps) (first, a) = by_way (locate o key ps a) (way (cmp key p.0)) refl
    where
      by_way : Located key ps → (w : Way) → way (cmp key p.0) ≡ w → Located key (p ∷ ps)
      by_way later below e =
          absent [] (p ∷ ps) refl tt (e, All-map ps (λ q h. o.trans key p.0 q.0 e h) first)
      by_way later same e =
          present [] ps p refl e tt (All-map ps (λ q h. o.alike key p.0 q.0 e ∙ h) first)
      by_way later above e = Located-cons e later

  pub lookup_miss_left :
      (k : K) (xs ys : List (K × V)) → All (Over k) xs → lookup k (xs ++ ys) ≡ lookup k ys
  lookup_miss_left k [] ys h = refl
  lookup_miss_left k (p ∷ xs) ys (hp, h) = rw (lookup, hp) (lookup_miss_left k xs ys h)

  pub lookup_miss : (k : K) (xs : List (K × V)) → All (Under k) xs → lookup k xs ≡ none
  lookup_miss k [] h = refl
  lookup_miss k (p ∷ xs) (hp, h) = rw (lookup, hp) (lookup_miss k xs h)

  -- lists that agree behind a common front agree
  pub lookup_front :
      (k : K) (xs ys zs : List (K × V))
      → lookup k ys ≡ lookup k zs
      → lookup k (xs ++ ys) ≡ lookup k (xs ++ zs)
  lookup_front k [] ys zs h = h
  lookup_front k (p ∷ xs) ys zs h = ground (arith, lookup_front k xs ys zs h)

  pub Ascending-append :
      (xs ys : List (K × V))
      → Ascending xs
      → Ascending ys
      → All (λ x. All (Under x.0) ys) xs
      → Ascending (xs ++ ys)
  Ascending-append [] ys h k between = k
  Ascending-append (x ∷ xs) ys (low, h) k (here, between) =
      (All-append (Under x.0) xs ys low here, Ascending-append xs ys h k between)

  pub Ascending-left : (xs ys : List (K × V)) → Ascending (xs ++ ys) → Ascending xs
  Ascending-left [] ys h = tt
  Ascending-left (x ∷ xs) ys (low, h) = (All-left _ xs ys low, Ascending-left xs ys h)

  pub Ascending-right : (xs ys : List (K × V)) → Ascending (xs ++ ys) → Ascending ys
  Ascending-right [] ys h = h
  Ascending-right (x ∷ xs) ys (low, h) = Ascending-right xs ys h

  pub Ascending-between :
      (xs ys : List (K × V)) → Ascending (xs ++ ys) → All (λ x. All (Under x.0) ys) xs
  Ascending-between [] ys h = tt
  Ascending-between (x ∷ xs) ys (low, h) = (All-right _ xs ys low, Ascending-between xs ys h)

  -- a value does not matter to the order
  pub Ascending-value :
      (xs ys : List (K × V)) (j : K) (v w : V)
      → Ascending (xs ++ (j, v) ∷ ys)
      → Ascending (xs ++ (j, w) ∷ ys)
  Ascending-value [] ys j v w h = h
  Ascending-value (x ∷ xs) ys j v w (low, h) = (
    All-append (Under x.0) xs ((j, w) ∷ ys) (All-left _ xs ((j, v) ∷ ys) low)
        (All-right (Under x.0) xs ((j, v) ∷ ys) low),
    Ascending-value xs ys j v w h,
  )

  pub Ascending-remove :
      (xs ys : List (K × V)) (p : K × V) → Ascending (xs ++ p ∷ ys) → Ascending (xs ++ ys)
  Ascending-remove [] ys p (low, h) = h
  Ascending-remove (x ∷ xs) ys p (low, h) = (
    All-append (Under x.0) xs ys (All-left _ xs (p ∷ ys) low)
        (All-right (Under x.0) xs (p ∷ ys) low).1,
    Ascending-remove xs ys p h,
  )

  -- a key goes in where it lies
  pub Ascending-insert :
      IsKeyOrder cmp
      → (key : K) (value : V) (xs ys : List (K × V)) → Ascending (xs ++ ys)
      → All (Over key) xs
      → All (Under key) ys
      → Ascending (xs ++ (key, value) ∷ ys)
  Ascending-insert o key value [] ys h l r = (r, h)
  Ascending-insert o key value (x ∷ xs) ys (low, h) (over, l) r = (
    All-append (Under x.0) xs ((key, value) ∷ ys) (All-left _ xs ys low)
        (o.flips key x.0 ∙ ap flip over, All-right _ xs ys low),
    Ascending-insert o key value xs ys h l r,
  )
