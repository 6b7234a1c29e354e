-- ===== src/Flatmap/Bisect.antt =====
-- bisect against where a key lies among the pairs: it ends, with the place.
use mathlib.Core.Path.{subst}
use ceres_standard_library.Prelude.{
  ℕ, zero, suc, ◌+◌, ◌-◌, ◌/◌, ◌<◌, ◌≤◌, ◌≡◌, refl, sym, ap, ◌∙◌, arith, some, List, [], ◌∷◌, ◌++◌,
  append-nil, append_assoc, true, false, length, length-append, get_elem?, lt→ltb, le→ltb_false,
  dec_lt,
}
use ceres_standard_library.Prelude.Int.{ℤ}
use ceres_standard_library.Prelude.Store.{◌>>=◌}
use ceres_standard_library.Vector.{Vector, vector_at}
use ceres_standard_library.Vector.Represents.{Holds}
use ceres_standard_library.Vector.Access.{vector_at_lem}
use ceres_standard_library.Sort.Order.{All}
use ceres_standard_library.Flatmap.{Flatmap, Way, below, same, above, way, bisect_from, bisect}
use ceres_standard_library.Flatmap.Order.{Over, Under}

module _ {A : Type 0} where
  -- an index in the front of a list, at its end, and behind it
  front_elem :
      (P : A → Type 0) (xs ys : List A) (i : ℕ)
      → All P xs
      → i < length xs
      → (x : A) × (get_elem? (xs ++ ys) i ≡ some x) × P x
  front_elem P [] ys i h less = absurd (omega arith)
  front_elem P (x ∷ xs) ys zero (hx, h) less = (x, refl, hx)
  front_elem P (x ∷ xs) ys (suc i) (hx, h) less = front_elem P xs ys i h (omega arith)

  pub middle_elem : (xs ys : List A) (x : A) → get_elem? (xs ++ x ∷ ys) (length xs) ≡ some x
  middle_elem [] ys x = refl
  middle_elem (z ∷ xs) ys x = middle_elem xs ys x

  back_elem :
      (P : A → Type 0) (xs ys : List A) (i : ℕ)
      → All P ys
      → length xs ≤ i
      → i < length (xs ++ ys)
      → (x : A) × (get_elem? (xs ++ ys) i ≡ some x) × P x
  back_elem P [] ys i h at less =
      let (x, e, p) = front_elem P ys [] i h less in
      (x, ap (λ (l : List A). get_elem? l i) (sym (append-nil ys)) ∙ e, p)
  back_elem P (x ∷ xs) ys zero h at less = absurd (omega arith)
  back_elem P (x ∷ xs) ys (suc i) h at less = back_elem P xs ys i h (omega arith) (omega arith)

module _ {K V : Type 0} (cmp : K → K → ℤ) where
  -- the pair at an index, and how the key lies to it
  abbrev Seen : Vector (K × V) → K → ℕ → Way → Type 0
  Seen pairs key i w = (p : K × V) × (vector_at pairs i ≡ some p) × (way (cmp key p.0) ≡ w)

  step :
      (fuel : ℕ) (pairs : Vector (K × V)) (key : K) (lo hi : ℕ) (w : Way)
      → lo < hi
      → Seen pairs key (lo + (hi - lo) / 2) w
      → bisect_from cmp (suc fuel) pairs key lo hi ≡ elim w [
        | same ↦ some (true, lo + (hi - lo) / 2)
        | below ↦ bisect_from cmp fuel pairs key lo (lo + (hi - lo) / 2)
        | above ↦ bisect_from cmp fuel pairs key (lo + (hi - lo) / 2 + 1) hi
      ]
  unfolding bisect_from
  step fuel pairs key lo hi w h (p, at, is) = rw (bisect_from, lt→ltb lo hi h, at, ◌>>=◌, is)

  finds :
      (fuel : ℕ) (pairs : Vector (K × V)) (key : K) (lo hi k : ℕ)
      → hi - lo < fuel
      → lo ≤ k
      → k < hi
      → ((i : ℕ) → i < k → Seen pairs key i above)
      → Seen pairs key k same
      → ((i : ℕ) → k < i → i < hi → Seen pairs key i below)
      → bisect_from cmp fuel pairs key lo hi ≡ some (true, k)
  finds zero pairs key lo hi k enough low high over here under = absurd (omega arith)
  finds (suc fuel) pairs key lo hi k enough low high over here under =
      let mid : ℕ = lo + (hi - lo) / 2 in
      elim (dec_lt mid k) [
        | yes before ↦
            step fuel pairs key lo hi above (omega arith) (over mid before)
            ∙ finds fuel pairs key (mid + 1) hi k (omega arith) (omega arith) high over here under
        | no after ↦ elim (dec_lt k mid) [
          | yes behind ↦
              step fuel pairs key lo hi below (omega arith) (under mid behind (omega arith))
              ∙ finds fuel pairs key lo mid k (omega arith) low behind over here
                  (λ i h less. under i h (omega arith))
          | no at ↦
              let e : k ≡ mid = omega arith in
              step fuel pairs key lo hi same (omega arith)
                (subst (λ i. Seen pairs key i same) e here)
              ∙ ap (λ (i : ℕ). some (true, i)) (sym e)
        ]
      ]

  misses :
      (fuel : ℕ) (pairs : Vector (K × V)) (key : K) (lo hi k : ℕ)
      → hi - lo < fuel
      → lo ≤ k
      → k ≤ hi
      → ((i : ℕ) → i < k → Seen pairs key i above)
      → ((i : ℕ) → k ≤ i → i < hi → Seen pairs key i below)
      → bisect_from cmp fuel pairs key lo hi ≡ some (false, k)
  unfolding bisect_from
  misses zero pairs key lo hi k enough low high over under = absurd (omega arith)
  misses (suc fuel) pairs key lo hi k enough low high over under = elim (dec_lt lo hi) [
    | no empty ↦
        let e : lo ≡ k = omega arith in
        rw (bisect_from, le→ltb_false hi lo (omega arith)) (ap (λ (i : ℕ). some (false, i)) e)
    | yes more ↦
        let mid : ℕ = lo + (hi - lo) / 2 in
        elim (dec_lt mid k) [
          | yes before ↦
              step fuel pairs key lo hi above more (over mid before)
              ∙ misses fuel pairs key (mid + 1) hi k (omega arith) (omega arith) high over under
          | no after ↦
              step fuel pairs key lo hi below more (under mid (omega arith) (omega arith))
              ∙ misses fuel pairs key lo mid k (omega arith) low (omega arith) over
                  (λ i h less. under i h (omega arith))
        ]
  ]

  module _ (m : Flatmap K V) {xs : List (K × V)} (h : Holds m.pairs xs) (key : K) where
    pub bisect_present :
        (left right : List (K × V)) (p : K × V)
        → xs ≡ left ++ p ∷ right
        → way (cmp key p.0) ≡ same
        → All (Over cmp key) left
        → All (Under cmp key) right
        → bisect cmp m key ≡ some (true, length left)
    unfolding bisect
    bisect_present left right p e s l r =
        let len : length xs ≡ length left + suc (length right) =
          omega (arith, ap length e, length-append left (p ∷ right)) in
        let len' : length (left ++ p ∷ []) ≡ suc (length left) =
          omega (arith, length-append left (p ∷ [])) in
        let at : (i : ℕ) → vector_at m.pairs i ≡ get_elem? (left ++ p ∷ right) i =
          λ i. vector_at_lem i h ∙ ap (λ (l : List (K × V)). get_elem? l i) e in
        let at' : (i : ℕ) → vector_at m.pairs i ≡ get_elem? ((left ++ p ∷ []) ++ right) i = λ i.
          at i
          ∙ ap (λ (l : List (K × V)). get_elem? l i) (sym (append_assoc left (p ∷ []) right)) in
        finds (suc m.pairs.len) m.pairs key 0 m.pairs.len (length left) (omega arith) (omega arith)
          (omega (arith, h.size))
          (λ i less.
            let (x, here, over) = front_elem (Over cmp key) left (p ∷ right) i l less in
            (x, at i ∙ here, over))
          (p, at (length left) ∙ middle_elem left right p, s)
          (λ i from less.
            let (x, here, under) =
              back_elem (Under cmp key) (left ++ p ∷ []) right i r (omega arith)
                (omega (arith, h.size, length-append (left ++ p ∷ []) right)) in
            (x, at' i ∙ here, under))

    pub bisect_absent :
        (left right : List (K × V))
        → xs ≡ left ++ right
        → All (Over cmp key) left
        → All (Under cmp key) right
        → bisect cmp m key ≡ some (false, length left)
    unfolding bisect
    bisect_absent left right e l r =
        let len : length xs ≡ length left + length right =
          omega (arith, ap length e, length-append left right) in
        let at : (i : ℕ) → vector_at m.pairs i ≡ get_elem? (left ++ right) i =
          λ i. vector_at_lem i h ∙ ap (λ (l : List (K × V)). get_elem? l i) e in
        misses (suc m.pairs.len) m.pairs key 0 m.pairs.len (length left) (omega arith) (omega arith)
          (omega (arith, h.size))
          (λ i less.
            let (x, here, over) = front_elem (Over cmp key) left right i l less in
            (x, at i ∙ here, over))
          (λ i from less.
            let (x, here, under) =
              back_elem (Under cmp key) left right i r from (omega (arith, h.size, ap length e)) in
            (x, at i ∙ here, under))
