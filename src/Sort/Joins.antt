-- ===== src/Sort/Joins.antt =====
-- What merge leaves of two sorted runs: their elements, sorted, and of equal ones the left run's first.
use mathlib.Core.Path.{subst}
use ceres_standard_library.Prelude.{
  ℕ, suc, ◌+◌, ◌-◌, ◌≤◌, ◌<◌, ◌≡◌, refl, sym, ap, ◌∙◌, arith, inl, inr, Option, some, List, [], ◌∷◌,
  ◌++◌, Bool-cases, length, length-append,
}
use ceres_standard_library.Prelude.Int.{ℤ}
use ceres_standard_library.Prelude.Cells.{Cells, cell}
use ceres_standard_library.Prelude.Store.{
  ◌>>=◌, memcpy, Part, Wrote, memcpy-Wrote, Part-append, Part-right,
}
use ceres_standard_library.Sort.{exceeds, merge}
use ceres_standard_library.Sort.Order.{
  snoc_cases, at_most_last, IsOrder, All-map, Sorted, Sorted-append, Keeps,
}
use ceres_standard_library.Sort.Merged.{merged, length-merged, merged-Sorted, merged-Keeps}
use ceres_standard_library.Sort.Merge.{loop-Wrote}

module _ {A : Type 0} (cmp : A → A → ℤ) (o : IsOrder cmp) where
  -- what joining two runs makes of them
  pub record Joined (src dst : Cells A) (lo : ℕ) (xs ys : List A) (result : Option (Cells A))
      : Type 0 where
    pub order : List A
    pub dst' : Cells A
    pub is : result ≡ some dst'
    pub wrote : Wrote dst lo order dst'
    pub sorted : Sorted cmp order
    pub keeps : Keeps cmp (xs ++ ys) order
    pub size : length order ≡ length xs + length ys

  merge-Joined_last :
      (V : List A) (x y : A) (ys : List A) (dst src : Cells A) (lo mid hi : ℕ)
      → let xs = V ++ x ∷ [] in
        lo + length xs ≡ mid
        → mid + suc (length ys) ≡ hi
        → Part src lo xs
        → Part src mid (y ∷ ys)
        → hi ≤ length dst
        → Sorted cmp xs
        → Sorted cmp (y ∷ ys)
        → Joined src dst lo xs (y ∷ ys) (merge cmp dst src lo mid hi)
  unfolding merge
  merge-Joined_last V x y ys dst src lo mid hi e f p q fits s t =
      let xs : List A = V ++ x ∷ [] in
      let count : length xs ≡ suc (length V) = omega (arith, length-append V (x ∷ [])) in
      let last : cell src (mid - 1) ≡ some x =
        ap (cell src) {x = mid - 1} {y = lo + length V} (omega arith)
        ∙ (Part-right src lo (lo + length V) V (x ∷ []) (refl) p).0 in
      elim (Bool-cases (exceeds cmp x y)) [
        | inr low ↦
            let both : length (xs ++ y ∷ ys) ≡ hi - lo = omega (arith, length-append xs (y ∷ ys)) in
            let (dst', done, w) =
              memcpy-Wrote (xs ++ y ∷ ys) dst lo src lo (Part-append src lo mid xs (y ∷ ys) e p q)
                (omega arith) in
            record {
              order = xs ++ y ∷ ys;
              dst' = dst';
              is =
                  rw (last, ◌>>=◌, q.0, ◌>>=◌, low)
                    (ap (λ (k : ℕ). memcpy k dst lo src lo) (sym both) ∙ done);
              wrote = w;
              sorted = Sorted-append cmp xs (y ∷ ys) s t (
                  All-map xs (λ v h. (h, All-map ys (λ z k. o.trans v y z h k) t.0))
                    (at_most_last cmp o V x y s low));
              keeps = λ z. refl;
              size = length-append xs (y ∷ ys);
            }
        | inl high ↦
            let (dst', done, w) =
              loop-Wrote cmp o (suc (hi - lo)) xs (y ∷ ys) dst src lo mid mid hi lo (omega arith) e
                f p q (omega arith) in
            record {
              order = merged cmp xs (y ∷ ys);
              dst' = dst';
              is = rw (last, ◌>>=◌, q.0, ◌>>=◌, high) done;
              wrote = w;
              sorted = merged-Sorted cmp o xs (y ∷ ys) s t;
              keeps = merged-Keeps cmp o xs (y ∷ ys) s;
              size = length-merged cmp xs (y ∷ ys);
            }
      ]

  pub merge-Joined :
      (xs ys : List A) (dst src : Cells A) (lo mid hi : ℕ)
      → 0 < length xs
      → 0 < length ys
      → lo + length xs ≡ mid
      → mid + length ys ≡ hi
      → Part src lo xs
      → Part src mid ys
      → hi ≤ length dst
      → Sorted cmp xs
      → Sorted cmp ys
      → Joined src dst lo xs ys (merge cmp dst src lo mid hi)
  merge-Joined xs [] dst src lo mid hi some_x some_y e f p q fits s t = absurd (omega arith)
  merge-Joined xs (y ∷ ys) dst src lo mid hi some_x some_y e f p q fits s t = elim (snoc_cases xs) [
    | inl none' ↦ absurd (omega (arith, ap length none'))
    | inr (V, x, split) ↦
        subst (λ l. Joined src dst lo l (y ∷ ys) (merge cmp dst src lo mid hi)) (sym split)
          (merge-Joined_last V x y ys dst src lo mid hi (omega (arith, e, ap length split)) f
            (subst (Part src lo) split p) q fits (subst (Sorted cmp) split s) t)
  ]
