-- ===== src/Sort/Runs.antt =====
-- The first loop of sort_stable, which makes sorted runs of eight elements.
use mathlib.Core.Path.{subst}
use mathlib.Core.List.{map-append}
use ceres_standard_library.Prelude.{
  ℕ, zero, suc, ◌+◌, ◌-◌, ◌^◌, ◌≤◌, ◌<◌, min, ◌≡◌, refl, sym, ap, ap₂, ◌∙◌, arith, ◌⊎◌, inl, inr,
  Option, some, List, [], ◌∷◌, ◌++◌, append_assoc, append-nil, map, if◌then◌else◌, dec_le, length,
  length-append, length-take, length-drop, take, drop, take-append-drop, ltb, lt→ltb, le→ltb_false,
  add32,
}
use ceres_standard_library.Prelude.Int.{ℤ}
use ceres_standard_library.Prelude.Cells.{Cells, take-map, drop-map, take_front, drop_front}
use ceres_standard_library.Prelude.Store.{◌>>=◌}
use ceres_standard_library.Sort.{run_length, insertion_run, runs_from}
use ceres_standard_library.Sort.Order.{IsOrder, Sorted, Keeps, Keeps-append}
use ceres_standard_library.Sort.Insertion.{Ordered, insertion_run-Ordered}

-- sorted runs of one width, the last one not longer
pub data Runs {A : Type 0} (cmp : A → A → ℤ) (w : ℕ) : List A → Type 0 where
  last : (xs : List A) → length xs ≤ w → Sorted cmp xs → Runs cmp w xs
  more :
      (xs r s : List A) → xs ≡ r ++ s → length r ≡ w → Sorted cmp r → Runs cmp w s → Runs cmp w xs

module _ {A : Type 0} where
  empty_of_length : (xs : List A) → length xs ≡ 0 → xs ≡ []
  empty_of_length [] e = refl
  empty_of_length (x ∷ xs) e = absurd (omega arith)

module _ {A : Type 0} (cmp : A → A → ℤ) where
  -- one run is sorted
  pub Runs-Sorted : (w : ℕ) (xs : List A) → Runs cmp w xs → length xs ≤ w → Sorted cmp xs
  Runs-Sorted w xs (last _ h s) k = s
  Runs-Sorted w xs (more _ r [] e len s rest) k = subst (Sorted cmp) (sym (e ∙ append-nil r)) s
  Runs-Sorted w xs (more _ r (y ∷ ys) e len s rest) k =
      absurd (omega (arith, ap length e, length-append r (y ∷ ys)))

  -- what the loop over the runs makes of the elements `S` behind `D`
  pub record Arranged (w : ℕ) (D S : List A) (result : Option (Cells A)) : Type 0 where
    pub order : List A
    pub is : result ≡ some (map some (D ++ order))
    pub runs : Runs cmp w order
    pub keeps : Keeps cmp S order
    pub size : length order ≡ length S

module _ {A : Type 0} (cmp : A → A → ℤ) (o : IsOrder cmp) where
  runs_step :
      (fuel lo n : ℕ) (array : Cells A)
      → lo < n
      → n < 2 ^ 31
      → runs_from cmp (suc fuel) lo n array ≡ (
          insertion_run cmp (drop lo array) (min (n - lo) 8) >>= λ part.
          runs_from cmp fuel (lo + 8) n (take lo array ++ part))
  unfolding runs_from run_length
  runs_step fuel lo n array h small =
      let count : (if ltb (n - lo) 8 then n - lo else 8) ≡ min (n - lo) 8 = ground arith in
      let next : add32 lo 8 ≡ lo + 8 = omega arith in
      rw (runs_from, lt→ltb lo n h, run_length, count, next)

  runs_stop :
      (fuel lo n : ℕ) (array : Cells A) → n ≤ lo → runs_from cmp (suc fuel) lo n array ≡ some array
  unfolding runs_from
  runs_stop fuel lo n array h = rw (runs_from, le→ltb_false n lo h)

  pub joined_runs :
      {w : ℕ} (xs ys : List A)
      → Sorted cmp xs
      → Runs cmp w ys
      → (length xs ≡ w) ⊎ ((length xs ≤ w) × (length ys ≡ 0))
      → Runs cmp w (xs ++ ys)
  joined_runs xs ys s r (inl full) = more (xs ++ ys) xs ys refl full s r
  joined_runs {w} xs ys s r (inr (short, none')) =
      let same : xs ++ ys ≡ xs =
        ap (λ (l : List A). xs ++ l) (empty_of_length ys none') ∙ append-nil xs in
      subst (Runs cmp w) (sym same) (last xs short s)

  pub runs_from-Arranged :
      (fuel lo n : ℕ) (D S : List A)
      → length S < fuel
      → n < 2 ^ 31
      → length D + length S ≡ n
      → length D ≤ lo
      → (0 < length S → lo ≡ length D)
      → Arranged cmp 8 D S (runs_from cmp fuel lo n (map some (D ++ S)))
  runs_from-Arranged zero lo n D S enough small e behind at = absurd (omega arith)
  runs_from-Arranged (suc fuel) lo n D [] enough small e behind at = record {
    order = [];
    is = runs_stop fuel lo n _ (omega arith);
    runs = last [] (omega arith) tt;
    keeps = λ z. refl;
    size = refl;
  }
  runs_from-Arranged (suc fuel) lo n D (x ∷ S') enough small e behind at =
      let S : List A = x ∷ S' in
      let here : lo ≡ length D = at (omega arith) in
      let P : List A = take (min (n - lo) 8) S in
      let Q : List A = drop (min (n - lo) 8) S in
      let parts : P ++ Q ≡ S = take-append-drop (min (n - lo) 8) S in
      let len : length P ≡ min (n - lo) 8 = omega (arith, length-take (min (n - lo) 8) S) in
      let len' : length Q ≡ length S - min (n - lo) 8 = length-drop (min (n - lo) 8) S in
      let first : Ordered cmp o P Q (insertion_run cmp (map some (P ++ Q)) (length P)) =
        insertion_run-Ordered cmp o P Q in
      let rest : Arranged cmp 8 (D ++ first.order) Q
          (runs_from cmp fuel (lo + 8) n (map some ((D ++ first.order) ++ Q))) =
        runs_from-Arranged fuel (lo + 8) n (D ++ first.order) Q (omega arith) small
          (omega (arith, length-append D first.order, first.size))
          (omega (arith, length-append D first.order, first.size))
          (λ some_left. omega (arith, length-append D first.order, first.size)) in
      let array : Cells A = map some (D ++ S) in
      let back : Cells A → Option (Cells A) =
        λ part. runs_from cmp fuel (lo + 8) n (take lo array ++ part) in
      let front : take lo array ≡ map some D =
        ap (λ (k : ℕ). take k array) here
        ∙ take-map (length D) some (D ++ S)
        ∙ ap (map some) (take_front D S) in
      let behind' : drop lo array ≡ map some (P ++ Q) =
        ap (λ (k : ℕ). drop k array) here
        ∙ drop-map (length D) some (D ++ S)
        ∙ ap (map some) (drop_front D S ∙ sym parts) in
      let joined : take lo array ++ map some (first.order ++ Q)
          ≡ map some ((D ++ first.order) ++ Q) =
        ap (λ (c : Cells A). c ++ map some (first.order ++ Q)) front
        ∙ sym (map-append some D (first.order ++ Q))
        ∙ ap (map some) (sym (append_assoc D first.order Q)) in
      record {
        order = first.order ++ rest.order;
        is =
            runs_step fuel lo n array (omega arith) small
            ∙ ap₂ (λ (c : Cells A) (k : ℕ). insertion_run cmp c k >>= back) behind' (sym len)
            ∙ ap (λ (r : Option (Cells A)). r >>= back) first.is
            ∙ ap (runs_from cmp fuel (lo + 8) n) joined
            ∙ rest.is
            ∙ ap (λ (l : List A). some (map some l)) (append_assoc D first.order rest.order);
        runs =
            joined_runs first.order rest.order first.sorted rest.runs (elim (dec_le 8 (length S)) [
              | yes full ↦ inl (omega (arith, first.size))
              | no short ↦ inr (omega (arith, first.size), omega (arith, rest.size))
            ]);
        keeps =
            subst (λ l. Keeps cmp l (first.order ++ rest.order)) parts
              (Keeps-append cmp P Q first.order rest.order first.keeps rest.keeps);
        size = omega (arith, length-append first.order rest.order, first.size, rest.size);
      }
