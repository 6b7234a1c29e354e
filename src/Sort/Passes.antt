-- ===== src/Sort/Passes.antt =====
-- The passes of sort_stable: each joins the runs in pairs, until there is one run.
use mathlib.Core.Path.{subst}
use ceres_standard_library.Prelude.{
  ℕ, zero, suc, ◌+◌, ◌*◌, ◌^◌, ◌≤◌, ◌<◌, ◌≡◌, refl, sym, ap, ◌∙◌, arith, inl, inr, Bool, not,
  Option, some, List, [], ◌∷◌, ◌++◌, append_assoc, append-nil, map, dec_le, length, length-append,
  length-map, lt→ltb, le→ltb_false, mul32,
}
use ceres_standard_library.Prelude.Int.{ℤ}
use ceres_standard_library.Prelude.Cells.{Cells}
use ceres_standard_library.Prelude.Store.{◌>>=◌, Part, Part-right, map-some-Part, Part-map-some}
use ceres_standard_library.Sort.{pass_from, passes}
use ceres_standard_library.Sort.Order.{IsOrder, Sorted, Keeps, Keeps-trans}
use ceres_standard_library.Sort.Runs.{Runs, last, more, Runs-Sorted}
use ceres_standard_library.Sort.Rounds.{Round, Passed, pass_nothing, pass_alone, pass_pair}

module _ {A : Type 0} (cmp : A → A → ℤ) (o : IsOrder cmp) where
  pub pass_from-Passed :
      (fuel : ℕ) (dst src : Cells A) (lo w n : ℕ) (S : List A)
      → length S < fuel
      → Round lo w n
      → lo + length S ≡ n
      → n ≤ length dst
      → Part src lo S
      → Runs cmp w S
      → Passed cmp (2 * w) dst lo S (pass_from cmp fuel dst src lo w n)
  pass_from-Passed zero dst src lo w n S enough round e fits p r = absurd (omega arith)
  pass_from-Passed (suc fuel) dst src lo w n [] enough round e fits p r =
      pass_nothing cmp o fuel dst src lo lo w (2 * w) n (omega arith)
  pass_from-Passed (suc zero) dst src lo w n (x ∷ S) enough round e fits p r = absurd (omega arith)
  pass_from-Passed (suc (suc fuel)) dst src lo w n (x ∷ S) enough round e fits p (last _ short s) =
      pass_alone cmp o fuel dst src lo w n (x ∷ S) round (omega arith) short e fits p s
  pass_from-Passed (suc (suc fuel)) dst src lo w n (x ∷ S) enough round e fits p
        (more _ r [] parts len sr rest) =
      let same : r ≡ x ∷ S = sym (parts ∙ append-nil r) in
      pass_alone cmp o fuel dst src lo w n (x ∷ S) round (omega arith)
        (omega (arith, ap length same)) e fits p (subst (Sorted cmp) same sr)
  pass_from-Passed (suc (suc fuel)) dst src lo w n (x ∷ S) enough round e fits p
        (more _ r (y ∷ s) parts len sr (last _ short ss)) =
      let split : x ∷ S ≡ (r ++ y ∷ s) ++ [] = parts ∙ sym (append-nil (r ++ y ∷ s)) in
      subst (λ l. Passed cmp (2 * w) dst lo l (pass_from cmp (suc (suc fuel)) dst src lo w n))
        (sym split)
        (pass_pair cmp o (suc fuel) dst src lo w n r (y ∷ s) [] round len (omega arith) short
          (inr refl) (omega (arith, ap length split)) fits (subst (Part src lo) split p) sr ss
          (λ dst' size.
            pass_nothing cmp o fuel dst' src _ (lo + 2 * w) w (2 * w) n
              (omega (arith, ap length parts, length-append r (y ∷ s)))))
  pass_from-Passed (suc (suc fuel)) dst src lo w n (x ∷ S) enough round e fits p
        (more _ r (y ∷ s) parts len sr (more _ t Q parts' len' st rest)) =
      let split : x ∷ S ≡ (r ++ t) ++ Q =
        parts ∙ ap (λ (l : List A). r ++ l) parts' ∙ sym (append_assoc r t Q) in
      let count : length (x ∷ S) ≡ length r + length t + length Q =
        omega (arith, ap length split, length-append (r ++ t) Q, length-append r t) in
      let both : length (r ++ t) ≡ 2 * w = omega (arith, length-append r t) in
      subst (λ l. Passed cmp (2 * w) dst lo l (pass_from cmp (suc (suc fuel)) dst src lo w n))
        (sym split)
        (pass_pair cmp o (suc fuel) dst src lo w n r t Q round len (omega arith) (omega arith)
          (inl len') (omega (arith, ap length split)) fits (subst (Part src lo) split p) sr st
          (λ dst' size.
            subst
              (λ m.
                Passed cmp (2 * w) dst' (lo + m) Q
                  (pass_from cmp (suc fuel) dst' src (lo + 2 * w) w n))
              (sym both)
              (pass_from-Passed (suc fuel) dst' src (lo + 2 * w) w n Q (omega arith)
                (round.0, round.1, round.2, inr (omega arith)) (omega arith) (omega arith)
                (Part-right src lo (lo + 2 * w) (r ++ t) Q (omega arith)
                  (subst (Part src lo) split p))
                rest)))

  -- what the passes make of the elements `S`, in the object that they leave them in
  pub record Finished (S : List A) (result : Option (Bool × Cells A × Cells A)) : Type 0 where
    pub order : List A
    pub flag : Bool
    pub dst' : Cells A
    pub is : result ≡ some (flag, map some order, dst')
    pub sorted : Sorted cmp order
    pub keeps : Keeps cmp S order
    pub size : length order ≡ length S
    pub room : length dst' ≡ length S

  pub passes-Finished :
      (fuel w n : ℕ) (flag : Bool) (S : List A) (dst : Cells A)
      → n < w + fuel
      → 0 < fuel
      → 0 < w
      → n < 2 ^ 31
      → length S ≡ n
      → length dst ≡ n
      → Runs cmp w S
      → Finished S (passes cmp fuel w n flag (map some S) dst)
  unfolding passes
  passes-Finished zero w n flag S dst enough some_fuel pos_w small e room r = absurd (omega arith)
  passes-Finished (suc fuel) w n flag S dst enough some_fuel pos_w small e room r =
      elim (dec_le n w) [
        | yes whole ↦ record {
          order = S;
          flag = flag;
          dst' = dst;
          is = rw (passes, le→ltb_false n w whole);
          sorted = Runs-Sorted cmp w S r (omega arith);
          keeps = λ z. refl;
          size = refl;
          room = omega arith;
        }
        | no wide ↦
            let pass : Passed cmp (2 * w) dst 0 S (pass_from cmp (suc n) dst (map some S) 0 w n) =
              pass_from-Passed (suc n) dst (map some S) 0 w n S (omega arith)
                (small, pos_w, omega arith, inl refl) (omega arith) (omega arith) (map-some-Part S)
                r in
            let filled : pass.dst' ≡ map some pass.order =
              Part-map-some pass.dst' pass.order pass.wrote.placed
                (omega (arith, pass.wrote.size, pass.size)) in
            let rest : Finished pass.order
                (passes cmp fuel (2 * w) n (not flag) (map some pass.order) (map some S)) =
              passes-Finished fuel (2 * w) n (not flag) pass.order (map some S) (omega arith)
                (omega arith) (omega arith) small (omega (arith, pass.size))
                (omega (arith, length-map S some)) pass.runs in
            let twice : mul32 w 2 ≡ 2 * w = omega arith in
            record {
              order = rest.order;
              flag = rest.flag;
              dst' = rest.dst';
              is =
                  rw (passes, lt→ltb w n (omega arith), pass.is, ◌>>=◌, twice)
                    (ap (λ (c : Cells A). passes cmp fuel (2 * w) n (not flag) c (map some S))
                        filled
                      ∙ rest.is);
              sorted = rest.sorted;
              keeps = Keeps-trans cmp S pass.order rest.order pass.keeps rest.keeps;
              size = omega (arith, rest.size, pass.size);
              room = omega (arith, rest.room, pass.size);
            }
      ]
