-- ===== src/Sort/Rounds.antt =====
-- One round of a pass of sort_stable: two runs joined, or the last one copied.
use mathlib.Core.Path.{subst}
use ceres_standard_library.Prelude.{
  ℕ, suc, ◌+◌, ◌-◌, ◌*◌, ◌^◌, ◌≤◌, ◌<◌, min, ◌≡◌, refl, ap, ◌∙◌, arith, ◌⊎◌, inr, Option, some,
  List, [], ◌++◌, append-nil, if◌then◌else◌, length, length-append, ltb, lt→ltb, le→ltb_false,
  add32, mul32,
}
use ceres_standard_library.Prelude.Int.{ℤ}
use ceres_standard_library.Prelude.Cells.{Cells}
use ceres_standard_library.Prelude.Store.{
  ◌>>=◌, memcpy, Part, Wrote, Wrote-none, Wrote-append, memcpy-Wrote, Part-left, Part-right,
}
use ceres_standard_library.Sort.{merge, pass_from}
use ceres_standard_library.Sort.Order.{IsOrder, Sorted, Keeps, Keeps-append}
use ceres_standard_library.Sort.Joins.{Joined, merge-Joined}
use ceres_standard_library.Sort.Runs.{Runs, last, joined_runs}

-- `lo` and `width` of a round of a pass: in it no index wraps
abbrev pub Round : ℕ → ℕ → ℕ → Type 0
Round lo w n = (n < 2 ^ 31) × (0 < w) × (w < n) × ((lo ≡ 0) ⊎ (2 * w ≤ lo))

module _ {A : Type 0} (cmp : A → A → ℤ) where
  -- the part of a round before the next one
  unfoldable pub chunk : Cells A → Cells A → ℕ → ℕ → ℕ → Option (Cells A)
  chunk dst src lo mid hi =
      if ltb mid hi then merge cmp dst src lo mid hi else memcpy (hi - lo) dst lo src lo

  pass_step :
      (fuel : ℕ) (dst src : Cells A) (lo w n mid hi : ℕ)
      → lo < n
      → Round lo w n
      → mid ≡ min (lo + w) n
      → hi ≡ min (lo + 2 * w) n
      → pass_from cmp (suc fuel) dst src lo w n
        ≡ (chunk dst src lo mid hi >>= λ dst'. pass_from cmp fuel dst' src (lo + 2 * w) w n)
  unfolding pass_from chunk
  pass_step fuel dst src lo w n mid hi h (small, pos_w, w_small, start) em eh =
      let one : add32 lo w ≡ lo + w = omega arith in
      let two : mul32 2 w ≡ 2 * w = omega arith in
      let next : add32 lo (2 * w) ≡ lo + 2 * w = omega arith in
      let mid' : (if ltb (lo + w) n then lo + w else n) ≡ mid = ground arith in
      let hi' : (if ltb (lo + 2 * w) n then lo + 2 * w else n) ≡ hi = ground arith in
      rw (pass_from, lt→ltb lo n h, two, next, one, mid', hi')

  pass_stop :
      (fuel : ℕ) (dst src : Cells A) (lo w n : ℕ)
      → n ≤ lo
      → pass_from cmp (suc fuel) dst src lo w n ≡ some dst
  unfolding pass_from
  pass_stop fuel dst src lo w n h = rw (pass_from, le→ltb_false n lo h)

  -- what a pass makes of the elements `S` from `d` on
  pub record Passed (w : ℕ) (dst : Cells A) (d : ℕ) (S : List A) (result : Option (Cells A))
      : Type 0 where
    pub order : List A
    pub dst' : Cells A
    pub is : result ≡ some dst'
    pub wrote : Wrote dst d order dst'
    pub runs : Runs cmp w order
    pub keeps : Keeps cmp S order
    pub size : length order ≡ length S

module _ {A : Type 0} (cmp : A → A → ℤ) (o : IsOrder cmp) where
  pub pass_nothing :
      (fuel : ℕ) (dst src : Cells A) (d lo w w' n : ℕ)
      → n ≤ lo
      → Passed cmp w' dst d [] (pass_from cmp (suc fuel) dst src lo w n)
  pass_nothing fuel dst src d lo w w' n h = record {
    order = [];
    dst' = dst;
    is = pass_stop cmp fuel dst src lo w n h;
    wrote = Wrote-none dst d;
    runs = last [] (omega arith) tt;
    keeps = λ z. refl;
    size = refl;
  }

  -- a round that leaves `P` in order, and the pass over `Q` behind it
  pass_more :
      (fuel : ℕ) (dst src dst' : Cells A) (lo w n mid hi : ℕ) (P Q order : List A)
      → lo < n
      → Round lo w n
      → mid ≡ min (lo + w) n
      → hi ≡ min (lo + 2 * w) n
      → chunk cmp dst src lo mid hi ≡ some dst'
      → Wrote dst lo order dst'
      → Sorted cmp order
      → Keeps cmp P order
      → length order ≡ length P
      → (length P ≡ 2 * w) ⊎ ((length P ≤ 2 * w) × (length Q ≡ 0))
      → Passed cmp (2 * w) dst' (lo + length P) Q (pass_from cmp fuel dst' src (lo + 2 * w) w n)
      → Passed cmp (2 * w) dst lo (P ++ Q) (pass_from cmp (suc fuel) dst src lo w n)
  pass_more fuel dst src dst' lo w n mid hi P Q order h round em eh done wrote sorted keeps size
        full rest =
      record {
        order = order ++ rest.order;
        dst' = rest.dst';
        is =
            pass_step cmp fuel dst src lo w n mid hi h round em eh
            ∙ ap (λ (r : Option (Cells A)). r >>= λ c. pass_from cmp fuel c src (lo + 2 * w) w n)
                done
            ∙ rest.is;
        wrote = Wrote-append lo (lo + length P) (omega arith) wrote rest.wrote;
        runs = joined_runs cmp o order rest.order sorted rest.runs (ground arith);
        keeps = Keeps-append cmp P Q order rest.order keeps rest.keeps;
        size = omega (arith, length-append order rest.order, length-append P Q, rest.size);
      }

  -- the last round over a run with no partner
  pub pass_alone :
      (fuel : ℕ) (dst src : Cells A) (lo w n : ℕ) (S : List A)
      → Round lo w n
      → 0 < length S
      → length S ≤ w
      → lo + length S ≡ n
      → n ≤ length dst
      → Part src lo S
      → Sorted cmp S
      → Passed cmp (2 * w) dst lo S (pass_from cmp (suc (suc fuel)) dst src lo w n)
  unfolding chunk
  pass_alone fuel dst src lo w n S round some_s short e fits p s =
      let (dst', done, wrote) = memcpy-Wrote S dst lo src lo p (omega arith) in
      let count : n - lo ≡ length S = omega arith in
      subst (λ l. Passed cmp (2 * w) dst lo l (pass_from cmp (suc (suc fuel)) dst src lo w n))
        (append-nil S)
        (pass_more (suc fuel) dst src dst' lo w n n n S [] S (omega arith) round (omega arith)
          (omega arith)
          (rw (le→ltb_false n n (omega arith))
            (ap (λ (k : ℕ). memcpy k dst lo src lo) count ∙ done))
          wrote s (λ z. refl) refl (inr (omega arith, refl))
          (pass_nothing fuel dst' src (lo + length S) (lo + 2 * w) w (2 * w) n (omega arith)))

  -- a round that joins two runs, and the pass over `Q` behind them
  pub pass_pair :
      (fuel : ℕ) (dst src : Cells A) (lo w n : ℕ) (r t Q : List A)
      → Round lo w n
      → length r ≡ w
      → 0 < length t
      → length t ≤ w
      → (length t ≡ w) ⊎ (length Q ≡ 0)
      → lo + length ((r ++ t) ++ Q) ≡ n
      → n ≤ length dst
      → Part src lo ((r ++ t) ++ Q)
      → Sorted cmp r
      → Sorted cmp t
      → ((dst' : Cells A)
          → length dst' ≡ length dst
          → Passed cmp
              (2 * w)
              dst'
              (lo + length (r ++ t))
              Q
              (pass_from cmp fuel dst' src (lo + 2 * w) w n))
      → Passed cmp (2 * w) dst lo ((r ++ t) ++ Q) (pass_from cmp (suc fuel) dst src lo w n)
  unfolding chunk
  pass_pair fuel dst src lo w n r t Q round len some_t short full e fits p sr st rest =
      let len' : length ((r ++ t) ++ Q) ≡ length r + length t + length Q =
        omega (arith, length-append (r ++ t) Q, length-append r t) in
      let mid : ℕ = lo + w in
      let hi : ℕ = lo + w + length t in
      let p' : Part src lo (r ++ t) = Part-left src lo (r ++ t) Q p in
      let join : Joined cmp o src dst lo r t (merge cmp dst src lo mid hi) =
        merge-Joined cmp o r t dst src lo mid hi (omega arith) some_t (omega arith) refl
          (Part-left src lo r t p') (Part-right src lo mid r t (omega arith) p') (omega arith) sr
          st in
      pass_more fuel dst src join.dst' lo w n mid hi (r ++ t) Q join.order (omega arith) round
        (omega arith) (ground arith) (rw (lt→ltb mid hi (omega arith)) join.is) join.wrote
        join.sorted join.keeps (omega (arith, join.size, length-append r t))
        (ground (arith, length-append r t)) (rest join.dst' join.wrote.size)
