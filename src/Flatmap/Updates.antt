-- ===== src/Flatmap/Updates.antt =====
-- What putting in, changing and taking out a pair do to the map that ascending pairs are.
use ceres_standard_library.Prelude.{◌≡◌, refl, sym, ◌∙◌, arith, Option, none, some, List, ◌∷◌, ◌++◌}
use ceres_standard_library.Prelude.Int.{ℤ}
use ceres_standard_library.Sort.Order.{All, All-map}
use ceres_standard_library.Flatmap.{Way, below, same, above, way}
use ceres_standard_library.Flatmap.Order.{
  IsKeyOrder, Over, Under, lookup, lookup_miss, lookup_miss_left, lookup_front, alike_right,
}

module _ {K V : Type 0} (cmp : K → K → ℤ) where
  -- the answer for `k` when that for `key` becomes `new`
  abbrev pub updated : K → K → Option V → Option V → Option V
  updated k key new old = elim (way (cmp k key)) [ same ↦ new | below ↦ old | above ↦ old ]

  other_below :
      (k key : K) (new old : Option V) → way (cmp k key) ≡ below → updated k key new old ≡ old
  other_below k key new old e = rw (updated, e)

  other_above :
      (k key : K) (new old : Option V) → way (cmp k key) ≡ above → updated k key new old ≡ old
  other_above k key new old e = rw (updated, e)

module _ {K V : Type 0} (cmp : K → K → ℤ) (o : IsKeyOrder cmp) (k key : K)
    (left right : List (K × V)) (l : All (Over cmp key) left) (r : All (Under cmp key) right) where
  gone : way (cmp k key) ≡ same → lookup cmp k (left ++ right) ≡ none
  gone e =
      lookup_miss_left cmp k left right (All-map left (λ q h. o.alike k key q.0 e ∙ h) l)
      ∙ lookup_miss cmp k right (All-map right (λ q h. o.alike k key q.0 e ∙ h) r)

  -- a key that is not there has no answer
  pub lookup_gone :
      lookup cmp k (left ++ right) ≡ updated cmp k key none (lookup cmp k (left ++ right))
  lookup_gone = by_way (way (cmp k key)) refl
    where
      by_way :
          (w : Way)
          → way (cmp k key) ≡ w
          → lookup cmp k (left ++ right) ≡ updated cmp k key none (lookup cmp k (left ++ right))
      by_way same e = rw (updated, e) (gone e)
      by_way below e = sym (other_below cmp k key none _ e)
      by_way above e = sym (other_above cmp k key none _ e)

  module _ (j : K) (here : way (cmp key j) ≡ same) where
    hit : (v : V) → way (cmp k key) ≡ same → lookup cmp k (left ++ (j, v) ∷ right) ≡ some v
    hit v e =
        let at : way (cmp k j) ≡ same = o.alike k key j e ∙ here in
        lookup_miss_left cmp k left ((j, v) ∷ right)
          (All-map left (λ q h. o.alike k key q.0 e ∙ h) l)
        ∙ rw (lookup, at)

    -- the pair put in
    pub lookup_put :
        (v : V)
        → lookup cmp k (left ++ (j, v) ∷ right)
          ≡ updated cmp k key (some v) (lookup cmp k (left ++ right))
    lookup_put v = by_way (way (cmp k key)) refl
      where
        by_way :
            (w : Way)
            → way (cmp k key) ≡ w
            → lookup cmp k (left ++ (j, v) ∷ right)
              ≡ updated cmp k key (some v) (lookup cmp k (left ++ right))
        by_way same e = rw (updated, e) (hit v e)
        by_way below e =
            let at : way (cmp k j) ≡ below = sym (alike_right cmp o k key j here) ∙ e in
            rw (updated, e) (lookup_front cmp k left ((j, v) ∷ right) right (rw (lookup, at)))
        by_way above e =
            let at : way (cmp k j) ≡ above = sym (alike_right cmp o k key j here) ∙ e in
            rw (updated, e) (lookup_front cmp k left ((j, v) ∷ right) right (rw (lookup, at)))

    -- its value changed
    pub lookup_change :
        (v w : V)
        → lookup cmp k (left ++ (j, w) ∷ right)
          ≡ updated cmp k key (some w) (lookup cmp k (left ++ (j, v) ∷ right))
    lookup_change v w = rw (lookup_put w, lookup_put v) (ground arith)

    -- the pair taken out
    pub lookup_remove :
        (v : V)
        → lookup cmp k (left ++ right)
          ≡ updated cmp k key none (lookup cmp k (left ++ (j, v) ∷ right))
    lookup_remove v = by_way (way (cmp k key)) refl
      where
        by_way :
            (w : Way)
            → way (cmp k key) ≡ w
            → lookup cmp k (left ++ right)
              ≡ updated cmp k key none (lookup cmp k (left ++ (j, v) ∷ right))
        by_way same e = rw (updated, e) (gone e)
        by_way below e =
            sym (other_below cmp k key none _ e ∙ lookup_put v ∙ other_below cmp k key (some v) _ e)
        by_way above e =
            sym (other_above cmp k key none _ e ∙ lookup_put v ∙ other_above cmp k key (some v) _ e)
