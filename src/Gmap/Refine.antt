-- ===== src/Gmap/Refine.antt =====
-- The operations of the map as updates of a function from keys to values.
use ceres_standard_library.Prelude.{
  ℕ, ◌+◌, ◌*◌, ◌<◌, ◌≤◌, ◌≡◌, ◌↔◌, ◌⊎◌, inl, inr, refl, sym, ◌∙◌, arith, set, none, some, u32_size,
  Bool, true, false, ℕ_discrete, dec_le,
}
use ceres_standard_library.Gmap.{Gmap, slot_at, find, place, with_value, gmap_set, gmap_get}
use ceres_standard_library.Gmap.Slots.{entry, taken, count}
use ceres_standard_library.Gmap.Find.{
  IsTable, IsValid, Entry, Option-cases, find_found, gmap_get-Entry, get_some, get_none, no_table,
}
use ceres_standard_library.Gmap.Sets.{place-Sets, found-Sets, wanted, wanted-IsCapacity}
use ceres_standard_library.Gmap.Steps.{
  CannotAllocate, table_alloc-CannotAllocate, rebuild-Rebuilt, Updates, Sets-Updates, missing,
  set_place, set_rebuild, set_refused,
}

module _ {K V : Type 0} (hash : K → ℕ) (words : (k : K) → hash k < u32_size) (eq : K → K → Bool)
    (eq_iff : (a b : K) → (eq a b ≡ true) ↔ (a ≡ b)) (given : ℕ → ℕ → Bool) (m : Gmap K V) (key : K)
    (value : V) (valid : IsValid hash m) where
  -- a set that stored the value
  pub record Stored : Type 0 where
    pub after : Gmap K V
    pub run : gmap_set hash eq given m key value ≡ some (after, true)
    pub updates : Updates hash words eq eq_iff given m after key (some value)
    pub counted : after.len ≡ m.len + missing (gmap_get hash eq m key)

  -- a set that found no room and got no new table
  pub record Refused : Type 0 where
    pub run : gmap_set hash eq given m key value ≡ some (m, false)
    pub absent : gmap_get hash eq m key ≡ none
    pub full : (m.cap ≡ 0) ⊎ (m.cap * 7 < (m.used + 1) * 10)
    pub why : (wanted m ≡ 0) ⊎ CannotAllocate hash words given m (wanted m)

  key_missing : find hash eq m key (hash key) ≡ none → (w : V) → Entry hash m.slots key w → ⊥
  key_missing absent w e =
      let stop : none ≡ some w =
        sym (get_none hash eq eq_iff words m key absent)
        ∙ (gmap_get-Entry hash eq eq_iff words m key w valid).1 e in
      cc

  set_found : (i : ℕ) → find hash eq m key (hash key) ≡ some i → Stored
  unfolding gmap_set
  set_found i e = elim valid.table [
    | inl (no_cap, bare) ↦
        let stop : none ≡ some i = sym (no_table hash eq eq_iff words m key no_cap) ∙ e in cc
    | inr t ↦
        let (w, old) = find_found hash eq eq_iff words m key i t e in
        let s = found-Sets hash eq words m key value w i t valid.counted valid.filled old in
        record {
          after = record m { slots = set m.slots i (with_value hash eq (slot_at m.slots i) value) };
          run = rw (gmap_set, e);
          updates =
              Sets-Updates hash words eq eq_iff given m _ key value 0 valid valid.load
                (m, m, λ q x h. h, λ q x h. h, s);
          counted = rw (get_some hash eq eq_iff words m key i w e old) (omega arith);
        }
  ]

  set_new :
      find hash eq m key (hash key) ≡ none
      → (m1 : Gmap K V) → gmap_set hash eq given m key value ≡ place hash eq m1 key value (hash key)
      → IsTable hash m1.slots m1.cap
      → count entry m1.slots ≡ m1.len
      → count taken m1.slots ≡ m1.used
      → m1.len ≡ m.len
      → (m1.used + 1) * 10 ≤ m1.cap * 7
      → ((q : K) (w : V) → Entry hash m.slots q w → Entry hash m1.slots q w)
      → ((q : K) (w : V) → Entry hash m1.slots q w → Entry hash m.slots q w)
      → Stored
  set_new absent m1 run t counted filled lens sparse there back =
      let (m', placed, s) =
        place-Sets hash eq words m1 key value t counted filled (omega arith)
          (λ w e. key_missing absent w (back key w e)) in
      record {
        after = m';
        run = run ∙ placed;
        updates =
            Sets-Updates hash words eq eq_iff given m m' key value 1 valid
              (omega (arith, s.one_more, s.cap_same)) (m1, m1, there, back, s);
        counted = rw (get_none hash eq eq_iff words m key absent) (omega (arith, s.len_added));
      }

  set_dense :
      find hash eq m key (hash key) ≡ none
      → (m.cap ≡ 0) ⊎ (m.cap * 7 < (m.used + 1) * 10)
      → Stored ⊎ Refused
  set_dense absent dense =
      let none_here = get_none hash eq eq_iff words m key absent in
      let refused = set_refused hash words eq eq_iff given m key value absent dense in
      elim (ℕ_discrete (wanted m) 0) [
        | yes z ↦
            inr (record { run = refused (inl z); absent = none_here; full = dense; why = inl z })
        | no real ↦
            let (c, load) = wanted-IsCapacity hash m valid real in
            elim (rebuild-Rebuilt hash words given m (wanted m) valid c (omega arith)) [
              | inl (run, why) ↦ inr (record {
                run = refused (inr run);
                absent = none_here;
                full = dense;
                why = inr (table_alloc-CannotAllocate hash words given m (wanted m) why);
              })
              | inr (m1, run, r) ↦ inl (
                  set_new absent m1
                    (set_rebuild hash words eq eq_iff given m key value m1 absent dense real run)
                    r.table r.counted r.filled r.len_same
                    (omega (arith, r.packed, r.len_same, r.cap_new)) r.there r.back)
            ]
      ]

  -- A set ends. It stores the value: the map is valid, answers it for the key and is as it was for
  -- every other, with one entry more if the key is new. Or it fails and changes nothing: then the
  -- key is new, there was no table or more than 70 % of it would be in use with the new entry,
  -- tombstones included, and the table to be built instead has a capacity or a size of more than 32
  -- bits, or was refused. Its capacity is 8 at first, the same where the entries with the new one
  -- are at most 35 % of it, and twice the old one otherwise.
  pub gmap_set_lem : Stored ⊎ Refused
  gmap_set_lem = elim (Option-cases (find hash eq m key (hash key))) [
    | inr (i, e) ↦ inl (set_found i e)
    | inl absent ↦ elim (dec_le ((m.used + 1) * 10) (m.cap * 7)) [
      | no dense ↦ set_dense absent (inr (omega arith))
      | yes sparse ↦ elim valid.table [
        | inl (no_cap, bare) ↦ set_dense absent (inl no_cap)
        | inr t ↦ inl (
            set_new absent m
              (set_place hash words eq eq_iff given m key value absent t.capacity.positive sparse) t
              valid.counted valid.filled refl sparse (λ q w e. e) (λ q w e. e))
      ]
    ]
  ]
