-- ===== src/Gmap/Write.antt =====
-- What a write to one slot does to a table.
use mathlib.Core.Path.{subst}
use ceres_standard_library.Prelude.{
  ℕ, ◌<◌, ◌≡◌, ◌≢◌, ◌⊎◌, inl, inr, sym, ap, ◌∙◌, arith, List, length, length-set, set, ℕ_discrete,
  dec_lt,
}
use ceres_standard_library.Gmap.{Slot, empty, used, tombstone, slot_at}
use ceres_standard_library.Gmap.Slots.{slot_at-set_self, slot_at-set_ne, slot_at_outside}
use ceres_standard_library.Gmap.Probe.{place_of}
use ceres_standard_library.Gmap.Find.{Reaches, IsTable}

module _ {K V : Type 0} where
  pub inside :
      (slots : List (Slot K V)) (i h : ℕ) (k : K) (v : V)
      → slot_at slots i ≡ used h k v
      → i < length slots
  inside slots i h k v here = elim (dec_lt i (length slots)) [
    | yes less ↦ less
    | no out ↦
        let stop : empty ≡ used h k v = sym (slot_at_outside slots i (omega arith)) ∙ here in cc
  ]

  module _ (slots : List (Slot K V)) (i : ℕ) (s : Slot K V) (within : i < length slots) where
    -- a slot in use is the one written, or was there before
    pub set_reads :
        (j h : ℕ) (k : K) (v : V)
        → slot_at (set slots i s) j ≡ used h k v
        → ((j ≡ i) × (s ≡ used h k v)) ⊎ ((j ≢ i) × (slot_at slots j ≡ used h k v))
    set_reads j h k v e = elim (ℕ_discrete j i) [
      | yes same ↦ inl (
        same,
        sym (slot_at-set_self slots i s within) ∙ ap (slot_at (set slots i s)) (sym same) ∙ e,
      )
      | no other ↦ inr (other, sym (slot_at-set_ne slots i j s (λ q. other (sym q))) ∙ e)
    ]

    pub set_keeps :
        (j h : ℕ) (k : K) (v : V)
        → j ≢ i
        → slot_at slots j ≡ used h k v
        → slot_at (set slots i s) j ≡ used h k v
    set_keeps j h k v other e = slot_at-set_ne slots i j s (λ q. other (sym q)) ∙ e

    -- Filling or erasing a slot closes no way.
    set-Reaches :
        (cap h j : ℕ) → s ≢ empty → Reaches slots cap h j → Reaches (set slots i s) cap h j
    set-Reaches cap h j real r = record {
      steps = r.steps;
      within = r.within;
      there = r.there;
      open_way = λ e less q. elim (ℕ_discrete i (place_of cap h e)) [
        | yes same ↦
            real (sym (slot_at-set_self slots i s within) ∙ ap (slot_at (set slots i s)) same ∙ q)
        | no other ↦ r.open_way e less (sym (slot_at-set_ne slots i (place_of cap h e) s other) ∙ q)
      ];
    }

pub used_inj :
    {K V : Type 0} {a b : ℕ} {k l : K} {v w : V}
    → used a k v ≡ used b l w
    → (a ≡ b) × (k ≡ l) × (v ≡ w)
used_inj e = (cc, cc, cc)

module _ {K V : Type 0} (hash : K → ℕ) (slots : List (Slot K V)) (cap : ℕ)
    (t : IsTable hash slots cap) (i : ℕ) (within : i < length slots) where
  -- The entry of a key, written to a slot that its search reaches and where no other key stands.
  pub write-IsTable :
      (k : K) (v : V)
      → Reaches slots cap (hash k) i
      → ((j h : ℕ) (w : V) → slot_at slots j ≡ used h k w → j ≡ i)
      → IsTable hash (set slots i (used (hash k) k v)) cap
  write-IsTable k v reach only =
      let s : Slot K V = used (hash k) k v in
      record {
        capacity = t.capacity;
        wide = length-set slots i s ∙ t.wide;
        hashed = λ j h q w e. elim (set_reads slots i s within j h q w e) [
          | inl (same, new) ↦ let (hashes, keys, values) = used_inj new in sym hashes ∙ ap hash keys
          | inr (other, old) ↦ t.hashed j h q w old
        ];
        reached = λ j h q w e. elim (set_reads slots i s within j h q w e) [
          | inl (same, new) ↦
              let moved = set-Reaches slots i s within cap (hash k) i (λ z. cc) reach in
              subst (λ (x : ℕ). Reaches (set slots i s) cap h x) (sym same)
                (subst (λ (x : ℕ). Reaches (set slots i s) cap x i) (used_inj new).0 moved)
          | inr (other, old) ↦
              set-Reaches slots i s within cap h j (λ z. cc) (t.reached j h q w old)
        ];
        unique = λ a b h h' q w w' e e'. elim (set_reads slots i s within a h q w e) [
          | inl (same, new) ↦ elim (set_reads slots i s within b h' q w' e') [
            | inl (same', new') ↦ same ∙ sym same'
            | inr (other', old') ↦
                absurd (
                  other'
                    (only b h' w' (old' ∙ ap (λ (x : K). used h' x w') (sym (used_inj new).1))))
          ]
          | inr (other, old) ↦ elim (set_reads slots i s within b h' q w' e') [
            | inl (same', new') ↦
                absurd
                  (other (only a h w (old ∙ ap (λ (x : K). used h x w) (sym (used_inj new').1))))
            | inr (other', old') ↦ t.unique a b h h' q w w' old old'
          ]
        ];
      }

  -- Erasing an entry leaves a table.
  pub erase-IsTable : IsTable hash (set slots i tombstone) cap
  erase-IsTable =
      let old = λ (j h : ℕ) (q : K) (w : V) (e : slot_at (set slots i tombstone) j ≡ used h q w).
        erased j h q w (set_reads slots i tombstone within j h q w e) in
      record {
        capacity = t.capacity;
        wide = length-set slots i tombstone ∙ t.wide;
        hashed = λ j h q w e. t.hashed j h q w (old j h q w e);
        reached = λ j h q w e.
            set-Reaches slots i tombstone within cap h j (λ z. cc)
              (t.reached j h q w (old j h q w e));
        unique =
            λ a b h h' q w w' e e'. t.unique a b h h' q w w' (old a h q w e) (old b h' q w' e');
      }
    where
      erased :
          (j h : ℕ) (q : K) (w : V)
          → ((j ≡ i) × (tombstone ≡ used h q w)) ⊎ ((j ≢ i) × (slot_at slots j ≡ used h q w))
          → slot_at slots j ≡ used h q w
      erased j h q w (inl (same, never)) = cc
      erased j h q w (inr (other, e)) = e
