-- ===== src/Gmap/Rebuild.antt =====
-- Moving the entries of an old table to a new one.
use mathlib.Core.Path.{subst}
use native.Mathlib.Nat.{mod-lt}
use ceres_standard_library.Gmap.Probe.{place_of}
use ceres_standard_library.Prelude.{
  ℕ, zero, suc, ◌+◌, ◌-◌, ◌<◌, ◌≡◌, ◌≢◌, ◌⊎◌, inl, inr, refl, sym, ap, ◌∙◌, arith, List, [], ◌∷◌,
  length, set, some, u32_size, add32, Bool, true,
}
use ceres_standard_library.Gmap.{Slot, empty, used, tombstone, Gmap, slot_at, move_all}
use ceres_standard_library.Gmap.Slots.{entry, taken, count, count-set, slot_at-set_self}
use ceres_standard_library.Gmap.Find.{Reaches, IsTable, Entry}
use ceres_standard_library.Gmap.Place.{empty_slot}
use ceres_standard_library.Gmap.Write.{set_reads, set_keeps, write-IsTable, used_inj}

-- the slots still to move: their hashes are right and no key stands twice
pub record AreEntries {K V : Type 0} (hash : K → ℕ) (rest : List (Slot K V)) : Type 0 where
  pub hashed : (i h : ℕ) (k : K) (v : V) → slot_at rest i ≡ used h k v → h ≡ hash k
  pub unique :
      (i j h h' : ℕ) (k : K) (v v' : V)
      → slot_at rest i ≡ used h k v
      → slot_at rest j ≡ used h' k v'
      → i ≡ j

-- a new table that has room for them, with none of their keys
pub record HasRoom {K V : Type 0} (hash : K → ℕ) (rest : List (Slot K V)) (m : Gmap K V)
    : Type 0 where
  pub table : IsTable hash m.slots m.cap
  pub filled : count taken m.slots ≡ m.used
  pub no_gone : count entry m.slots ≡ m.used
  pub room : m.used + count entry rest < m.cap
  pub apart : (k : K) (v w : V) → Entry hash rest k v → Entry hash m.slots k w → ⊥

-- what moving them makes of it
pub record Moved {K V : Type 0} (hash : K → ℕ) (rest : List (Slot K V)) (m m' : Gmap K V)
    : Type 0 where
  pub table : IsTable hash m'.slots m'.cap
  pub cap_same : m'.cap ≡ m.cap
  pub len_same : m'.len ≡ m.len
  pub filled : count taken m'.slots ≡ m'.used
  pub no_gone : count entry m'.slots ≡ m'.used
  pub total : m'.used ≡ m.used + count entry rest
  pub origin :
      (k : K) (v : V) → Entry hash m'.slots k v → Entry hash m.slots k v ⊎ Entry hash rest k v
  pub kept : (k : K) (v : V) → Entry hash m.slots k v → Entry hash m'.slots k v
  pub arrived : (k : K) (v : V) → Entry hash rest k v → Entry hash m'.slots k v

pub no_entry : {K V : Type 0} (s : Slot K V) (h : ℕ) (k : K) (v : V) → entry s ≡ 0 → s ≢ used h k v
no_entry s h k v e e' = let one : ◌≡◌ {A = ℕ} 0 1 = sym e ∙ ap entry e' in absurd (omega arith)

module _ {K V : Type 0} (hash : K → ℕ) (words : (k : K) → hash k < u32_size)
    (given : ℕ → ℕ → Bool) where
  tail-AreEntries :
      (s : Slot K V) (rest : List (Slot K V)) → AreEntries hash (s ∷ rest) → AreEntries hash rest
  unfolding slot_at
  tail-AreEntries s rest a = record {
    hashed = λ i h k v e. a.hashed (suc i) h k v e;
    unique =
        λ i j h h' k v v' e e'. let up = a.unique (suc i) (suc j) h h' k v v' e e' in omega arith;
  }

  tail-Entry :
      (s : Slot K V) (rest : List (Slot K V)) (k : K) (v : V)
      → Entry hash rest k v
      → Entry hash (s ∷ rest) k v
  unfolding slot_at
  tail-Entry s rest k v (i, e) = (suc i, e)

  head-Entry :
      (s : Slot K V) (rest : List (Slot K V)) (k : K) (v : V)
      → Entry hash (s ∷ rest) k v
      → (s ≡ used (hash k) k v) ⊎ Entry hash rest k v
  unfolding slot_at
  head-Entry s rest k v (zero, e) = inl e
  head-Entry s rest k v (suc i, e) = inr (i, e)

  -- a slot with no entry is passed over
  skip :
      (s : Slot K V) (rest : List (Slot K V)) (m m' : Gmap K V)
      → entry s ≡ 0
      → Moved hash rest m m'
      → Moved hash (s ∷ rest) m m'
  unfolding slot_at count
  skip s rest m m' none_there moved = record {
    table = moved.table;
    cap_same = moved.cap_same;
    len_same = moved.len_same;
    filled = moved.filled;
    no_gone = moved.no_gone;
    total = omega (arith, moved.total);
    origin = λ k v e. elim (moved.origin k v e) [
      | inl old ↦ inl old
      | inr later ↦ inr (tail-Entry s rest k v later)
    ];
    kept = moved.kept;
    arrived = λ k v e. elim (head-Entry s rest k v e) [
      | inl here ↦ absurd (no_entry s (hash k) k v none_there here)
      | inr later ↦ moved.arrived k v later
    ];
  }

  tail-HasRoom :
      (s : Slot K V) (rest : List (Slot K V)) (m : Gmap K V)
      → entry s ≡ 0
      → HasRoom hash (s ∷ rest) m
      → HasRoom hash rest m
  unfolding count
  tail-HasRoom s rest m none_there r =
      let roomy = r.room in
      record {
        table = r.table;
        filled = r.filled;
        no_gone = r.no_gone;
        room = omega arith;
        apart = λ k v w e e'. r.apart k v w (tail-Entry s rest k v e) e';
      }

  -- the room that is left once the first entry is in its slot
  module _ (k : K) (v : V) (rest : List (Slot K V)) (m : Gmap K V)
      (a : AreEntries hash (used (hash k) k v ∷ rest))
      (r : HasRoom hash (used (hash k) k v ∷ rest) m) (i : ℕ)
      (reach : Reaches m.slots m.cap (hash k) i) (free : slot_at m.slots i ≡ empty)
      (within : i < length m.slots) where
    abbrev filled_one : Gmap K V
    filled_one = record m { slots = set m.slots i (used (hash k) k v); used = add32 m.used 1 }

    absent : (j h : ℕ) (w : V) → slot_at m.slots j ≡ used h k w → j ≡ i
    absent j h w e =
        let e' : slot_at m.slots j ≡ used (hash k) k w =
          e ∙ ap (λ (x : ℕ). used x k w) (r.table.hashed j h k w e) in
        absurd (r.apart k v w (0, unfold slot_at in refl) (j, e'))

    filled-HasRoom : HasRoom hash rest filled_one
    unfolding count slot_at
    filled-HasRoom =
        let s : Slot K V = used (hash k) k v in
        let counts = count-set taken m.slots i s within in
        let entries = count-set entry m.slots i s within in
        let t0 : taken (slot_at m.slots i) ≡ 0 = ap taken free in
        let e0 : entry (slot_at m.slots i) ≡ 0 = ap entry free in
        let small = r.table.capacity.word in
        let roomy = r.room in
        record {
          table = write-IsTable hash m.slots m.cap r.table i within k v reach absent;
          filled = omega (arith, r.filled);
          no_gone = omega (arith, r.no_gone);
          room = omega arith;
          apart = λ q x y (j, e) (l, e'). elim (set_reads m.slots i s within l (hash q) q y e') [
            | inr (other, old) ↦ r.apart q x y (suc j, e) (l, old)
            | inl (same, new) ↦
                let again : slot_at rest j ≡ used (hash q) k x =
                  e ∙ ap (λ (z : K). used (hash q) z x) (sym (used_inj new).1) in
                let twice : 0 ≡ suc j = a.unique 0 (suc j) (hash k) (hash q) k v x refl again in
                absurd (omega arith)
          ];
        }

    clash : (j : ℕ) (q : K) (w : V) → slot_at m.slots j ≡ used (hash q) q w → j ≢ i
    clash j q w e same =
        no_entry empty (hash q) q w refl (sym free ∙ ap (slot_at m.slots) (sym same) ∙ e)

    filled-Moved :
        (m' : Gmap K V) → Moved hash rest filled_one m' → Moved hash (used (hash k) k v ∷ rest) m m'
    unfolding count slot_at
    filled-Moved m' moved =
        let s : Slot K V = used (hash k) k v in
        let small = r.table.capacity.word in
        let roomy = r.room in
        let stored : Entry hash filled_one.slots k v =
          (i, unfold slot_at in slot_at-set_self m.slots i s within) in
        record {
          table = moved.table;
          cap_same = moved.cap_same;
          len_same = moved.len_same;
          filled = moved.filled;
          no_gone = moved.no_gone;
          total = omega (arith, moved.total);
          origin = λ q w e. elim (moved.origin q w e) [
            | inr later ↦ inr (tail-Entry s rest q w later)
            | inl (j, there) ↦ elim (set_reads m.slots i s within j (hash q) q w there) [
              | inl (same, new) ↦ inr (0, new)
              | inr (other, old) ↦ inl (j, old)
            ]
          ];
          kept = λ q w (j, e).
              moved.kept q w (j, set_keeps m.slots i s within j (hash q) q w (clash j q w e) e);
          arrived = λ q w e. elim (head-Entry s rest q w e) [
            | inr later ↦ moved.arrived q w later
            | inl here ↦
                let (hashes, keys, values) = used_inj here in
                subst (λ (x : K). Entry hash m'.slots x w) keys
                  (subst (λ (x : V). Entry hash m'.slots k x) values (moved.kept k v stored))
          ];
        }

  nothing_left : (m : Gmap K V) → HasRoom hash [] m → Moved hash [] m m
  unfolding count slot_at
  nothing_left m r = record {
    table = r.table;
    cap_same = refl;
    len_same = refl;
    filled = r.filled;
    no_gone = r.no_gone;
    total = omega arith;
    origin = λ k v e. inl e;
    kept = λ k v e. e;
    arrived = λ k v e. absurd (no_entry empty (hash k) k v refl e.1);
  }

  pub place_inside :
      (m : Gmap K V) (h i : ℕ)
      → IsTable hash m.slots m.cap
      → Reaches m.slots m.cap h i
      → i < length m.slots
  place_inside m h i t r =
      let less : place_of m.cap h r.steps < m.cap = mod-lt (h + r.steps) t.capacity.positive in
      omega (arith, r.there, t.wide)

  pub move_all-Moved :
      (rest : List (Slot K V)) (m : Gmap K V)
      → AreEntries hash rest
      → HasRoom hash rest m
      → (m' : Gmap K V) × (move_all given rest (m.cap - 1) m ≡ some m') × Moved hash rest m m'
  unfolding move_all
  move_all-Moved [] m a r = (m, refl, nothing_left m r)
  move_all-Moved (empty ∷ rest) m a r =
      let (m', run, moved) =
        move_all-Moved rest m (tail-AreEntries empty rest a) (tail-HasRoom empty rest m refl r) in
      (m', run, skip empty rest m m' refl moved)
  move_all-Moved (tombstone ∷ rest) m a r =
      let (m', run, moved) =
        move_all-Moved rest m (tail-AreEntries tombstone rest a)
          (tail-HasRoom tombstone rest m refl r) in
      (m', run, skip tombstone rest m m' refl moved)
  move_all-Moved (used h k v ∷ rest) m a r =
      let e : h ≡ hash k = a.hashed 0 h k v (unfold slot_at in refl) in
      let P : ℕ → Type 0 = λ x.
        (m' : Gmap K V) × (move_all given (used x k v ∷ rest) (m.cap - 1) m ≡ some m')
        × Moved hash (used x k v ∷ rest) m m' in
      let a' = subst (λ (x : ℕ). AreEntries hash (used x k v ∷ rest)) e a in
      let r' = subst (λ (x : ℕ). HasRoom hash (used x k v ∷ rest) m) e r in
      let roomy = r'.room in
      let (i, run, reach, free) =
        empty_slot hash (λ (x y : K). true) m.slots m.cap r'.table.capacity r'.table.wide
          (omega (arith, r'.filled)) (hash k) (words k) given in
      let within = place_inside m (hash k) i r'.table reach in
      let (m', moves, moved) =
        move_all-Moved rest (filled_one k v rest m a' r' i reach free within)
          (tail-AreEntries _ rest a') (filled-HasRoom k v rest m a' r' i reach free within) in
      subst P (sym e)
        (m', rw (move_all, run) moves, filled-Moved k v rest m a' r' i reach free within m' moved)
