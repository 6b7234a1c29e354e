-- ===== src/Queue/Tests.antt =====
-- Runs of the circular queue and the byte FIFO, and each theorem at an input.
use ceres_standard_library.Prelude.{
  ℕ, ◌-◌, ◌+◌, ◌*◌, ◌^◌, ◌≤◌, ◌<◌, ◌≡◌, ◌⊎◌, refl, arith, [], ◌∷◌, some, true, false, min, take,
  get_elem?, ◌++◌, suc,
}
use mathlib.Core.Path.{subst}
use ceres_standard_library.Prelude.Finite.{agree_lem, leading_zeros, top_bit, top_bit_bounds}
use ceres_standard_library.Queue.{
  Cqueue, IsClz, cq_init, cq_count, cq_space, cq_put, cq_get, cq_peek, ring_put, ring_get,
  ring_write_from, ring_write, ring_read,
}
use ceres_standard_library.Queue.Represents.{Holds, slot}
use ceres_standard_library.Queue.Refine.{cq_put_lem, cq_get-cons, cq_init_lem}
use ceres_standard_library.Queue.Ring.{ring_write_lem, ring_read-ring_write}

program : Unit {0}
unfolding cq_count cq_space cq_put cq_get cq_peek ring_put ring_get ring_write_from ring_write
    ring_read
program = tt

-- a queue of four slots whose indices have run to the end of the 32-bit range
abbrev wrapped : Cqueue ℕ
wrapped = record { buf = 9 ∷ 0 ∷ 7 ∷ 8 ∷ []; elem = 1; mask = 3; head = 1; tail = 0xFFFF_FFFE }

wrapped-Holds : Holds wrapped (7 ∷ 8 ∷ 9 ∷ [])
unfolding cq_count
wrapped-Holds = record {
  valid = record {
    bits = 2;
    narrow = omega arith;
    masks = refl;
    storage = omega arith;
    head_fits = omega arith;
    tail_fits = omega arith;
    bounded = omega arith;
  };
  size = refl;
  at =
      agree_lem 3 (λ i. get_elem? wrapped.buf (slot wrapped i)) (get_elem? (7 ∷ 8 ∷ 9 ∷ []))
        (refl, (refl, (refl, tt)));
}

wraps :
    (cq_count wrapped ≡ 3)
    × (cq_space wrapped ≡ 1)
    × ((cq_get wrapped).0 ≡ some 7)
    × ((ring_write wrapped (1 ∷ 2 ∷ [])).0 ≡ 1)
    × ((ring_read wrapped 2).0 ≡ 7 ∷ 8 ∷ [])
unfolding program
wraps = (refl, refl, refl, refl, refl)

abbrev idle : Cqueue ℕ
idle = record { buf = 0 ∷ 0 ∷ 0 ∷ 0 ∷ []; elem = 1; mask = 3; head = 5; tail = 5 }

idle-Holds : Holds idle []
unfolding cq_count
idle-Holds = record {
  valid = record {
    bits = 2;
    narrow = omega arith;
    masks = refl;
    storage = omega arith;
    head_fits = omega arith;
    tail_fits = omega arith;
    bounded = omega arith;
  };
  size = refl;
  at = λ i h. absurd (omega arith);
}

leading_zeros-IsClz : IsClz leading_zeros
leading_zeros-IsClz = record {
  at_most = λ x pos small. unfold leading_zeros in omega arith;
  from_below = λ x pos small.
      let (a, b, c) = top_bit_bounds 31 x pos small in
      unfold leading_zeros in
      subst (λ (k : ℕ). 2 ^ k ≤ x) {x = top_bit 31 x} {y = 31 - (31 - top_bit 31 x)} (omega arith)
        b;
  from_above = λ x pos small.
      let (a, b, c) = top_bit_bounds 31 x pos small in
      unfold leading_zeros in
      subst (λ (k : ℕ). x < 2 ^ k) {x = suc (top_bit 31 x)} {y = 32 - (31 - top_bit 31 x)}
        (omega arith) c;
}

cq_put_lem_example :
    ((3 ≤ 3) × ((cq_put wrapped 5).0 ≡ true) × Holds (cq_put wrapped 5).1 (7 ∷ 8 ∷ 9 ∷ 5 ∷ []))
    ⊎ (◌≡◌ {A = ℕ} 3 4 × (cq_put wrapped 5 ≡ (false, wrapped)))
cq_put_lem_example = cq_put_lem 5 wrapped-Holds

cq_get-cons_example :
    ((cq_get wrapped).0 ≡ some 7)
    × Holds (cq_get wrapped).1 (8 ∷ 9 ∷ [])
    × (cq_peek wrapped ≡ some 7)
cq_get-cons_example = cq_get-cons wrapped-Holds

cq_init_lem_example :
    Holds (cq_init leading_zeros idle.buf 1 3) []
    × ((cq_init leading_zeros idle.buf 1 3).mask < 3)
    × (3 < 2 * ((cq_init leading_zeros idle.buf 1 3).mask + 1))
cq_init_lem_example =
    cq_init_lem leading_zeros leading_zeros-IsClz idle.buf 1 3 (omega arith) (omega arith)
      (omega arith)

ring_write_lem_example :
    ((ring_write wrapped (1 ∷ 2 ∷ [])).0 ≡ min 2 (cq_space wrapped))
    × Holds
        (ring_write wrapped (1 ∷ 2 ∷ [])).1
        ((7 ∷ 8 ∷ 9 ∷ []) ++ take (cq_space wrapped) (1 ∷ 2 ∷ []))
ring_write_lem_example = ring_write_lem (1 ∷ 2 ∷ []) wrapped (7 ∷ 8 ∷ 9 ∷ []) wrapped-Holds

ring_read-ring_write_example : (ring_read (ring_write idle (1 ∷ 2 ∷ 3 ∷ [])).1 3).0 ≡ 1 ∷ 2 ∷ 3 ∷ []
ring_read-ring_write_example = ring_read-ring_write (1 ∷ 2 ∷ 3 ∷ []) idle idle-Holds (omega arith)
