-- ===== src/Queue/Refine.antt =====
-- The queue is a bounded first-in first-out queue of the elements that it holds.
use ceres_standard_library.Prelude.{
  ℕ, suc, ◌+◌, ◌-◌, ◌*◌, ◌^◌, ◌<◌, ◌≤◌, ◌≡◌, ◌⊎◌, inl, inr, refl, arith, bit_and, none, some, List,
  [], ◌∷◌, ◌++◌, Bool, true, false, length, length-append, length-set, set, get_elem?,
  get_elem?-set_self, get_elem?-set_ne, ◌∙◌, ap, sym, add32, sub32, u32_size, dec_lt, ◌==◌,
}
use native.Mathlib.Nat.{pow-suc, one-le-pow}
use ceres_standard_library.Prelude.Cells.{get_elem?-append_left, get_elem?-append_last}
use ceres_standard_library.Queue.{
  Cqueue, IsClz, cq_init, cq_count, cq_space, cq_put, cq_get, cq_peek, cq_clear,
}
use ceres_standard_library.Queue.Represents.{
  IsValid, Holds, slot, slot-lt, slot-ne, mask-lt, head-slot,
}

module _ {ℓ} {A : Type ℓ} where
  -- the queue after a put that is not refused
  abbrev stored : Cqueue A → A → Cqueue A
  stored q x = record q { buf = set q.buf (bit_and q.head q.mask) x; head = add32 q.head 1 }

  count-stored :
      {q : Cqueue A} (x : A)
      → IsValid q
      → cq_count q ≤ q.mask
      → cq_count (stored q x) ≡ cq_count q + 1
  unfolding cq_count
  count-stored x v room = omega (arith, mask-lt v, v.head_fits, v.tail_fits)

  stored-IsValid : {q : Cqueue A} (x : A) → IsValid q → cq_count q ≤ q.mask → IsValid (stored q x)
  stored-IsValid {q} x v room = record {
    bits = v.bits;
    narrow = v.narrow;
    masks = v.masks;
    storage = omega (arith, v.storage, length-set q.buf (bit_and q.head q.mask) x);
    head_fits = omega arith;
    tail_fits = v.tail_fits;
    bounded = omega (arith, count-stored x v room);
  }

  stored-Holds :
      {q : Cqueue A} {xs : List A} (x : A)
      → Holds q xs
      → cq_count q ≤ q.mask
      → Holds (stored q x) (xs ++ x ∷ [])
  stored-Holds {q} {xs} x h room = record {
    valid = stored-IsValid x h.valid room;
    size = omega (arith, length-append xs (x ∷ []), h.size, count-stored x h.valid room);
    at = λ i below. elim (dec_lt i (length xs)) [
      | yes old ↦
          get_elem?-set_ne q.buf x (λ e.
            slot-ne h.valid i (cq_count q) (omega (arith, h.size)) room
              (sym (head-slot h.valid) ∙ e))
          ∙ h.at i old
          ∙ sym (get_elem?-append_left xs (x ∷ []) i old)
      | no new ↦
          let last : i ≡ cq_count q = omega (arith, length-append xs (x ∷ []), h.size) in
          let last' : length xs ≡ i = omega (arith, h.size) in
          let here : slot q i ≡ bit_and q.head q.mask =
            ap (slot q) last ∙ sym (head-slot h.valid) in
          ap (get_elem? (stored q x).buf) here
          ∙ get_elem?-set_self q.buf (bit_and q.head q.mask) x
              (omega (arith, head-slot h.valid, slot-lt h.valid (cq_count q)))
          ∙ sym (get_elem?-append_last xs x)
          ∙ ap (get_elem? (xs ++ x ∷ [])) last'
    ];
  }

  -- A put on a queue with room appends the element and reports success; on a full one it reports
  -- failure and changes nothing.
  pub cq_put_lem :
      {q : Cqueue A} {xs : List A} (x : A)
      → Holds q xs
      → ((length xs ≤ q.mask) × ((cq_put q x).0 ≡ true) × Holds (cq_put q x).1 (xs ++ x ∷ []))
        ⊎ ((length xs ≡ q.mask + 1) × (cq_put q x ≡ (false, q)))
  unfolding cq_put
  cq_put_lem {q} {xs} x h = elim (dec_lt q.mask (cq_count q)) [
    | yes full ↦ inr (omega (arith, h.size, h.valid.bounded), (unfold cq_count in ground arith))
    | no room ↦
        let e : cq_put q x ≡ (true, stored q x) = unfold cq_count in ground arith in
        inl (
          omega (arith, h.size),
          ap (λ (r : Bool × Cqueue A). r.0) e,
          rw e (stored-Holds x h (omega arith)),
        )
  ]

  abbrev taken : Cqueue A → Cqueue A
  taken q = record q { tail = add32 q.tail 1 }

  taken-Holds : {q : Cqueue A} {x : A} {xs : List A} → Holds q (x ∷ xs) → Holds (taken q) xs
  unfolding cq_count
  taken-Holds {q} {x} {xs} h = record {
    valid = record {
      bits = h.valid.bits;
      narrow = h.valid.narrow;
      masks = h.valid.masks;
      storage = h.valid.storage;
      head_fits = h.valid.head_fits;
      tail_fits = omega arith;
      bounded =
          omega
            (arith, mask-lt h.valid, h.size, h.valid.bounded, h.valid.head_fits, h.valid.tail_fits);
    };
    size =
        omega
          (arith, mask-lt h.valid, h.size, h.valid.bounded, h.valid.head_fits, h.valid.tail_fits);
    at = λ i below.
        let next : add32 (add32 q.tail 1) i ≡ add32 q.tail (suc i) = omega arith in
        ap (λ (t : ℕ). get_elem? q.buf (bit_and t q.mask)) next ∙ h.at (suc i) (omega arith);
  }

  -- the oldest element stands at the tail
  oldest :
      {q : Cqueue A} {x : A} {xs : List A}
      → Holds q (x ∷ xs)
      → get_elem? q.buf (bit_and q.tail q.mask) ≡ some x
  oldest {q} h =
      let here : add32 q.tail 0 ≡ q.tail = omega (arith, h.valid.tail_fits) in
      ap (λ (t : ℕ). get_elem? q.buf (bit_and t q.mask)) (sym here) ∙ h.at 0 (omega arith)

  nonempty : {q : Cqueue A} {x : A} {xs : List A} → Holds q (x ∷ xs) → (q.head == q.tail) ≡ false
  unfolding cq_count
  nonempty h = ground (arith, h.size, h.valid.tail_fits)

  empty : {q : Cqueue A} → Holds q [] → (q.head == q.tail) ≡ true
  unfolding cq_count
  empty h = ground (arith, h.size, h.valid.tail_fits, h.valid.head_fits)

  -- A get on a non-empty queue returns the oldest element and leaves the others in order.
  pub cq_get-cons :
      {q : Cqueue A} {x : A} {xs : List A}
      → Holds q (x ∷ xs)
      → ((cq_get q).0 ≡ some x) × Holds (cq_get q).1 xs × (cq_peek q ≡ some x)
  unfolding cq_get cq_peek
  cq_get-cons {q} {x} {xs} h = rw (nonempty h) (oldest h, taken-Holds h, oldest h)

  -- On an empty queue get and peek report failure and change nothing.
  pub cq_get-nil : {q : Cqueue A} → Holds q [] → (cq_get q ≡ (none, q)) × (cq_peek q ≡ none)
  unfolding cq_get cq_peek
  cq_get-nil h = rw (empty h) (refl, refl)

  -- Count and space add up to the capacity, and neither wraps.
  pub cq_space_lem :
      {q : Cqueue A} {xs : List A}
      → Holds q xs
      → (cq_count q ≡ length xs) × (cq_space q + length xs ≡ q.mask + 1)
  unfolding cq_space
  cq_space_lem h = omega (arith, h.size, h.valid.bounded, mask-lt h.valid)

  pub cq_clear_lem : {q : Cqueue A} {xs : List A} → Holds q xs → Holds (cq_clear q) []
  unfolding cq_clear cq_count
  cq_clear_lem {q} h = record {
    valid = record {
      bits = h.valid.bits;
      narrow = h.valid.narrow;
      masks = h.valid.masks;
      storage = h.valid.storage;
      head_fits = h.valid.head_fits;
      tail_fits = h.valid.head_fits;
      bounded = omega (arith, h.valid.head_fits);
    };
    size = omega (arith, h.valid.head_fits);
    at = λ i below. absurd (omega arith);
  }

module _ {ℓ} {A : Type ℓ} (clz : ℕ → ℕ) (is_clz : IsClz clz) where
  capacity :
      (storage : List A) (elem_size count : ℕ)
      → 0 < count
      → count < u32_size
      → (bits : ℕ) × (bits ≤ 31)
        × ((cq_init clz storage elem_size count).mask + 1 ≡ 2 ^ bits)
        × (2 ^ bits ≤ count)
        × (count < 2 * 2 ^ bits)
  unfolding cq_init
  capacity storage elem_size count pos small = elim (dec_lt 1 count) [
    | yes more ↦
        let z = is_clz.at_most count pos small in
        let lo = is_clz.from_below count pos small in
        let up = is_clz.from_above count pos small in
        let exponent : 32 - clz count ≡ suc (31 - clz count) = omega arith in
        let double = ap (λ (k : ℕ). 2 ^ k) exponent ∙ pow-suc 2 (31 - clz count) in
        let log : sub32 31 (clz count) ≡ 31 - clz count = omega arith in
        let p = one-le-pow (31 - clz count) 2 (omega arith) in
        (31 - clz count, omega arith, ground arith, lo, omega arith)
    | no one ↦ (0, omega arith, ground arith, omega arith, omega arith)
  ]

  -- A new queue is empty, and its capacity is the largest power of two up to `count`.
  pub cq_init_lem :
      (storage : List A) (elem_size count : ℕ)
      → 0 < count
      → count < u32_size
      → count ≤ length storage
      → Holds (cq_init clz storage elem_size count) []
        × ((cq_init clz storage elem_size count).mask < count)
        × (count < 2 * ((cq_init clz storage elem_size count).mask + 1))
  cq_init_lem storage elem_size count pos small fits =
      let (bits, narrow, masks, lo, up) = capacity storage elem_size count pos small in
      (
        record {
          valid = record {
            bits = bits;
            narrow = narrow;
            masks = masks;
            storage = unfold cq_init in omega arith;
            head_fits = unfold cq_init in omega arith;
            tail_fits = unfold cq_init in omega arith;
            bounded = unfold cq_init cq_count in omega arith;
          };
          size = unfold cq_init cq_count in refl;
          at = λ i below. absurd (omega arith);
        },
        omega arith,
        omega arith,
      )
