-- ===== src/Bitset/Filter.antt =====
-- What a Bloom filter answers after additions.
use native.Mathlib.Nat.{mod-lt}
use mathlib.Core.Path.{subst}
use ceres_standard_library.Prelude.{
  ℕ, zero, suc, ◌+◌, ◌*◌, ◌%◌, ◌<◌, ◌≤◌, ◌≡◌, refl, ◌∙◌, sym, List, length, length-set, arith, true,
  add32, mul32,
}
use ceres_standard_library.Bitset.{
  Bitset, Bloom, bitset_set, probe, add_from, bloom_add, has_from, bloom_maybe_has, two_hashes,
}
use ceres_standard_library.Bitset.Bits.{bit_of, bitset_get_lem, set_hit, set_keep}

-- The filter has bits, and words enough for them.
pub record IsFilter (b : Bloom) : Type 0 where
  pub some_bits : 0 < b.bits.nbits
  pub enough : b.bits.nbits ≤ 32 * length b.bits.w

-- the index that a probe reads
abbrev index : ℕ → List ℕ → ℕ → ℕ
index nbits item i = let (h1, h2) = two_hashes item in add32 h1 (mul32 i h2) % nbits

-- the bits that the probes `i`, `i + 1`, ... of an item read are all set in `s`
Marked : ℕ → ℕ → ℕ → List ℕ → Bitset → Type 0
Marked zero i nbits item s = Unit
Marked (suc left) i nbits item s =
    (bit_of s.w (index nbits item i) ≡ 1) × Marked left (i + 1) nbits item s

has_from-Marked :
    (left i : ℕ) (b : Bloom) (item : List ℕ)
    → (Marked left i b.bits.nbits item b.bits → has_from left i b item ≡ true)
      × (has_from left i b item ≡ true → Marked left i b.bits.nbits item b.bits)
unfolding has_from Marked
has_from-Marked zero i b item = (λ _. refl, λ _. tt)
has_from-Marked (suc left) i b item =
    ground (arith, has_from-Marked left (i + 1) b item, bitset_get_lem b.bits (probe b item i))

Keeps : Bitset → Bitset → Type 0
Keeps s t = (j : ℕ) → bit_of s.w j ≡ 1 → bit_of t.w j ≡ 1

Marked-keep :
    (left i nbits : ℕ) (item : List ℕ) (s t : Bitset)
    → Keeps s t
    → Marked left i nbits item s
    → Marked left i nbits item t
unfolding Marked Keeps
Marked-keep zero i nbits item s t keeps m = tt
Marked-keep (suc left) i nbits item s t keeps (here, rest) =
    (keeps _ here, Marked-keep left (i + 1) nbits item s t keeps rest)

add_from-Keeps :
    (left i : ℕ) (b : Bloom) (item : List ℕ) (s : Bitset) → Keeps s (add_from left i b item s)
unfolding add_from Keeps
add_from-Keeps zero i b item s j h = h
add_from-Keeps (suc left) i b item s j h =
    add_from-Keeps left (i + 1) b item (bitset_set s (probe b item i)) j
      (set_keep s (probe b item i) j h)

set_shape :
    (s : Bitset) (i : ℕ)
    → ((bitset_set s i).nbits ≡ s.nbits) × (length (bitset_set s i).w ≡ length s.w)
unfolding bitset_set
set_shape s i = (refl, length-set s.w _ _)

add_from_shape :
    (left i : ℕ) (b : Bloom) (item : List ℕ) (s : Bitset)
    → ((add_from left i b item s).nbits ≡ s.nbits)
      × (length (add_from left i b item s).w ≡ length s.w)
unfolding add_from
add_from_shape zero i b item s = (refl, refl)
add_from_shape (suc left) i b item s =
    let p : ℕ = probe b item i in
    let (bits, words) = add_from_shape left (i + 1) b item (bitset_set s p) in
    let (bits', words') = set_shape s p in (bits ∙ bits', words ∙ words')

add_from-Marked :
    (left i : ℕ) (b : Bloom) (item : List ℕ) (s : Bitset)
    → 0 < b.bits.nbits
    → b.bits.nbits ≤ 32 * length s.w
    → Marked left i b.bits.nbits item (add_from left i b item s)
unfolding add_from Marked
add_from-Marked zero i b item s pos enough = tt
add_from-Marked (suc left) i b item s pos enough =
    let p : ℕ = probe b item i in
    let inside : p < b.bits.nbits = mod-lt _ pos in
    let shape = (set_shape s p).1 in
    (
      unfold Keeps in
          add_from-Keeps left (i + 1) b item (bitset_set s p) p (set_hit s p (omega arith)),
      add_from-Marked left (i + 1) b item (bitset_set s p) pos (omega arith),
    )

abbrev added : Bloom → List ℕ → Bloom
added b item = record b { bits = add_from b.k 0 b item b.bits }

bloom_add-added : (b : Bloom) (item : List ℕ) → 0 < b.bits.nbits → bloom_add b item ≡ added b item
unfolding bloom_add
bloom_add-added b item pos = ground arith

maybe_has-Marked :
    (b : Bloom) (item : List ℕ)
    → 0 < b.bits.nbits
    → (Marked b.k 0 b.bits.nbits item b.bits → bloom_maybe_has b item ≡ true)
      × (bloom_maybe_has b item ≡ true → Marked b.k 0 b.bits.nbits item b.bits)
unfolding bloom_maybe_has
maybe_has-Marked b item pos = ground (arith, has_from-Marked b.k 0 b item)

-- An addition to a filter with bits and words enough keeps it so, from then on its item is found,
-- and every item that was found before still is: there are no false negatives.
pub bloom_add_lem :
    (b : Bloom) (item : List ℕ)
    → IsFilter b
    → IsFilter (bloom_add b item)
      × (bloom_maybe_has (bloom_add b item) item ≡ true)
      × ((other : List ℕ)
          → bloom_maybe_has b other ≡ true
          → bloom_maybe_has (bloom_add b item) other ≡ true)
bloom_add_lem b item f =
    let (bits, words) = add_from_shape b.k 0 b item b.bits in
    let pos : 0 < (added b item).bits.nbits = omega (arith, f.some_bits) in
    let marks = λ (n : ℕ) (x : List ℕ). Marked b.k 0 n x (added b item).bits in
    rw (bloom_add-added b item f.some_bits) (
      record { some_bits = pos; enough = omega (arith, f.enough) },
      (maybe_has-Marked (added b item) item pos).0 (
          subst (λ n. marks n item) (sym bits)
            (add_from-Marked b.k 0 b item b.bits f.some_bits f.enough)),
      λ other h. (maybe_has-Marked (added b item) other pos).0 (
          subst (λ n. marks n other) (sym bits)
            (Marked-keep b.k 0 b.bits.nbits other b.bits (added b item).bits
              (add_from-Keeps b.k 0 b item b.bits) ((maybe_has-Marked b other f.some_bits).1 h))),
    )
