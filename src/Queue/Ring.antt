-- ===== src/Queue/Ring.antt =====
-- ringbuf.c: the byte FIFO writes and reads as many bytes as fit or wait, in order.
use ceres_standard_library.Prelude.{
  ℕ, zero, suc, ◌+◌, ◌-◌, ◌≤◌, ◌≡◌, inl, inr, refl, arith, min, Option, none, some, List, [], ◌∷◌,
  ◌++◌, Bool, true, false, length, length-append, take, drop, ◌∙◌, ap, append-nil, append_assoc,
}
use ceres_standard_library.Queue.{
  Cqueue, cq_space, cq_put, cq_get, ring_put, ring_get, ring_write_from, ring_write, ring_read,
}
use ceres_standard_library.Queue.Represents.{Holds}
use ceres_standard_library.Queue.Refine.{cq_put_lem, cq_get-cons, cq_get-nil, cq_space_lem}

mask-put : (r : Cqueue ℕ) (b : ℕ) → (cq_put r b).1.mask ≡ r.mask
unfolding cq_put
mask-put r b = ground arith

write_from-put :
    (r : Cqueue ℕ) (b : ℕ) (bytes : List ℕ) (done : ℕ)
    → (cq_put r b).0 ≡ true
    → ring_write_from r (b ∷ bytes) done ≡ ring_write_from (cq_put r b).1 bytes (done + 1)
unfolding ring_write_from ring_put
write_from-put r b bytes done e = rw (e, ring_write_from)

write_from-full :
    (r : Cqueue ℕ) (b : ℕ) (bytes : List ℕ) (done : ℕ)
    → cq_put r b ≡ (false, r)
    → ring_write_from r (b ∷ bytes) done ≡ (done, r)
unfolding ring_write_from ring_put
write_from-full r b bytes done e =
    rw (e, ring_write_from) (ap (λ (p : Bool × Cqueue ℕ). (done, p.1)) e)

take-nil : (n : ℕ) → take {A = ℕ} n [] ≡ []
take-nil zero = refl
take-nil (suc n) = refl

take_all : (bytes : List ℕ) (n : ℕ) → length bytes ≤ n → take n bytes ≡ bytes
take_all [] n h = take-nil n
take_all (b ∷ bytes) zero h = absurd (omega arith)
take_all (b ∷ bytes) (suc n) h = ap (λ (l : List ℕ). b ∷ l) (take_all bytes n (omega arith))

-- what the loop has done when it stops, started at a queue of `xs` with `done` bytes written
record Wrote (r : Cqueue ℕ) (xs bytes : List ℕ) (done : ℕ) (out : ℕ × Cqueue ℕ) : Type 0 where
  count : out.0 ≡ done + min (length bytes) (r.mask + 1 - length xs)
  holds : Holds out.1 (xs ++ take (r.mask + 1 - length xs) bytes)

write_from-Wrote :
    (bytes : List ℕ) (r : Cqueue ℕ) (xs : List ℕ) (done : ℕ)
    → Holds r xs
    → Wrote r xs bytes done (ring_write_from r bytes done)
write_from-Wrote [] r xs done h = record {
  count = unfold ring_write_from in omega arith;
  holds = unfold ring_write_from in rw (take-nil (r.mask + 1 - length xs), append-nil) h;
}
write_from-Wrote (b ∷ bytes) r xs done h = elim (cq_put_lem b h) [
  | inl (room, put, holds) ↦
      let rest = write_from-Wrote bytes (cq_put r b).1 (xs ++ b ∷ []) (done + 1) holds in
      let longer = length-append xs (b ∷ []) in
      let same = mask-put r b in
      let left : r.mask + 1 - length xs ≡ suc ((cq_put r b).1.mask + 1 - length (xs ++ b ∷ [])) =
        omega arith in
      rw (write_from-put r b bytes done put) (record {
        count = omega (arith, rest.count);
        holds = rw left (rw append_assoc at rest.holds);
      })
  | inr (full, refused) ↦
      let left : r.mask + 1 - length xs ≡ 0 = omega arith in
      rw (write_from-full r b bytes done refused)
        (record { count = omega arith; holds = rw (left, append-nil) h })
]

-- `ring_write` takes as many bytes as there is space for, returns their number, and appends
-- exactly those bytes in order.
pub ring_write_lem :
    (bytes : List ℕ) (r : Cqueue ℕ) (xs : List ℕ)
    → Holds r xs
    → ((ring_write r bytes).0 ≡ min (length bytes) (cq_space r))
      × Holds (ring_write r bytes).1 (xs ++ take (cq_space r) bytes)
unfolding ring_write
ring_write_lem bytes r xs h =
    let w = write_from-Wrote bytes r xs 0 h in
    let space : cq_space r ≡ r.mask + 1 - length xs = omega (arith, cq_space_lem h) in
    rw space (omega (arith, w.count), w.holds)

read-some :
    (r : Cqueue ℕ) (left b : ℕ)
    → (cq_get r).0 ≡ some b
    → ring_read r (suc left)
      ≡ (b ∷ (ring_read (cq_get r).1 left).0, (ring_read (cq_get r).1 left).1)
unfolding ring_read ring_get
read-some r left b e = rw (e, ring_read)

read-none : (r : Cqueue ℕ) (left : ℕ) → cq_get r ≡ (none, r) → ring_read r (suc left) ≡ ([], r)
unfolding ring_read ring_get
read-none r left e = rw (e, ring_read) (ap (λ (p : Option ℕ × Cqueue ℕ). ([], p.1)) e)

-- `ring_read` takes the oldest bytes, as many as wait and are asked for, and leaves the others.
pub ring_read_lem :
    (n : ℕ) (r : Cqueue ℕ) (xs : List ℕ)
    → Holds r xs
    → ((ring_read r n).0 ≡ take n xs) × Holds (ring_read r n).1 (drop n xs)
ring_read_lem zero r xs h = unfold ring_read in (refl, h)
ring_read_lem (suc n) r [] h = rw (read-none r n (cq_get-nil h).0) (refl, h)
ring_read_lem (suc n) r (x ∷ xs) h =
    let (got, rest, peeked) = cq_get-cons h in
    let (bytes, holds) = ring_read_lem n (cq_get r).1 xs rest in
    rw (read-some r n x got) (ap (λ (l : List ℕ). x ∷ l) bytes, holds)

-- What is written to an empty FIFO with enough space is read back.
pub ring_read-ring_write :
    (bytes : List ℕ) (r : Cqueue ℕ)
    → Holds r []
    → length bytes ≤ r.mask + 1
    → (ring_read (ring_write r bytes).1 (length bytes)).0 ≡ bytes
ring_read-ring_write bytes r h fits =
    let written = ring_write_lem bytes r [] h in
    let space : length bytes ≤ cq_space r = omega (arith, cq_space_lem h) in
    (ring_read_lem (length bytes) (ring_write r bytes).1 (take (cq_space r) bytes) written.1).0
    ∙ rw (take_all bytes (cq_space r) space) (take_all bytes (length bytes) (omega arith))
