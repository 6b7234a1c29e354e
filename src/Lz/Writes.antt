-- ===== src/Lz/Writes.antt =====
-- What the two copying loops of the decoder write.
use mathlib.Core.Path.{subst}
use ceres_standard_library.Prelude.{
  ℕ, zero, suc, ◌+◌, ◌<◌, ◌≤◌, ◌≡◌, ◌≢◌, refl, ap, ◌∙◌, arith, List, [], ◌∷◌, length, set,
  length-set,
}
use ceres_standard_library.Lz.{byte, copy_in, copy_match}

-- `after` differs from `before` at the indices from `op` up to `op'` at most.
pub record Writes (op op' : ℕ) (before after : List ℕ) : Type 0 where
  pub forward : op ≤ op'
  pub same_length : length after ≡ length before
  pub below : (i : ℕ) → i < op → byte after i ≡ byte before i
  pub above : (i : ℕ) → op' ≤ i → byte after i ≡ byte before i

pub Writes-none : (op : ℕ) (base : List ℕ) → Writes op op base base
Writes-none op base = record {
  forward = omega arith;
  same_length = refl;
  below = λ i h. refl;
  above = λ i h. refl;
}

pub Writes-trans : (a b c : ℕ) (x y z : List ℕ) → Writes a b x y → Writes b c y z → Writes a c x z
Writes-trans a b c x y z p q = record {
  forward = omega (arith, p.forward, q.forward);
  same_length = q.same_length ∙ p.same_length;
  below = λ i h. q.below i (omega (arith, p.forward)) ∙ p.below i h;
  above = λ i h. q.above i h ∙ p.above i (omega (arith, q.forward));
}

byte-set_ne : (xs : List ℕ) (i j v : ℕ) → i ≢ j → byte (set xs i v) j ≡ byte xs j
byte-set_ne [] i j v h = refl
byte-set_ne (x ∷ xs) zero zero v h = absurd (h refl)
byte-set_ne (x ∷ xs) zero (suc j) v h = refl
byte-set_ne (x ∷ xs) (suc i) zero v h = refl
byte-set_ne (x ∷ xs) (suc i) (suc j) v h = byte-set_ne xs i j v (λ e. h (ap suc e))

set-Writes : (base : List ℕ) (op v : ℕ) → Writes op (op + 1) base (set base op v)
set-Writes base op v = record {
  forward = omega arith;
  same_length = length-set base op v;
  below = λ i h. byte-set_ne base op i v (λ e. omega arith);
  above = λ i h. byte-set_ne base op i v (λ e. omega arith);
}

pub copy_in-Writes :
    (base : List ℕ) (op : ℕ) (src : List ℕ) (from count : ℕ)
    → Writes op (op + count) base (copy_in base op src from count)
unfolding copy_in
copy_in-Writes base op src from zero =
    subst (λ (e : ℕ). Writes op e base base) (omega arith) (Writes-none op base)
copy_in-Writes base op src from (suc count) =
    let next : List ℕ = set base op (byte src from) in
    subst (λ (e : ℕ). Writes op e base (copy_in next (op + 1) src (from + 1) count)) (omega arith)
      (Writes-trans op (op + 1) (op + 1 + count) base next _ (set-Writes base op (byte src from))
        (copy_in-Writes next (op + 1) src (from + 1) count))

pub copy_match-Writes :
    (base : List ℕ) (from op count : ℕ)
    → Writes op (op + count) base (copy_match base from op count)
unfolding copy_match
copy_match-Writes base from op zero =
    subst (λ (e : ℕ). Writes op e base base) (omega arith) (Writes-none op base)
copy_match-Writes base from op (suc count) =
    let next : List ℕ = set base op (byte base from) in
    subst (λ (e : ℕ). Writes op e base (copy_match next (from + 1) (op + 1) count)) (omega arith)
      (Writes-trans op (op + 1) (op + 1 + count) base next _ (set-Writes base op (byte base from))
        (copy_match-Writes next (from + 1) (op + 1) count))
