-- ===== src/Utoa/Digits.antt =====
-- The digits that the loop of utoa leaves, lowest first, and the number that they stand for.
use native.Mathlib.Nat.{mod-lt, div-add-mod', div-mul-le_self, mul-le-mul_left}
use ceres_standard_library.Prelude.{
  ℕ, zero, suc, ◌+◌, ◌*◌, ◌/◌, ◌%◌, ◌^◌, ◌<◌, ◌≤◌, ◌≡◌, refl, ap, ◌∙◌, arith, false, Option, some,
  List, [], ◌∷◌, ◌++◌, map, length, length-set, set, ◌==◌,
}
use ceres_standard_library.Prelude.Cells.{Cells}
use ceres_standard_library.Prelude.Store.{◌>>=◌, put_cell_lem, Wrote, Wrote-none, Wrote-store}
use ceres_standard_library.Utoa.{digit_char, digits_loop}

-- the number that some digits stand for, highest first, behind those read before
abbrev pub read : ℕ → ℕ → List ℕ → ℕ
read base before [] = before
read base before (d ∷ ds) = read base (before * base + d) ds

read-snoc :
    (base before : ℕ) (ds : List ℕ) (d : ℕ)
    → read base before (ds ++ d ∷ []) ≡ read base before ds * base + d
read-snoc base before [] d = refl
read-snoc base before (e ∷ ds) d = read-snoc base (before * base + e) ds d

abbrev pub Below : ℕ → List ℕ → Type 0
Below base [] = Unit
Below base (d ∷ ds) = (d < base) × Below base ds

Below-snoc : (base : ℕ) (ds : List ℕ) (d : ℕ) → Below base ds → d < base → Below base (ds ++ d ∷ [])
Below-snoc base [] d h k = (k, tt)
Below-snoc base (e ∷ ds) d (here, h) k = (here, Below-snoc base ds d h k)

abbrev pub backwards : {A : Type 0} → List A → List A
backwards [] = []
backwards (x ∷ xs) = backwards xs ++ x ∷ []

pub Below-backwards : (base : ℕ) (es : List ℕ) → Below base es → Below base (backwards es)
Below-backwards base [] h = tt
Below-backwards base (e ∷ es) (here, h) =
    Below-snoc base (backwards es) e (Below-backwards base es h) here

-- what the loop leaves in `tmp`: the digits, lowest first
pub record Filled (k base v : ℕ) (tmp : Cells ℕ) (n : ℕ) (result : Option (Cells ℕ × ℕ))
    : Type 0 where
  pub es : List ℕ
  pub tmp' : Cells ℕ
  pub is : result ≡ some (tmp', n + length es)
  pub wrote : Wrote tmp n (map digit_char es) tmp'
  pub below : Below base es
  pub means : read base 0 (backwards es) ≡ v
  pub few : length es ≤ k

shrinks : (k base v : ℕ) → 2 ≤ base → v < 2 ^ suc k → v / base < 2 ^ k
shrinks k base v h less =
    let double : 2 ^ suc k ≡ 2 ^ k * 2 = omega arith in
    omega (arith, double, mul-le-mul_left (v / base) h, div-mul-le_self v base)

pub digits_loop-stop :
    (fuel base : ℕ) (tmp : Cells ℕ) (n : ℕ) → digits_loop (suc fuel) base 0 tmp n ≡ some (tmp, n)
unfolding digits_loop
digits_loop-stop fuel base tmp n = refl

digits_loop_step :
    (fuel base v : ℕ) (tmp : Cells ℕ) (n : ℕ)
    → n < length tmp
    → digits_loop (suc fuel) base (suc v) tmp n
      ≡ digits_loop fuel base (suc v / base) (set tmp n (some (digit_char (suc v % base)))) (suc n)
unfolding digits_loop
digits_loop_step fuel base v tmp n h =
    let going : (suc v == 0) ≡ false = ground arith in
    let next : n + 1 ≡ suc n = omega arith in
    rw (digits_loop, going, put_cell_lem tmp n (digit_char (suc v % base)) h, ◌>>=◌)
      (ap (digits_loop fuel base (suc v / base) (set tmp n (some (digit_char (suc v % base)))))
        next)

pub digits_loop-Filled :
    (k fuel base v : ℕ) (tmp : Cells ℕ) (n : ℕ)
    → 2 ≤ base
    → v < 2 ^ k
    → n + k ≤ length tmp
    → k < fuel
    → Filled k base v tmp n (digits_loop fuel base v tmp n)
digits_loop-Filled k zero base v tmp n two small room enough = absurd (omega arith)
digits_loop-Filled k (suc fuel) base zero tmp n two small room enough = record {
  es = [];
  tmp' = tmp;
  is = digits_loop-stop fuel base tmp n ∙ ap (λ (m : ℕ). some (tmp, m)) (omega arith);
  wrote = Wrote-none tmp n;
  below = tt;
  means = refl;
  few = omega arith;
}
digits_loop-Filled zero (suc fuel) base (suc v) tmp n two small room enough = absurd (omega arith)
digits_loop-Filled (suc k) (suc fuel) base (suc v) tmp n two small room enough =
    let d = suc v % base in
    let c = digit_char d in
    let r =
      digits_loop-Filled k fuel base (suc v / base) (set tmp n (some c)) (suc n) two
        (shrinks k base (suc v) two small) (omega (arith, length-set tmp n (some c)))
        (omega arith) in
    record {
      es = d ∷ r.es;
      tmp' = r.tmp';
      is =
          digits_loop_step fuel base v tmp n (omega arith)
          ∙ r.is
          ∙ ap (λ (m : ℕ). some (r.tmp', m)) (omega arith);
      wrote = Wrote-store (omega arith) r.wrote;
      below = (mod-lt (suc v) (omega arith), r.below);
      means =
          read-snoc base 0 (backwards r.es) d
          ∙ ap (λ (m : ℕ). m * base + d) r.means
          ∙ div-add-mod' (suc v) base;
      few = omega (arith, r.few);
    }
