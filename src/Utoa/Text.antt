-- ===== src/Utoa/Text.antt =====
-- The text of utoa is the number in the base, and no store leaves an object.
use ceres_standard_library.Prelude.{
  ℕ, zero, suc, ◌+◌, ◌-◌, ◌^◌, ◌<◌, ◌≤◌, ◌≡◌, refl, sym, ap, ◌∙◌, arith, inl, inr, ◌⊎◌, ap₂, dec_lt,
  true, false, leb, if◌then◌else◌, Option, some, List, [], ◌∷◌, ◌++◌, map, length, length-map,
  length-append, length-set, set, ◌==◌,
}
use ceres_standard_library.Prelude.Int.{ℤ, pos, negsuc, ltb_ℤ}
use ceres_standard_library.Prelude.Cells.{Cells, cell, blank}
use ceres_standard_library.Prelude.Store.{
  ◌>>=◌, put_cell_lem, Part, Wrote, Wrote-none, Wrote-store, Wrote-append, Part-left, Part-right,
}
use mathlib.Core.Path.{subst}
use mathlib.Core.List.{map-append}
use ceres_standard_library.Sort.Order.{snoc_cases}
use ceres_standard_library.Utoa.{digit_char, usable_base, copy_back, digits, utoa}
use ceres_standard_library.Utoa.Digits.{
  read, Below, backwards, Below-backwards, digits_loop-stop, digits_loop-Filled,
}

backwards-snoc : {A : Type 0} (xs : List A) (x : A) → backwards (xs ++ x ∷ []) ≡ x ∷ backwards xs
backwards-snoc [] x = refl
backwards-snoc {A} (y ∷ xs) x = ap (λ (l : List A). l ++ y ∷ []) (backwards-snoc xs x)

-- reading `tmp` from behind gives its characters in the other order
copy_back-Wrote :
    (cs : List ℕ) (left : ℕ) (tmp : Cells ℕ) (n i at : ℕ) (buf : Cells ℕ)
    → Part tmp 0 cs
    → length cs ≡ left
    → i + left ≡ n
    → at + n ≤ length buf
    → (buf' : Cells ℕ) × (copy_back left tmp n i at buf ≡ some buf')
      × Wrote buf (at + i) (backwards cs) buf'
unfolding copy_back
copy_back-Wrote [] zero tmp n i at buf p size split room = (buf, refl, Wrote-none buf (at + i))
copy_back-Wrote (c ∷ cs) zero tmp n i at buf p size split room = absurd (omega arith)
copy_back-Wrote cs (suc left) tmp n i at buf p size split room = elim (snoc_cases cs) [
  | inl e ↦ absurd (omega (arith, ap length e))
  | inr (init, c, e) ↦
      let p' : Part tmp 0 (init ++ c ∷ []) = subst (Part tmp 0) e p in
      let init_size : length init ≡ left =
        omega (arith, ap length e, length-append init (c ∷ [])) in
      let here : cell tmp (n - 1 - i) ≡ some c =
        (Part-right tmp 0 (n - 1 - i) init (c ∷ []) (omega arith) p').0 in
      let (buf', done, w) =
        copy_back-Wrote init left tmp n (i + 1) at (set buf (at + i) (some c))
          (Part-left tmp 0 init (c ∷ []) p') init_size (omega arith)
          (omega (arith, length-set buf (at + i) (some c))) in
      (
        buf',
        rw (copy_back, here, ◌>>=◌, put_cell_lem buf (at + i) c (omega arith), ◌>>=◌) done,
        subst (λ l. Wrote buf (at + i) l buf') (sym (ap backwards e ∙ backwards-snoc init c))
            (Wrote-store (omega arith) (
              subst (λ m. Wrote (set buf (at + i) (some c)) m (backwards init) buf')
                {x = at + (i + 1)} {y = suc (at + i)} (omega arith) w)),
      )
]

-- what `digits` leaves in `tmp`, lowest first
record Known (base v : ℕ) (result : Option (Cells ℕ × ℕ)) : Type 0 where
  es : List ℕ
  tmp' : Cells ℕ
  is : result ≡ some (tmp', length es)
  part : Part tmp' 0 (map digit_char es)
  below : Below base es
  means : read base 0 (backwards es) ≡ v
  few : length es ≤ 32
  many : 0 < length es

some_digit : (base v : ℕ) (es : List ℕ) → read base 0 (backwards es) ≡ suc v → 0 < length es
some_digit base v [] h = absurd (omega (arith, h))
some_digit base v (e ∷ es) h = omega arith

digits-Known : (v base : ℕ) → 2 ≤ base → v < 2 ^ 32 → Known base v (digits v base)
unfolding digits
digits-Known zero base two small = record {
  es = 0 ∷ [];
  tmp' = set (blank 33) 0 (some 48);
  is =
      rw (put_cell_lem {A = ℕ} (blank 33) 0 48 (omega arith), ◌>>=◌)
        (digits_loop-stop 32 base (set (blank 33) 0 (some 48)) 1);
  part = (refl, tt);
  below = (omega arith, tt);
  means = omega arith;
  few = omega arith;
  many = omega arith;
}
digits-Known (suc v) base two small =
    let going : (suc v == 0) ≡ false = ground arith in
    let r =
      digits_loop-Filled 32 33 base (suc v) (blank 33) 0 two small (omega arith) (omega arith) in
    record {
      es = r.es;
      tmp' = r.tmp';
      is = rw (digits, going) (r.is ∙ ap (λ (m : ℕ). some (r.tmp', m)) (omega arith));
      part = r.wrote.placed;
      below = r.below;
      means = r.means;
      few = r.few;
      many = some_digit base v r.es r.means;
    }

-- the base that an argument asks for: itself from 2 to 36, and otherwise 10
abbrev pub IsBase : ℤ → ℕ → Type 0
IsBase base b =
    ((base ≡ pos b) × (2 ≤ b) × (b ≤ 36))
    ⊎ ((b ≡ 10) × ((ltb_ℤ base (pos 2) ≡ true) ⊎ (ltb_ℤ (pos 36) base ≡ true)))

usable_base-IsBase : (base : ℤ) → IsBase base (usable_base base)
usable_base-IsBase (pos b) = elim (dec_lt b 2) [
  | yes small ↦ inr (ground arith, inl (ground arith))
  | no large ↦ elim (dec_lt 36 b) [
    | yes over ↦ inr (ground arith, inr (ground arith))
    | no inside ↦
        let same : usable_base (pos b) ≡ b = ground arith in
        inl (ap pos (sym same), omega (arith, same), omega (arith, same))
  ]
]
usable_base-IsBase (negsuc b) = inr (refl, inl (ground arith))

IsBase-range : (base : ℤ) (b : ℕ) → IsBase base b → (2 ≤ b) × (b ≤ 36)
IsBase-range base b (inl (e, low, high)) = (low, high)
IsBase-range base b (inr (e, why)) = (omega arith, omega arith)

-- what a character from '0' to '9' or from 'a' to 'z' stands for
abbrev pub digit_value : ℕ → ℕ
digit_value c = if leb c 57 then c - 48 else c - 87

-- characters of digits below a base
abbrev pub IsNumeral : ℕ → List ℕ → Type 0
IsNumeral b [] = Unit
IsNumeral b (c ∷ cs) =
    (((48 ≤ c) × (c ≤ 57)) ⊎ ((97 ≤ c) × (c ≤ 122))) × (digit_value c < b) × IsNumeral b cs

digit_value-digit_char : (d : ℕ) → d < 36 → digit_value (digit_char d) ≡ d
digit_value-digit_char d h = ground arith

digit_char_range :
    (d : ℕ)
    → d < 36
    → ((48 ≤ digit_char d) × (digit_char d ≤ 57)) ⊎ ((97 ≤ digit_char d) × (digit_char d ≤ 122))
digit_char_range d h = elim (dec_lt d 10) [
  | yes low ↦ inl (ground arith, ground arith)
  | no high ↦ inr (ground arith, ground arith)
]

texts-IsNumeral : (b : ℕ) (ds : List ℕ) → b ≤ 36 → Below b ds → IsNumeral b (map digit_char ds)
texts-IsNumeral b [] small h = tt
texts-IsNumeral b (d ∷ ds) small (here, h) = (
  digit_char_range d (omega arith),
  omega (arith, digit_value-digit_char d (omega arith)),
  texts-IsNumeral b ds small h,
)

values-digit_char :
    (b : ℕ) (ds : List ℕ) → b ≤ 36 → Below b ds → map digit_value (map digit_char ds) ≡ ds
values-digit_char b [] small h = refl
values-digit_char b (d ∷ ds) small (here, h) =
    ap₂ (λ (x : ℕ) (l : List ℕ). x ∷ l) (digit_value-digit_char d (omega arith))
      (values-digit_char b ds small h)

map-backwards : (es : List ℕ) → map digit_char (backwards es) ≡ backwards (map digit_char es)
map-backwards [] = refl
map-backwards (e ∷ es) =
    map-append digit_char (backwards es) (e ∷ [])
    ∙ ap (λ (l : List ℕ). l ++ digit_char e ∷ []) (map-backwards es)

length-backwards : {A : Type 0} (xs : List A) → length (backwards xs) ≡ length xs
length-backwards [] = refl
length-backwards (x ∷ xs) =
    omega (arith, length-append (backwards xs) (x ∷ []), length-backwards xs)

-- For a 32-bit number and room for 33 characters utoa ends, inside its objects. The text is at least
-- one digit, from '0' to '9' or from 'a' to 'z' and below the base, and a NUL; the base is the
-- argument from 2 to 36, and otherwise 10. Read in that base the digits are the number, and no
-- character in front of the text changes.
pub utoa_lem :
    (v : ℕ) (buf : Cells ℕ) (at : ℕ) (base : ℤ)
    → v < 2 ^ 32
    → at + 33 ≤ length buf
    → (b : ℕ) × (cs : List ℕ) × (buf' : Cells ℕ) × IsBase base b
      × (utoa v buf at base ≡ some buf')
      × Wrote buf at (cs ++ 0 ∷ []) buf'
      × (0 < length cs)
      × IsNumeral b cs
      × (read b 0 (map digit_value cs) ≡ v)
unfolding utoa
utoa_lem v buf at base small room =
    let b = usable_base base in
    let is_base = usable_base-IsBase base in
    let range = IsBase-range base b is_base in
    let r = digits-Known v b range.0 small in
    let below = Below-backwards b r.es r.below in
    let values = values-digit_char b (backwards r.es) range.1 below in
    let n = length r.es in
    let count : length (map digit_char r.es) ≡ n = length-map r.es digit_char in
    let (buf1, copied, w) =
      copy_back-Wrote (map digit_char r.es) n r.tmp' n 0 at buf r.part count (omega arith)
        (omega (arith, r.few)) in
    let w1 =
      subst (λ l. Wrote buf at l buf1) (sym (map-backwards r.es))
        (subst (λ m. Wrote buf m (backwards (map digit_char r.es)) buf1) {x = at + 0} {y = at}
          (omega arith) w) in
    let size : length (map digit_char (backwards r.es)) ≡ n =
      length-map (backwards r.es) digit_char ∙ length-backwards r.es in
    (
      b,
      map digit_char (backwards r.es),
      set buf1 (at + n) (some 0),
      is_base,
      rw (utoa, r.is, ◌>>=◌, copied, ◌>>=◌)
          (put_cell_lem buf1 (at + n) 0 (omega (arith, w.size, r.few))),
      Wrote-append at (at + n) (omega (arith, size)) w1 (
          Wrote-store (omega (arith, w.size, r.few))
            (Wrote-none (set buf1 (at + n) (some 0)) (suc (at + n)))),
      omega (arith, r.many, size),
      texts-IsNumeral b (backwards r.es) range.1 below,
      ap (read b 0) values ∙ r.means,
    )
