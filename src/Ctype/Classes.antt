-- ===== src/Ctype/Classes.antt =====
-- How the classes of characters fit together.
use ceres_standard_library.Prelude.{◌≡◌, refl, arith, false, ◌&&◌, ◌||◌}
use ceres_standard_library.Ctype.{
  ℤ, pos, negsuc, isupper, islower, isalpha, isalnum, iscntrl, isprint, ispunct, isascii, tolower,
  toupper, is,
}

-- Every ASCII character is a control character, the space, alphanumeric or punctuation, and only
-- one of them; the printing ones are those that are no control characters. Nothing else, EOF
-- included, is in any of these classes.
pub classes_partition :
    (c : ℤ)
    → (isascii c ≡ (iscntrl c || is 32 c || isalnum c || ispunct c))
      × ((iscntrl c && isprint c) ≡ false)
      × ((is 32 c && (isalnum c || ispunct c)) ≡ false)
      × ((isalnum c && ispunct c) ≡ false)
      × (isprint c ≡ (is 32 c || isalnum c || ispunct c))
unfolding isascii iscntrl isalnum ispunct isprint
classes_partition (pos n) = ground arith
classes_partition (negsuc n) = (refl, refl, refl, refl, refl)

-- The case conversions are inverse to each other on letters of the other case, and leave all else.
pub case_round_trip :
    (c : ℤ)
    → (tolower (toupper c) ≡ tolower c)
      × (toupper (tolower c) ≡ toupper c)
      × (isupper (tolower c) ≡ false)
      × (islower (toupper c) ≡ false)
      × (isalpha (tolower c) ≡ isalpha c)
unfolding tolower toupper isalpha isupper islower
case_round_trip (pos n) = (ground arith, ground arith, ground arith, ground arith, ground arith)
case_round_trip (negsuc n) = (refl, refl, refl, refl, refl)
