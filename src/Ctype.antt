-- ===== src/Ctype.antt =====
-- src/ctype.c: the character classes, over every `int`, negative ones (EOF) included.
pub mod Classes
mod Tests
use ceres_standard_library.Prelude.{
  ℕ, ◌+◌, ◌-◌, bit_and, Bool, true, false, not, ◌&&◌, ◌||◌, ltb, leb, ◌==◌, if◌then◌else◌,
}

-- `int`; `negsuc n` is -(n + 1).
pub data ℤ : Type 0 where
  pos : ℕ → ℤ
  negsuc : ℕ → ℤ

-- `c >= lo && c <= hi` for limits that are not negative
abbrev pub within : ℕ → ℕ → ℤ → Bool
within lo hi (pos n) = leb lo n && leb n hi
within lo hi (negsuc n) = false

abbrev pub is : ℕ → ℤ → Bool
is k (pos n) = n == k
is k (negsuc n) = false

pub isdigit : ℤ → Bool
isdigit c = within b'0' b'9' c

pub isupper : ℤ → Bool
isupper c = within b'A' b'Z' c

pub islower : ℤ → Bool
islower c = within b'a' b'z' c

pub isalpha : ℤ → Bool
isalpha c = within b'A' b'Z' c || within b'a' b'z' c

pub isalnum : ℤ → Bool
unfolding isalpha isdigit
isalnum c = isalpha c || isdigit c

pub isblank : ℤ → Bool
isblank c = is 32 c || is 9 c

pub iscntrl : ℤ → Bool
iscntrl c = within 0 31 c || is 127 c

-- `c > 32 && c < 127`
pub isgraph : ℤ → Bool
isgraph c = within 33 126 c

pub isprint : ℤ → Bool
isprint c = within 32 126 c

pub ispunct : ℤ → Bool
unfolding isgraph isalnum
ispunct c = isgraph c && not (isalnum c)

pub isspace : ℤ → Bool
isspace c = is 32 c || is 9 c || is 10 c || is 11 c || is 12 c || is 13 c

pub isxdigit : ℤ → Bool
unfolding isdigit
isxdigit c = isdigit c || within b'A' b'F' c || within b'a' b'f' c

-- the additions on an `int` whose class says that it is a letter
abbrev pub shift_up : ℤ → ℤ
shift_up (pos n) = pos (n + 32)
shift_up (negsuc n) = negsuc n

abbrev pub shift_down : ℤ → ℤ
shift_down (pos n) = pos (n - 32)
shift_down (negsuc n) = negsuc n

pub tolower : ℤ → ℤ
unfolding isupper
tolower c = if isupper c then shift_up c else c

pub toupper : ℤ → ℤ
unfolding islower
toupper c = if islower c then shift_down c else c

pub isascii : ℤ → Bool
isascii c = within 0 127 c

-- In two's complement -(n + 1) is the complement of `n`.
pub toascii : ℤ → ℕ
toascii (pos n) = bit_and n 127
toascii (negsuc n) = 127 - bit_and n 127
