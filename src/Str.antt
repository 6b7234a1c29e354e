-- ===== src/Str.antt =====
-- src/string.c: the string functions that this file implements. A `char*` is the list of the bytes
-- from it to the end of its object; a string's terminator is a byte 0 in it, and running off the
-- end counts as one. A pointer result is the index from the argument's start, NULL is `none`.
pub mod Search
mod Tests
use ceres_standard_library.Prelude.{
  ℕ, zero, suc, ◌+◌, ◌-◌, ◌/◌, Bool, true, false, not, ◌&&◌, ◌||◌, Option, none, some, List, [],
  ◌∷◌, ◌++◌, get_or, set, take, drop, replicate, ltb, ◌==◌, if◌then◌else◌, u8,
}
use ceres_standard_library.Prelude.Int.{ℤ, pos, negsuc, sub_ℕ}

-- the byte at `s[i]`
abbrev pub at : List ℕ → ℕ → ℕ
at s i = get_or s i 0

-- `strlen` and `strchr` are of asm/: the length up to the terminator, and membership before it.
abbrev pub strlen : List ℕ → ℕ
strlen [] = 0
strlen (c ∷ s) = let rest = strlen s in if c == 0 then 0 else suc rest

abbrev pub occurs : ℕ → List ℕ → Bool
occurs c [] = false
occurs c (d ∷ s) = let rest = occurs c s in if d == 0 then false else (d == c) || rest

-- the loop runs down from `n`; of `c` the low byte counts
pub memrchr : List ℕ → ℕ → ℕ → Option ℕ
memrchr s c zero = none
memrchr s c (suc n) = let rest = memrchr s c n in if at s n == u8 c then some n else rest

-- `memcmp(h, nd, n) == 0`
abbrev pub same_bytes : ℕ → List ℕ → List ℕ → Bool
same_bytes zero h nd = true
same_bytes (suc n) h nd = (at h 0 == at nd 0) && same_bytes n (drop 1 h) (drop 1 nd)

-- the loop of `memmem` at index `i`, with `left` starting points to go
pub memmem_from : ℕ → ℕ → List ℕ → List ℕ → ℕ → Option ℕ
memmem_from zero i hay needle nl = none
memmem_from (suc left) i hay needle nl =
    let rest = memmem_from left (i + 1) hay needle nl in
    if (at hay i == at needle 0) && same_bytes nl (drop i hay) needle then some i else rest

pub memmem : List ℕ → ℕ → List ℕ → ℕ → Option ℕ
unfolding memmem_from
memmem hay hl needle nl =
    if nl == 0
    then some 0
    else if ltb hl nl
    then none
    else memmem_from (hl - nl + 1) 0 hay needle nl

pub strnlen : List ℕ → ℕ → ℕ
strnlen s zero = 0
strnlen [] (suc max) = 0
strnlen (c ∷ s) (suc max) = let rest = strnlen s max in if c == 0 then 0 else suc rest

-- the bytes that `strncpy` stores from `dst` on: the string, then zeros up to `n`
pub strncpy_bytes : List ℕ → ℕ → List ℕ
strncpy_bytes s zero = []
strncpy_bytes [] (suc n) = 0 ∷ strncpy_bytes [] n
strncpy_bytes (c ∷ s) (suc n) =
    let copied = c ∷ strncpy_bytes s n in
    let padded = replicate (suc n) 0 in if c == 0 then padded else copied

-- stores at `dst[i..]`
abbrev pub store_at : List ℕ → ℕ → List ℕ → List ℕ
store_at dst i [] = dst
store_at dst i (b ∷ bytes) = store_at (set dst i b) (i + 1) bytes

pub strncpy : List ℕ → List ℕ → ℕ → List ℕ
unfolding strncpy_bytes
strncpy dst src n = store_at dst 0 (strncpy_bytes src n)

-- `strcpy` is of asm/: it copies the string and its terminator.
pub strcat : List ℕ → List ℕ → List ℕ
strcat dst src = store_at dst (strlen dst) (take (strlen src) src ++ 0 ∷ [])

pub strncat : List ℕ → List ℕ → ℕ → List ℕ
unfolding strnlen
strncat dst src n = store_at dst (strlen dst) (take (strnlen src n) src ++ 0 ∷ [])

pub strncmp : List ℕ → List ℕ → ℕ → ℤ
strncmp a b zero = pos 0
strncmp a b (suc n) =
    let rest = strncmp (drop 1 a) (drop 1 b) n in
    if not (at a 0 == at b 0) then sub_ℕ (at a 0) (at b 0) else if at a 0 == 0 then pos 0 else rest

-- the loop at index `i`; `last` is what has been found so far
pub strrchr_from : List ℕ → ℕ → ℕ → Option ℕ → Option ℕ
strrchr_from [] c i last = if c == 0 then some i else last
strrchr_from (d ∷ s) c i last =
    let last' = if d == c then some i else last in
    let rest = strrchr_from s c (i + 1) last' in if d == 0 then last' else rest

pub strrchr : List ℕ → ℕ → Option ℕ
unfolding strrchr_from
strrchr s c = strrchr_from s (u8 c) 0 none

abbrev is_zero : ℤ → Bool
is_zero (pos n) = n == 0
is_zero (negsuc n) = false

pub strstr_from : List ℕ → ℕ → List ℕ → Option ℕ
unfolding strncmp
strstr_from [] i needle = none
strstr_from (c ∷ hay) i needle =
    let rest = strstr_from hay (i + 1) needle in
    let hit = is_zero (strncmp (c ∷ hay) needle (strlen needle)) in
    if c == 0 then none else if (c == at needle 0) && hit then some i else rest

pub strstr : List ℕ → List ℕ → Option ℕ
unfolding strstr_from
strstr hay needle = if strlen needle == 0 then some 0 else strstr_from hay 0 needle

pub strspn : List ℕ → List ℕ → ℕ
strspn [] accept = 0
strspn (c ∷ s) accept =
    let rest = strspn s accept in if not (c == 0) && occurs c accept then suc rest else 0

pub strcspn : List ℕ → List ℕ → ℕ
strcspn [] reject = 0
strcspn (c ∷ s) reject =
    let rest = strcspn s reject in if not (c == 0) && not (occurs c reject) then suc rest else 0

pub strpbrk_from : List ℕ → ℕ → List ℕ → Option ℕ
strpbrk_from [] i accept = none
strpbrk_from (c ∷ s) i accept =
    let rest = strpbrk_from s (i + 1) accept in
    if c == 0 then none else if occurs c accept then some i else rest

pub strpbrk : List ℕ → List ℕ → Option ℕ
unfolding strpbrk_from
strpbrk s accept = strpbrk_from s 0 accept

-- `strtok_r` on one buffer: the text, the index to go on from (`none` is NULL, of `s` and `*save`
-- both), and the results: the token's index, the buffer and `*save`.
pub strtok_r : List ℕ → Option ℕ → List ℕ → Option ℕ × List ℕ × Option ℕ
unfolding strspn strcspn
strtok_r text none delim = (none, text, none)
strtok_r text (some from) delim =
    let start = from + strspn (drop from text) delim in
    let end = start + strcspn (drop start text) delim in
    if at text start == 0
    then (none, text, none)
    else if at text end == 0
    then (some start, text, none)
    else (some start, set text end 0, some (end + 1))

pub strsep : List ℕ → Option ℕ → List ℕ → Option ℕ × List ℕ × Option ℕ
unfolding strcspn
strsep text none delim = (none, text, none)
strsep text (some start) delim =
    let end = start + strcspn (drop start text) delim in
    if at text end == 0
    then (some start, text, none)
    else (some start, set text end 0, some (end + 1))

-- the length of `src` and the buffer after the copy
pub strlcpy : List ℕ → List ℕ → ℕ → ℕ × List ℕ
strlcpy dst src size =
    let len = strlen src in
    let n = if ltb len (size - 1) then len else size - 1 in
    (len, if size == 0 then dst else store_at dst 0 (take n src ++ 0 ∷ []))

pub strlcat : List ℕ → List ℕ → ℕ → ℕ × List ℕ
unfolding strnlen strlcpy
strlcat dst src size =
    let dl = strnlen dst size in
    let (len, tail) = strlcpy (drop dl dst) src (size - dl) in
    if dl == size then (size + strlen src, dst) else (dl + len, take dl dst ++ tail)

-- the swaps of `strrev` at index `i`, with `left` to go
pub reverse_from : ℕ → ℕ → ℕ → List ℕ → List ℕ
reverse_from zero i n s = s
reverse_from (suc left) i n s =
    reverse_from left (i + 1) n (set (set s i (at s (n - 1 - i))) (n - 1 - i) (at s i))

pub strrev : List ℕ → List ℕ
unfolding reverse_from
strrev s = reverse_from (strlen s / 2) 0 (strlen s) s
