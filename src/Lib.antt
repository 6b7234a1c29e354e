-- ===== src/Lib.antt =====
-- Ceres Standard Library: models of parts of the C library of the Ceres virtual machine, with the
-- theorems that make them correct.
--
-- The program is the C library that a Ceres program links against: the standard headers, and under
-- ceres/ the machine's devices, a file system and the pieces a program ends up writing. Its parts
-- call one another through the functions that their headers declare; most keep their state in a
-- struct that the caller owns. The files here and what they model:
--
--   Prelude       numbers, lists, 32-bit words, bit operations, cells of a heap object
--   Utf8          src/ceres/utf8.c: __utf8_feed, utf8_decode, utf8_encode and the walks over text
--   Queue         src/ceres/ds/cqueue.c and src/ceres/ds/ringbuf.c, the queues with two free-running
--                 indices
--   Vector        src/ceres/ds/vector.c, the growable array
--   Deque         src/ceres/ds/deque.c, the growable circular buffer
--   Ctype         src/ctype.c, the character classes and the change of case
--   Str           src/string.c: searching, bounded copies, tokens, reversal
--   Arena         src/ceres/arena.c, the bump allocator
--   Hash          src/ceres/hash.c and its table src/ceres/hash_crc.inc
--   Rand          src/ceres/rand.c, the xorshift generator, ranges and the shuffle
--   Bitset        src/ceres/ds/bitset.c, include/ceres/ds/bitset.h and src/ceres/ds/bloom.c
--   Color         src/ceres/color.c and the macros of include/ceres/color.h
--   Fixed         src/ceres/fixed.c: division and square root in 16.16 fixed point
--   Gmap          src/ceres/ds/gmap.c, the hash map with open addressing
--   Pool          src/ceres/pool.c, the pool of blocks of one size
--   Lz            src/ceres/lz.c: the LZ4 block decoder; Lz/Frame the frames, Lz/Compress the encoder
--   Time          src/time.c: the calendar, gmtime_r and mktime
--   Sort          src/ceres/sort.c, the stable merge sort; Vector/Sorting vector_sort_stable with it
--   Flatmap       src/ceres/ds/flatmap.c, the map kept as a sorted vector, searched by bisection
--   Heap          src/ceres/ds/pqueue.c with the loops of src/ceres/ds/heap_priv.h, the binary heap
--                 in a vector; the loops run on fuel, and the length is enough of it
--   Bsearch       bsearch of src/stdlib.c; its loop runs on fuel, one round more than there are elements
--   Utoa          utoa and itoa of src/stdlib.c; their loop has 33 rounds, one for each character of its object
--
-- How code is read. `unsigned int` and `size_t` have 32 bits: a value is a natural number, and sums,
-- differences and products wrap by `% 2^32`. A function that updates a struct returns the new struct
-- beside its result. A status of 0 or 1 for success is `true`, -1 or 0 for failure is `false`, as each
-- file says. A pointer result is given by the element or the index it points at, NULL by `none`. In
-- the containers an element of `elem` bytes is one value of a type `A`, so copying `elem` bytes is one
-- assignment; comparison functions and `realloc`/`malloc` are arguments, the allocator as the answer
-- (an object or NULL) to a request for that many bytes; a table of Gmap takes three requests, told
-- apart by their place. The compiler's `__builtin_clz`, population
-- count and trailing-zero count are arguments; where a theorem relies on `clz` it has the behaviour
-- that include/ceres/bits.h documents as a hypothesis. Gmap takes the caller's hash and equality.
--
-- Fuel. The loops of utf8_length and utf8_valid take fuel; the number of bytes left is enough, since
-- every round moves on by one byte at least, and the theorem on utf8_valid states that it returns. The
-- loops of Lz take one round more than the bytes there are to read, since each reads a byte. A probe of
-- Gmap takes one round for each slot. The rejection loop of rng_range has no bound in the source: its
-- fuel is the caller's, and so is that of the functions that call it.
--
-- Not modelled: the devices and everything that only moves data to them, floating point, the
-- formatted input and output, and the parts listed as such in the manifest of this development.
pub mod Prelude
pub mod Utf8
pub mod Queue
pub mod Vector
pub mod Deque
pub mod Ctype
pub mod Str
pub mod Arena
pub mod Hash
pub mod Rand
pub mod Bitset
pub mod Color
pub mod Fixed
pub mod Gmap
pub mod Pool
pub mod Lz
pub mod Time
pub mod Sort
pub mod Flatmap
pub mod Heap
pub mod Bsearch
pub mod Utoa
