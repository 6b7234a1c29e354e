-- ===== src/Rand/Tests.antt =====
-- A generator that has drawn two numbers.
use ceres_standard_library.Rand.{rng_seed, rng_u32}
use ceres_standard_library.Rand.Live.{Live, seeded, drawn, Reached-Live}

Reached-Live_example : Live ((rng_u32 ((rng_u32 (rng_seed 7)).0)).0)
Reached-Live_example = Reached-Live (drawn (drawn (seeded 7)))
