-- ===== src/Tests/Arena.antt =====
-- An arena that takes a second segment, is freed, and takes its segments back from the cache.
use plant_lang.Prelude.{◌≡◌, refl, true, false, List, [], ◌∷◌, arith, times}
use plant_lang.Memory.Arena.{Arena, Segments}
use plant_lang.Memory.Arena.Fitting.{used_of, cap_of}
use plant_lang.Memory.Arena.Blocks.{IsArena, Inside, Apart}
use plant_lang.Memory.Arena.Runs.{ArenaCall, alloc, free, arena_run, arena_run-IsArena}

abbrev empty_arena : Arena
empty_arena = record { segs = []; seg_size = 1048576; hits = 0; misses = 0 }

abbrev no_segments : Segments
no_segments = record { cache = []; cache_max = 64; seg_size = 1048576; next = 0 }

empty_arena-IsArena : IsArena [] empty_arena no_segments
unfolding Inside Apart used_of cap_of times
empty_arena-IsArena = record {
  once = λ id. omega arith;
  fresh = λ id h. refl;
  within = λ id. omega arith;
  inside = tt;
  apart = tt;
}

abbrev arena_calls : List ArenaCall
arena_calls =
    alloc true 100
    ∷ alloc true 50
    ∷ alloc true 1048576
    ∷ free
    ∷ alloc true 30
    ∷ alloc true 20
    ∷ alloc false 2000000
    ∷ []

-- the oldest segment is on top of the cache, since the arena lets go of the newest first
arena_calls_run :
    (arena_run arena_calls [] empty_arena no_segments).0
    ≡ (record { seg = 0; off = 30; len = 20 } ∷ record { seg = 0; off = 0; len = 30 } ∷ [])
unfolding arena_run
arena_calls_run = refl

arena_run-IsArena_example :
    IsArena
      (arena_run arena_calls [] empty_arena no_segments).0
      (arena_run arena_calls [] empty_arena no_segments).1
      (arena_run arena_calls [] empty_arena no_segments).2
arena_run-IsArena_example =
    arena_run-IsArena arena_calls [] empty_arena no_segments empty_arena-IsArena
