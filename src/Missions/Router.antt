-- ===== src/Missions/Router.antt =====
-- The router of SMART in runtime/c/plant_runtime.c (`plant_vec_init`, `plant_smart_route`,
-- `plant_smart_enter`): the pool of vector workers and the chunks that it hands out. What
-- `plant_smart_enter` writes to the audit log for each chunk is the list `chunks`; the other log
-- entries are left out. `cores` is what `plant_cpu_cores` gives.
pub mod Partition
use plant_lang.Prelude.{
  ℕ, zero, suc, ◌+◌, ◌-◌, ◌*◌, ◌/◌, ◌%◌, ◌≡◌, Bool, true, false, not, ◌||◌, ◌&&◌, List, [], ◌∷◌,
  ◌++◌, Option, none, some, ltb, leb, ◌==◌, if◌then◌else◌, length, get_or, set, replicate,
}

pub record VecWorker : Type 0 where
  pub busy : Bool
  pub served_chunks : ℕ

-- `workers` is g_vec[0 .. g_vec_count)
pub record VecPool : Type 0 where
  pub workers : List VecWorker
  pub cap : ℕ
  pub max : ℕ
  pub queue : ℕ
  pub spawns : ℕ
  pub served : ℕ
  pub expands : ℕ
  pub fallback : ℕ

pub record SmartConfig : Type 0 where
  pub scalar_limit : ℕ
  pub chunk_size : ℕ
  pub pool_cap : ℕ
  pub pool_max : ℕ
  pub cores : ℕ

-- `lo`, `hi` and the worker of one chunk
pub record Chunk : Type 0 where
  pub lo : ℕ
  pub hi : ℕ
  pub worker : ℕ

abbrev pub max_workers : ℕ
max_workers = 16

abbrev pub idle : VecWorker
idle = record { busy = false; served_chunks = 0 }

abbrev pub at_most : ℕ → ℕ → ℕ
at_most m v = if ltb m v then m else v

abbrev pub at_least : ℕ → ℕ → ℕ
at_least m v = if ltb v m then m else v

abbrev pub pool_cap_of : SmartConfig → ℕ
pool_cap_of cfg =
    at_most max_workers (at_least 1 (if cfg.pool_cap == 0 then cfg.cores else cfg.pool_cap))

abbrev pub pool_max_of : SmartConfig → ℕ → ℕ
pool_max_of cfg m =
    at_most max_workers (at_least (pool_cap_of cfg) (if cfg.pool_max == 0 then m else cfg.pool_max))

unfoldable pub vec_init : SmartConfig → VecPool → VecPool
vec_init cfg p = if ltb 0 p.cap then p else record p {
  cap = pool_cap_of cfg;
  max = pool_max_of cfg p.max;
  workers = replicate (pool_cap_of cfg) idle;
  spawns = pool_cap_of cfg;
}

-- `true` for the parallel route
unfoldable pub smart_route : SmartConfig → ℕ → VecPool → Bool × VecPool
unfolding vec_init
smart_route cfg size p = if ltb size cfg.scalar_limit then (false, p) else (true, vec_init cfg p)

abbrev pub one_more : VecPool → VecPool
one_more p = record p {
  workers = p.workers ++ idle ∷ [];
  spawns = suc p.spawns;
  expands = suc p.expands;
}

-- the loop that grows the pool, with the rounds that it may take
unfoldable pub expand_pool : ℕ → VecPool → VecPool
expand_pool zero p = p
expand_pool (suc rounds) p =
    elim (ltb (length p.workers * 2) p.queue && ltb (length p.workers) p.max) [
      | true ↦ expand_pool rounds (one_more p)
      | false ↦ p
    ]

unfoldable pub fall_back : VecPool → VecPool
fall_back p =
    if ltb (length p.workers * 2) p.queue then record p { fallback = suc p.fallback } else p

abbrev pub serving : VecWorker → VecWorker
serving w = record { busy = true; served_chunks = suc w.served_chunks }

abbrev pub serve : ℕ → VecPool → VecPool
serve w p = record p {
  workers = set p.workers w (serving (get_or p.workers w idle));
  served = suc p.served;
}

-- the loop that hands out the chunks from `lo` on, with the rounds that it may take
unfoldable pub dispatch : ℕ → ℕ → ℕ → ℕ → ℕ → VecPool → List Chunk × VecPool
dispatch zero chunk size lo idx p = ([], p)
dispatch (suc rounds) chunk size lo idx p = elim (ltb lo size) [
  | false ↦ ([], p)
  | true ↦
      let hi = at_most size (lo + chunk) in
      let w = idx % length p.workers in
      let (cs, p') = dispatch rounds chunk size hi (suc idx) (serve w p) in
      (record { lo = lo; hi = hi; worker = w } ∷ cs, p')
]

-- what the parallel route does
unfoldable pub run_chunks : SmartConfig → ℕ → VecPool → List Chunk × VecPool
unfolding expand_pool fall_back dispatch
run_chunks cfg size p =
    let queued = record p { queue = (size + cfg.chunk_size - 1) / cfg.chunk_size } in
    let (cs, p') =
      dispatch size cfg.chunk_size size 0 0 (fall_back (expand_pool max_workers queued)) in
    (cs, record p' { queue = 0 })

unfoldable pub smart_dispatch : SmartConfig → ℕ → VecPool → List Chunk × VecPool
unfolding smart_route run_chunks
smart_dispatch cfg size p =
    let (parallel, p1) = smart_route cfg size p in
    if parallel then run_chunks cfg size p1 else ([], p1)
