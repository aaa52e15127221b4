-- ===== src/Missions/Pool.antt =====
-- The warm pool of SAFE in runtime/c/plant_runtime.c (`plant_pool_spawn` .. `plant_safe_exit`). The
-- workers' names and channels are left out (for the channels see Channel), and so is
-- `plant_rw_recover_sweep`, which looks after processes and not after the pool. The clock is `now`.
pub mod Acquiring
use plant_lang.Prelude.{
  ℕ, zero, suc, ◌+◌, ◌-◌, ◌≡◌, Bool, true, false, not, ◌||◌, ◌&&◌, List, [], ◌∷◌, ◌++◌, map, Option,
  none, some, ltb, leb, ◌==◌, if◌then◌else◌, length, get_or, set, find_index,
}

pub data WorkerState : Type 0 where
  idle busy stalled dead : WorkerState

pub record Worker : Type 0 where
  pub state : WorkerState
  pub last_heartbeat : ℕ
  pub spawn_seq : ℕ
  pub busy_since : ℕ
  pub served_calls : ℕ

-- `workers` is g_pool[0 .. g_pool_count); `current` is the index of g_safe_current
pub record Pool : Type 0 where
  pub workers : List Worker
  pub cap : ℕ
  pub max : ℕ
  pub spawns : ℕ
  pub restarts : ℕ
  pub fallback : Bool
  pub served : ℕ
  pub current : Option ℕ
  pub inline_calls : ℕ
  pub pending_wait : ℕ

pub record SafeConfig : Type 0 where
  pub heartbeat_ms : ℕ
  pub response_ms : ℕ
  pub starvation_ms : ℕ

abbrev pub safe_max_workers : ℕ
safe_max_workers = 16

abbrev pub new_worker : ℕ → Worker
new_worker now = record {
  state = idle;
  last_heartbeat = now;
  spawn_seq = 0;
  busy_since = 0;
  served_calls = 0;
}

-- `plant_pool_spawn` that finds room
abbrev pub spawned : ℕ → Pool → Pool
spawned now p = record p { workers = p.workers ++ new_worker now ∷ []; spawns = suc p.spawns }

unfoldable pub spawn_all : ℕ → ℕ → Pool → Pool
spawn_all zero now p = p
spawn_all (suc n) now p =
    spawn_all n now (if ltb (length p.workers) safe_max_workers then spawned now p else p)

abbrev pub capped : ℕ → ℕ
capped n = if ltb safe_max_workers n then safe_max_workers else n

abbrev pub floored : ℕ → ℕ → ℕ
floored m n = if ltb n m then m else n

unfoldable pub pool_init : ℕ → Pool → Pool
unfolding spawn_all
pool_init now p =
    if ltb 0 (length p.workers)
    then p
    else let cap = capped (floored 1 p.cap) in
      spawn_all cap now (record p { cap = cap; max = capped (floored cap p.max) })

abbrev pub restarted : ℕ → Worker → Worker
restarted now w = record w {
  state = idle;
  busy_since = 0;
  last_heartbeat = now;
  spawn_seq = suc w.spawn_seq;
}

-- one worker in the round of `plant_pool_tick`, with 1 for a restart; an age below 0 counts as 0
unfoldable pub tick_worker : SafeConfig → ℕ → Worker → Worker × ℕ
tick_worker cfg now w = elim w.state [
  | dead ↦ (w, 0)
  | stalled ↦ if ltb cfg.response_ms (now - w.last_heartbeat) then (restarted now w, 1) else (w, 0)
  | idle ↦
      if ltb cfg.heartbeat_ms (now - w.last_heartbeat)
      then (record w { state = stalled; busy_since = 0 }, 0)
      else (w, 0)
  | busy ↦
      if ltb cfg.heartbeat_ms (now - w.last_heartbeat)
      then (record w { state = stalled; busy_since = 0 }, 0)
      else (w, 0)
]

unfoldable pub tick_all : SafeConfig → ℕ → List Worker → List Worker × ℕ
unfolding tick_worker
tick_all cfg now [] = ([], 0)
tick_all cfg now (w ∷ ws) =
    let (w', r) = tick_worker cfg now w in let (ws', rs) = tick_all cfg now ws in (w' ∷ ws', r + rs)

unfoldable pub pool_tick : SafeConfig → ℕ → Pool → Pool
unfolding tick_all
pool_tick cfg now p =
    let (ws, r) = tick_all cfg now p.workers in record p { workers = ws; restarts = p.restarts + r }

abbrev pub is_idle : Worker → Bool
is_idle w = elim w.state [ idle ↦ true | busy ↦ false | stalled ↦ false | dead ↦ false ]

abbrev pub serving : ℕ → Worker → Worker
serving now w = record w {
  state = busy;
  busy_since = now;
  served_calls = suc w.served_calls;
  last_heartbeat = now;
}

abbrev pub put_to_work : ℕ → ℕ → Pool → Pool
put_to_work i now p = record p {
  workers = set p.workers i (serving now (get_or p.workers i (new_worker now)));
}

-- where no worker is idle: a new one after a long wait, or none
unfoldable pub starve : SafeConfig → ℕ → Pool → Option ℕ × Pool
starve cfg now p =
    if ltb cfg.starvation_ms p.pending_wait
    then if ltb (length p.workers) p.max && ltb (length p.workers) safe_max_workers
      then (
        some (length p.workers),
        put_to_work (length p.workers) now (record (spawned now p) { pending_wait = 0 }),
      )
      else (none, record p { fallback = true; pending_wait = 0 })
    else (none, p)

unfoldable pub take_worker : SafeConfig → ℕ → Pool → Option ℕ × Pool
unfolding starve find_index
take_worker cfg now p = elim (find_index is_idle p.workers) [
  | some i ↦ (some i, put_to_work i now p)
  | none ↦ starve cfg now p
]

unfoldable pub pool_acquire : SafeConfig → ℕ → Pool → Option ℕ × Pool
unfolding pool_init pool_tick take_worker
pool_acquire cfg now p = take_worker cfg now (pool_tick cfg now (pool_init now p))

abbrev bound : Option ℕ × Pool → Pool
bound (some i, p) = record p { current = some i; served = suc p.served }
bound (none, p) = record p {
  current = none;
  inline_calls = suc p.inline_calls;
  fallback = true;
  served = suc p.served;
}

-- what `plant_safe_enter` and `plant_safe_exit` do to the pool
unfoldable pub pool_enter : SafeConfig → ℕ → Pool → Pool
unfolding pool_acquire
pool_enter cfg now p = bound (pool_acquire cfg now p)

abbrev pub rested : ℕ → Worker → Worker
rested now w = record w { state = idle; busy_since = 0; last_heartbeat = now }

unfoldable pub pool_exit : ℕ → Pool → Pool
pool_exit now p = elim p.current [
  | none ↦ p
  | some i ↦ record p {
    workers = set p.workers i (rested now (get_or p.workers i (new_worker now)));
    current = none;
  }
]
