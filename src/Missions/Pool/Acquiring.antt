-- ===== src/Missions/Pool/Acquiring.antt =====
-- Which worker an entry into SAFE gets.
use plant_lang.Prelude.{
  ℕ, zero, suc, ◌+◌, ◌≤◌, ◌<◌, ◌≡◌, ◌≢◌, refl, sym, ap, ◌∙◌, true, false, ◌&&◌, List, [], ◌∷◌, ◌++◌,
  Option, none, some, ltb, length, get_or, find_index, arith, Bool-cases, Option-cases, inl, inr,
  ◌⊎◌, length-append, length-set, get_or-set_self, get_or-set_ne, get_or-append_left,
  find_index-times, find_index-Found, times-get_or,
}
use plant_lang.Missions.Pool.{
  busy, Worker, Pool, SafeConfig, safe_max_workers, new_worker, spawned, spawn_all, capped, floored,
  pool_init, tick_all, pool_tick, is_idle, serving, put_to_work, starve, take_worker, pool_acquire,
}

-- What a pool that handed out `r` may be, where `q` is the pool behind the tick.
abbrev pub at : List Worker → ℕ → Worker
at ws i = get_or ws i (new_worker 0)

pub record Takes (q : Pool) (i : ℕ) (p : Pool) : Type 0 where
  pub there : i < length p.workers
  pub works : (at p.workers i).state ≡ busy
  pub was_free :
      ((i < length q.workers) × (is_idle (at q.workers i) ≡ true)) ⊎ (i ≡ length q.workers)
  pub others : (j : ℕ) → j ≢ i → j < length q.workers → at p.workers j ≡ at q.workers j

pub Acquires : SafeConfig → Pool → Option ℕ × Pool → Type 0
Acquires cfg q (some i, p) = Takes q i p
Acquires cfg q (none, p) =
    (p.workers ≡ q.workers)
    × ((j : ℕ) → j < length q.workers → is_idle (at q.workers j) ≡ false)
    × ((q.pending_wait ≤ cfg.starvation_ms)
        ⊎ ((q.max ≤ length q.workers) ⊎ (16 ≤ length q.workers)))

find_index-lt :
    (ws : List Worker) (i : ℕ)
    → find_index is_idle ws ≡ some i
    → (i < length ws) × (is_idle (at ws i) ≡ true)
find_index-lt ws i e = let f = find_index-Found is_idle (new_worker 0) ws i e in (f.below, f.hit)

none_idle :
    (ws : List Worker)
    → find_index is_idle ws ≡ none
    → (j : ℕ) → j < length ws
    → is_idle (at ws j) ≡ false
none_idle ws e j h = elim (Bool-cases (is_idle (at ws j))) [
  | inl y ↦
      let a = find_index-times is_idle ws e in
      let b = times-get_or is_idle (new_worker 0) ws j h y in absurd (omega arith)
  | inr n ↦ n
]

put-Takes :
    (q p : Pool) (i now : ℕ)
    → i < length p.workers
    → ((i < length q.workers) × (is_idle (at q.workers i) ≡ true)) ⊎ (i ≡ length q.workers)
    → ((j : ℕ) → j < length q.workers → at p.workers j ≡ at q.workers j)
    → Takes q i (put_to_work i now p)
put-Takes q p i now lt free same =
    let new = serving now (get_or p.workers i (new_worker now)) in
    record {
      there = let l = length-set p.workers i new in omega arith;
      works = ap (λ (w : Worker). w.state) (get_or-set_self p.workers i new (new_worker 0) lt);
      was_free = free;
      others = λ j n h. get_or-set_ne p.workers i j new (new_worker 0) (λ e. n (sym e)) ∙ same j h;
    }

take-Acquires : (cfg : SafeConfig) (now : ℕ) (q : Pool) → Acquires cfg q (take_worker cfg now q)
unfolding take_worker starve Acquires
take-Acquires cfg now q = elim (Option-cases (find_index is_idle q.workers)) [
  | inr (i, e) ↦
      let (lt, y) = find_index-lt q.workers i e in
      rw (take_worker, e) (put-Takes q q i now lt (inl (lt, y)) (λ j h. refl))
  | inl e ↦ elim (Bool-cases (ltb cfg.starvation_ms q.pending_wait)) [
    | inr calm ↦ rw (take_worker, e, starve, calm) (refl, none_idle q.workers e, inl (ground arith))
    | inl waits ↦
        elim (Bool-cases
          (ltb (length q.workers) q.max && ltb (length q.workers) safe_max_workers)) [
            | inl room ↦
                let l = length-append q.workers (new_worker now ∷ []) in
                rw (take_worker, e, starve, waits, room)
                  (put-Takes q (record (spawned now q) { pending_wait = 0 }) (length q.workers) now
                    (omega arith) (inr refl)
                    (λ j h. get_or-append_left q.workers (new_worker now ∷ []) j (new_worker 0) h))
            | inr full ↦
                rw (take_worker, e, starve, waits, full)
                  (refl, none_idle q.workers e, inr (crowded full))
          ]
  ]
]
  where
    crowded :
        (ltb (length q.workers) q.max && ltb (length q.workers) safe_max_workers) ≡ false
        → (q.max ≤ length q.workers) ⊎ (16 ≤ length q.workers)
    crowded h = elim (Bool-cases (ltb (length q.workers) q.max)) [
      | inl y ↦ inr (ground arith)
      | inr n ↦ inl (ground arith)
    ]

-- The pool has at least one worker and at most `max`, which is at most 16.
pub record IsStaffed (p : Pool) : Type 0 where
  pub any : 0 < length p.workers
  pub within : length p.workers ≤ p.max
  pub small : p.max ≤ 16

spawn_all_lem :
    (n now : ℕ) (p : Pool)
    → length p.workers + n ≤ 16
    → (length (spawn_all n now p).workers ≡ length p.workers + n)
      × ((spawn_all n now p).max ≡ p.max)
unfolding spawn_all
spawn_all_lem zero now p h = (omega arith, refl)
spawn_all_lem (suc n) now p h =
    let t : ltb (length p.workers) safe_max_workers ≡ true = ground arith in
    let l = length-append p.workers (new_worker now ∷ []) in
    let r = spawn_all_lem n now (spawned now p) (omega arith) in
    rw (spawn_all, t) (omega arith, r.1)

init-IsStaffed :
    (now : ℕ) (p : Pool) → (0 < length p.workers → IsStaffed p) → IsStaffed (pool_init now p)
unfolding pool_init
init-IsStaffed now p f = elim (Bool-cases (ltb 0 (length p.workers))) [
  | inl on ↦ rw (pool_init, on) (f (ground arith))
  | inr off ↦
      let cap = capped (floored 1 p.cap) in
      let top = capped (floored cap p.max) in
      let sizes : (0 < cap) × (cap ≤ top) × (top ≤ 16) = ground arith in
      let (l, m) = spawn_all_lem cap now (record p { cap = cap; max = top }) (ground arith) in
      rw (pool_init, off)
        (record {
          any = let s = sizes.0 in ground arith;
          within = ground arith;
          small = ground arith;
        })
]

length-tick_all :
    (cfg : SafeConfig) (now : ℕ) (ws : List Worker) → length (tick_all cfg now ws).0 ≡ length ws
unfolding tick_all
length-tick_all cfg now [] = refl
length-tick_all cfg now (w ∷ ws) = ap suc (length-tick_all cfg now ws)

take-IsStaffed :
    (cfg : SafeConfig) (now : ℕ) (q : Pool) → IsStaffed q → IsStaffed (take_worker cfg now q).1
unfolding take_worker starve
take-IsStaffed cfg now q f = elim (Option-cases (find_index is_idle q.workers)) [
  | inr (i, e) ↦
      let l = length-set q.workers i (serving now (get_or q.workers i (new_worker now))) in
      rw (take_worker, e)
        (record {
          any = let a = f.any in omega arith;
          within = let a = f.within in omega arith;
          small = f.small;
        })
  | inl e ↦ elim (Bool-cases (ltb cfg.starvation_ms q.pending_wait)) [
    | inr calm ↦ rw (take_worker, e, starve, calm) f
    | inl waits ↦
        elim (Bool-cases
          (ltb (length q.workers) q.max && ltb (length q.workers) safe_max_workers)) [
            | inl room ↦
                let ws = q.workers ++ new_worker now ∷ [] in
                let l = length-append q.workers (new_worker now ∷ []) in
                let k =
                  length-set ws (length q.workers)
                    (serving now (get_or ws (length q.workers) (new_worker now))) in
                rw (take_worker, e, starve, waits, room)
                  (record { any = omega arith; within = ground arith; small = f.small })
            | inr full ↦
                rw (take_worker, e, starve, waits, full)
                  (record { any = f.any; within = f.within; small = f.small })
          ]
  ]
]

-- An entry into SAFE, where the pool is empty or has between one and `g_pool_max` workers, at most 16,
-- gets a worker that is idle after the tick, or one that was just added; that worker is busy then and
-- every other one is as the tick left it. It gets none only where no worker is idle and either the
-- wait was not longer than the starvation limit or the pool is full. The pool then has between one and
-- `g_pool_max` workers, at most 16.
pub pool_acquire-Acquires :
    (cfg : SafeConfig) (now : ℕ) (p : Pool)
    → (0 < length p.workers → IsStaffed p)
    → Acquires cfg (pool_tick cfg now (pool_init now p)) (pool_acquire cfg now p)
      × IsStaffed (pool_acquire cfg now p).1
unfolding pool_acquire pool_tick
pool_acquire-Acquires cfg now p f =
    let i = init-IsStaffed now p f in
    let l = length-tick_all cfg now (pool_init now p).workers in
    let q = pool_tick cfg now (pool_init now p) in
    let staffed : IsStaffed q = record {
      any = let a = i.any in omega arith;
      within = let a = i.within in omega arith;
      small = i.small;
    } in
    (take-Acquires cfg now q, take-IsStaffed cfg now q staffed)
