-- ===== src/Missions/Router/Partition.antt =====
-- The chunks of a data set, and the pool that serves them.
use plant_lang.Prelude.{
  ◌⊎◌, ℕ, zero, suc, ◌+◌, ◌-◌, ◌*◌, ◌/◌, ◌%◌, ◌≤◌, ◌<◌, ◌≡◌, refl, sym, ap, ◌∙◌, subst, true, false,
  ◌&&◌, List, [], ◌∷◌, ltb, length, arith, Bool-cases, inl, inr, length-append, length-set,
  length-replicate, get_or,
}
use native.Mathlib.Nat.{mod-lt}
use plant_lang.Missions.Router.{
  VecPool, SmartConfig, Chunk, max_workers, idle, at_most, pool_cap_of, pool_max_of, vec_init,
  smart_route, one_more, expand_pool, fall_back, serving, serve, dispatch, run_chunks,
  smart_dispatch,
}

-- A pool that has no worker too many and, once it is set up, at least one.
pub record IsPool (p : VecPool) : Type 0 where
  pub some_worker : 0 < p.cap → 0 < length p.workers
  pub within : 0 < p.cap → length p.workers ≤ p.max
  pub max_small : p.max ≤ 16

-- The chunks follow one another from `lo` to `size`, none is empty or longer than `chunk`, and each
-- has a worker of the pool, taken in turn.
unfoldable pub Covers : ℕ → ℕ → ℕ → ℕ → ℕ → List Chunk → Type 0
Covers chunk workers size lo idx [] = size ≤ lo
Covers chunk workers size lo idx (c ∷ cs) =
    (c.lo ≡ lo)
    × (lo < c.hi)
    × (c.hi ≤ lo + chunk)
    × (c.hi ≤ size)
    × (c.worker ≡ idx % workers)
    × (c.worker < workers)
    × Covers chunk workers size c.hi (suc idx) cs

record Dispatched (chunk size lo idx : ℕ) (p : VecPool) (r : List Chunk × VecPool) : Type 0 where
  covers : Covers chunk (length p.workers) size lo idx r.0
  count : length r.1.workers ≡ length p.workers
  served : r.1.served ≡ p.served + length r.0
  same : (r.1.max ≡ p.max) × (r.1.cap ≡ p.cap) × (r.1.fallback ≡ p.fallback)

dispatch_lem :
    (rounds chunk size lo idx : ℕ) (p : VecPool)
    → 0 < chunk
    → 0 < length p.workers
    → size ≤ lo + rounds
    → Dispatched chunk size lo idx p (dispatch rounds chunk size lo idx p)
unfolding dispatch Covers
dispatch_lem zero chunk size lo idx p pos some_w enough = record {
  covers = omega arith;
  count = refl;
  served = omega arith;
  same = (refl, refl, refl);
}
dispatch_lem (suc rounds) chunk size lo idx p pos some_w enough = elim (Bool-cases (ltb lo size)) [
  | inr over ↦
      rw (dispatch, over)
        (record {
          covers = ground arith;
          count = refl;
          served = omega arith;
          same = (refl, refl, refl);
        })
  | inl more ↦
      let hi = at_most size (lo + chunk) in
      let w = idx % length p.workers in
      let keep = length-set p.workers w (serving (get_or p.workers w idle)) in
      let up : lo < hi = ground arith in
      let top : (hi ≤ lo + chunk) × (hi ≤ size) = ground arith in
      let r =
        dispatch_lem rounds chunk size hi (suc idx) (serve w p) pos (omega arith) (omega arith) in
      rw (dispatch, more)
        (record {
          covers = (
            refl,
            up,
            top.0,
            top.1,
            refl,
            mod-lt idx some_w,
            subst
                (λ n.
                  Covers chunk n size hi (suc idx)
                    (dispatch rounds chunk size hi (suc idx) (serve w p)).0)
                keep r.covers,
          );
          count = r.count ∙ keep;
          served = let s = r.served in omega arith;
          same = r.same;
        })
]

-- The growth ends with the pool large enough for the queue, or as large as it may be.
record Expanded (p q : VecPool) : Type 0 where
  grown : length p.workers ≤ length q.workers
  within : length q.workers ≤ q.max
  enough : (q.queue ≤ length q.workers * 2) ⊎ (length q.workers ≡ q.max)
  same :
      (q.max ≡ p.max)
      × (q.cap ≡ p.cap)
      × (q.queue ≡ p.queue)
      × (q.served ≡ p.served)
      × (q.fallback ≡ p.fallback)

expand_lem :
    (rounds : ℕ) (p : VecPool)
    → length p.workers ≤ p.max
    → p.max ≤ length p.workers + rounds
    → Expanded p (expand_pool rounds p)
unfolding expand_pool
expand_lem zero p le enough = record {
  grown = omega arith;
  within = le;
  enough = inr (omega arith);
  same = (refl, refl, refl, refl, refl);
}
expand_lem (suc rounds) p le enough =
    elim (Bool-cases (ltb (length p.workers * 2) p.queue && ltb (length p.workers) p.max)) [
      | inr stop ↦
          rw (expand_pool, stop)
            (record {
              grown = omega arith;
              within = le;
              enough = elim (Bool-cases (ltb (length p.workers * 2) p.queue)) [
                | inl busy ↦ inr (ground arith)
                | inr calm ↦ inl (ground arith)
              ];
              same = (refl, refl, refl, refl, refl);
            })
      | inl go ↦
          let n = length-append p.workers (idle ∷ []) in
          let lt : length p.workers < p.max = ground arith in
          let r = expand_lem rounds (one_more p) (omega arith) (omega arith) in
          rw (expand_pool, go)
            (record {
              grown = let g = r.grown in omega arith;
              within = r.within;
              enough = r.enough;
              same = r.same;
            })
    ]

init-IsPool :
    (cfg : SmartConfig) (p : VecPool)
    → IsPool p
    → IsPool (vec_init cfg p) × (0 < (vec_init cfg p).cap)
unfolding vec_init
init-IsPool cfg p f = elim (Bool-cases (ltb 0 p.cap)) [
  | inl on ↦ rw (vec_init, on) (f, ground arith)
  | inr off ↦
      let n = length-replicate (pool_cap_of cfg) idle in
      let m = f.max_small in
      let small : (pool_cap_of cfg ≤ pool_max_of cfg p.max)
          × (pool_max_of cfg p.max ≤ 16)
          × (0 < pool_cap_of cfg) =
        ground arith in
      rw (vec_init, off)
        (
          record { some_worker = λ _. omega arith; within = λ _. omega arith; max_small = small.1 },
          small.2,
        )
]

-- What the parallel route promises.
pub record Routed (cfg : SmartConfig) (size : ℕ) (p : VecPool) (r : List Chunk × VecPool)
    : Type 0 where
  pub covers : Covers cfg.chunk_size (length r.1.workers) size 0 0 r.0
  pub pool : IsPool r.1
  pub served : r.1.served ≡ p.served + length r.0
  pub drained : r.1.queue ≡ 0
  pub falls :
      ((size + cfg.chunk_size - 1) / cfg.chunk_size ≤ length r.1.workers * 2)
        × (r.1.fallback ≡ p.fallback)
      ⊎ (length r.1.workers * 2 < (size + cfg.chunk_size - 1) / cfg.chunk_size)
        × (length r.1.workers ≡ r.1.max)
        × (r.1.fallback ≡ suc p.fallback)

run_lem :
    (cfg : SmartConfig) (size : ℕ) (p : VecPool)
    → 0 < cfg.chunk_size
    → IsPool p
    → 0 < p.cap
    → Routed cfg size p (run_chunks cfg size p)
unfolding run_chunks fall_back
run_lem cfg size p pos f on =
    let chunks = (size + cfg.chunk_size - 1) / cfg.chunk_size in
    let queued = record p { queue = chunks } in
    let m = f.max_small in
    let some_w = f.some_worker on in
    let within = f.within on in
    let e = expand_lem max_workers queued within (omega arith) in
    let q = expand_pool max_workers queued in
    let g = e.grown in
    let (em, ec, eq, es, ef) = e.same in
    elim (Bool-cases (ltb (length q.workers * 2) q.queue)) [
      | inl over ↦
          let q' = record q { fallback = suc q.fallback } in
          let d = dispatch_lem size cfg.chunk_size size 0 0 q' pos (omega arith) (omega arith) in
          let full : length q.workers ≡ q.max = elim e.enough [
            | inl a ↦ absurd (ground arith)
            | inr b ↦ b
          ] in
          rw (fall_back, over)
            (finish q' (dispatch size cfg.chunk_size size 0 0 q') d
              (inr (
                let (a, b, c) = d.same in
                let n = d.count in (ground arith, omega arith, c ∙ ap suc ef)))
              (omega arith) (let w = e.within in omega arith) em es)
      | inr fits ↦
          let d = dispatch_lem size cfg.chunk_size size 0 0 q pos (omega arith) (omega arith) in
          rw (fall_back, fits)
            (finish q (dispatch size cfg.chunk_size size 0 0 q) d
              (inl (let (a, b, c) = d.same in let n = d.count in (ground arith, c ∙ ef)))
              (omega arith) (let w = e.within in omega arith) em es)
    ]
  where
    finish :
        (q : VecPool) (r : List Chunk × VecPool)
        → Dispatched cfg.chunk_size size 0 0 q r
        → ((size + cfg.chunk_size - 1) / cfg.chunk_size ≤ length r.1.workers * 2)
            × (r.1.fallback ≡ p.fallback)
          ⊎ (length r.1.workers * 2 < (size + cfg.chunk_size - 1) / cfg.chunk_size)
            × (length r.1.workers ≡ r.1.max)
            × (r.1.fallback ≡ suc p.fallback)
        → 0 < length q.workers
        → length q.workers ≤ q.max
        → q.max ≡ p.max
        → q.served ≡ p.served
        → Routed cfg size p (r.0, record r.1 { queue = 0 })
    finish q r d falls some_w within em es = record {
      covers = subst (λ n. Covers cfg.chunk_size n size 0 0 r.0) (sym d.count) d.covers;
      pool = record {
        some_worker = λ _. let n = d.count in omega arith;
        within = λ _. let n = d.count in let (a, b, c) = d.same in omega arith;
        max_small = let (a, b, c) = d.same in let m = f.max_small in omega arith;
      };
      served = let s = d.served in omega arith;
      drained = refl;
      falls = falls;
    }

-- Where the chunk size is not 0 and the pool keeps to its limits: a data set below the scalar limit
-- runs inline and changes nothing. From the limit on it is cut into chunks that cover it without gap
-- or overlap, none empty and none longer than the chunk size, served by the workers in turn. The pool
-- never exceeds its limit or 16 workers; the fallback is counted exactly where the pool, grown to its
-- limit, still has more than two chunks for each worker.
pub smart_dispatch-Routed :
    (cfg : SmartConfig) (size : ℕ) (p : VecPool)
    → 0 < cfg.chunk_size
    → IsPool p
    → (size < cfg.scalar_limit → smart_dispatch cfg size p ≡ ([], p))
      × (cfg.scalar_limit ≤ size → Routed cfg size p (smart_dispatch cfg size p))
unfolding smart_dispatch smart_route
smart_dispatch-Routed cfg size p pos f = (
  λ small.
      let t : ltb size cfg.scalar_limit ≡ true = ground arith in
      rw (smart_dispatch, smart_route, t) refl,
  λ large.
      let t : ltb size cfg.scalar_limit ≡ false = ground arith in
      let (g, on) = init-IsPool cfg p f in
      let r = run_lem cfg size (vec_init cfg p) pos g on in
      let (same_served, same_falls) = init_counts in
      rw (smart_dispatch, smart_route, t)
        (record {
          covers = r.covers;
          pool = r.pool;
          served =
              r.served ∙ ap (λ n. n + length (run_chunks cfg size (vec_init cfg p)).0) same_served;
          drained = r.drained;
          falls = elim r.falls [
            | inl (a, b) ↦ inl (a, b ∙ same_falls)
            | inr (o, a, b) ↦ inr (o, a, b ∙ ap suc same_falls)
          ];
        }),
)
  where
    init_counts : ((vec_init cfg p).served ≡ p.served) × ((vec_init cfg p).fallback ≡ p.fallback)
    init_counts = elim (Bool-cases (ltb 0 p.cap)) [
      | inl on ↦ unfold vec_init in rw on (refl, refl)
      | inr off ↦ unfold vec_init in rw off (refl, refl)
    ]
