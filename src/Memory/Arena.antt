-- ===== src/Memory/Arena.antt =====
-- The segmented arenas of runtime/c/plant_runtime.c (`plant_arena_alloc`, `plant_arena_free`). A
-- segment is named by a number, which `next` gives to those from `malloc`; a block is its segment, its
-- offset and its length. The counts of live bytes and of hits over all arenas are left out, and the
-- rates of misses are compared without rounding.
pub mod Fitting
pub mod Blocks
pub mod Runs
use plant_lang.Prelude.{
  ℕ, zero, suc, ◌+◌, ◌-◌, ◌*◌, ◌/◌, ◌^◌, Bool, true, false, ◌&&◌, List, [], ◌∷◌, Option, none, some,
  ltb, leb, if◌then◌else◌,
}

pub record Seg : Type 0 where
  pub id : ℕ
  pub cap : ℕ
  pub used : ℕ
  pub refs : ℕ

pub record Arena : Type 0 where
  pub segs : List Seg
  pub seg_size : ℕ
  pub hits : ℕ
  pub misses : ℕ

-- the segments that wait to be used again, how many more may, and the size that new arenas get
pub record Segments : Type 0 where
  pub cache : List Seg
  pub cache_max : ℕ
  pub seg_size : ℕ
  pub next : ℕ

pub record Block : Type 0 where
  pub seg : ℕ
  pub off : ℕ
  pub len : ℕ

abbrev pub keep_seg : Seg → Option (Block × List Seg) → Option (Block × List Seg)
keep_seg s none = none
keep_seg s (some (b, ss)) = some (b, s ∷ ss)

-- the loop over the segments of the arena
unfoldable pub fit : ℕ → List Seg → Option (Block × List Seg)
fit n [] = none
fit n (s ∷ ss) =
    let rest = fit n ss in
    if leb (s.used + n) s.cap
    then some (record { seg = s.id; off = s.used; len = n }, record s { used = s.used + n } ∷ ss)
    else keep_seg s rest

abbrev pub keep_cached : Seg → Option (Seg × List Seg) → Option (Seg × List Seg)
keep_cached s none = none
keep_cached s (some (c, ss)) = some (c, s ∷ ss)

-- the loop over the cache
unfoldable pub take_cached : ℕ → List Seg → Option (Seg × List Seg)
take_cached cap [] = none
take_cached cap (c ∷ cs) =
    let rest = take_cached cap cs in if leb cap c.cap then some (c, cs) else keep_cached c rest

abbrev pub wanted : ℕ → Arena → ℕ
wanted n a = if ltb a.seg_size n then n else a.seg_size

abbrev pub first_block : ℕ → ℕ → Block
first_block id n = record { seg = id; off = 0; len = n }

unfoldable pub arena_miss : Bool → ℕ → Arena → Segments → Option Block × Arena × Segments
unfolding take_cached
arena_miss memory n a g = elim (take_cached (wanted n a) g.cache) [
  | some (c, rest) ↦ (
    some (first_block c.id n),
    record a { segs = record c { used = n; refs = 1 } ∷ a.segs },
    record g { cache = rest },
  )
  | none ↦
      if memory
      then (
        some (first_block g.next n),
        record a { segs = record { id = g.next; cap = wanted n a; used = n; refs = 1 } ∷ a.segs },
        record g { next = suc g.next },
      )
      else (none, a, g)
]

-- `memory` tells whether `malloc` succeeds
unfoldable pub arena_alloc : Bool → ℕ → Arena → Segments → Option Block × Arena × Segments
unfolding fit arena_miss
arena_alloc memory n a g = elim (fit n a.segs) [
  | some (b, ss) ↦ (some b, record a { segs = ss; hits = suc a.hits }, g)
  | none ↦ arena_miss memory n (record a { misses = suc a.misses }) g
]

-- the size that the arena asks for from now on
abbrev pub resized : Arena → ℕ
resized a =
    if ltb 0 (a.hits + a.misses)
    then if ltb (8 * (a.hits + a.misses)) (a.misses * 100) && ltb a.seg_size (2 ^ 20)
      then a.seg_size * 2
      else if ltb (a.misses * 100) (2 * (a.hits + a.misses)) && ltb 256 a.seg_size
      then a.seg_size / 2
      else a.seg_size
    else a.seg_size

abbrev pub raised : ℕ → Segments → Segments
raised size g =
    if ltb g.seg_size size && ltb g.seg_size (2 ^ 20) then record g { seg_size = size } else g

abbrev pub let_go : Seg → Segments → Segments
let_go s g =
    if leb s.refs 1
    then if ltb 0 g.cache_max
      then record g {
        cache_max = g.cache_max - 1;
        cache = record s { refs = s.refs - 1 } ∷ g.cache;
      }
      else g
    else g

unfoldable pub let_go_all : List Seg → Segments → Segments
let_go_all [] g = g
let_go_all (s ∷ ss) g = let_go_all ss (let_go s g)

unfoldable pub arena_free : Arena → Segments → Arena × Segments
unfolding let_go_all
arena_free a g =
    (record a { segs = []; seg_size = resized a }, let_go_all a.segs (raised (resized a) g))
