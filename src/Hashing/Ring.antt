-- ===== src/Hashing/Ring.antt =====
-- The consistent-hash ring of runtime/c/plant_runtime.c (`plant_dist_hash` .. `plant_dist_init`).
-- The parallel arrays `g_dist_ring` and `g_dist_ring_node` are one list of points, as long as
-- `g_dist_ring_n` says.
pub mod Sorting
pub mod Placement
use Prim.Native.Nat.{bit_xor}
use plant_lang.Prelude.{
  decimal_from, ℕ, zero, suc, ◌+◌, ◌-◌, ◌*◌, ◌/◌, ◌%◌, ◌^◌, ◌≤◌, ◌<◌, ◌≡◌, ◌≢◌, ◌↔◌, refl, sym, ap,
  ap₂, ◌∙◌, subst, Bool, true, false, not, ◌||◌, ◌&&◌, List, [], ◌∷◌, ◌++◌, map, append-nil,
  append_assoc, Option, none, some, arith, ltb, leb, ◌==◌, ==_iff, if◌then◌else◌, length, get_or,
  set, take, replicate, length-append, length-set, length-replicate, get_or-set_self, get_or-set_ne,
  get_or-append_left, get_or-append_right, get_or-replicate, take-append, bit_and, Text, codes,
  str_eq, str_eq_iff, str_eq_refl, Bool-cases, ◌⊎◌, inl, inr, times, to_nat, times-set,
  times-append, find_index, Option-cases, ℤ, pos, negsuc, min, max, add-one,
}

-- FNV-1a on 64 bits
pub fnv_from : ℕ → Text → ℕ
fnv_from h [] = h
fnv_from h (c ∷ cs) = fnv_from (bit_xor h c * 1099511628211 % 2 ^ 64) cs

unfoldable pub dist_hash : Option Text → ℕ
unfolding fnv_from
dist_hash none = 14695981039346656037
dist_hash (some s) = fnv_from 14695981039346656037 s

-- the text that `snprintf(buf, sizeof(buf), "%ld:%ld", i, v)` writes
unfoldable pub point_name : ℕ → ℕ → Text
unfolding decimal_from
point_name i v = decimal_from (i + 1) i (58 ∷ decimal_from (v + 1) v [])

pub record Point : Type 0 where
  pub hash : ℕ
  pub node : ℕ

pub record Dist : Type 0 where
  pub nodes : ℕ
  pub vpts : ℕ
  pub ring : List Point
  pub bytes : List ℕ

-- `PLANT_DIST_MAX_NODES`
abbrev pub max_nodes : ℕ
max_nodes = 64

-- the inner loop over `v`, `n` rounds left
unfoldable pub points_of : ℕ → ℕ → ℕ → List Point
points_of zero v i = []
points_of (suc n) v i =
    record { hash = dist_hash (some (point_name i v)); node = i } ∷ points_of n (v + 1) i

-- the outer loop over `i`, `n` rounds left
unfoldable pub points_from : ℕ → ℕ → ℕ → List Point
unfolding points_of
points_from zero i vpts = []
points_from (suc n) i vpts = points_of vpts 0 i ++ points_from n (i + 1) vpts

abbrev pub no_point : Point
no_point = record { hash = 0; node = 0 }

-- `while (j >= 0 && g_dist_ring[j] > t) { ... j--; }` and the store behind it, with `p = j + 1`
unfoldable pub shift : ℕ → Point → List Point → List Point
shift zero t ring = set ring 0 t
shift (suc p) t ring =
    let rest = shift p t (set ring (suc p) (get_or ring p no_point)) in
    if ltb t.hash (get_or ring p no_point).hash then rest else set ring (suc p) t

-- `for (long i = 1; i < k; i++)`, `n` rounds left
unfoldable pub sort_from : ℕ → ℕ → List Point → List Point
unfolding shift
sort_from zero i ring = ring
sort_from (suc n) i ring = sort_from n (i + 1) (shift i (get_or ring i no_point) ring)

-- the clamps of `nn`
abbrev pub clamp_nodes : ℕ → ℕ
clamp_nodes nn = if ltb nn 1 then 1 else if ltb max_nodes nn then max_nodes else nn

unfoldable pub ring_build : Dist → Dist
unfolding points_from sort_from
ring_build d =
    let nn = clamp_nodes d.nodes in
    let points = points_from nn 0 d.vpts in
    record d { nodes = nn; ring = sort_from (length points - 1) 1 points }

-- `while (lo < hi)`; `none` where the rounds run out
unfoldable pub search : ℕ → ℕ → ℕ → ℕ → List Point → Option ℕ
search zero lo hi h ring = none
search (suc fuel) lo hi h ring =
    let mid = (lo + hi) / 2 in
    let upper = search fuel (mid + 1) hi h ring in
    let lower = search fuel lo mid h ring in
    if ltb lo hi then (if ltb (get_or ring mid no_point).hash h then upper else lower) else some lo

-- what follows the loop
abbrev pub node_at : List Point → ℕ → ℕ
node_at ring lo = (get_or ring (if leb (length ring) lo then 0 else lo) no_point).node

unfoldable pub place_in_ring : Option Text → List Point → Option ℕ
unfolding search
place_in_ring key ring = elim (search (length ring + 1) 0 (length ring) (dist_hash key) ring) [
  | none ↦ none
  | some lo ↦ some (node_at ring lo)
]

-- the ring is built on the first use
unfoldable pub dist_place : Option Text → Dist → Option ℕ × Dist
unfolding place_in_ring
dist_place key d =
    let d' = if length d.ring == 0 then ring_build d else d in (place_in_ring key d'.ring, d')

unfoldable pub dist_init : ℤ → Dist → Dist
unfolding ring_build
dist_init (negsuc k) d = ring_build (record d { bytes = replicate max_nodes 0 })
dist_init (pos n) d = ring_build (record d {
  nodes = if leb 1 n && leb n max_nodes then n else d.nodes;
  bytes = replicate max_nodes 0;
})
