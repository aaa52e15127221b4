-- ===== src/Tests/Hashing.antt =====
-- The hash tables at concrete inputs.
use plant_lang.Hashing.Ring.{Dist, dist_hash, dist_place, ring_build, points_from}
use plant_lang.Hashing.Ring.Sorting.{IsSorted, Sorts, ring_build-Sorts}
use plant_lang.Hashing.Ring.Placement.{Owns, dist_place-Owns}
use plant_lang.Hashing.Iterator.{PlantIterator, map_at, iterator_init, iterator_has_next}
use plant_lang.Hashing.Iterator.Traversal.{items, entry_item, entries_of, traversal_lem}
use plant_lang.Prelude.{
  map, length, false, arith, ◌≤◌, ℕ, ◌^◌, ◌≡◌, List, [], ◌∷◌, none, some, Text, codes,
}
use plant_lang.Hashing.Map.{PlantMap, map_hash_create, hash_get, hash_has, hash_set}
use plant_lang.Hashing.Map.Latest as Latest

abbrev writes : List (Text × ℕ)
writes = (codes "a", 1) ∷ (codes "b", 2) ∷ (codes "a", 3) ∷ []

hash_map_refines_writes_example :
    (m : PlantMap ℕ) × (Latest.set_all writes (map_hash_create (2 ^ 3)) ≡ some m)
    × ((j : Text)
        → (hash_get (some m) (some j) ≡ Latest.latest j writes none)
          × (hash_has (some m) (some j) ≡ Latest.is_some (Latest.latest j writes none)))
hash_map_refines_writes_example = Latest.hash_map_refines_writes 3 writes

hash_set-latest_example :
    (m : PlantMap ℕ) × (hash_set (some (map_hash_create (2 ^ 4))) (some (codes "a")) 5 ≡ some m)
    × Latest.Sets (map_hash_create (2 ^ 4)) (codes "a") 5 m
hash_set-latest_example =
    Latest.hash_set-latest (map_hash_create (2 ^ 4)) (Latest.create-IsMap 4) (codes "a") 5

abbrev four_nodes : Dist
four_nodes = record { nodes = 4; vpts = 1; ring = []; bytes = [] }

dist_place-Owns_example :
    (n : ℕ) × ((dist_place (some (codes "k")) four_nodes).0 ≡ some n)
    × IsSorted (dist_place (some (codes "k")) four_nodes).1.ring
    × Owns (dist_hash (some (codes "k"))) (dist_place (some (codes "k")) four_nodes).1.ring n
    × ((dist_place (some (codes "k")) four_nodes).1 ≡ ring_build four_nodes)
dist_place-Owns_example = dist_place-Owns (some (codes "k")) four_nodes (omega arith) tt

ring_build-Sorts_example :
    Sorts (points_from 4 0 1) (ring_build four_nodes).ring
    × (1 ≤ (ring_build four_nodes).nodes)
    × ((ring_build four_nodes).nodes ≤ 64)
ring_build-Sorts_example = ring_build-Sorts four_nodes

abbrev fresh_map : PlantMap ℕ
fresh_map = map_hash_create (2 ^ 4)

abbrev unset : PlantIterator ℕ
unset = record { kind = 0; index = 0; size = 9; keys = none; values = none; array_data = none }

-- the map with one entry that a write gives
traversal_lem_example :
    let m = (Latest.hash_set-latest fresh_map (Latest.create-IsMap 4) (codes "a") 5).0 in
    ((items m.count (some (iterator_init (map_at m) unset))).0
      ≡ map entry_item (entries_of m.entries))
    × (length (entries_of m.entries) ≡ m.count)
    × (iterator_has_next (items m.count (some (iterator_init (map_at m) unset))).1 ≡ false)
traversal_lem_example =
    traversal_lem (Latest.hash_set-latest fresh_map (Latest.create-IsMap 4) (codes "a") 5).0 unset
      (Latest.hash_set-latest fresh_map (Latest.create-IsMap 4) (codes "a") 5).2.0.core
