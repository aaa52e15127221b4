-- ===== src/Containers/PairMap.antt =====
-- The pair-list map of runtime/c/plant_runtime.c: an array k0, v0, k1, v1, ... that
-- `plant_map_create`, `plant_map_set`, `plant_link` and `plant_braid_map` build, and that the
-- array branches of `plant_map_get` and `plant_map_has` read.
pub mod Loops
pub mod Laws
pub mod Literal
pub mod Braid
use plant_lang.Prelude.{
  ℕ, zero, suc, ◌+◌, Bool, true, false, Option, none, some, [], ltb, if◌then◌else◌, get_or, set,
  Text, str_eq, pos,
}
use plant_lang.Containers.Array.{
  Value, null, text, array, empty_text, PlantArray, list_create, or_empty, list_grow, store_last,
  push, as_text,
}

module _ (raw : ℕ → Text) where
  -- `ok && strcmp(ok, k) == 0`
  unfoldable pub key_is : Value → Text → Bool
  unfolding str_eq
  key_is x k = elim (as_text raw x) [ none ↦ false | some t ↦ str_eq t k ]

  -- `for (; i + 1 < m->count; i += 2) if (...) break;`, with at most `n` rounds left: where it stops
  unfoldable pub find_key : ℕ → ℕ → Text → PlantArray → ℕ
  unfolding key_is
  find_key zero i k m = i
  find_key (suc n) i k m =
      let rest = find_key n (i + 2) k m in
      if ltb (i + 1) m.count then (if key_is (get_or m.items i null) k then i else rest) else i

  -- the loop of `plant_map_get` over an array
  unfoldable pub get_from : ℕ → ℕ → Text → PlantArray → Value
  unfolding key_is
  get_from zero i k m = empty_text
  get_from (suc n) i k m =
      let rest = get_from n (i + 2) k m in
      if ltb (i + 1) m.count
      then (if key_is (get_or m.items i null) k then get_or m.items (i + 1) null else rest)
      else empty_text

  unfoldable pub map_get : Option PlantArray → Option Text → Value
  unfolding get_from
  map_get none key = null
  map_get (some m) none = null
  map_get (some m) (some k) = get_from m.count 0 k m

  -- the loop of `plant_map_has` over an array
  unfoldable pub has_from : ℕ → ℕ → Text → PlantArray → Bool
  unfolding key_is
  has_from zero i k m = false
  has_from (suc n) i k m =
      let rest = has_from n (i + 2) k m in
      if ltb (i + 1) m.count
      then (if key_is (get_or m.items i null) k then true else rest)
      else false

  unfoldable pub map_has : Option PlantArray → Option Text → Bool
  unfolding has_from
  map_has none key = false
  map_has (some m) none = false
  map_has (some m) (some k) = has_from m.count 0 k m

  -- the text of a key pointer that is not `NULL`
  abbrev pub key_text : Value → Text
  key_text null = []
  key_text (text t) = t
  key_text (array p) = raw p

  module _ (junk : Value) where
    -- what follows the loop: replace in place, or append the key and the value
    unfoldable pub upsert : Value → Value → PlantArray → PlantArray
    unfolding find_key push
    upsert key value m =
        let i = find_key m.count 0 (key_text key) m in
        if ltb (i + 1) m.count
        then record m { items = set m.items (i + 1) value }
        else push junk (push junk m key) value

    unfoldable pub map_create : PlantArray
    unfolding list_create
    map_create = record (list_create (pos 8)) { kind = 1 }

    unfoldable pub map_set : Option PlantArray → Value → Value → PlantArray
    unfolding upsert map_create list_create or_empty
    map_set none key value =
        record (upsert (or_empty key) value (record (list_create (pos 8)) { kind = 1 })) {
          kind = 1;
        }
    map_set (some m) key value = record (upsert (or_empty key) value (record m { kind = 1 })) {
      kind = 1;
    }

    unfoldable pub link : Option PlantArray → Value → Value → PlantArray
    unfolding upsert list_create or_empty
    link none key value = upsert (or_empty key) value (list_create (pos 0))
    link (some m) key value = upsert (or_empty key) value m

    -- one round of `plant_braid_map`: a `NULL` key is skipped
    unfoldable pub braid_pair : Value → Value → PlantArray → PlantArray
    unfolding upsert
    braid_pair null value out = out
    braid_pair (text t) value out = upsert (text t) value out
    braid_pair (array p) value out = upsert (array p) value out

    unfoldable pub braid_map_from : ℕ → ℕ → PlantArray → PlantArray → PlantArray → PlantArray
    unfolding braid_pair
    braid_map_from zero i a b out = out
    braid_map_from (suc n) i a b out =
        braid_map_from n (i + 1) a b
          (braid_pair (get_or a.items i null) (get_or b.items i null) out)

    unfoldable pub braid_map : Option PlantArray → Option PlantArray → PlantArray
    unfolding braid_map_from list_create
    braid_map none b = list_create (pos 0)
    braid_map (some a) none = list_create (pos 0)
    braid_map (some a) (some b) =
        braid_map_from (if ltb a.count b.count then a.count else b.count) 0 a b
          (list_create (pos 0))
