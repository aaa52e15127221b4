-- ===== src/Hashing/Map.antt =====
-- The hash map of runtime/c/plant_runtime.c (`plant_map_hash_create` .. `plant_map_free`, hash
-- branches): open addressing with linear probing under a power-of-two mask. A `NULL` map or key is
-- `none`; values are opaque, `nil` is the `NULL` value.
pub mod Probing
pub mod Core
pub mod Insertion
pub mod Growth
pub mod Latest
use plant_lang.Prelude.{
  ℕ, zero, suc, ◌+◌, ◌-◌, ◌*◌, ◌/◌, ◌%◌, ◌^◌, Bool, true, false, List, [], ◌∷◌, ◌++◌, Option, none,
  some, ltb, leb, ◌==◌, if◌then◌else◌, length, get_or, set, replicate, bit_and, Text, str_eq,
}

-- `hash = ((hash << 5) + hash) + c` on 64 bits
unfoldable pub hash_from : ℕ → Text → ℕ
hash_from hash [] = hash
hash_from hash (c ∷ cs) = hash_from ((hash * 2 ^ 5 % 2 ^ 64 + hash + c) % 2 ^ 64) cs

unfoldable pub hash_str : Text → ℕ
unfolding hash_from
hash_str str = hash_from 5381 str

-- an entry: zeroed, or in use
pub data Slot {ℓ} (V : Type ℓ) : Type ℓ where
  vacant : Slot V
  used : Text → V → Slot V

pub record PlantMap {ℓ} (V : Type ℓ) : Type ℓ where
  pub entries : List (Slot V)
  pub capacity : ℕ
  pub count : ℕ
  pub threshold : ℕ

-- how the loop over the probe sequence ends: at an empty slot, at the key, or after `capacity` rounds
pub data Probe : Type 0 where
  at_vacant at_key : ℕ → Probe
  exhausted : Probe

module _ {ℓ} {V : Type ℓ} where
  unfoldable pub map_hash_create : ℕ → PlantMap V
  map_hash_create initial =
      let capacity = if ltb initial 8 then 8 else initial in
      record {
        entries = replicate capacity vacant;
        capacity = capacity;
        count = 0;
        threshold = capacity * 3 / 4;
      }

  -- `strcmp(map->entries[probe].key, key) == 0` at a slot in use
  abbrev pub key_at : Text → Slot V → Option Bool
  key_at key vacant = none
  key_at key (used k v) = some (str_eq k key)

  -- `for (i = 0; i < capacity; i++) { probe = (idx + i) & (capacity - 1); ... }`, `n` rounds left
  unfoldable pub probe_from : ℕ → ℕ → ℕ → Text → PlantMap V → Probe
  probe_from zero i idx key m = exhausted
  probe_from (suc n) i idx key m =
      let rest = probe_from n (i + 1) idx key m in
      let probe = bit_and (idx + i) (m.capacity - 1) in
      elim (key_at key (get_or m.entries probe vacant)) [
        | none ↦ at_vacant probe
        | some same ↦ if same then at_key probe else rest
      ]

  unfoldable pub probe : Text → PlantMap V → Probe
  probe key m = probe_from m.capacity 0 (bit_and (hash_str key) (m.capacity - 1)) key m

  abbrev pub value_of : V → Slot V → V
  value_of d vacant = d
  value_of d (used k v) = v

  -- the hash branch of `plant_map_get`; `none` is the `NULL` result
  unfoldable pub hash_get : Option (PlantMap V) → Option Text → Option V
  hash_get none key = none
  hash_get (some m) none = none
  hash_get (some m) (some key) = elim (probe key m) [
    | at_key p ↦ elim (get_or m.entries p vacant) [ vacant ↦ none | used k v ↦ some v ]
    | _ ↦ none
  ]

  -- the hash branch of `plant_map_has`
  unfoldable pub hash_has : Option (PlantMap V) → Option Text → Bool
  hash_has none key = false
  hash_has (some m) none = false
  hash_has (some m) (some key) = elim (probe key m) [ at_key p ↦ true | _ ↦ false ]

  abbrev pub rekey : V → Slot V → Slot V
  rekey v vacant = vacant
  rekey v (used k w) = used k v

  -- the loop of `plant_map_hash_set`
  unfoldable pub insert : Text → V → PlantMap V → PlantMap V
  insert key v m = elim (probe key m) [
    | at_vacant p ↦ record m { entries = set m.entries p (used key v); count = m.count + 1 }
    | at_key p ↦ record m { entries = set m.entries p (rekey v (get_or m.entries p vacant)) }
    | exhausted ↦ m
  ]

  -- the empty table that `_plant_map_grow` starts from
  unfoldable pub doubled : PlantMap V → PlantMap V
  doubled m = record {
    entries = replicate (m.capacity * 2) vacant;
    capacity = m.capacity * 2;
    count = 0;
    threshold = m.capacity * 2 * 3 / 4;
  }

  -- `if (old_entries[i].occupied) plant_map_hash_set(map, key, value);` for each old entry, where
  -- `store` is `plant_map_hash_set`
  unfoldable pub reinsert :
      (Text → V → PlantMap V → Option (PlantMap V))
      → List (Slot V)
      → PlantMap V
      → Option (PlantMap V)
  reinsert store [] m = some m
  reinsert store (vacant ∷ r) m = reinsert store r m
  reinsert store (used k v ∷ r) m = elim (store k v m) [
    | none ↦ none
    | some m' ↦ reinsert store r m'
  ]

  -- `plant_map_hash_set`, which calls itself through `_plant_map_grow`. `depth` bounds the nesting of
  -- the calls; `none` means that it ran out.
  unfoldable pub set_at : ℕ → Text → V → PlantMap V → Option (PlantMap V)
  unfolding insert doubled reinsert
  set_at zero key v m = none
  set_at (suc depth) key v m =
      let grown = reinsert (set_at depth) m.entries (doubled m) in
      if leb m.threshold m.count
      then elim grown [ none ↦ none | some g ↦ some (insert key v g) ]
      else some (insert key v m)

  -- Two levels are enough: the calls that grow makes find room.
  unfoldable pub hash_set : Option (PlantMap V) → Option Text → V → Option (PlantMap V)
  unfolding set_at
  hash_set none key v = none
  hash_set (some m) none v = some m
  hash_set (some m) (some key) v = set_at 2 key v m

  -- `plant_map_keys`: the keys in slot order, at most `count`
  unfoldable pub keys_from : ℕ → List (Slot V) → List Text
  keys_from zero slots = []
  keys_from (suc n) [] = []
  keys_from (suc n) (vacant ∷ r) = keys_from (suc n) r
  keys_from (suc n) (used k v ∷ r) = k ∷ keys_from n r

  unfoldable pub map_keys : Option (PlantMap V) → List Text
  unfolding keys_from
  map_keys none = []
  map_keys (some m) = keys_from m.count m.entries
