-- ===== src/Hashing/Iterator.antt =====
-- The iterator of runtime/c/plant_runtime.c (`plant_iterator_init` .. `plant_iterator_next`) over a
-- hash map or an array with its length in front. `none` stands for `NULL`.
pub mod Traversal
use plant_lang.Prelude.{
  ℕ, zero, suc, ◌+◌, ◌-◌, ◌*◌, ◌/◌, ◌%◌, ◌^◌, ◌≤◌, ◌<◌, ◌≡◌, ◌≢◌, ◌↔◌, refl, sym, ap, ap₂, ◌∙◌,
  subst, Bool, true, false, not, ◌||◌, ◌&&◌, List, [], ◌∷◌, ◌++◌, map, append-nil, append_assoc,
  Option, none, some, arith, ltb, leb, ◌==◌, ==_iff, if◌then◌else◌, length, get_or, set, take, drop,
  replicate, length-append, length-set, length-replicate, get_or-set_self, get_or-set_ne,
  get_or-append_left, get_or-append_right, get_or-replicate, take-append, bit_and, Text, codes,
  str_eq, str_eq_iff, str_eq_refl, Bool-cases, ◌⊎◌, inl, inr, times, to_nat, times-set,
  times-append, find_index, Option-cases, min, max, add-one,
}
use plant_lang.Hashing.Map.{Slot, vacant, used, PlantMap, map_keys, keys_from}

pub record PlantIterator {ℓ} (V : Type ℓ) : Type ℓ where
  pub kind : ℕ
  pub index : ℕ
  pub size : ℕ
  pub keys : Option (List Text)
  pub values : Option (List V)
  pub array_data : Option (List ℕ)

-- the arguments `container` and `kind`: no container, or one of the kind 0 or 1
pub data Container {ℓ} (V : Type ℓ) : Type ℓ where
  no_container : ℕ → Container V
  map_at : PlantMap V → Container V
  array_at : List ℕ → Container V

-- what `plant_iterator_next` gives: `NULL`, a pointer to an entry, or an element
pub data Item {ℓ} (V : Type ℓ) : Type ℓ where
  nothing : Item V
  entry : Option Text → Option V → Item V
  element : ℕ → Item V

-- an array of `n` words, which is `NULL` for none
abbrev pub some_of {ℓ} : {A : Type ℓ} → ℕ → List A → Option (List A)
some_of zero l = none
some_of (suc n) l = some l

-- a cached array at an index
abbrev pub cached {ℓ} : {A : Type ℓ} → Option (List A) → ℕ → Option A
cached none i = none
cached (some []) i = none
cached (some (x ∷ xs)) zero = some x
cached (some (x ∷ xs)) (suc i) = cached (some xs) i

module _ {ℓ} {V : Type ℓ} where
  -- the loop that builds the values, at most `n` of them
  unfoldable pub values_from : ℕ → List (Slot V) → List V
  values_from zero slots = []
  values_from (suc n) [] = []
  values_from (suc n) (vacant ∷ r) = values_from (suc n) r
  values_from (suc n) (used k v ∷ r) = v ∷ values_from n r

  -- `size` keeps the value that it has in memory where the container is `NULL`
  unfoldable pub iterator_init : Container V → PlantIterator V → PlantIterator V
  unfolding values_from map_keys
  iterator_init (no_container kind) it = record it {
    kind = kind;
    index = 0;
    keys = none;
    values = none;
    array_data = none;
  }
  iterator_init (map_at m) it = record {
    kind = 0;
    index = 0;
    size = m.count;
    keys = some_of m.count (map_keys (some m));
    values = some_of m.count (values_from m.count m.entries);
    array_data = none;
  }
  iterator_init (array_at l) it = record {
    kind = 1;
    index = 0;
    size = length l;
    keys = none;
    values = none;
    array_data = some l;
  }

  unfoldable pub iterator_has_next : Option (PlantIterator V) → Bool
  iterator_has_next none = false
  iterator_has_next (some it) = ltb it.index it.size

  unfoldable pub item_of : PlantIterator V → Item V
  item_of it =
      if it.kind == 0
      then entry (cached it.keys it.index) (cached it.values it.index)
      else if it.kind == 1
      then elim it.array_data [ none ↦ nothing | some l ↦ element (get_or l it.index 0) ]
      else nothing

  unfoldable pub iterator_next : Option (PlantIterator V) → Item V × Option (PlantIterator V)
  unfolding item_of
  iterator_next none = (nothing, none)
  iterator_next (some it) =
      if ltb it.index it.size
      then (item_of it, some (record it { index = it.index + 1 }))
      else (nothing, some it)
