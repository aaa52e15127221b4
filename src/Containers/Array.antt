-- ===== src/Containers/Array.antt =====
-- The dynamic array of runtime/c/plant_runtime.c (`plant_list_create` .. `plant_list_remove`,
-- `plant_braid`). A `NULL` pointer, or one that `magic` shows to be no array, is `none`. An element
-- is a pointer: `NULL`, a C string, or the address of another array.
pub mod Contents
pub mod Joins
pub mod Remove
use plant_lang.Prelude.{
  ℕ, zero, suc, ◌+◌, ◌-◌, ◌*◌, ◌%◌, Bool, true, false, List, [], ◌∷◌, ◌++◌, Option, none, some,
  ◌==◌, ltb, leb, if◌then◌else◌, length, get_or, set, replicate, Text, str_eq, move_down, ℤ, pos,
  negsuc,
}

pub data Value : Type 0 where
  null : Value
  text : Text → Value
  array : ℕ → Value

-- the literal `""`
abbrev pub empty_text : Value
empty_text = text []

pub record PlantArray : Type 0 where
  pub items : List Value
  pub count : ℕ
  pub capacity : ℕ
  pub kind : ℕ

abbrev pub clamp : ℤ → ℕ
clamp (pos n) = n
clamp (negsuc n) = 0

unfoldable pub list_create : ℤ → PlantArray
list_create capacity = record {
  items = replicate (clamp capacity) null;
  count = 0;
  capacity = clamp capacity;
  kind = 0;
}

-- `v ? v : ""`
unfoldable pub or_empty : Value → Value
or_empty null = empty_text
or_empty (text t) = text t
or_empty (array p) = array p

unfoldable pub list_get : Option PlantArray → ℤ → Value
unfolding or_empty
list_get none index = empty_text
list_get (some a) (negsuc n) = empty_text
list_get (some a) (pos i) = if leb a.count i then empty_text else or_empty (get_or a.items i null)

unfoldable pub list_set : Option PlantArray → ℤ → Value → Option PlantArray
list_set none index value = none
list_set (some a) (negsuc n) value = some a
list_set (some a) (pos i) value =
    if leb a.capacity i
    then some a
    else some
        (record a { items = set a.items i value; count = if leb a.count i then i + 1 else a.count })

unfoldable pub list_pop : Option PlantArray → Value × Option PlantArray
list_pop none = (empty_text, none)
list_pop (some a) =
    if a.count == 0
    then (empty_text, some a)
    else (get_or a.items (a.count - 1) null, some (record a { count = a.count - 1 }))

-- `plant_list_make(count, ...)`: one `plant_list_set` for each variadic argument
pub make_from : ℕ → List Value → Option PlantArray → Option PlantArray
make_from i [] a = a
make_from i (v ∷ vs) a = make_from (i + 1) vs (list_set a (pos i) v)

unfoldable pub list_make : List Value → Option PlantArray
unfolding make_from list_set list_create
list_make vs = make_from 0 vs (some (list_create (pos (length vs))))

-- `list ? list->count : 0`
abbrev pub count_of : Option PlantArray → ℕ
count_of none = 0
count_of (some a) = a.count

-- `new_cap` of `plant_list_push`
abbrev pub next_capacity : ℕ → ℕ
next_capacity capacity = if capacity == 0 then 8 else capacity * 2

-- `junk` is what `realloc` leaves in a new slot.
module _ (junk : Value) where
  -- the branch `if (list->count >= list->capacity)` of `plant_list_push`
  unfoldable pub list_grow : PlantArray → PlantArray
  list_grow a =
      if leb a.capacity a.count
      then record a {
        items = a.items ++ replicate (next_capacity a.capacity - a.capacity) junk;
        capacity = next_capacity a.capacity;
      }
      else a

  unfoldable pub store_last : PlantArray → Value → PlantArray
  store_last a value = record a { items = set a.items a.count value; count = a.count + 1 }

  unfoldable pub push : PlantArray → Value → PlantArray
  unfolding list_grow store_last
  push a value = store_last (list_grow a) value

  unfoldable pub list_push : Option PlantArray → Value → Option PlantArray
  unfolding push
  list_push none value = none
  list_push (some a) value = some (push a value)

  -- `for (i = 0; i < a->count; i++) out = plant_list_push(out, plant_list_get(a, i));`
  pub copy_items : ℕ → ℕ → PlantArray → PlantArray → PlantArray
  copy_items zero i a out = out
  copy_items (suc n) i a out = copy_items n (i + 1) a (push out (list_get (some a) (pos i)))

  abbrev pub copy_all : Option PlantArray → PlantArray → PlantArray
  copy_all none out = out
  copy_all (some a) out = copy_items a.count 0 a out

  unfoldable pub list_concat : Option PlantArray → Option PlantArray → PlantArray
  unfolding copy_items list_get push list_create
  list_concat a b = copy_all b (copy_all a (list_create (pos (count_of a + count_of b))))

  unfoldable pub list_add : Option PlantArray → Value → PlantArray
  unfolding push list_create
  list_add none value = push (list_create (pos 0)) value
  list_add (some a) value = push a value

  -- `for (i = 0; i < n; i++) { push a->items[i]; push b->items[i]; }`
  pub braid_items : ℕ → ℕ → PlantArray → PlantArray → PlantArray → PlantArray
  braid_items zero i a b out = out
  braid_items (suc n) i a b out =
      braid_items n (i + 1) a b (push (push out (get_or a.items i null)) (get_or b.items i null))

  unfoldable pub braid : Option PlantArray → Option PlantArray → PlantArray
  unfolding braid_items push list_create
  braid none b = list_create (pos 0)
  braid (some a) none = list_create (pos 0)
  braid (some a) (some b) =
      braid_items (if ltb a.count b.count then a.count else b.count) 0 a b (list_create (pos 0))

-- `raw p` is what reading the memory at the array address `p` as a C string gives.
module _ (raw : ℕ → Text) where
  -- a pointer read as `const char*`
  abbrev pub as_text : Value → Option Text
  as_text null = none
  as_text (text t) = some t
  as_text (array p) = some (raw p)

  -- `el == value`, for an `el` that is an array
  abbrev pub same_pointer : ℕ → Value → Bool
  same_pointer p (array q) = p == q
  same_pointer p _ = false

  abbrev pub same_text : Option Text → Option Text → Bool
  same_text (some s) (some v) = str_eq s v
  same_text none none = true
  same_text _ _ = false

  -- the value of `eq` in the loop of `plant_list_remove`
  unfoldable pub matches : Value → Value → Bool
  unfolding str_eq
  matches (array p) value = same_pointer p value
  matches (text t) value = same_text (some t) (as_text value)
  matches null value = same_text none (as_text value)

  -- the loop of `plant_list_remove`, with `n` rounds left, at index `i`
  pub remove_from : ℕ → ℕ → Value → PlantArray → PlantArray
  unfolding matches move_down
  remove_from zero i value a = a
  remove_from (suc n) i value a =
      let rest = remove_from n (i + 1) value a in
      if matches (get_or a.items i null) value
      then record a { items = move_down null (a.count - i - 1) i a.items; count = a.count - 1 }
      else rest

  unfoldable pub list_remove : Option PlantArray → Value → Option PlantArray
  unfolding remove_from
  list_remove none value = none
  list_remove (some a) value = if a.count == 0 then some a else some (remove_from a.count 0 value a)
