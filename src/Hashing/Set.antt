-- ===== src/Hashing/Set.antt =====
-- The set of runtime/c/plant_runtime.c (`_set_hash` .. `set_to_list`): open addressing with linear
-- probing, where removed values leave a mark. A loop that does not end is `none`; it has as many
-- rounds as the table has slots. A `NULL` set, which holds nothing and takes nothing, is left out.
pub mod Probing
pub mod Writing
pub mod Lookup
pub mod Refilling
pub mod Growing
pub mod Changes
pub mod Membership
pub mod Listing
use Prim.Native.Nat.{bit_xor}
use plant_lang.Prelude.{
  ℕ, zero, suc, ◌+◌, ◌-◌, ◌*◌, ◌/◌, ◌%◌, ◌^◌, Bool, true, false, ◌||◌, List, [], ◌∷◌, Option, none,
  some, ltb, leb, ◌==◌, if◌then◌else◌, get_or, set, replicate, bit_and,
}

-- `x ^= x >> n`
abbrev pub fold_down : ℕ → ℕ → ℕ
fold_down n x = bit_xor x (x / 2 ^ n)

unfoldable pub set_hash : ℕ → ℕ
set_hash v =
    let x = fold_down 30 v * 0xBF58476D1CE4E5B9 % 2 ^ 64 in
    let y = fold_down 27 x * 0x94D049BB133111EB % 2 ^ 64 in fold_down 31 y

-- `(uintptr_t)-1`, the mark of a removed value
abbrev pub tomb : ℕ
tomb = 2 ^ 64 - 1

pub record PlantSet : Type 0 where
  pub slots : List ℕ
  pub cap : ℕ
  pub count : ℕ
  pub tombs : ℕ

unfoldable pub set_alloc : ℕ → PlantSet
set_alloc cap = record { slots = replicate cap 0; cap = cap; count = 0; tombs = 0 }

unfoldable pub set_create : PlantSet
unfolding set_alloc
set_create = set_alloc 8

-- The probe loops, with `rounds` left: the first slot from `idx` on whose value `stop` accepts.
unfoldable pub seek : (ℕ → Bool) → ℕ → ℕ → ℕ → List ℕ → Option ℕ
seek stop zero idx cap slots = none
seek stop (suc rounds) idx cap slots =
    let rest = seek stop rounds (bit_and (idx + 1) (cap - 1)) cap slots in
    if stop (get_or slots idx 0) then some idx else rest

abbrev pub home : ℕ → ℕ → ℕ
home v cap = bit_and (set_hash v) (cap - 1)

abbrev pub is_free : ℕ → Bool
is_free x = x == 0

abbrev pub is_free_or : ℕ → ℕ → Bool
is_free_or v x = x == 0 || x == v

abbrev pub is_dead : ℕ → Bool
is_dead v = v == 0 || v == tomb

-- the loop of `_set_rehash` over the old slots
unfoldable pub refill : List ℕ → ℕ → List ℕ → Option (List ℕ)
unfolding seek set_hash
refill [] cap slots = some slots
refill (v ∷ vs) cap slots = elim (is_dead v) [
  | true ↦ refill vs cap slots
  | false ↦ elim (seek is_free cap (home v cap) cap slots) [
    | none ↦ none
    | some i ↦ refill vs cap (set slots i v)
  ]
]

unfoldable pub set_rehash : ℕ → PlantSet → Option PlantSet
unfolding refill
set_rehash new_cap s = elim (refill s.slots new_cap (replicate new_cap 0)) [
  | none ↦ none
  | some slots ↦ some (record s { slots = slots; cap = new_cap; tombs = 0 })
]

unfoldable pub set_contains : ℕ → PlantSet → Option Bool
unfolding seek set_hash
set_contains v s = elim (seek (is_free_or v) s.cap (home v s.cap) s.cap s.slots) [
  | none ↦ none
  | some i ↦ some (get_or s.slots i 0 == v)
]

abbrev pub filled : ℕ → ℕ → PlantSet → PlantSet
filled v i s = record s {
  slots = set s.slots i v;
  count = suc s.count;
  tombs = if get_or s.slots i 0 == tomb then s.tombs - 1 else s.tombs;
}

-- the loop of `set_add` and what follows it
unfoldable pub store : ℕ → PlantSet → Option (Bool × PlantSet)
unfolding seek set_hash
store v s = elim (seek is_dead s.cap (home v s.cap) s.cap s.slots) [
  | none ↦ none
  | some i ↦ some (true, filled v i s)
]

unfoldable pub make_room : PlantSet → Option PlantSet
unfolding set_rehash
make_room s =
    if leb (s.cap * 7) ((s.count + s.tombs + 1) * 10) then set_rehash (s.cap * 2) s else some s

unfoldable pub add_new : ℕ → PlantSet → Option (Bool × PlantSet)
unfolding make_room store
add_new v s = elim (make_room s) [ none ↦ none | some s' ↦ store v s' ]

unfoldable pub set_add : ℕ → PlantSet → Option (Bool × PlantSet)
unfolding set_contains add_new
set_add v s = if v == 0 then some (false, s) else elim (set_contains v s) [
  | none ↦ none
  | some b ↦ if b then some (false, s) else add_new v s
]

unfoldable pub set_has : ℕ → PlantSet → Option Bool
unfolding set_contains
set_has v s = if v == 0 then some false else set_contains v s

abbrev pub emptied : ℕ → PlantSet → PlantSet
emptied i s = record s { slots = set s.slots i tomb; count = s.count - 1; tombs = suc s.tombs }

unfoldable pub set_remove : ℕ → PlantSet → Option (Bool × PlantSet)
unfolding seek set_hash
set_remove v s =
    if v == 0
    then some (false, s)
    else elim (seek (is_free_or v) s.cap (home v s.cap) s.cap s.slots) [
      | none ↦ none
      | some i ↦ some (if get_or s.slots i 0 == v then (true, emptied i s) else (false, s))
    ]

abbrev pub set_size : PlantSet → ℕ
set_size s = s.count

-- the values that `set_to_list` pushes
unfoldable pub live_values : List ℕ → List ℕ
live_values [] = []
live_values (v ∷ vs) = if is_dead v then live_values vs else v ∷ live_values vs

unfoldable pub set_to_list : PlantSet → List ℕ
unfolding live_values
set_to_list s = live_values s.slots
