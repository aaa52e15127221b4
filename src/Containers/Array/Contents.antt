-- ===== src/Containers/Array/Contents.antt =====
-- The live prefix of a dynamic array, the invariant, and what the operations do to both.
use plant_lang.Prelude.{
  ℕ, zero, suc, ◌+◌, ◌-◌, ◌≤◌, ◌<◌, ◌≡◌, refl, ap, ◌∙◌, false, List, [], ◌∷◌, ◌++◌, Option, none,
  some, arith, add-one, ◌==◌, leb, length, get_or, set, take, replicate, length-append, length-set,
  length-replicate, get_or-set_self, take-set, take_append_left, length-take, ℤ, pos, negsuc,
  Bool-cases, inl, inr,
}
use plant_lang.Containers.Array.{
  Value, null, PlantArray, next_capacity, list_create, list_pop, list_grow, store_last, push,
}

pub record IsArray (a : PlantArray) : Type 0 where
  pub sized : length a.items ≡ a.capacity
  pub fits : a.count ≤ a.capacity

-- The elements that the array holds.
unfoldable pub contents : PlantArray → List Value
contents a = take a.count a.items

unfoldable pub items_of : Option PlantArray → List Value
items_of none = []
items_of (some a) = contents a

pub list_create-IsArray : (c : ℤ) → IsArray (list_create c)
unfolding list_create
list_create-IsArray (pos n) = record { sized = length-replicate n null; fits = omega arith }
list_create-IsArray (negsuc n) = record { sized = refl; fits = omega arith }

pub contents-list_create : (c : ℤ) → contents (list_create c) ≡ []
unfolding list_create contents
contents-list_create c = refl

module _ (junk : Value) where
  list_grow-IsArray : (a : PlantArray) → IsArray a → IsArray (list_grow junk a)
  unfolding list_grow
  list_grow-IsArray a v = ground (
    arith,
    length-append a.items (replicate (next_capacity a.capacity - a.capacity) junk),
    length-replicate (next_capacity a.capacity - a.capacity) junk,
  )

  list_grow_room :
      (a : PlantArray) → IsArray a → (list_grow junk a).count < (list_grow junk a).capacity
  unfolding list_grow
  list_grow_room a v = ground arith

  count-list_grow : (a : PlantArray) → (list_grow junk a).count ≡ a.count
  unfolding list_grow
  count-list_grow a = ground arith

  contents-list_grow : (a : PlantArray) → IsArray a → contents (list_grow junk a) ≡ contents a
  unfolding list_grow contents
  contents-list_grow a v = elim (Bool-cases (leb a.capacity a.count)) [
    | inr room ↦ rw room
    | inl full ↦
        rw full
          (take_append_left a.count a.items _ (let e = v.sized in let f = v.fits in omega arith))
  ]

  pub push-IsArray : (a : PlantArray) (x : Value) → IsArray a → IsArray (push junk a x)
  unfolding push store_last
  push-IsArray a x v =
      let g = list_grow junk a in
      let w = list_grow-IsArray a v in
      record {
        sized = length-set g.items g.count x ∙ w.sized;
        fits = omega (arith, list_grow_room a v);
      }

  pub count-push : (a : PlantArray) (x : Value) → (push junk a x).count ≡ a.count + 1
  unfolding push store_last
  count-push a x = ap (λ n. n + 1) (count-list_grow a)

  pub contents-push :
      (a : PlantArray) (x : Value) → IsArray a → contents (push junk a x) ≡ contents a ++ x ∷ []
  unfolding push store_last contents
  contents-push a x v =
      let g = list_grow junk a in
      let w = list_grow-IsArray a v in
      rw add-one (
        take-set g.count g.items x (let r = list_grow_room a v in let e = w.sized in omega arith)
        ∙ ap (λ t. t ++ x ∷ []) (contents-list_grow a v))

take-set_last : (n : ℕ) (xs : List Value) (y : Value) → take n (set xs n y) ≡ take n xs
take-set_last zero xs y = refl
take-set_last (suc n) [] y = refl
take-set_last (suc n) (z ∷ zs) y = ap (λ t. z ∷ t) (take-set_last n zs y)

list_pop_last :
    (items : List Value) (n m k : ℕ) (x : Value)
    → get_or items n null ≡ x
    → list_pop (some (record { items = items; count = n + 1; capacity = m; kind = k }))
      ≡ (x, some (record { items = items; count = n; capacity = m; kind = k }))
unfolding list_pop
list_pop_last items n m k x e =
    let down : n + 1 - 1 ≡ n = omega arith in
    let up : (n + 1 == 0) ≡ false = ground arith in rw (up, down, e)

pub length-contents : (a : PlantArray) → IsArray a → length (contents a) ≡ a.count
unfolding contents
length-contents a v = length-take a.count a.items (let e = v.sized in let f = v.fits in omega arith)

module _ (junk : Value) where
  -- Popping right after pushing gives the pushed value back and leaves the old elements.
  pub pop-push :
      (a : PlantArray) (x : Value)
      → IsArray a
      → (r : PlantArray) × (list_pop (some (push junk a x)) ≡ (x, some r))
        × IsArray r
        × (contents r ≡ contents a)
  pop-push a x v =
      let g = list_grow junk a in
      let w = list_grow-IsArray junk a v in
      let room = list_grow_room junk a v in
      (
        record g { items = set g.items g.count x },
        unfold push store_last in
            list_pop_last (set g.items g.count x) g.count g.capacity g.kind x
              (get_or-set_self g.items g.count x null (let e = w.sized in omega arith)),
        record { sized = length-set g.items g.count x ∙ w.sized; fits = omega arith },
        unfold contents in (take-set_last g.count g.items x ∙ contents-list_grow junk a v),
      )

-- The array is in order and holds `l`.
pub record Holds (a : PlantArray) (l : List Value) : Type 0 where
  pub good : IsArray a
  pub reads : contents a ≡ l

pub push-Holds :
    (junk : Value) {a : PlantArray} {l : List Value} (x : Value)
    → Holds a l
    → Holds (push junk a x) (l ++ x ∷ [])
push-Holds junk {a} x h = record {
  good = push-IsArray junk a x h.good;
  reads = contents-push junk a x h.good ∙ ap (λ t. t ++ x ∷ []) h.reads;
}

pub create-Holds : (c : ℤ) → Holds (list_create c) []
create-Holds c = record { good = list_create-IsArray c; reads = contents-list_create c }
