-- ===== src/Containers/Stack.antt =====
-- The growing stack of runtime/c/plant_runtime.c (`stack_create` .. `stack_size`). A `NULL` handle
-- is `none`. `nil` is the word that `calloc` leaves, `junk` the one that `realloc` leaves in the new
-- half of a grown buffer, and `empty_text` the literal `""` that stands for "no element".
pub mod Lifo
use plant_lang.Prelude.{
  ℕ, ◌+◌, ◌-◌, ◌*◌, List, ◌++◌, Option, none, some, ◌==◌, if◌then◌else◌, get_or, set, replicate,
}

pub record PlantStack {ℓ} (A : Type ℓ) : Type ℓ where
  pub buf : List A
  pub cap : ℕ
  pub count : ℕ

module _ {ℓ} {A : Type ℓ} (nil junk empty_text : A) where
  unfoldable pub stack_create : PlantStack A
  stack_create = record { buf = replicate 8 nil; cap = 8; count = 0 }

  -- the branch `if (s->count == s->cap)` of `stack_push`
  pub stack_grow : PlantStack A → PlantStack A
  stack_grow s =
      if s.count == s.cap
      then record s { cap = s.cap * 2; buf = s.buf ++ replicate s.cap junk }
      else s

  pub stack_store : PlantStack A → A → PlantStack A
  stack_store s v = record s { buf = set s.buf s.count v; count = s.count + 1 }

  unfoldable pub stack_push : Option (PlantStack A) → A → Option (PlantStack A)
  unfolding stack_grow stack_store
  stack_push none v = none
  stack_push (some s) v = some (stack_store (stack_grow s) v)

  unfoldable pub stack_pop : Option (PlantStack A) → A × Option (PlantStack A)
  stack_pop none = (empty_text, none)
  stack_pop (some s) =
      if s.count == 0
      then (empty_text, some s)
      else (get_or s.buf (s.count - 1) nil, some (record s { count = s.count - 1 }))

  unfoldable pub stack_peek : Option (PlantStack A) → A
  stack_peek none = empty_text
  stack_peek (some s) = if s.count == 0 then empty_text else get_or s.buf (s.count - 1) nil

unfoldable pub stack_size {ℓ} : {A : Type ℓ} → Option (PlantStack A) → ℕ
stack_size none = 0
stack_size (some s) = s.count
