-- ===== src/Containers/Queue.antt =====
-- The ring queue of runtime/c/plant_runtime.c (`queue_create` .. `queue_size`). The struct behind
-- the handle is the record; a `NULL` handle is `none`. `nil` is the word that `calloc` leaves in a
-- slot, `empty_text` the literal `""` that stands for "no element".
pub mod Ring
pub mod Fifo
use plant_lang.Prelude.{
  ℕ, zero, suc, ◌+◌, ◌-◌, ◌*◌, ◌%◌, List, Option, none, some, ◌==◌, if◌then◌else◌, get_or, set,
  replicate,
}

pub record PlantQueue {ℓ} (A : Type ℓ) : Type ℓ where
  pub buf : List A
  pub cap : ℕ
  pub head : ℕ
  pub count : ℕ

module _ {ℓ} {A : Type ℓ} (nil : A) where
  unfoldable pub queue_create : PlantQueue A
  queue_create = record { buf = replicate 8 nil; cap = 8; head = 0; count = 0 }

  -- `for (i = 0; i < q->count; i++) nb[i] = q->buf[(q->head + i) % q->cap];`, with `n` rounds left
  pub copy_ring : PlantQueue A → ℕ → ℕ → List A → List A
  copy_ring q zero i nb = nb
  copy_ring q (suc n) i nb =
      copy_ring q n (i + 1) (set nb i (get_or q.buf ((q.head + i) % q.cap) nil))

  -- the branch `if (q->count == q->cap)` of `queue_push`
  pub grow : PlantQueue A → PlantQueue A
  unfolding copy_ring
  grow q =
      if q.count == q.cap
      then record {
        buf = copy_ring q q.count 0 (replicate (q.cap * 2) nil);
        cap = q.cap * 2;
        head = 0;
        count = q.count;
      }
      else q

  pub store : PlantQueue A → A → PlantQueue A
  store q v = record q { buf = set q.buf ((q.head + q.count) % q.cap) v; count = q.count + 1 }

  unfoldable pub queue_push : Option (PlantQueue A) → A → Option (PlantQueue A)
  unfolding grow store
  queue_push none v = none
  queue_push (some q) v = some (store (grow q) v)

  module _ (empty_text : A) where
    unfoldable pub queue_pop : Option (PlantQueue A) → A × Option (PlantQueue A)
    queue_pop none = (empty_text, none)
    queue_pop (some q) = if q.count == 0 then (empty_text, some q) else (
      get_or q.buf q.head nil,
      some (record { buf = q.buf; cap = q.cap; head = (q.head + 1) % q.cap; count = q.count - 1 }),
    )

    unfoldable pub queue_peek : Option (PlantQueue A) → A
    queue_peek none = empty_text
    queue_peek (some q) = if q.count == 0 then empty_text else get_or q.buf q.head nil

unfoldable pub queue_size {ℓ} : {A : Type ℓ} → Option (PlantQueue A) → ℕ
queue_size none = 0
queue_size (some q) = q.count
