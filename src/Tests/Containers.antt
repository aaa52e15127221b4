-- ===== src/Tests/Containers.antt =====
-- The containers at concrete inputs.
use plant_lang.Prelude.{
  ℕ, ◌≡◌, refl, List, [], ◌∷◌, some, arith, if◌then◌else◌, ◌||◌, Text, codes, str_eq, pos,
}
use plant_lang.Containers.Array.{
  Value, null, text, PlantArray, list_create, list_pop, push, list_remove, matches, or_empty,
}
use plant_lang.Containers.Array.Contents.{IsArray, contents, Holds, pop-push, list_create-IsArray}
use plant_lang.Containers.Array.Remove.{remove_first, list_remove-remove_first}
use plant_lang.Containers.PairMap.{map_get, map_has, link, key_text}
use plant_lang.Containers.PairMap.Laws.{IsPairMap, map_get-link}
use plant_lang.Containers.Queue.{queue_create}
use plant_lang.Containers.Queue.Fifo as Fifo
use plant_lang.Containers.Stack.{stack_create}
use plant_lang.Containers.Stack.Lifo as Lifo

abbrev queue_calls : List (Fifo.QueueOp ℕ)
queue_calls = Fifo.pop ∷ Fifo.push 3 ∷ Fifo.push 4 ∷ Fifo.size ∷ Fifo.peek ∷ Fifo.pop ∷ []

queue_refines_fifo_example :
    Fifo.run 0 99 (some (queue_create 0)) queue_calls ≡ Fifo.run_fifo 0 99 [] queue_calls
queue_refines_fifo_example = Fifo.queue_refines_fifo 0 99 queue_calls

abbrev stack_calls : List (Lifo.StackOp ℕ)
stack_calls = Lifo.pop ∷ Lifo.push 3 ∷ Lifo.push 4 ∷ Lifo.size ∷ Lifo.peek ∷ Lifo.pop ∷ []

stack_refines_lifo_example :
    Lifo.run 0 7 99 (some (stack_create 0 7 99)) stack_calls ≡ Lifo.run_lifo 0 7 99 [] stack_calls
stack_refines_lifo_example = Lifo.stack_refines_lifo 0 7 99 stack_calls

abbrev a : Value
a = text (codes "a")

abbrev b : Value
b = text (codes "b")

-- two elements, and no room
abbrev two : PlantArray
two = record { items = a ∷ b ∷ []; count = 2; capacity = 2; kind = 0 }

two-IsArray : IsArray two
two-IsArray = record { sized = refl; fits = omega arith }

pop-push_example :
    (r : PlantArray) × (list_pop (some (push null two a)) ≡ (a, some r))
    × IsArray r
    × (contents r ≡ contents two)
pop-push_example = pop-push null two a two-IsArray

-- what a pointer to an array reads as, taken as a string
abbrev no_raw : ℕ → Text
no_raw p = []

list_remove-remove_first_example :
    (r : PlantArray) × (list_remove no_raw (some two) b ≡ some r)
    × Holds r (remove_first (λ x. matches no_raw x b) (contents two))
list_remove-remove_first_example = list_remove-remove_first no_raw b two two-IsArray

abbrev eight : PlantArray
eight = record { items = a ∷ a ∷ a ∷ a ∷ a ∷ a ∷ a ∷ a ∷ []; count = 8; capacity = 8; kind = 0 }

eight-IsArray : IsArray eight
eight-IsArray = record { sized = refl; fits = omega arith }

empty-IsPairMap : IsPairMap (list_create (pos 0))
unfolding list_create contents
empty-IsPairMap = record { good = list_create-IsArray (pos 0); paired = tt }

map_get-link_example :
    IsPairMap (link no_raw null (some (list_create (pos 0))) a b)
    × (map_get no_raw (some (link no_raw null (some (list_create (pos 0))) a b)) (some (codes "a"))
        ≡ (if str_eq (key_text no_raw (or_empty a)) (codes "a")
            then b
            else map_get no_raw (some (list_create (pos 0))) (some (codes "a"))))
    × (map_has no_raw (some (link no_raw null (some (list_create (pos 0))) a b)) (some (codes "a"))
        ≡ (str_eq (key_text no_raw (or_empty a)) (codes "a")
            || map_has no_raw (some (list_create (pos 0))) (some (codes "a"))))
map_get-link_example =
    map_get-link no_raw null (list_create (pos 0)) a b (codes "a") empty-IsPairMap

abbrev pairs : List (Value × Value)
pairs = (a, b) ∷ (b, a) ∷ (a, a) ∷ []
