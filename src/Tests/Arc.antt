-- ===== src/Tests/Arc.antt =====
-- A cycle of two objects, and an object that only a lease keeps.
use plant_lang.Prelude.{
  arith, ℕ, ◌+◌, ◌≤◌, ◌<◌, Bool, times, to_nat, ◌==◌, ℕ, ◌≡◌, ◌≤◌, ◌<◌, refl, subst, true, false,
  List, [], ◌∷◌, ◌++◌, Option, none, some, pos, ◌↔◌,
}
use plant_lang.Memory.Arc.{
  ArcObj, ArcHeap, ArcConfig, object, update, remove, destroy, drop_obj, settle, arc_retain,
  arc_release, arc_link, arc_lease, in_safe, exceeds, is_zero,
}
use plant_lang.Memory.Arc.Collect.{
  arc_gc, lease_evict, arc_alloc, add_obj, gc_if_due, persist_pressure, mark_obj, mark_all, roots,
  reclaim, sweep, drain, evict_one, evict_all, evict_pass, drain_all, unmarked, new_obj,
  at_least_one, expired,
}
use plant_lang.Memory.Arc.Marking.{Present}
use plant_lang.Memory.Arc.Soundness.{often, IsSound}
use plant_lang.Storms.Frames.{Weather, no_weather, is_handle, teardown, free_where}
use plant_lang.Storms.Exits.{IsExits, is_number}
use plant_lang.Storms.Reclaiming.{
  ArcMemory, arc_free_handle, arc_drain, arc_reclaimer, unless, plain, torn, teardown-reclaims,
}
use plant_lang.Memory.Arc.Collection.{Survives}
use plant_lang.Memory.Arc.Survivors.{arc_gc-collects}
use plant_lang.Memory.Arc.Pressure.{lease_evict-evicts}
use plant_lang.Memory.Arc.Allocation.{arc_alloc-allocates}
use plant_lang.Memory.Arc.Safety.{
  ArcCall, allocate, retain, release, link, lease, collect, evict, arc_run, WellBehaved, empty_heap,
  empty_heap-IsSound, arc_run_safe,
}

abbrev ap_count : Option (ℕ × ArcHeap) → Option (ℕ × List ArcObj)
ap_count none = none
ap_count (some (n, h)) = some (n, h.objs)

abbrev settings : ArcConfig
settings = record {
  gc_interval = 1000;
  lease_ms = 50;
  pressure = 85;
  fast_used = 0;
  fast_size = 100;
}

abbrev demo : List ArcCall
demo =
    allocate true [] 5 5 8
    ∷ allocate true [] 5 5 0
    ∷ allocate true [] 5 5 4
    ∷ link true (some 1) (some 2)
    ∷ link true (some 2) (some 1)
    ∷ lease (some 3) (pos 100) 5
    ∷ release (some 1) 6
    ∷ release (some 2) 6
    ∷ release (some 3) 6
    ∷ []

abbrev demo_heap : ArcHeap
demo_heap = record {
  objs =
      record {
        size = 4;
        refs = pos 0;
        in_edges = 0;
        mark = false;
        alloc_seq = 3;
        leased_until = 105;
        tainted = false;
        finalizer = [];
        edges = [];
        deferred = false;
      }
      ∷ record {
        size = 1;
        refs = pos 1;
        in_edges = 1;
        mark = false;
        alloc_seq = 2;
        leased_until = 0;
        tainted = false;
        finalizer = [];
        edges = 1 ∷ [];
        deferred = false;
      }
      ∷ record {
        size = 8;
        refs = pos 1;
        in_edges = 1;
        mark = false;
        alloc_seq = 1;
        leased_until = 0;
        tainted = false;
        finalizer = [];
        edges = 2 ∷ [];
        deferred = false;
      }
      ∷ [];
  next_seq = 4;
  allocs = 3;
  live = 3;
  frees = 0;
  finalizes = 0;
  leased = 1;
  gc_runs = 0;
  reclaimed = 0;
  live_bytes = 13;
  queue = [];
  evicts = 0;
}

demo_run : arc_run settings demo empty_heap ≡ some demo_heap
unfolding arc_run arc_alloc gc_if_due add_obj lease_evict persist_pressure evict_pass evict_all
    evict_one drain_all destroy arc_link arc_lease arc_release settle drop_obj object update remove
    in_safe
demo_run = refl

demo-WellBehaved : WellBehaved settings demo empty_heap
unfolding WellBehaved arc_alloc gc_if_due add_obj lease_evict persist_pressure evict_pass evict_all
    evict_one drain_all destroy arc_link arc_lease arc_release settle drop_obj object update remove
    in_safe
demo-WellBehaved = (
  tt,
  (
    tt,
    (
      tt,
      (
        ((_, refl), record { obj = _; found = refl; held = refl }),
        (
          ((_, refl), record { obj = _; found = refl; held = refl }),
          (
            (_, refl),
            (
              record { obj = _; found = refl; own = refl },
              (
                record { obj = _; found = refl; own = refl },
                (record { obj = _; found = refl; own = refl }, tt),
              ),
            ),
          ),
        ),
      ),
    ),
  ),
)

arc_run_safe_example : (h' : ArcHeap) × (arc_run settings demo empty_heap ≡ some h') × IsSound h'
arc_run_safe_example = arc_run_safe settings demo empty_heap empty_heap-IsSound demo-WellBehaved

demo_heap-IsSound : IsSound demo_heap
demo_heap-IsSound =
    let (h', e, s) = arc_run_safe_example in
    let same : h' ≡ demo_heap = cc demo_run in subst IsSound same s

arc_gc-collects_example :
    (n : ℕ) × (h' : ArcHeap) × (arc_gc 7 demo_heap ≡ some (n, h'))
    × IsSound h'
    × ((s : ℕ) → Present s h'.objs ↔ Survives 7 demo_heap s)
    × ((s : ℕ) (x : ArcObj)
        → object s h'.objs ≡ some x
        → (o : ArcObj) × (object s demo_heap.objs ≡ some o) × (unmarked x ≡ unmarked o))
arc_gc-collects_example = arc_gc-collects demo_heap 7 demo_heap-IsSound

-- The collection takes the cycle, and the object 3 although its lease runs to 105.
collected_test : ap_count (arc_gc 7 demo_heap) ≡ some (3, [])
unfolding arc_gc mark_obj mark_all roots reclaim sweep drain destroy object update remove
collected_test = refl

lease_evict-evicts_example :
    (n : ℕ) × (h' : ArcHeap) × (lease_evict settings 60 demo_heap ≡ some (n, h'))
    × IsSound h'
    × ((s : ℕ) (o : ArcObj)
        → object s demo_heap.objs ≡ some o
        → exceeds o.refs 0 ≡ true
        → object s h'.objs ≡ some o)
    × (persist_pressure settings demo_heap < 80 → (n ≡ 0) × (h' ≡ demo_heap))
    × (persist_pressure settings demo_heap < 90
        → (s : ℕ) (o : ArcObj) → object s demo_heap.objs ≡ some o
        → expired 60 o ≡ false
        → Present s h'.objs)
    × (90 ≤ persist_pressure settings demo_heap
        → (s : ℕ) (o : ArcObj) → object s h'.objs ≡ some o
        → is_zero o.refs ≡ true
        → o.leased_until ≡ 0)
lease_evict-evicts_example = lease_evict-evicts settings demo_heap 60 demo_heap-IsSound

arc_alloc-allocates_example :
    ((h' : ArcHeap) × (arc_alloc settings true (b'S' ∷ []) 60 61 0 demo_heap ≡ some (some 4, h'))
      × IsSound h'
      × (object 4 demo_heap.objs ≡ none)
      × ((x : ArcObj) × (object 4 h'.objs ≡ some x)
          × (unmarked x ≡ new_obj (at_least_one 0) (in_safe (b'S' ∷ [])) 4)))
    × (arc_alloc settings false (b'S' ∷ []) 60 61 0 demo_heap ≡ some (none, demo_heap))
arc_alloc-allocates_example =
    arc_alloc-allocates settings (b'S' ∷ []) 60 61 0 demo_heap demo_heap-IsSound

-- A client that takes up an object again after it has been queued: the object is referenced once more,
-- and the collection at the end of its lease frees it all the same.
abbrev taken_up : List ArcCall
taken_up =
    allocate true [] 5 5 8
    ∷ lease (some 1) (pos 40) 5
    ∷ release (some 1) 6
    ∷ evict 7
    ∷ retain (some 1)
    ∷ collect 50
    ∷ []

taken_up_test : arc_run settings (taken_up ++ retain (some 1) ∷ []) empty_heap ≡ none
unfolding arc_run arc_alloc gc_if_due add_obj lease_evict persist_pressure evict_pass evict_all
    evict_one drain_all destroy arc_lease arc_release arc_retain settle drop_obj object update
    remove in_safe arc_gc mark_obj mark_all roots reclaim sweep drain
taken_up_test = refl

-- an object of the heap, and a handle that is none
abbrev with_objects : Weather
with_objects = record no_weather {
  exits = record { handle = 3; deferred = false } ∷ record { handle = 9; deferred = true } ∷ [];
}

with_objects-IsExits : IsExits with_objects
unfolding times
with_objects-IsExits = record {
  fits = omega arith;
  once = λ h. two (3 == h) (9 == h) (λ a b. ground arith);
  real = refl;
}
  where
    two : (a b : Bool) → (a ≡ true → b ≡ true → ⊥) → to_nat a + (to_nat b + 0) ≤ 1
    two true true h = absurd (h refl refl)
    two true false h = omega arith
    two false true h = omega arith
    two false false h = omega arith

abbrev demo_memory : ArcMemory
demo_memory = record { heap = demo_heap; returned = [] }

nothing_queued : (s : ℕ) → 0 < times (is_handle s) with_objects.exits → often s demo_heap.queue ≡ 0
unfolding times
nothing_queued s h = refl

teardown-reclaims_example :
    (m' : ArcMemory) × (teardown arc_reclaimer with_objects (some demo_memory)
      ≡ (torn with_objects, some m'))
    × ((s : ℕ)
        → object s m'.heap.objs
          ≡ unless
              (times (is_handle s) with_objects.exits + often s demo_heap.queue)
              (object s demo_heap.objs))
    × ((s : ℕ)
        → times (is_number s) m'.returned
          ≡ times (is_number s) []
            + plain (times (is_handle s) with_objects.exits) (object s demo_heap.objs))
    × (m'.heap.queue ≡ [])
    × (teardown arc_reclaimer (torn with_objects) (some m') ≡ (torn with_objects, some m'))
teardown-reclaims_example =
    teardown-reclaims with_objects demo_memory with_objects-IsExits demo_heap-IsSound nothing_queued

-- A registered object that also waits in the queue: the teardown destroys it twice.
destroyed_twice :
    (teardown arc_reclaimer with_objects
      (some (record demo_memory { heap = record demo_heap { queue = 3 ∷ [] } }))).1
    ≡ none
unfolding teardown arc_reclaimer arc_free_handle arc_drain free_where drain_all destroy object
    remove
destroyed_twice = refl
