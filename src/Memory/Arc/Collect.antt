-- ===== src/Memory/Arc/Collect.antt =====
-- Cycle collection, eviction of leases, and allocation in runtime/c/plant_runtime.c (`plant_arc_alloc`,
-- `plant_arc_mark`, `plant_arc_gc`, `plant_persist_pressure`, `plant_lease_evict`). The recursion of
-- `plant_arc_mark` has as its fuel one more than the heap has objects; running out counts as a fault.
use plant_lang.Prelude.{
  ℕ, zero, suc, ◌+◌, ◌-◌, ◌*◌, ◌/◌, ◌%◌, Bool, true, false, not, ◌||◌, ◌&&◌, List, [], ◌∷◌, ◌++◌,
  map, Option, none, some, ltb, leb, ◌==◌, if◌then◌else◌, length, get_or, set, take, pos,
}
use plant_lang.Memory.Arc.{
  ArcObj, ArcHeap, ArcConfig, Pointer, exceeds, is_zero, object, update, modify, destroy, in_safe,
}

abbrev pub unmarked : ArcObj → ArcObj
unmarked o = record o { mark = false }

abbrev pub marked : ArcObj → ArcObj
marked o = record o { mark = true }

abbrev pub clear_marks : List ArcObj → List ArcObj
clear_marks = map unmarked

-- an object with references beyond its incoming edges
abbrev pub is_root : ArcObj → Bool
is_root o = exceeds o.refs o.in_edges

unfoldable pub roots : List ArcObj → List ℕ
roots [] = []
roots (o ∷ os) = if is_root o then o.alloc_seq ∷ roots os else roots os

unfoldable pub mark_all :
    (ℕ → List ArcObj → Option (List ArcObj)) → List ℕ → List ArcObj → Option (List ArcObj)
mark_all f [] l = some l
mark_all f (c ∷ cs) l = elim (f c l) [ none ↦ none | some l' ↦ mark_all f cs l' ]

-- `plant_arc_mark`
unfoldable pub mark_obj : ℕ → ℕ → List ArcObj → Option (List ArcObj)
unfolding object update mark_all
mark_obj zero s l = none
mark_obj (suc fuel) s l = elim (object s l) [
  | none ↦ none
  | some o ↦ if o.mark then some l else mark_all (mark_obj fuel) o.edges (update s marked l)
]

abbrev pub expired : ℕ → ArcObj → Bool
expired now o = leb o.leased_until now

abbrev pub lease_dead : ℕ → ArcObj → Bool
lease_dead now o = is_zero o.refs && (ltb 0 o.leased_until && expired now o)

abbrev pub is_garbage : ℕ → ArcObj → Bool
is_garbage now o = (not o.mark || lease_dead now o) && not o.deferred

-- the sweep over the objects of the heap list, with what was reclaimed so far
unfoldable pub sweep : ℕ → List ArcObj → ℕ × ArcHeap → ℕ × ArcHeap
unfolding destroy
sweep now [] (n, h) = (n, h)
sweep now (o ∷ os) (n, h) =
    sweep now os (if is_garbage now o then (suc n, destroy o true h) else (n, h))

-- the queue with its last entry in place of the one at `i`
abbrev pub swap_out : ℕ → List ℕ → List ℕ
swap_out i q = take (length q - 1) (set q i (get_or q (length q - 1) 0))

-- The rounds of the loop that drains the queue from `i` on; one for each entry is enough.
unfoldable pub drain : ℕ → ℕ → ℕ → ℕ × ArcHeap → Option (ℕ × ArcHeap)
unfolding object destroy
drain zero now i (n, h) = some (n, h)
drain (suc rounds) now i (n, h) =
    if ltb i (length h.queue)
    then elim (object (get_or h.queue i 0) h.objs) [
      | none ↦ none
      | some d ↦ elim (expired now d) [
        | true ↦
            drain rounds now i (suc n, record (destroy d true h) { queue = swap_out i h.queue })
        | false ↦ drain rounds now (suc i) (n, h)
      ]
    ]
    else some (n, h)

-- what `plant_arc_gc` does behind the marking
unfoldable pub reclaim : ℕ → ArcHeap → List ArcObj → Option (ℕ × ArcHeap)
unfolding sweep drain
reclaim now h l =
    drain (length h.queue) now 0 (sweep now l (0, record h { objs = l; gc_runs = suc h.gc_runs }))

unfoldable pub arc_gc : ℕ → ArcHeap → Option (ℕ × ArcHeap)
unfolding mark_obj mark_all roots reclaim
arc_gc now h =
    elim (mark_all (mark_obj (suc (length h.objs))) (roots h.objs) (clear_marks h.objs)) [
      | none ↦ none
      | some l ↦ reclaim now h l
    ]

abbrev larger : ℕ → ℕ → ℕ
larger p q = if ltb p q then q else p

unfoldable pub persist_pressure : ArcConfig → ArcHeap → ℕ
persist_pressure cfg h =
    if ltb 0 cfg.pressure
    then cfg.pressure
    else larger (if cfg.fast_size == 0 then 0 else cfg.fast_used * 100 / cfg.fast_size)
        (h.live_bytes * 100 / (64 * 1024 * 1024))

abbrev pub queue_max : ℕ
queue_max = 512

abbrev pub queued : ArcObj → ArcObj
queued o = record o { deferred = true }

-- within the margin of its end
abbrev pub near : ℕ → ℕ → ArcObj → Bool
near margin now o = ltb 0 margin && leb o.leased_until (margin + now)

abbrev pub is_evictable : ArcObj → Bool
is_evictable o = is_zero o.refs && (ltb 0 o.leased_until && not o.deferred)

-- one round of the scan of `plant_lease_evict`
unfoldable pub evict_one : ℕ → ℕ → Bool → ArcObj → ℕ × ArcHeap → ℕ × ArcHeap
unfolding update destroy
evict_one margin now critical o (n, h) =
    if is_evictable o
    then if critical || expired now o
      then (suc n, destroy o true h)
      else if near margin now o && ltb (length h.queue) queue_max
      then (n, record (modify o.alloc_seq queued h) { queue = h.queue ++ o.alloc_seq ∷ [] })
      else (n, h)
    else (n, h)

unfoldable pub evict_all : ℕ → ℕ → Bool → List ArcObj → ℕ × ArcHeap → ℕ × ArcHeap
unfolding evict_one
evict_all margin now critical [] r = r
evict_all margin now critical (o ∷ os) r =
    evict_all margin now critical os (evict_one margin now critical o r)

-- the queue from its end, all of it
unfoldable pub drain_all : ℕ → ℕ × ArcHeap → Option (ℕ × ArcHeap)
unfolding object destroy
drain_all zero (n, h) = some (n, h)
drain_all (suc rounds) (n, h) = elim (object (get_or h.queue rounds 0) h.objs) [
  | none ↦ none
  | some d ↦ drain_all rounds (suc n, record (destroy d true h) { queue = take rounds h.queue })
]

abbrev counted : ℕ × ArcHeap → ℕ × ArcHeap
counted (n, h) = (n, record h { evicts = h.evicts + n })

-- the scan, and the queue emptied where the pressure is critical
unfoldable pub evict_pass : ℕ → ℕ → Bool → ArcHeap → Option (ℕ × ArcHeap)
unfolding evict_all drain_all
evict_pass margin now critical h =
    let r = evict_all margin now critical h.objs (0, h) in
    if critical then drain_all (length r.1.queue) r else some r

unfoldable pub lease_evict : ArcConfig → ℕ → ArcHeap → Option (ℕ × ArcHeap)
unfolding persist_pressure evict_pass
lease_evict cfg now h =
    if ltb (persist_pressure cfg h) 80
    then some (0, h)
    else elim (evict_pass cfg.lease_ms now (leb 90 (persist_pressure cfg h)) h) [
      | none ↦ none
      | some r ↦ some (counted r)
    ]

abbrev pub new_obj : ℕ → Bool → ℕ → ArcObj
new_obj size safe s = record {
  size = size;
  refs = pos 1;
  in_edges = 0;
  mark = false;
  alloc_seq = s;
  leased_until = 0;
  tainted = safe;
  finalizer = [];
  edges = [];
  deferred = false;
}

abbrev pub at_least_one : ℕ → ℕ
at_least_one n = if ltb n 1 then 1 else n

unfoldable pub add_obj : ℕ → Bool → ArcHeap → ArcHeap
add_obj size safe h = record h {
  objs = new_obj size safe h.next_seq ∷ h.objs;
  next_seq = suc h.next_seq;
  live_bytes = h.live_bytes + size;
  live = suc h.live;
  allocs = suc h.allocs;
}

-- The collection of every `gc_interval`-th allocation; `now` is the clock.
unfoldable pub gc_if_due : ArcConfig → ℕ → ArcHeap → Option (ℕ × ArcHeap)
unfolding arc_gc
gc_if_due cfg now h = if h.allocs % cfg.gc_interval == 0 then arc_gc now h else some (0, h)

-- `memory` tells whether both calls of `calloc` succeed; `now` and `later` are the clock at the
-- collection and at the eviction.
unfoldable pub arc_alloc :
    ArcConfig → Bool → List ℕ → ℕ → ℕ → ℕ → ArcHeap → Option (Pointer × ArcHeap)
unfolding in_safe add_obj gc_if_due lease_evict
arc_alloc cfg memory modes now later size h =
    if memory
    then elim (gc_if_due cfg now (add_obj (at_least_one size) (in_safe modes) h)) [
      | none ↦ none
      | some (n, h') ↦ elim (lease_evict cfg later h') [
        | none ↦ none
        | some (k, h'') ↦ some (some h.next_seq, h'')
      ]
    ]
    else some (none, h)
