-- ===== src/Memory/Arc.antt =====
-- The reference-counted heap of runtime/c/plant_runtime.c (`plant_arc_destroy` .. `plant_arc_persist`).
-- An object is named by its `alloc_seq`, which no other object has, in place of its address; a pointer
-- is such a name or `NULL`. The list is the heap list from `g_arc_head` on. An operation that reads
-- through a pointer to an object that is freed is a fault, `none`. The audit log is left out, and so
-- are the finalizers' bodies, which do nothing.
pub mod Collect
pub mod Safety
pub mod Pressure
pub mod Allocation
pub mod Eviction
pub mod Survivors
pub mod Collection
pub mod Draining
pub mod Sweeping
pub mod Links
pub mod Calls
pub mod Writes
pub mod Soundness
pub mod Marking
pub mod Tracing
pub mod Objects
use plant_lang.Prelude.{
  ℕ, zero, suc, ◌+◌, ◌-◌, ◌<◌, ◌≡◌, Bool, true, false, not, ◌||◌, ◌&&◌, List, [], ◌∷◌, Option, none,
  some, ltb, leb, ◌==◌, if◌then◌else◌, Text, codes, str_eq, ℤ, pos, negsuc,
}

pub record ArcObj : Type 0 where
  pub size : ℕ
  pub refs : ℤ
  pub in_edges : ℕ
  pub mark : Bool
  pub alloc_seq : ℕ
  pub leased_until : ℕ
  pub tainted : Bool
  pub finalizer : Text
  pub edges : List ℕ
  pub deferred : Bool

-- `queue` is g_arc_deferred[0 .. g_pending_frees)
pub record ArcHeap : Type 0 where
  pub objs : List ArcObj
  pub next_seq : ℕ
  pub allocs : ℕ
  pub live : ℕ
  pub frees : ℕ
  pub finalizes : ℕ
  pub leased : ℕ
  pub gc_runs : ℕ
  pub reclaimed : ℕ
  pub live_bytes : ℕ
  pub queue : List ℕ
  pub evicts : ℕ

-- The settings, and the use of the bump heap that the pressure is computed from.
pub record ArcConfig : Type 0 where
  pub gc_interval : ℕ
  pub lease_ms : ℕ
  pub pressure : ℕ
  pub fast_used : ℕ
  pub fast_size : ℕ

abbrev pub Pointer : Type 0
Pointer = Option ℕ

abbrev pub inc : ℤ → ℤ
inc (pos n) = pos (suc n)
inc (negsuc zero) = pos 0
inc (negsuc (suc n)) = negsuc n

abbrev pub dec : ℤ → ℤ
dec (pos zero) = negsuc 0
dec (pos (suc n)) = pos n
dec (negsuc n) = negsuc (suc n)

-- refs - k > 0
abbrev pub exceeds : ℤ → ℕ → Bool
exceeds (pos n) k = ltb k n
exceeds (negsuc n) k = false

abbrev pub is_zero : ℤ → Bool
is_zero (pos n) = n == 0
is_zero (negsuc n) = false

-- the object behind a pointer
unfoldable pub object : ℕ → List ArcObj → Option ArcObj
object s [] = none
object s (o ∷ os) = if o.alloc_seq == s then some o else object s os

-- a write to the object behind a pointer
unfoldable pub update : ℕ → (ArcObj → ArcObj) → List ArcObj → List ArcObj
update s f [] = []
update s f (o ∷ os) = if o.alloc_seq == s then f o ∷ os else o ∷ update s f os

-- unlinks the object from the heap list
unfoldable pub remove : ℕ → List ArcObj → List ArcObj
remove s [] = []
remove s (o ∷ os) = if o.alloc_seq == s then os else o ∷ remove s os

abbrev pub modify : ℕ → (ArcObj → ArcObj) → ArcHeap → ArcHeap
modify s f h = record h { objs = update s f h.objs }

abbrev pub one_if : Bool → ℕ
one_if true = 1
one_if false = 0

abbrev pub is_empty : Text → Bool
is_empty [] = true
is_empty (c ∷ cs) = false

-- `plant_arc_destroy` of the object `o` of the heap
unfoldable pub destroy : ArcObj → Bool → ArcHeap → ArcHeap
unfolding remove
destroy o reclaim h = record h {
  objs = remove o.alloc_seq h.objs;
  finalizes = h.finalizes + one_if (not (is_empty o.finalizer));
  reclaimed = h.reclaimed + one_if reclaim;
  live = h.live - 1;
  frees = suc h.frees;
  live_bytes = h.live_bytes - o.size;
}

-- `plant_arc_drop`: what happens to an object that lost its last reference
unfoldable pub drop_obj : ArcObj → ℕ → ArcHeap → ArcHeap
unfolding destroy
drop_obj o now h =
    if ltb 0 o.leased_until && ltb now o.leased_until
    then record h { leased = suc h.leased }
    else destroy o false h

abbrev pub retained : ArcObj → ArcObj
retained o = record o { refs = inc o.refs }

abbrev pub released : ArcObj → ArcObj
released o = record o { refs = dec o.refs }

unfoldable pub arc_retain : Pointer → ArcHeap → Option (ℕ × ArcHeap)
unfolding object update
arc_retain none h = some (0, h)
arc_retain (some s) h = elim (object s h.objs) [
  | none ↦ none
  | some o ↦ some (1, modify s retained h)
]

-- behind `refs--`: the object is kept, or dropped with its last reference
unfoldable pub settle : ArcObj → ℕ → ArcHeap → ℕ × ArcHeap
unfolding drop_obj
settle o now h = if exceeds o.refs 0 then (1, h) else (2, drop_obj o now h)

unfoldable pub arc_release : Pointer → ℕ → ArcHeap → Option (ℕ × ArcHeap)
unfolding object update settle
arc_release none now h = some (0, h)
arc_release (some s) now h = elim (object s h.objs) [
  | none ↦ none
  | some o ↦
      if exceeds o.refs 0 then some (settle (released o) now (modify s released h)) else some (0, h)
]

abbrev pub linking : ℕ → ArcObj → ArcObj
linking c o = record o { edges = c ∷ o.edges }

abbrev pub linked : ArcObj → ArcObj
linked o = record o { in_edges = suc o.in_edges; refs = inc o.refs }

-- `memory` tells whether `calloc` of the edge succeeds
unfoldable pub arc_link : Bool → Pointer → Pointer → ArcHeap → Option (ℕ × ArcHeap)
unfolding object update
arc_link memory none c h = some (0, h)
arc_link memory (some p) none h = some (0, h)
arc_link memory (some p) (some c) h =
    if p == c || not memory then some (0, h) else elim (object p h.objs) [
      | none ↦ none
      | some po ↦ elim (object c h.objs) [
        | none ↦ none
        | some co ↦ some (1, modify c linked (modify p (linking c) h))
      ]
    ]

unfoldable pub has_edge : ℕ → List ℕ → Bool
has_edge c [] = false
has_edge c (e ∷ es) = if e == c then true else has_edge c es

unfoldable pub cut_edge : ℕ → List ℕ → List ℕ
cut_edge c [] = []
cut_edge c (e ∷ es) = if e == c then es else e ∷ cut_edge c es

abbrev pub unlinking : ℕ → ArcObj → ArcObj
unlinking c o = record o { edges = cut_edge c o.edges }

abbrev pub unlinked : ArcObj → ArcObj
unlinked o = record o { in_edges = o.in_edges - 1; refs = dec o.refs }

unfoldable pub arc_unlink : Pointer → Pointer → ℕ → ArcHeap → Option (ℕ × ArcHeap)
unfolding object update settle has_edge cut_edge
arc_unlink none c now h = some (0, h)
arc_unlink (some p) none now h = some (0, h)
arc_unlink (some p) (some c) now h = elim (object p h.objs) [
  | none ↦ none
  | some po ↦
      if has_edge c po.edges
      then elim (object c h.objs) [
        | none ↦ none
        | some co ↦ some (settle (unlinked co) now (modify c unlinked (modify p (unlinking c) h)))
      ]
      else some (0, h)
]

-- a time that is not positive asks for the configured one
abbrev pub lease_time : ArcConfig → ℤ → ℕ
lease_time cfg (pos n) = if n == 0 then cfg.lease_ms else n
lease_time cfg (negsuc n) = cfg.lease_ms

abbrev pub leasing : ℕ → ArcObj → ArcObj
leasing t o = record o { leased_until = t }

unfoldable pub arc_lease : ArcConfig → Pointer → ℤ → ℕ → ArcHeap → Option (ℕ × ArcHeap)
unfolding object update
arc_lease cfg none ms now h = some (0, h)
arc_lease cfg (some s) ms now h =
    if lease_time cfg ms == 0 then some (0, h) else elim (object s h.objs) [
      | none ↦ none
      | some o ↦ some (1, modify s (leasing (now + lease_time cfg ms)) h)
    ]

abbrev pub is_finalizer : Text → Bool
is_finalizer name = str_eq name (codes "free_data") || str_eq name (codes "close_ctx")

abbrev pub finalizing : Text → ArcObj → ArcObj
finalizing name o = record o { finalizer = name }

unfoldable pub arc_set_finalizer : Pointer → Text → ArcHeap → Option (ℕ × ArcHeap)
unfolding object update
arc_set_finalizer none name h = some (0, h)
arc_set_finalizer (some s) name h =
    if is_finalizer name
    then elim (object s h.objs) [ none ↦ none | some o ↦ some (1, modify s (finalizing name) h) ]
    else some (0, h)

unfoldable pub arc_persist : Pointer → ArcHeap → Option ℕ
unfolding object
arc_persist none h = some 0
arc_persist (some s) h = elim (object s h.objs) [
  | none ↦ none
  | some o ↦ some (if o.tainted then 0 else 1)
]

-- `plant_arc_in_safe` on the stack of modes
unfoldable pub in_safe : List ℕ → Bool
in_safe [] = false
in_safe (m ∷ ms) = m == b'S' || in_safe ms
