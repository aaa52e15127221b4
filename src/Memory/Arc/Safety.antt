-- ===== src/Memory/Arc/Safety.antt =====
-- Any run of calls on the heap by a client that gives back only what it holds.
use plant_lang.Prelude.{
  ℕ, ◌≡◌, ◌≢◌, refl, ap, subst, Bool, true, false, List, [], ◌∷◌, Option, none, some, arith, ℤ,
  Text, times,
}
use plant_lang.Memory.Arc.{
  ArcHeap, ArcConfig, Pointer, object, arc_retain, arc_release, arc_link, arc_unlink, arc_lease,
  arc_set_finalizer, arc_persist,
}
use plant_lang.Memory.Arc.Collect.{arc_gc, lease_evict, arc_alloc}
use plant_lang.Memory.Arc.Objects.{Distinct, total}
use plant_lang.Memory.Arc.Marking.{Present}
use plant_lang.Memory.Arc.Soundness.{IsSound}
use plant_lang.Memory.Arc.Calls.{
  IsReferenced, IsOwned, Answers, arc_retain-Answers, arc_release-Answers,
}
use plant_lang.Memory.Arc.Links.{
  arc_link-Answers, arc_unlink-Answers, arc_lease-Answers, arc_set_finalizer-Answers,
}
use plant_lang.Memory.Arc.Survivors.{arc_gc-collects}
use plant_lang.Memory.Arc.Pressure.{lease_evict-evicts}
use plant_lang.Memory.Arc.Allocation.{arc_alloc-allocates}

-- The calls, each with what it takes from outside: whether `calloc` succeeds, the modes, the clock.
pub data ArcCall : Type 0 where
  allocate : Bool → List ℕ → ℕ → ℕ → ℕ → ArcCall
  retain : Pointer → ArcCall
  release : Pointer → ℕ → ArcCall
  link : Bool → Pointer → Pointer → ArcCall
  unlink : Pointer → Pointer → ℕ → ArcCall
  lease : Pointer → ℤ → ℕ → ArcCall
  finalizer : Pointer → Text → ArcCall
  persist : Pointer → ArcCall
  collect : ℕ → ArcCall
  evict : ℕ → ArcCall

-- the heap behind a call
abbrev behind {ℓ} : {A : Type ℓ} → Option (A × ArcHeap) → Option ArcHeap
behind none = none
behind (some (a, h)) = some h

abbrev unchanged : ArcHeap → Option ℕ → Option ArcHeap
unchanged h none = none
unchanged h (some n) = some h

unfoldable pub arc_call : ArcConfig → ArcCall → ArcHeap → Option ArcHeap
arc_call cfg (allocate memory modes now later size) h =
    behind (arc_alloc cfg memory modes now later size h)
arc_call cfg (retain p) h = behind (arc_retain p h)
arc_call cfg (release p now) h = behind (arc_release p now h)
arc_call cfg (link memory p c) h = behind (arc_link memory p c h)
arc_call cfg (unlink p c now) h = behind (arc_unlink p c now h)
arc_call cfg (lease p ms now) h = behind (arc_lease cfg p ms now h)
arc_call cfg (finalizer p name) h = behind (arc_set_finalizer p name h)
arc_call cfg (persist p) h = unchanged h (arc_persist p h)
arc_call cfg (collect now) h = behind (arc_gc now h)
arc_call cfg (evict now) h = behind (lease_evict cfg now h)

unfoldable pub arc_run : ArcConfig → List ArcCall → ArcHeap → Option ArcHeap
unfolding arc_call
arc_run cfg [] h = some h
arc_run cfg (c ∷ cs) h = elim (arc_call cfg c h) [ none ↦ none | some h' ↦ arc_run cfg cs h' ]

-- What the client must see to: a release wants a reference that is no edge, a retain, a linked child
-- and an unlinked parent an object that somebody references, the others an object of the heap.
unfoldable pub IsAllowed : ArcHeap → ArcCall → Type 0
IsAllowed h (allocate memory modes now later size) = Unit
IsAllowed h (retain none) = Unit
IsAllowed h (retain (some s)) = IsReferenced h s
IsAllowed h (release none now) = Unit
IsAllowed h (release (some s) now) = IsOwned h s
IsAllowed h (link memory none c) = Unit
IsAllowed h (link memory (some p) none) = Unit
IsAllowed h (link memory (some p) (some c)) = Present p h.objs × IsReferenced h c
IsAllowed h (unlink none c now) = Unit
IsAllowed h (unlink (some p) none now) = Unit
IsAllowed h (unlink (some p) (some c) now) = IsReferenced h p × (p ≢ c)
IsAllowed h (lease none ms now) = Unit
IsAllowed h (lease (some s) ms now) = Present s h.objs
IsAllowed h (finalizer none name) = Unit
IsAllowed h (finalizer (some s) name) = Present s h.objs
IsAllowed h (persist none) = Unit
IsAllowed h (persist (some s)) = Present s h.objs
IsAllowed h (collect now) = Unit
IsAllowed h (evict now) = Unit

-- Each call of the run is allowed in the heap that it finds. Nothing is asked of a run that has come
-- to a fault: that there is none is what is to be shown.
unfoldable pub WellBehaved : ArcConfig → List ArcCall → ArcHeap → Type 0
unfolding IsAllowed arc_call
WellBehaved cfg [] h = Unit
WellBehaved cfg (c ∷ cs) h =
    IsAllowed h c × (elim (arc_call cfg c h) [ none ↦ Unit | some h' ↦ WellBehaved cfg cs h' ])

abbrev pub empty_heap : ArcHeap
empty_heap = record {
  objs = [];
  next_seq = 1;
  allocs = 0;
  live = 0;
  frees = 0;
  finalizes = 0;
  leased = 0;
  gc_runs = 0;
  reclaimed = 0;
  live_bytes = 0;
  queue = [];
  evicts = 0;
}

pub empty_heap-IsSound : IsSound empty_heap
unfolding object total Distinct times
empty_heap-IsSound = record {
  base = record {
    distinct = tt;
    counts = λ s o e. cc;
    inner = λ s o e. cc;
    waiting = λ s o e d. cc;
    flagged = λ s o e. cc;
    there = λ s m. absurd (omega arith);
    fresh = λ s m. refl;
    unknown = λ s m. refl;
    room = omega arith;
    lives = refl;
    bytes = refl;
    balance = refl;
  };
  closed = λ s o e. cc;
}

-- A call that answers, for its heap.
abbrev Goes : Option ArcHeap → Type 0
Goes r = (h' : ArcHeap) × (r ≡ some h') × IsSound h'

answered : (r : Option (ℕ × ArcHeap)) → Answers r → Goes (behind r)
answered r (n, h', e, s) = (h', ap behind e, s)

module _ (cfg : ArcConfig) (h : ArcHeap) (sound : IsSound h) where
  stays : Goes (some h)
  stays = (h, refl, sound)

  arc_call-Goes : (c : ArcCall) → IsAllowed h c → Goes (arc_call cfg c h)
  unfolding IsAllowed arc_call arc_retain arc_release arc_link arc_unlink arc_lease
      arc_set_finalizer arc_persist
  arc_call-Goes (allocate true modes now later size) a =
      let ((h', e, s, _, _), _) = arc_alloc-allocates cfg modes now later size h sound in
      (h', ap behind e, s)
  arc_call-Goes (allocate false modes now later size) a =
      let (_, e) = arc_alloc-allocates cfg modes now later size h sound in (h, ap behind e, sound)
  arc_call-Goes (retain none) a = stays
  arc_call-Goes (retain (some s)) a =
      answered (arc_retain (some s) h) (arc_retain-Answers h sound s a)
  arc_call-Goes (release none now) a = stays
  arc_call-Goes (release (some s) now) a =
      answered (arc_release (some s) now h) (arc_release-Answers h sound s now a)
  arc_call-Goes (link memory none c) a = stays
  arc_call-Goes (link memory (some p) none) a = stays
  arc_call-Goes (link memory (some p) (some c)) (there, ref) =
      answered (arc_link memory (some p) (some c) h) (arc_link-Answers h sound memory p c there ref)
  arc_call-Goes (unlink none c now) a = stays
  arc_call-Goes (unlink (some p) none now) a = stays
  arc_call-Goes (unlink (some p) (some c) now) (ref, n) =
      answered (arc_unlink (some p) (some c) now h) (arc_unlink-Answers h sound p c now ref n)
  arc_call-Goes (lease none ms now) a = stays
  arc_call-Goes (lease (some s) ms now) a =
      answered (arc_lease cfg (some s) ms now h) (arc_lease-Answers h sound cfg s ms now a)
  arc_call-Goes (finalizer none name) a = stays
  arc_call-Goes (finalizer (some s) name) a =
      answered (arc_set_finalizer (some s) name h) (arc_set_finalizer-Answers h sound s name a)
  arc_call-Goes (persist none) a = stays
  arc_call-Goes (persist (some s)) (o, e) = (h, rw (arc_persist, e) refl, sound)
  arc_call-Goes (collect now) a =
      let (n, h', e, s, _, _) = arc_gc-collects h now sound in (h', ap behind e, s)
  arc_call-Goes (evict now) a =
      let (n, h', e, s, _, _, _, _) = lease_evict-evicts cfg h now sound in (h', ap behind e, s)

-- A client that releases only references of its own, and uses no object that it gave up, never makes
-- the heap read freed memory: every run of its calls ends, and with a well-formed heap, in which the
-- counters `g_arc_live`, `g_arc_live_bytes`, `g_arc_allocs` and `g_arc_frees` tell the truth, every
-- object is counted at least once for each edge to it, and the queue of evictions holds exactly the
-- objects with its flag, each once and none of them referenced.
pub arc_run_safe :
    (cfg : ArcConfig) (calls : List ArcCall) (h : ArcHeap)
    → IsSound h
    → WellBehaved cfg calls h
    → (h' : ArcHeap) × (arc_run cfg calls h ≡ some h') × IsSound h'
unfolding arc_run WellBehaved
arc_run_safe cfg [] h sound w = (h, refl, sound)
arc_run_safe cfg (c ∷ cs) h sound (a, w) =
    let (h1, e, s1) = arc_call-Goes cfg h sound c a in
    let w1 = subst (λ r. elim r [ none ↦ Unit | some k ↦ WellBehaved cfg cs k ]) e w in
    let (h', e', s') = arc_run_safe cfg cs h1 s1 w1 in (h', rw (arc_run, e) e', s')
