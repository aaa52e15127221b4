-- ===== src/Memory/Arc/Allocation.antt =====
-- `plant_arc_alloc`: the new object, and what a collection and an eviction on the way leave.
use plant_lang.Prelude.{
  ℕ, suc, ◌%◌, ◌≡◌, refl, sym, ap, ◌∙◌, subst, Bool, true, false, List, [], none, some, arith, ◌==◌,
  ==_iff, Bool-cases, inl, inr, ◌⊎◌, pos, times, to_nat,
}
use mathlib.Core.List.{Memᴰ}
use mathlib.Core.List.Memᴰ
use plant_lang.Memory.Arc.{ArcObj, ArcHeap, ArcConfig, object, exceeds, in_safe}
use plant_lang.Memory.Arc.Collect.{
  unmarked, new_obj, add_obj, at_least_one, gc_if_due, arc_alloc, is_root,
}
use plant_lang.Memory.Arc.Objects.{Distinct, total}
use plant_lang.Memory.Arc.Marking.{Reachable}
use plant_lang.Memory.Arc.Soundness.{often, Counted, IsConsistent, IsSound}
use plant_lang.Memory.Arc.Survivors.{arc_gc-collects}
use plant_lang.Memory.Arc.Pressure.{lease_evict-evicts}

module _ (size : ℕ) (safe : Bool) (h : ArcHeap) (sound : IsSound h) where
  add_obj-other :
      (s : ℕ) (o : ArcObj)
      → object s (add_obj size safe h).objs ≡ some o
      → ((s ≡ h.next_seq) × (o ≡ new_obj size safe h.next_seq)) ⊎ (object s h.objs ≡ some o)
  unfolding add_obj object
  add_obj-other s o e = elim (Bool-cases (h.next_seq == s)) [
    | inl y ↦ inl (sym ((==_iff h.next_seq s).0 y), ground arith)
    | inr n ↦ inr (ground arith)
  ]

  add_obj-old :
      (s : ℕ) (o : ArcObj) → object s h.objs ≡ some o → object s (add_obj size safe h).objs ≡ some o
  unfolding add_obj object
  add_obj-old s o e = elim (Bool-cases (h.next_seq == s)) [
    | inl y ↦
        absurd (let z = sound.base.fresh s (let w = (==_iff h.next_seq s).0 y in omega arith) in cc)
    | inr n ↦ rw (object, n) e
  ]

  pub add_obj-IsSound : IsSound (add_obj size safe h)
  unfolding add_obj total Distinct object
  add_obj-IsSound = record {
    base = record {
      distinct = (c.fresh h.next_seq (omega arith), c.distinct);
      counts = λ s o e. elim (add_obj-other s o e) [
        | inl (es, eo) ↦ subst Counted (sym eo) (1, refl, omega arith)
        | inr f ↦ c.counts s o f
      ];
      inner = λ s o e. elim (add_obj-other s o e) [
        | inl (es, eo) ↦ let z = c.unknown s (omega arith) in let w = blank s in omega arith
        | inr f ↦ let z = c.inner s o f in let w = blank s in omega arith
      ];
      waiting = λ s o e d. elim (add_obj-other s o e) [
        | inl (es, eo) ↦ absurd (let z = ap (λ (y : ArcObj). y.deferred) eo in cc)
        | inr f ↦ c.waiting s o f d
      ];
      flagged = λ s o e. elim (add_obj-other s o e) [
        | inl (es, eo) ↦
            subst (λ (y : ArcObj). often s h.queue ≡ to_nat y.deferred) (sym eo) (never s es)
        | inr f ↦ c.flagged s o f
      ];
      there = λ s m. let (o, f) = c.there s m in (o, add_obj-old s o f);
      fresh = λ s m. elim (Bool-cases (h.next_seq == s)) [
        | inl y ↦ absurd (let w = (==_iff h.next_seq s).0 y in omega arith)
        | inr n ↦ rw (object, n) (c.fresh s (omega arith))
      ];
      unknown = λ s m. let z = c.unknown s (omega arith) in let w = blank s in omega arith;
      room = c.room;
      lives = ap suc c.lives;
      bytes = let z = c.bytes in omega arith;
      balance = let z = c.balance in omega arith;
    };
    closed = λ s o e nd t m. elim (add_obj-other s o e) [
      | inl (es, eo) ↦ absurd (Memᴰ.not-nil (subst (λ (y : ArcObj). Memᴰ t y.edges) eo m))
      | inr f ↦ let (x, g) = sound.closed s o f nd t m in (x, add_obj-old t x g)
    ];
  }
    where
      c : IsConsistent h
      c = sound.base

      blank : (s : ℕ) → often s [] ≡ 0
      blank s = unfold times in refl

      never : (s : ℕ) → s ≡ h.next_seq → often s h.queue ≡ 0
      never s es = elim (Bool-cases (0 == often s h.queue)) [
        | inl y ↦ sym ((==_iff 0 (often s h.queue)).0 y)
        | inr n ↦
            let (o, f) = c.there s (ground arith) in absurd (let z = c.fresh s (omega arith) in cc)
      ]

-- Where the heap has the object and a root holds it, the collection of an allocation leaves it.
gc_if_due_lem :
    (cfg : ArcConfig) (now : ℕ) (h : ArcHeap)
    → IsSound h
    → (n : ℕ) × (h' : ArcHeap) × (gc_if_due cfg now h ≡ some (n, h'))
      × IsSound h'
      × ((s : ℕ) (o : ArcObj)
          → object s h.objs ≡ some o
          → is_root o ≡ true
          → o.deferred ≡ false
          → (x : ArcObj) × (object s h'.objs ≡ some x) × (unmarked x ≡ unmarked o))
unfolding gc_if_due
gc_if_due_lem cfg now h sound = elim (Bool-cases (h.allocs % cfg.gc_interval == 0)) [
  | inr other ↦ (0, h, rw (gc_if_due, other) refl, sound, λ s o e r d. (o, e, refl))
  | inl due ↦
      let (n, h', e, s', stays, same) = arc_gc-collects h now sound in
      (
        n,
        h',
        rw (gc_if_due, due) e,
        s',
        λ s o f r d.
            let (x, g) = (stays s).1 (o, f, inl (d, Reachable.root o f r)) in
            let (o', f', u) = same s x g in let oo : o' ≡ o = cc in (x, g, u ∙ ap unmarked oo),
      )
]

-- An allocation never faults and leaves a well-formed heap. With memory to be had, it answers a name
-- that no object of the heap had, of an object that is in the heap afterwards, with one reference, at
-- least one byte, no lease, and the mark of the SAFE mode; the collection and the eviction that it may
-- run do not take the object away. Without memory it answers `NULL` and changes nothing.
pub arc_alloc-allocates :
    (cfg : ArcConfig) (modes : List ℕ) (now later size : ℕ) (h : ArcHeap)
    → IsSound h
    → ((h' : ArcHeap) × (arc_alloc cfg true modes now later size h ≡ some (some h.next_seq, h'))
        × IsSound h'
        × (object h.next_seq h.objs ≡ none)
        × ((x : ArcObj) × (object h.next_seq h'.objs ≡ some x)
            × (unmarked x ≡ new_obj (at_least_one size) (in_safe modes) h.next_seq)))
      × (arc_alloc cfg false modes now later size h ≡ some (none, h))
unfolding arc_alloc
arc_alloc-allocates cfg modes now later size h sound =
    let o = new_obj (at_least_one size) (in_safe modes) h.next_seq in
    let h1 = add_obj (at_least_one size) (in_safe modes) h in
    let s1 = add_obj-IsSound (at_least_one size) (in_safe modes) h sound in
    let (n, h2, e2, s2, kept) = gc_if_due_lem cfg now h1 s1 in
    let (x, f, same) = kept h.next_seq o (there o) refl refl in
    let (k, h3, e3, s3, held, _, _, _) = lease_evict-evicts cfg h2 later s2 in
    let refs : x.refs ≡ pos 1 = ap (λ (y : ArcObj). y.refs) same in
    (
      (
        h3,
        rw (arc_alloc, e2, e3) refl,
        s3,
        sound.base.fresh h.next_seq (omega arith),
        (x, held h.next_seq x f (ap (λ r. exceeds r 0) refs), same),
      ),
      refl,
    )
  where
    there :
        (o : ArcObj)
        → object h.next_seq (add_obj (at_least_one size) (in_safe modes) h).objs
          ≡ some (new_obj (at_least_one size) (in_safe modes) h.next_seq)
    there o = unfold add_obj in unfold object in rw ((==_iff h.next_seq h.next_seq).1 refl) refl
