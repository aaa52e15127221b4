-- ===== src/Memory/Arc/Collection.antt =====
-- `plant_arc_gc`: which objects a collection leaves.
use plant_lang.Prelude.{
  ℕ, suc, ◌≡◌, refl, sym, ap, ◌∙◌, subst, true, false, List, [], ◌∷◌, none, some, arith, Bool-cases,
  Option-cases, inl, inr, ◌⊎◌, length, to_nat, length-map,
}
use mathlib.Core.List.{Memᴰ}
use plant_lang.Memory.Arc.{ArcObj, ArcHeap, object, exceeds}
use plant_lang.Memory.Arc.Collect.{unmarked, clear_marks, expired}
use plant_lang.Memory.Arc.Objects.{Distinct, total}
use plant_lang.Memory.Arc.Marking.{Reachable, object-same, object-clear}
use plant_lang.Memory.Arc.Soundness.{often, IsConsistent, IsSound, edges_in-pos}

-- Lists that differ in the marks only.
total-same :
    (m : ArcObj → ℕ) (l k : List ArcObj)
    → ((o : ArcObj) → m (unmarked o) ≡ m o)
    → clear_marks l ≡ clear_marks k
    → total m l ≡ total m k
unfolding total
total-same m l k blind e = sym (clear l) ∙ (ap (total m) e ∙ clear k)
  where
    clear : (j : List ArcObj) → total m (clear_marks j) ≡ total m j
    clear [] = refl
    clear (x ∷ j) = let a = blind x in let b = clear j in omega arith

Distinct-clear : (l : List ArcObj) → Distinct l → Distinct (clear_marks l)
unfolding Distinct
Distinct-clear [] d = d
Distinct-clear (x ∷ l) d = (ground (arith, object-clear x.alloc_seq l, d.0), Distinct-clear l d.1)

Distinct-unclear : (l : List ArcObj) → Distinct (clear_marks l) → Distinct l
unfolding Distinct
Distinct-unclear [] d = d
Distinct-unclear (x ∷ l) d =
    (ground (arith, object-clear x.alloc_seq l, d.0), Distinct-unclear l d.1)

object-none-same :
    (s : ℕ) (l k : List ArcObj)
    → clear_marks l ≡ clear_marks k
    → object s l ≡ none
    → object s k ≡ none
object-none-same s l k e h = elim (Option-cases (object s k)) [
  | inl n ↦ n
  | inr (o, p) ↦ let (q, r, _) = object-same s k l o (sym e) p in absurd (ground arith)
]

pub IsConsistent-same :
    (h : ArcHeap) (l : List ArcObj)
    → clear_marks l ≡ clear_marks h.objs
    → IsConsistent h
    → IsConsistent (record h { objs = l; gc_runs = suc h.gc_runs })
IsConsistent-same h l e c = record {
  distinct = Distinct-unclear l (subst Distinct (sym e) (Distinct-clear h.objs c.distinct));
  counts = λ s o f.
      let (p, q, same) = object-same s l h.objs o e f in
      let (r, er, ir) = c.counts s p q in
      let i = ap (λ (y : ArcObj). y.in_edges) same in
      (r, sym (ap (λ (y : ArcObj). y.refs) same) ∙ er, omega arith);
  inner = λ s o f.
      let (p, q, same) = object-same s l h.objs o e f in
      let i = ap (λ (y : ArcObj). y.in_edges) same in
      let t = total-same (λ y. often s y.edges) l h.objs (λ y. refl) e in
      let b = c.inner s p q in omega arith;
  waiting = λ s o f d.
      let (p, q, same) = object-same s l h.objs o e f in
      sym (ap (λ (y : ArcObj). y.refs) same)
      ∙ c.waiting s p q (ap (λ (y : ArcObj). y.deferred) same ∙ d);
  flagged = λ s o f.
      let (p, q, same) = object-same s l h.objs o e f in
      c.flagged s p q ∙ ap (λ (y : ArcObj). to_nat y.deferred) same;
  there = λ s m.
      let (p, q) = c.there s m in let (o, f, _) = object-same s h.objs l p (sym e) q in (o, f);
  fresh = λ s m. object-none-same s h.objs l (sym e) (c.fresh s m);
  unknown = λ s m. total-same (λ y. often s y.edges) l h.objs (λ y. refl) e ∙ c.unknown s m;
  room = c.room;
  lives =
      c.lives ∙ (sym (length-map unmarked h.objs) ∙ (ap length (sym e) ∙ length-map unmarked l));
  bytes = c.bytes ∙ sym (total-same (λ y. y.size) l h.objs (λ y. refl) e);
  balance = c.balance;
}

-- Which objects a collection at `now` leaves: the reachable ones, and of those that wait in the queue
-- the ones whose lease runs.
abbrev pub Survives : ℕ → ArcHeap → ℕ → Type 0
Survives now h s =
    (o : ArcObj) × (object s h.objs ≡ some o)
    × (((o.deferred ≡ false) × Reachable h.objs s)
        ⊎ ((o.deferred ≡ true) × (expired now o ≡ false)))

module _ (h : ArcHeap) (sound : IsSound h) where
  edge_referenced :
      (s c : ℕ) (o x : ArcObj)
      → object s h.objs ≡ some o
      → Memᴰ c o.edges
      → object c h.objs ≡ some x
      → exceeds x.refs 0 ≡ true
  edge_referenced s c o x e m f =
      let a = edges_in-pos h.objs s c o e m in
      let b = sound.base.inner c x f in let (r, er, ir) = sound.base.counts c x f in ground arith

  -- What a root reaches is there, and is referenced.
  pub Reachable-there :
      {s : ℕ}
      → Reachable h.objs s
      → (o : ArcObj) × (object s h.objs ≡ some o) × (exceeds o.refs 0 ≡ true) × (o.deferred ≡ false)
  Reachable-there (Reachable.root {s} o e r) =
      let (k, ek, ik) = sound.base.counts s o e in
      let held : exceeds o.refs 0 ≡ true = ground arith in (o, e, held, not_deferred s o e held)
    where
      not_deferred :
          (s : ℕ) (o : ArcObj)
          → object s h.objs ≡ some o
          → exceeds o.refs 0 ≡ true
          → o.deferred ≡ false
      not_deferred s o e held = elim (Bool-cases o.deferred) [
        | inl d ↦ absurd (let z = sound.base.waiting s o e d in ground arith)
        | inr d ↦ d
      ]
  Reachable-there (Reachable.edge {s} {c} r m) =
      let (o, e, held, nd) = Reachable-there r in
      let m' = subst (Memᴰ c) (ap (λ t. elim t [ none ↦ [] | some x ↦ x.edges ]) e) m in
      let (x, f) = sound.closed s o e nd c m' in
      let held' = edge_referenced s c o x e m' f in
      (
        x,
        f,
        held',
        elim (Bool-cases x.deferred) [
          | inl d ↦ absurd (let z = sound.base.waiting c x f d in ground arith)
          | inr d ↦ d
        ],
      )
