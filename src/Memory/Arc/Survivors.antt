-- ===== src/Memory/Arc/Survivors.antt =====
-- What `plant_arc_gc` leaves is well formed, and is what the roots reach with what the queue keeps.
use plant_lang.Prelude.{
  ℕ, suc, ◌≡◌, sym, ap, ◌∙◌, subst, true, false, List, [], none, some, arith, leb, Bool-cases,
  Option-cases, inl, inr, ◌↔◌, length,
}
use mathlib.Core.List.{Memᴰ}
use mathlib.Core.List.Memᴰ
use plant_lang.Memory.Arc.{ArcObj, ArcHeap, object, exceeds}
use plant_lang.Memory.Arc.Collect.{
  unmarked, clear_marks, is_garbage, expired, sweep, reclaim, arc_gc,
}
use plant_lang.Memory.Arc.Marking.{Present, Reachable, is_marked, object-same}
use plant_lang.Memory.Arc.Tracing.{mark_phase}
use plant_lang.Memory.Arc.Soundness.{IsConsistent, IsSound}
use plant_lang.Memory.Arc.Sweeping.{Removes, Sweeps, sweep_lem}
use plant_lang.Memory.Arc.Draining.{due, drain_lem}
use plant_lang.Memory.Arc.Collection.{Survives, Reachable-there, IsConsistent-same}

-- A sweep and a drain behind a marking that gave `l`.
module _ (h : ArcHeap) (sound : IsSound h) (now : ℕ) (l : List ArcObj)
    (shape : clear_marks l ≡ clear_marks h.objs)
    (marks : (s : ℕ) → (is_marked s l ≡ true) ↔ Reachable h.objs s) (h2 h' : ArcHeap)
    (sweeps : Sweeps now l (record h { objs = l; gc_runs = suc h.gc_runs }) h2)
    (base : IsConsistent h') (removes : Removes (due now) h2.objs h'.objs) where
  mark_of : (s : ℕ) (p : ArcObj) → object s l ≡ some p → is_marked s l ≡ p.mark
  mark_of s p e = ap (λ t. elim t [ none ↦ false | some x ↦ x.mark ]) e

  survivor_kept :
      (s : ℕ)
      → Survives now h s
      → (p : ArcObj) × (object s l ≡ some p) × (object s h'.objs ≡ some p)
  survivor_kept s (o, e, why) =
      let (p, q, same) = object-same s h.objs l o (sym shape) e in
      let def = ap (λ (y : ArcObj). y.deferred) same in
      let refs = ap (λ (y : ArcObj). y.refs) same in
      let until = ap (λ (y : ArcObj). y.leased_until) same in
      elim why [
        | inl (nd, r) ↦
            let m = sym (mark_of s p q) ∙ (marks s).1 r in
            let (o', e', held, _) = Reachable-there h sound r in
            let oo : o' ≡ o = cc in
            let held' : exceeds p.refs 0 ≡ true =
              ap (λ t. exceeds t 0) (refs ∙ sym (ap (λ (y : ArcObj). y.refs) oo)) ∙ held in
            let g : is_garbage now p ≡ false = ground arith in
            (p, q, removes.keeps s p (sweeps.keeps s p q g) (ground arith))
        | inr (d, x) ↦
            let dp : p.deferred ≡ true = def ∙ d in
            let g : is_garbage now p ≡ false = ground arith in
            let xp : expired now p ≡ false = ap (λ t. leb t now) until ∙ x in
            (p, q, removes.keeps s p (sweeps.keeps s p q g) (ground arith))
      ]

  -- Nothing else is there afterwards.
  kept-Survives : (s : ℕ) → Present s h'.objs → Survives now h s
  kept-Survives s (z, ez) = elim (Option-cases (object s l)) [
    | inl n ↦ absurd (let a = removes.nones s (sweeps.rest s n ∙ n) in cc)
    | inr (p, q) ↦
        let (o, e, same) = object-same s l h.objs p shape q in
        let def = ap (λ (y : ArcObj). y.deferred) same in
        let until = ap (λ (y : ArcObj). y.leased_until) same in
        elim (Bool-cases (is_garbage now p)) [
          | inl g ↦ absurd (let a = removes.nones s (sweeps.drops s p q g) in cc)
          | inr g ↦
              let kept = sweeps.keeps s p q g in
              elim (Bool-cases p.deferred) [
                | inl d ↦ elim (Bool-cases (expired now p)) [
                  | inl x ↦ absurd (let a = removes.drops s p kept (ground arith) in cc)
                  | inr x ↦ (o, e, inr (def ∙ d, ap (λ t. leb t now) until ∙ x))
                ]
                | inr d ↦
                    let m : p.mark ≡ true = ground arith in
                    (o, e, inl (def ∙ d, (marks s).0 (mark_of s p q ∙ m)))
              ]
        ]
  ]

  kept_same :
      (s : ℕ) (x : ArcObj)
      → object s h'.objs ≡ some x
      → (o : ArcObj) × (object s h.objs ≡ some o) × (unmarked x ≡ unmarked o)
  kept_same s x e =
      let (p, q, k) = survivor_kept s (kept-Survives s (x, e)) in
      let px : p ≡ x = cc in
      let (o, f, same) = object-same s l h.objs p shape q in (o, f, sym (ap unmarked px) ∙ sym same)

  collected-IsSound : IsSound h'
  collected-IsSound = record {
    base = base;
    closed = λ s x e nd c m.
        let (o, f, why) = kept-Survives s (x, e) in
        let (p, q, kept) = survivor_kept s (o, f, why) in
        let px : p ≡ x = cc in
        let (o2, f2, same) = object-same s l h.objs p shape q in
        let oo : o2 ≡ o = cc in
        let edges : x.edges ≡ o.edges =
          ap (λ (y : ArcObj). y.edges) (sym px)
          ∙ (sym (ap (λ (y : ArcObj). y.edges) same) ∙ ap (λ (y : ArcObj). y.edges) oo) in
        elim why [
          | inr (d, u) ↦ absurd (
              let a = ap (λ (y : ArcObj). y.deferred) px in
              let b = ap (λ (y : ArcObj). y.deferred) same in
              let g = ap (λ (y : ArcObj). y.deferred) oo in ground arith)
          | inl (d, r) ↦
              let m' =
                subst (Memᴰ c) (edges ∙ sym (ap (λ t. elim t [ none ↦ [] | some y ↦ y.edges ]) f))
                  m in
              let rc = Reachable.edge r m' in
              let (oc, fc, hc, dc) = Reachable-there h sound rc in
              let (pc, qc, kc) = survivor_kept c (oc, fc, inl (dc, rc)) in (pc, kc)
        ];
  }

-- A collection never faults: no object that it reads is freed. It leaves a well-formed heap, and in it
-- exactly the objects that a chain of edges joins to an object with a reference from outside, and
-- those that wait in the queue of evictions with a lease that runs. Every other object is freed,
-- members of cycles included, and so is one that only a running lease keeps. What is left is as it
-- was but for the marks.
pub arc_gc-collects :
    (h : ArcHeap) (now : ℕ)
    → IsSound h
    → (n : ℕ) × (h' : ArcHeap) × (arc_gc now h ≡ some (n, h'))
      × IsSound h'
      × ((s : ℕ) → Present s h'.objs ↔ Survives now h s)
      × ((s : ℕ) (x : ArcObj)
          → object s h'.objs ≡ some x
          → (o : ArcObj) × (object s h.objs ≡ some o) × (unmarked x ≡ unmarked o))
unfolding arc_gc reclaim
arc_gc-collects h now sound =
    let (l, e, shape, marks) =
      mark_phase h.objs sound.base.distinct
        (λ s r. let (o, f, _, _) = Reachable-there h sound r in (o, f)) in
    let h1 = record h { objs = l; gc_runs = suc h.gc_runs } in
    let c1 = IsConsistent-same h l shape sound.base in
    let sw = sweep_lem now l 0 h1 c1.distinct c1 (λ s o f. f) in
    let r = sweep now l (0, h1) in
    let d =
      drain_lem (length h.queue) now 0 r.0 r.1 sw.base (let a = ap length sw.queue in omega arith)
        (λ s o m f. absurd (Memᴰ.not-nil m)) in
    (
      d.count,
      d.after,
      rw (arc_gc, e) d.result,
      collected-IsSound h sound now l shape marks r.1 d.after sw d.base d.removes,
      λ s. (
        kept-Survives h sound now l shape marks r.1 d.after sw d.base d.removes s,
        λ v.
            let (p, q, k) =
              survivor_kept h sound now l shape marks r.1 d.after sw d.base d.removes s v in
            (p, k),
      ),
      kept_same h sound now l shape marks r.1 d.after sw d.base d.removes,
    )
