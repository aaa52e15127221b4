-- ===== src/Memory/Arc/Writes.antt =====
-- Writes to one object that keep the heap well formed.
use plant_lang.Prelude.{
  ℕ, ◌+◌, ◌≤◌, ◌<◌, ◌≡◌, ◌≢◌, refl, sym, ap, ◌∙◌, subst, true, false, List, [], ◌∷◌, ◌++◌, some,
  arith, ◌==◌, ==_iff, inl, inr, ◌⊎◌, length, pos, times, to_nat, length-append, times-append,
}
use mathlib.Core.List.{Memᴰ}
use plant_lang.Memory.Arc.{ArcObj, ArcHeap, object, update, modify}
use plant_lang.Memory.Arc.Collect.{queued}
use plant_lang.Memory.Arc.Objects.{
  KeepsSeq, opt_map, object-update_self, object-update_ne, object-update-none, Distinct-update,
  total-update, eq-cases, length-update,
}
use plant_lang.Memory.Arc.Marking.{Present}
use plant_lang.Memory.Arc.Soundness.{often, edges_in, Counted, IsConsistent, IsSound}

-- What the object behind a name is after a write.
pub object-of_update :
    (s t : ℕ) (f : ArcObj → ArcObj) (l : List ArcObj) (o x : ArcObj)
    → KeepsSeq f
    → object s l ≡ some o
    → object t (update s f l) ≡ some x
    → ((t ≡ s) × (x ≡ f o)) ⊎ ((t ≢ s) × (object t l ≡ some x))
object-of_update s t f l o x k here h = elim (eq-cases t s) [
  | inl e ↦
      let a = subst (λ u. object u (update s f l) ≡ some x) e h in
      inl (e, ground (arith, object-update_self s f l k))
  | inr n ↦ inr (n, sym (object-update_ne t s f l k n) ∙ h)
]

pub Present-update :
    (s t : ℕ) (f : ArcObj → ArcObj) (l : List ArcObj)
    → KeepsSeq f
    → Present t l
    → Present t (update s f l)
Present-update s t f l k (x, h) = elim (eq-cases t s) [
  | inl e ↦
      let h' = subst (λ u. object u l ≡ some x) e h in
      (
        f x,
        subst (λ u. object u (update s f l) ≡ some (f x)) (sym e)
            (object-update_self s f l k ∙ ap (opt_map f) h'),
      )
  | inr n ↦ (x, object-update_ne t s f l k n ∙ h)
]

-- What a write at `o` may change.
pub record Allows (h : ArcHeap) (s : ℕ) (o o' : ArcObj) : Type 0 where
  pub size : o'.size ≡ o.size
  pub deferred : o'.deferred ≡ o.deferred
  pub counted : Counted o'
  pub waits : o.deferred ≡ true → o'.refs ≡ pos 0
  pub self : edges_in s h.objs + often s o'.edges ≤ o'.in_edges + often s o.edges
  pub others :
      (t : ℕ) (x : ArcObj)
      → t ≢ s
      → object t h.objs ≡ some x
      → edges_in t h.objs + often t o'.edges ≤ x.in_edges + often t o.edges
  pub known : (t : ℕ) → h.next_seq ≤ t → often t o'.edges ≤ often t o.edges

module _ (h : ArcHeap) (s : ℕ) (f : ArcObj → ArcObj) (o : ArcObj) (keep : KeepsSeq f)
    (here : object s h.objs ≡ some o) where
  pub modify-IsConsistent : IsConsistent h → Allows h s o (f o) → IsConsistent (modify s f h)
  modify-IsConsistent c a = record {
    distinct = Distinct-update s f h.objs keep c.distinct;
    counts = λ t x e. elim (object-of_update s t f h.objs o x keep here e) [
      | inl (et, ex) ↦ subst Counted (sym ex) a.counted
      | inr (n, p) ↦ c.counts t x p
    ];
    inner = λ t x e.
        let sum = total-update (λ y. often t y.edges) s f h.objs o here in
        elim (object-of_update s t f h.objs o x keep here e) [
          | inl (et, ex) ↦
              let z =
                subst
                  (λ u. edges_in u h.objs + often u (f o).edges ≤ (f o).in_edges + often u o.edges)
                  (sym et) a.self in
              let w = ap (λ (y : ArcObj). y.in_edges) ex in omega arith
          | inr (n, p) ↦ let z = a.others t x n p in omega arith
        ];
    waiting = λ t x e d. elim (object-of_update s t f h.objs o x keep here e) [
      | inl (et, ex) ↦
          ap (λ (y : ArcObj). y.refs) ex
          ∙ a.waits (sym a.deferred ∙ (sym (ap (λ (y : ArcObj). y.deferred) ex) ∙ d))
      | inr (n, p) ↦ c.waiting t x p d
    ];
    flagged = λ t x e. elim (object-of_update s t f h.objs o x keep here e) [
      | inl (et, ex) ↦
          subst (λ u. often u h.queue ≡ to_nat x.deferred) (sym et)
            (c.flagged s o here
              ∙ ap to_nat (sym a.deferred ∙ sym (ap (λ (y : ArcObj). y.deferred) ex)))
      | inr (n, p) ↦ c.flagged t x p
    ];
    there = λ t p. Present-update s t f h.objs keep (c.there t p);
    fresh = λ t p. object-update-none t s f h.objs keep (c.fresh t p);
    unknown = λ t p.
        let sum = total-update (λ y. often t y.edges) s f h.objs o here in
        let z = c.unknown t p in let w = a.known t p in omega arith;
    room = c.room;
    lives = c.lives ∙ sym (length-update s f h.objs);
    bytes =
        let sum = total-update (λ y. y.size) s f h.objs o here in
        let z = c.bytes in let w = a.size in omega arith;
    balance = c.balance;
  }

  pub modify-IsSound :
      IsSound h
      → Allows h s o (f o)
      → (o.deferred ≡ false → (c : ℕ) → Memᴰ c (f o).edges → Present c h.objs)
      → IsSound (modify s f h)
  modify-IsSound sound a ends = record {
    base = modify-IsConsistent sound.base a;
    closed = λ t x e nd c m.
        Present-update s c f h.objs keep (elim (object-of_update s t f h.objs o x keep here e) [
          | inl (et, ex) ↦
              ends (sym a.deferred ∙ (sym (ap (λ (y : ArcObj). y.deferred) ex) ∙ nd)) c
                (subst (λ (y : ArcObj). Memᴰ c y.edges) ex m)
          | inr (n, p) ↦ sound.closed t x p nd c m
        ]);
  }

-- A write that leaves the edges as they are.
pub Allows-flat :
    (h : ArcHeap) (s : ℕ) (o o' : ArcObj)
    → IsConsistent h
    → object s h.objs ≡ some o
    → o'.size ≡ o.size
    → o'.deferred ≡ o.deferred
    → o'.edges ≡ o.edges
    → Counted o'
    → (o.deferred ≡ true → o'.refs ≡ pos 0)
    → edges_in s h.objs ≤ o'.in_edges
    → Allows h s o o'
Allows-flat h s o o' c here size def edges cnt waits self = record {
  size = size;
  deferred = def;
  counted = cnt;
  waits = waits;
  self = let e = ap (often s) edges in omega arith;
  others = λ t x n p. let e = ap (often t) edges in let i = c.inner t x p in omega arith;
  known = λ t p. let e = ap (often t) edges in omega arith;
}

-- An object without references is put into the queue.
unfoldable pub enqueued : ℕ → ArcHeap → ArcHeap
enqueued s h = record (modify s queued h) { queue = h.queue ++ s ∷ [] }

pub enqueue-IsSound :
    (h : ArcHeap) (s : ℕ) (o : ArcObj)
    → IsSound h
    → object s h.objs ≡ some o
    → o.refs ≡ pos 0
    → o.deferred ≡ false
    → length h.queue < 512
    → IsSound (enqueued s h)
unfolding enqueued times
enqueue-IsSound h s o sound here zero_refs nd small = record {
  base = record {
    distinct = Distinct-update s queued h.objs keep c.distinct;
    counts = λ t x e. elim (object-of_update s t queued h.objs o x keep here e) [
      | inl (et, ex) ↦ subst Counted (sym ex) (c.counts s o here)
      | inr (n, p) ↦ c.counts t x p
    ];
    inner = λ t x e.
        let sum = total-update (λ y. often t y.edges) s queued h.objs o here in
        elim (object-of_update s t queued h.objs o x keep here e) [
          | inl (et, ex) ↦
              let z = subst (λ u. edges_in u h.objs ≤ o.in_edges) (sym et) (c.inner s o here) in
              let w = ap (λ (y : ArcObj). y.in_edges) ex in omega arith
          | inr (n, p) ↦ let z = c.inner t x p in omega arith
        ];
    waiting = λ t x e d. elim (object-of_update s t queued h.objs o x keep here e) [
      | inl (et, ex) ↦ ap (λ (y : ArcObj). y.refs) ex ∙ zero_refs
      | inr (n, p) ↦ c.waiting t x p d
    ];
    flagged = λ t x e.
        let q = times-append (λ y. y == t) h.queue (s ∷ []) in
        elim (object-of_update s t queued h.objs o x keep here e) [
          | inl (et, ex) ↦
              let z =
                subst (λ u. often u h.queue ≡ to_nat o.deferred) (sym et) (c.flagged s o here) in
              let w = ap (λ (y : ArcObj). y.deferred) ex in
              let v = (==_iff s t).1 (sym et) in ground arith
          | inr (n, p) ↦ let z = c.flagged t x p in ground (arith, ==_iff s t)
        ];
    there = λ t p.
        let q = times-append (λ y. y == t) h.queue (s ∷ []) in
        elim (eq-cases t s) [
          | inl e ↦
              subst (λ u. Present u (update s queued h.objs)) (sym e)
                (Present-update s s queued h.objs keep (o, here))
          | inr n ↦ Present-update s t queued h.objs keep (c.there t (ground (arith, ==_iff s t)))
        ];
    fresh = λ t p. object-update-none t s queued h.objs keep (c.fresh t p);
    unknown = λ t p.
        let sum = total-update (λ y. often t y.edges) s queued h.objs o here in
        let z = c.unknown t p in omega arith;
    room = let a = length-append h.queue (s ∷ []) in omega arith;
    lives = c.lives ∙ sym (length-update s queued h.objs);
    bytes =
        let sum = total-update (λ y. y.size) s queued h.objs o here in
        let z = c.bytes in omega arith;
    balance = c.balance;
  };
  closed = λ t x e d u m.
      Present-update s u queued h.objs keep
        (elim (object-of_update s t queued h.objs o x keep here e) [
          | inl (et, ex) ↦ sound.closed s o here nd u (subst (λ (y : ArcObj). Memᴰ u y.edges) ex m)
          | inr (n, p) ↦ sound.closed t x p d u m
        ]);
}
  where
    c : IsConsistent h
    c = sound.base

    keep : KeepsSeq queued
    keep y = refl
