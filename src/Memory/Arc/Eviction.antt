-- ===== src/Memory/Arc/Eviction.antt =====
-- `plant_lease_evict`: what an eviction of leases frees and what it must leave.
use plant_lang.Prelude.{
  ℕ, ◌<◌, ◌≡◌, ◌≢◌, refl, sym, ap, ◌∙◌, subst, Bool, true, false, ◌&&◌, ◌||◌, List, [], ◌∷◌, none,
  some, arith, ltb, ==_iff, Bool-cases, inl, inr, ◌⊎◌, length, ℤ, pos, negsuc,
}
use plant_lang.Memory.Arc.{ArcObj, ArcHeap, object, destroy, is_zero}
use plant_lang.Memory.Arc.Collect.{
  expired, near, is_evictable, evict_one, evict_all, queued, queue_max,
}
use plant_lang.Memory.Arc.Objects.{
  Distinct, object-remove_self, object-remove_ne, object-update_self, object-update_ne, eq-cases,
  opt_map,
}
use plant_lang.Memory.Arc.Marking.{Present}
use plant_lang.Memory.Arc.Soundness.{IsSound, freed, freed-IsSound}
use plant_lang.Memory.Arc.Writes.{enqueued, enqueue-IsSound}

-- What the scan over the part `os` of the list does to the heap.
pub record Evicts (now : ℕ) (critical : Bool) (os : List ArcObj) (h h' : ArcHeap) : Type 0 where
  pub sound : IsSound h'
  pub held :
      (s : ℕ) (o : ArcObj)
      → object s h.objs ≡ some o
      → is_evictable o ≡ false
      → object s h'.objs ≡ some o
  pub cleared :
      (s : ℕ) (o : ArcObj)
      → object s os ≡ some o
      → critical ≡ true
      → is_evictable o ≡ true
      → object s h'.objs ≡ none
  pub running :
      (s : ℕ) (o : ArcObj)
      → object s h.objs ≡ some o
      → critical ≡ false
      → expired now o ≡ false
      → Present s h'.objs
  pub nones : (s : ℕ) → object s h.objs ≡ none → object s h'.objs ≡ none

-- One object `x` of the heap: `h1` differs from `h` at its name only.
record Touches (now : ℕ) (critical : Bool) (x : ArcObj) (h h1 : ArcHeap) : Type 0 where
  sound : IsSound h1
  apart : (s : ℕ) → s ≢ x.alloc_seq → object s h1.objs ≡ object s h.objs
  same : is_evictable x ≡ false → object x.alloc_seq h1.objs ≡ some x
  gone : critical ≡ true → is_evictable x ≡ true → object x.alloc_seq h1.objs ≡ none
  stays :
      critical ≡ false
      → expired now x ≡ false
      → (y : ArcObj) × (object x.alloc_seq h1.objs ≡ some y) × (expired now y ≡ false)

pub evictable_zero : (x : ArcObj) → is_evictable x ≡ true → (x.refs ≡ pos 0) × (x.deferred ≡ false)
evictable_zero x e = (zero_refs x.refs (ground arith), ground arith)
  where
    zero_refs : (r : ℤ) → is_zero r ≡ true → r ≡ pos 0
    zero_refs (pos n) h = ground arith
    zero_refs (negsuc n) h = cc

module _ (margin now : ℕ) (critical : Bool) (x : ArcObj) (n : ℕ) (h : ArcHeap) (sound : IsSound h)
    (here : object x.alloc_seq h.objs ≡ some x) where
  untouched : (is_evictable x ≡ false) ⊎ (critical ≡ false) → Touches now critical x h h
  untouched why = record {
    sound = sound;
    apart = λ s m. refl;
    same = λ e. here;
    gone = λ c e. absurd (elim why [ inl a ↦ ground arith | inr b ↦ ground arith ]);
    stays = λ c e. (x, here, e);
  }

  destroyed :
      is_evictable x ≡ true
      → (critical || expired now x) ≡ true
      → Touches now critical x h (destroy x true h)
  unfolding destroy freed
  destroyed e c =
      let (z, nd) = evictable_zero x e in
      record {
        sound =
            freed-IsSound h x h.queue x.alloc_seq true sound here z (λ t. ground arith)
              sound.base.room;
        apart = λ s m. object-remove_ne s x.alloc_seq h.objs m;
        same = λ e'. absurd (ground arith);
        gone = λ c' e'. object-remove_self x.alloc_seq h.objs sound.base.distinct;
        stays = λ c' e'. absurd (ground arith);
      }

  put :
      is_evictable x ≡ true
      → critical ≡ false
      → length h.queue < 512
      → Touches now critical x h (enqueued x.alloc_seq h)
  unfolding enqueued
  put e c small =
      let (z, nd) = evictable_zero x e in
      record {
        sound = enqueue-IsSound h x.alloc_seq x sound here z nd small;
        apart = λ s m. object-update_ne s x.alloc_seq queued h.objs (λ y. refl) m;
        same = λ e'. absurd (ground arith);
        gone = λ c' e'. absurd (ground arith);
        stays = λ c' e'. (
          queued x,
          object-update_self x.alloc_seq queued h.objs (λ y. refl) ∙ ap (opt_map queued) here,
          e',
        );
      }

  evict_one-Touches : Touches now critical x h (evict_one margin now critical x (n, h)).1
  unfolding evict_one enqueued
  evict_one-Touches = elim (Bool-cases (is_evictable x)) [
    | inr e ↦ rw (evict_one, e) (untouched (inl e))
    | inl e ↦ elim (Bool-cases (critical || expired now x)) [
      | inl c ↦ rw (evict_one, e, c) (destroyed e c)
      | inr c ↦
          let nc : critical ≡ false = ground arith in
          elim (Bool-cases (near margin now x && ltb (length h.queue) queue_max)) [
            | inl q ↦ rw (evict_one, e, c, q) (put e nc (ground arith))
            | inr q ↦ rw (evict_one, e, c, q) (untouched (inr nc))
          ]
    ]
  ]

pub evict_all_lem :
    (margin now : ℕ) (critical : Bool) (os : List ArcObj) (r : ℕ × ArcHeap)
    → Distinct os
    → IsSound r.1
    → ((s : ℕ) (o : ArcObj) → object s os ≡ some o → object s r.1.objs ≡ some o)
    → Evicts now critical os r.1 (evict_all margin now critical os r).1
unfolding evict_all object Distinct
evict_all_lem margin now critical [] r d sound sub = record {
  sound = sound;
  held = λ s o e k. e;
  cleared = λ s o e c k. cc;
  running = λ s o e c k. (o, e);
  nones = λ s e. e;
}
evict_all_lem margin now critical (x ∷ os) (n, h) d sound sub =
    let t = evict_one-Touches margin now critical x n h sound here in
    let r1 = evict_one margin now critical x (n, h) in
    let r =
      evict_all_lem margin now critical os r1 d.1 t.sound
        (λ s o e. t.apart s (ne s o e) ∙ sub s o (behind s o e)) in
    record {
      sound = r.sound;
      held = λ s o e k. elim (eq-cases s x.alloc_seq) [
        | inl same ↦
            let e' = subst (λ u. object u h.objs ≡ some o) same e in
            let xo : x ≡ o = cc here in
            r.held s o
              (subst (λ u. object u r1.1.objs ≡ some o) (sym same)
                (t.same (ap is_evictable xo ∙ k) ∙ ap some xo))
              k
        | inr m ↦ r.held s o (t.apart s m ∙ e) k
      ];
      cleared = λ s o e c k. elim (eq-cases s x.alloc_seq) [
        | inl same ↦
            let xo : x ≡ o = first s o (sym same) e in
            r.nones s (
              subst (λ u. object u r1.1.objs ≡ none) (sym same) (t.gone c (ap is_evictable xo ∙ k)))
        | inr m ↦ r.cleared s o (later s o m e) c k
      ];
      running = λ s o e c k. elim (eq-cases s x.alloc_seq) [
        | inl same ↦
            let e' = subst (λ u. object u h.objs ≡ some o) same e in
            let xo : x ≡ o = cc here in
            let (y, f, ky) = t.stays c (ap (expired now) xo ∙ k) in
            r.running s y (subst (λ u. object u r1.1.objs ≡ some y) (sym same) f) c ky
        | inr m ↦ r.running s o (t.apart s m ∙ e) c k
      ];
      nones = λ s e. elim (eq-cases s x.alloc_seq) [
        | inl same ↦ absurd (let e' = subst (λ u. object u h.objs ≡ none) same e in cc here)
        | inr m ↦ r.nones s (t.apart s m ∙ e)
      ];
    }
  where
    here : object x.alloc_seq h.objs ≡ some x
    here = sub x.alloc_seq x (ground arith)

    first : (s : ℕ) (o : ArcObj) → x.alloc_seq ≡ s → object s (x ∷ os) ≡ some o → x ≡ o
    first s o same e = ground arith

    later :
        (s : ℕ) (o : ArcObj) → s ≢ x.alloc_seq → object s (x ∷ os) ≡ some o → object s os ≡ some o
    later s o m e = ground (arith, ==_iff x.alloc_seq s)

    ne : (s : ℕ) (o : ArcObj) → object s os ≡ some o → s ≢ x.alloc_seq
    ne s o e p = let z = subst (λ t. object t os ≡ some o) p e in let y = d.0 in cc

    behind : (s : ℕ) (o : ArcObj) → object s os ≡ some o → object s (x ∷ os) ≡ some o
    behind s o e = let z = ne s o e in ground (arith, ==_iff x.alloc_seq s)
