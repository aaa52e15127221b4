-- ===== src/Memory/Arc/Calls.antt =====
-- The calls on objects keep the heap well formed and do not fault, for a client that releases only
-- references of its own.
use plant_lang.Prelude.{
  ℕ, suc, ◌-◌, ◌<◌, ◌≡◌, refl, ap, ◌∙◌, subst, true, false, ◌&&◌, Option, none, some, arith, ltb,
  Bool-cases, inl, inr, pos,
}
use mathlib.Core.List.{Memᴰ}
use plant_lang.Memory.Arc.{
  ArcObj, ArcHeap, object, modify, exceeds, drop_obj, settle, retained, released, arc_retain,
  arc_release, inc, dec,
}
use plant_lang.Memory.Arc.Objects.{KeepsSeq, object-update_self}
use plant_lang.Memory.Arc.Soundness.{IsSound, freed, freed-IsSound}
use plant_lang.Memory.Arc.Writes.{Allows-flat, modify-IsSound}

-- Somebody holds a reference to the object.
pub record IsReferenced (h : ArcHeap) (s : ℕ) : Type 0 where
  pub obj : ArcObj
  pub found : object s h.objs ≡ some obj
  pub held : exceeds obj.refs 0 ≡ true

-- The client holds a reference that is no edge.
pub record IsOwned (h : ArcHeap) (s : ℕ) : Type 0 where
  pub obj : ArcObj
  pub found : object s h.objs ≡ some obj
  pub own : exceeds obj.refs obj.in_edges ≡ true

-- A call that answers, with a heap that is well formed.
abbrev pub Answers : Option (ℕ × ArcHeap) → Type 0
Answers r = (n : ℕ) × (h : ArcHeap) × (r ≡ some (n, h)) × IsSound h

module _ (h : ArcHeap) (sound : IsSound h) where
  pub referenced_not_deferred :
      (s : ℕ) (o : ArcObj) → object s h.objs ≡ some o → exceeds o.refs 0 ≡ true → o.deferred ≡ false
  referenced_not_deferred s o e held = elim (Bool-cases o.deferred) [
    | inl d ↦ absurd (let z = sound.base.waiting s o e d in ground arith)
    | inr d ↦ d
  ]

  pub settle-IsSound :
      (s : ℕ) (o : ArcObj) (now : ℕ)
      → object s h.objs ≡ some o
      → o.deferred ≡ false
      → IsSound (settle o now h).1
  unfolding settle drop_obj freed
  settle-IsSound s o now e nd = elim (Bool-cases (exceeds o.refs 0)) [
    | inl more ↦ rw (settle, more) sound
    | inr last ↦ elim (Bool-cases (ltb 0 o.leased_until && ltb now o.leased_until)) [
      | inl lease ↦ rw (settle, last, drop_obj, lease) kept
      | inr ended ↦
          let (r, er, _) = sound.base.counts s o e in
          let z : o.refs ≡ pos 0 = ground arith in
          rw (settle, last, drop_obj, ended)
            (freed-IsSound h o h.queue s false sound e z (λ t. ground arith) sound.base.room)
    ]
  ]
    where
      kept : IsSound (record h { leased = suc h.leased })
      kept = record {
        base = record {
          distinct = sound.base.distinct;
          counts = sound.base.counts;
          inner = sound.base.inner;
          waiting = sound.base.waiting;
          flagged = sound.base.flagged;
          there = sound.base.there;
          fresh = sound.base.fresh;
          unknown = sound.base.unknown;
          room = sound.base.room;
          lives = sound.base.lives;
          bytes = sound.base.bytes;
          balance = sound.base.balance;
        };
        closed = sound.closed;
      }

  -- A write that changes neither edges nor counts.
  pub plain-IsSound :
      (s : ℕ) (f : ArcObj → ArcObj) (o : ArcObj)
      → KeepsSeq f
      → object s h.objs ≡ some o
      → (f o).size ≡ o.size
      → (f o).deferred ≡ o.deferred
      → (f o).edges ≡ o.edges
      → (f o).refs ≡ o.refs
      → (f o).in_edges ≡ o.in_edges
      → IsSound (modify s f h)
  plain-IsSound s f o keep e size def edges refs inn =
      let (r, er, ir) = sound.base.counts s o e in
      let low = sound.base.inner s o e in
      modify-IsSound h s f o keep e sound
        (Allows-flat h s o (f o) sound.base e size def edges (r, refs ∙ er, omega arith)
          (λ d. refs ∙ sound.base.waiting s o e d) (omega arith))
        (λ nd c m. sound.closed s o e nd c (subst (Memᴰ c) edges m))

module _ (h : ArcHeap) (sound : IsSound h) where
  pub arc_retain-Answers : (s : ℕ) → IsReferenced h s → Answers (arc_retain (some s) h)
  unfolding arc_retain
  arc_retain-Answers s ref =
      let o = ref.obj in
      let (r, er, ir) = sound.base.counts s o ref.found in
      let nd = referenced_not_deferred h sound s o ref.found ref.held in
      (
        1,
        modify s retained h,
        rw (arc_retain, ref.found) refl,
        modify-IsSound h s retained o (λ y. refl) ref.found sound
            (Allows-flat h s o (retained o) sound.base ref.found refl refl refl
              (suc r, ap inc er, omega arith) (λ d. cc) (sound.base.inner s o ref.found))
            (λ d c m. sound.closed s o ref.found d c m),
      )

  pub arc_release-Answers : (s now : ℕ) → IsOwned h s → Answers (arc_release (some s) now h)
  unfolding arc_release
  arc_release-Answers s now ref =
      let o = ref.obj in
      let (r, er, ir) = sound.base.counts s o ref.found in
      let positive : exceeds o.refs 0 ≡ true = let w = ref.own in ground arith in
      let more : o.in_edges < r = let w = ref.own in ground arith in
      let nd = referenced_not_deferred h sound s o ref.found positive in
      let one : r ≡ suc (r - 1) = omega arith in
      let fewer : (released o).refs ≡ pos (r - 1) = ap dec (er ∙ ap pos one) in
      let h' = modify s released h in
      let sound' : IsSound h' =
        modify-IsSound h s released o (λ y. refl) ref.found sound
          (Allows-flat h s o (released o) sound.base ref.found refl refl refl
            (r - 1, fewer, omega arith) (λ d. cc) (sound.base.inner s o ref.found))
          (λ d c m. sound.closed s o ref.found d c m) in
      let at : object s h'.objs ≡ some (released o) =
        object-update_self s released h.objs (λ y. refl)
        ∙ ap (λ t. elim t [ none ↦ none | some y ↦ some (released y) ]) ref.found in
      (
        (settle (released o) now h').0,
        (settle (released o) now h').1,
        rw (arc_release, ref.found, positive) refl,
        settle-IsSound h' sound' s (released o) now at nd,
      )
