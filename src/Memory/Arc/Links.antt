-- ===== src/Memory/Arc/Links.antt =====
-- Linking and unlinking, leases and finalizers keep the heap well formed and do not fault.
use plant_lang.Prelude.{
  ℕ, suc, ◌+◌, ◌-◌, ◌≤◌, ◌≡◌, ◌≢◌, refl, sym, ap, ◌∙◌, subst, Bool, true, false, not, ◌||◌, List,
  [], ◌∷◌, none, some, arith, ◌==◌, ==_iff, Bool-cases, inl, inr, ℤ, pos, times, to_nat, Text,
}
use mathlib.Core.List.{Memᴰ}
use mathlib.Core.List.Memᴰ
use plant_lang.Memory.Arc.{
  ArcObj, ArcHeap, ArcConfig, object, modify, settle, linking, linked, unlinking, unlinked, leasing,
  finalizing, has_edge, cut_edge, arc_link, arc_unlink, arc_lease, arc_set_finalizer, lease_time,
  is_finalizer, inc, dec,
}
use plant_lang.Memory.Arc.Objects.{
  object-update_self, object-update_ne, total-update, eq-cases, update_comm,
}
use plant_lang.Memory.Arc.Marking.{Present}
use plant_lang.Memory.Arc.Soundness.{often, edges_in, IsSound, edges_in-pos}
use plant_lang.Memory.Arc.Writes.{Allows-flat, modify-IsSound}
use plant_lang.Memory.Arc.Calls.{
  IsReferenced, Answers, settle-IsSound, plain-IsSound, referenced_not_deferred,
}

has_edge-Mem : (c : ℕ) (es : List ℕ) → has_edge c es ≡ true → Memᴰ c es
unfolding has_edge
has_edge-Mem c [] h = cc
has_edge-Mem c (e ∷ es) h = elim (Bool-cases (e == c)) [
  | inl y ↦ Memᴰ.head (sym ((==_iff e c).0 y))
  | inr n ↦ Memᴰ.tail (has_edge-Mem c es (ground arith))
]

cut_edge-often : (c t : ℕ) (es : List ℕ) → often t (cut_edge c es) ≤ often t es
unfolding cut_edge times
cut_edge-often c t [] = omega arith
cut_edge-often c t (e ∷ es) = ground (arith, cut_edge-often c t es)

cut_edge_once :
    (c : ℕ) (es : List ℕ) → has_edge c es ≡ true → suc (often c (cut_edge c es)) ≡ often c es
unfolding cut_edge has_edge times
cut_edge_once c [] h = cc
cut_edge_once c (e ∷ es) h = ground (arith, cut_edge_once c es)

cut_edge-Mem : (c t : ℕ) (es : List ℕ) → Memᴰ t (cut_edge c es) → Memᴰ t es
unfolding cut_edge
cut_edge-Mem c t [] m = m
cut_edge-Mem c t (e ∷ es) m = elim (Bool-cases (e == c)) [
  | inl y ↦ Memᴰ.tail (subst (Memᴰ t) (rw (cut_edge, y) refl) m)
  | inr n ↦ elim (Memᴰ.cases_cons (subst (Memᴰ t) (rw (cut_edge, n) refl) m)) [
    | inl e' ↦ Memᴰ.head e'
    | inr t' ↦ Memᴰ.tail (cut_edge-Mem c t es t')
  ]
]

module _ (h : ArcHeap) (sound : IsSound h) where
  -- the child is counted, and then the parent gets its edge
  link-IsSound :
      (p c : ℕ) (po : ArcObj)
      → p ≢ c
      → object p h.objs ≡ some po
      → IsReferenced h c
      → IsSound (modify p (linking c) (modify c linked h))
  unfolding times
  link-IsSound p c po n hp ref =
      let co = ref.obj in
      let (r, er, ir) = sound.base.counts c co ref.found in
      let nd = referenced_not_deferred h sound c co ref.found ref.held in
      let h1 = modify c linked h in
      let low = sound.base.inner c co ref.found in
      let flat = total-update (λ y. often c y.edges) c linked h.objs co ref.found in
      let s1 : IsSound h1 =
        modify-IsSound h c linked co (λ y. refl) ref.found sound
          (Allows-flat h c co (linked co) sound.base ref.found refl refl refl
            (suc r, ap inc er, omega arith) (λ d. cc) (omega arith))
          (λ d e m. sound.closed c co ref.found d e m) in
      let hc : object c h1.objs ≡ some (linked co) =
        object-update_self c linked h.objs (λ y. refl)
        ∙ ap (λ t. elim t [ none ↦ none | some y ↦ some (linked y) ]) ref.found in
      let hp1 : object p h1.objs ≡ some po =
        object-update_ne p c linked h.objs (λ y. refl) n ∙ hp in
      let child : Present c h1.objs = (linked co, hc) in
      modify-IsSound h1 p (linking c) po (λ y. refl) hp1 s1
        (record {
          size = refl;
          deferred = refl;
          counted = s1.base.counts p po hp1;
          waits = λ d. s1.base.waiting p po hp1 d;
          self = let i = s1.base.inner p po hp1 in let o = once p po in ground (arith, ==_iff c p);
          others = λ t x m e.
              let o = once t po in
              elim (eq-cases c t) [
                | inl same ↦
                    let e' : object c h1.objs ≡ some x =
                      subst (λ u. object u h1.objs ≡ some x) (sym same) e in
                    let ex : linked co ≡ x = ground arith in
                    let inn = ap (λ (y : ArcObj). y.in_edges) ex in
                    subst
                      (λ u.
                        edges_in u h1.objs + often u (c ∷ po.edges) ≤ x.in_edges + often u po.edges)
                      same (let oc = once c po in ground (arith, ==_iff c c))
                | inr other ↦ let i = s1.base.inner t x e in ground (arith, ==_iff c t)
              ];
          known = λ t q.
              let o = once t po in
              elim (eq-cases c t) [
                | inl same ↦
                    let z = sound.base.fresh t q in
                    absurd (let w = subst (λ u. object u h.objs ≡ some co) same ref.found in cc)
                | inr other ↦ ground (arith, ==_iff c t)
              ];
        })
        (λ d e m. elim (Memᴰ.cases_cons m) [
          | inl y ↦ subst (λ u. Present u h1.objs) (sym y) child
          | inr t ↦ s1.closed p po hp1 d e t
        ])
    where
      once : (t : ℕ) (x : ArcObj) → often t (c ∷ x.edges) ≡ to_nat (c == t) + often t x.edges
      once t x = refl

  -- the parent loses its edge, and then the child is counted once less
  unlink-IsSound :
      (p c : ℕ) (po co : ArcObj)
      → p ≢ c
      → object p h.objs ≡ some po
      → has_edge c po.edges ≡ true
      → object c h.objs ≡ some co
      → IsSound (modify c unlinked (modify p (unlinking c) h)) × (co.deferred ≡ false)
  unlink-IsSound p c po co n hp edge hc =
      let h1 = modify p (unlinking c) h in
      let s1 : IsSound h1 =
        modify-IsSound h p (unlinking c) po (λ y. refl) hp sound
          (record {
            size = refl;
            deferred = refl;
            counted = sound.base.counts p po hp;
            waits = λ d. sound.base.waiting p po hp d;
            self =
                let i = sound.base.inner p po hp in
                let l = cut_edge-often c p po.edges in omega arith;
            others = λ t x m e.
                let i = sound.base.inner t x e in
                let l = cut_edge-often c t po.edges in omega arith;
            known = λ t q. cut_edge-often c t po.edges;
          })
          (λ d e m. sound.closed p po hp d e (cut_edge-Mem c e po.edges m)) in
      let hc1 : object c h1.objs ≡ some co =
        object-update_ne c p (unlinking c) h.objs (λ y. refl) (λ e. n (sym e)) ∙ hc in
      let (r, er, ir) = sound.base.counts c co hc in
      let less = total-update (λ y. often c y.edges) p (unlinking c) h.objs po hp in
      let one = cut_edge_once c po.edges edge in
      let low = sound.base.inner c co hc in
      let seen = edges_in-pos h.objs p c po hp (has_edge-Mem c po.edges edge) in
      let suc_r : r ≡ suc (r - 1) = omega arith in
      let fewer : (unlinked co).refs ≡ pos (r - 1) = ap dec (er ∙ ap pos suc_r) in
      let nd = referenced_not_deferred h sound c co hc (ground arith) in
      (
        modify-IsSound h1 c unlinked co (λ y. refl) hc1 s1
            (Allows-flat h1 c co (unlinked co) s1.base hc1 refl refl refl
              (r - 1, fewer, omega arith) (λ d. cc) (omega arith))
            (λ d e m. s1.closed c co hc1 d e m),
        nd,
      )

module _ (h : ArcHeap) (sound : IsSound h) where
  pub arc_link-Answers :
      (memory : Bool) (p c : ℕ)
      → Present p h.objs
      → IsReferenced h c
      → Answers (arc_link memory (some p) (some c) h)
  unfolding arc_link
  arc_link-Answers memory p c (po, hp) ref = elim (Bool-cases (p == c || not memory)) [
    | inl stop ↦ (0, h, rw (arc_link, stop) refl, sound)
    | inr go ↦
        let n : p ≢ c = λ e. ground (arith, ==_iff p c) in
        (
          1,
          modify c linked (modify p (linking c) h),
          rw (arc_link, go, hp, ref.found) refl,
          subst (λ l. IsSound (record h { objs = l }))
              (update_comm p c (linking c) linked h.objs (λ y. refl) (λ y. refl) n)
              (link-IsSound h sound p c po n hp ref),
        )
  ]

  pub arc_unlink-Answers :
      (p c now : ℕ) → IsReferenced h p → p ≢ c → Answers (arc_unlink (some p) (some c) now h)
  unfolding arc_unlink
  arc_unlink-Answers p c now ref n =
      let po = ref.obj in
      elim (Bool-cases (has_edge c po.edges)) [
        | inr stop ↦ (0, h, rw (arc_unlink, ref.found, stop) refl, sound)
        | inl go ↦
            let nd = referenced_not_deferred h sound p po ref.found ref.held in
            let (co, hc) = sound.closed p po ref.found nd c (has_edge-Mem c po.edges go) in
            let (s2, ndc) = unlink-IsSound h sound p c po co n ref.found go hc in
            let h1 = modify p (unlinking c) h in
            let h2 = modify c unlinked h1 in
            let at1 : object c h1.objs ≡ some co =
              object-update_ne c p (unlinking c) h.objs (λ y. refl) (λ e. n (sym e)) ∙ hc in
            let at : object c h2.objs ≡ some (unlinked co) =
              object-update_self c unlinked h1.objs (λ y. refl)
              ∙ ap (λ t. elim t [ none ↦ none | some y ↦ some (unlinked y) ]) at1 in
            (
              (settle (unlinked co) now h2).0,
              (settle (unlinked co) now h2).1,
              rw (arc_unlink, ref.found, go, hc) refl,
              settle-IsSound h2 s2 c (unlinked co) now at ndc,
            )
      ]

  pub arc_lease-Answers :
      (cfg : ArcConfig) (s : ℕ) (ms : ℤ) (now : ℕ)
      → Present s h.objs
      → Answers (arc_lease cfg (some s) ms now h)
  unfolding arc_lease
  arc_lease-Answers cfg s ms now (o, e) = elim (Bool-cases (lease_time cfg ms == 0)) [
    | inl stop ↦ (0, h, rw (arc_lease, stop) refl, sound)
    | inr go ↦ (
      1,
      modify s (leasing (now + lease_time cfg ms)) h,
      rw (arc_lease, go, e) refl,
      plain-IsSound h sound s (leasing (now + lease_time cfg ms)) o (λ y. refl) e refl refl refl
          refl refl,
    )
  ]

  pub arc_set_finalizer-Answers :
      (s : ℕ) (name : Text) → Present s h.objs → Answers (arc_set_finalizer (some s) name h)
  unfolding arc_set_finalizer
  arc_set_finalizer-Answers s name (o, e) = elim (Bool-cases (is_finalizer name)) [
    | inr stop ↦ (0, h, rw (arc_set_finalizer, stop) refl, sound)
    | inl go ↦ (
      1,
      modify s (finalizing name) h,
      rw (arc_set_finalizer, go, e) refl,
      plain-IsSound h sound s (finalizing name) o (λ y. refl) e refl refl refl refl refl,
    )
  ]
