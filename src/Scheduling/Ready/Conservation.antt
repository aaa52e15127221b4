-- ===== src/Scheduling/Ready/Conservation.antt =====
-- No task is lost or doubled in the ready queue.
use plant_lang.Prelude.{
  ℕ, zero, suc, ◌+◌, ◌-◌, ◌*◌, ◌/◌, ◌≤◌, ◌<◌, ◌≡◌, refl, sym, ap, ap₂, ◌∙◌, Bool, true, ◌&&◌, List,
  [], ◌∷◌, ◌++◌, Option, none, some, arith, leb, ◌==◌, length, set, take, replicate, length-append,
  length-set, length-replicate, Bool-cases, inl, inr, times, to_nat, times-append, add-one,
}
use plant_lang.Prelude.{take-set, take_append_left, times_swap_out}
use plant_lang.Scheduling.Ready.{
  Task, no_task, Ready, at, grown_cap, pq_grow, pq_push, sift_down, pq_pop, ready_len, adjust_mode,
  push_ready, rr_pop, pop_ready,
}
use plant_lang.Scheduling.Ready.Swaps.{sift_up-times, sift_down-times}

pub record IsReady (s : Ready) : Type 0 where
  pub sized : length s.pq ≡ s.pq_cap
  pub fits : s.pq_len ≤ s.pq_cap

-- The number of tasks with a property in both parts of the queue.
abbrev pub waiting : (Task → Bool) → Ready → ℕ
waiting p s = times p s.rr + times p (take s.pq_len s.pq)

adjust_mode-same :
    (q : ℕ) (s : Ready)
    → ((adjust_mode q s).rr ≡ s.rr)
      × ((adjust_mode q s).pq ≡ s.pq)
      × ((adjust_mode q s).pq_len ≡ s.pq_len)
      × ((adjust_mode q s).pq_cap ≡ s.pq_cap)
unfolding adjust_mode
adjust_mode-same q s = elim (Bool-cases (s.mode == 0 && leb s.threshold q)) [
  | inl up ↦ elim (Bool-cases (leb 2 (s.samples + 1))) [
    | inl t ↦ rw (up, t) (refl, refl, refl, refl)
    | inr t ↦ rw (up, t) (refl, refl, refl, refl)
  ]
  | inr calm ↦ elim (Bool-cases (s.mode == 1 && leb q (s.threshold * 7 / 10))) [
    | inl down ↦ elim (Bool-cases (leb 2 (s.samples + 1))) [
      | inl t ↦ rw (calm, down, t) (refl, refl, refl, refl)
      | inr t ↦ rw (calm, down, t) (refl, refl, refl, refl)
    ]
    | inr t ↦ rw (calm, t) (refl, refl, refl, refl)
  ]
]

-- What a push leaves: the task once more, and every other as often as before.
pub record Pushes (t : Task) (s s' : Ready) : Type 0 where
  pub kept : IsReady s'
  pub counts : (p : Task → Bool) → waiting p s' ≡ waiting p s + to_nat (p t)

-- What a pop leaves: the queue without the task that it gives.
abbrev pub gives : (Task → Bool) → Option Task → ℕ
gives p none = 0
gives p (some t) = to_nat (p t)

pub record Pops (s : Ready) (r : Option Task × Ready) : Type 0 where
  pub kept : IsReady r.1
  pub counts : (p : Task → Bool) → waiting p r.1 + gives p r.0 ≡ waiting p s

grow-IsReady :
    (junk : Task) (s : Ready)
    → IsReady s
    → IsReady (pq_grow junk s)
      × ((pq_grow junk s).pq_len < (pq_grow junk s).pq_cap)
      × ((pq_grow junk s).pq_len ≡ s.pq_len)
      × ((pq_grow junk s).rr ≡ s.rr)
      × (take s.pq_len (pq_grow junk s).pq ≡ take s.pq_len s.pq)
unfolding pq_grow
grow-IsReady junk s v =
    let z = v.sized in
    let f = v.fits in
    elim (Bool-cases (leb s.pq_cap s.pq_len)) [
      | inr room ↦ rw (room) (v, ground arith, refl, refl, refl)
      | inl full ↦
          let new = replicate (grown_cap s.pq_cap - s.pq_cap) junk in
          let up : s.pq_cap < grown_cap s.pq_cap = ground arith in
          let a = length-append s.pq new in
          let b = length-replicate (grown_cap s.pq_cap - s.pq_cap) junk in
          rw (full) (
            record { sized = omega arith; fits = omega arith },
            omega arith,
            refl,
            refl,
            take_append_left s.pq_len s.pq new (omega arith),
          )
    ]

pq_push-Pushes : (junk t : Task) (s : Ready) → IsReady s → Pushes t s (pq_push junk t s)
unfolding pq_push
pq_push-Pushes junk t s v =
    let g = pq_grow junk s in
    let (w, room, len, same_rr, same_pq) = grow-IsReady junk s v in
    let z = w.sized in
    let fit = length-set g.pq g.pq_len t in
    let sifts : (p : Task → Bool) → _ = λ p.
      sift_up-times p (g.pq_len + 1) g.pq_len g.pq_len (set g.pq g.pq_len t) (omega arith)
        (omega arith) in
    record {
      kept = record { sized = (sifts (λ t. true)).1 ∙ fit ∙ z; fits = omega arith };
      counts = λ p.
          let put : take (g.pq_len + 1) (set g.pq g.pq_len t) ≡ take g.pq_len g.pq ++ t ∷ [] =
            rw (add-one) (take-set g.pq_len g.pq t (omega arith)) in
          let a = times-append p (take g.pq_len g.pq) (t ∷ []) in
          let one : times p (t ∷ []) ≡ to_nat (p t) = single p t in
          let b : times p (take g.pq_len g.pq) ≡ times p (take s.pq_len s.pq) =
            ap (λ n. times p (take n g.pq)) len ∙ ap (times p) same_pq in
          let c = (sifts p).0 ∙ ap (times p) put in let d = ap (times p) same_rr in omega arith;
    }
  where
    single : (p : Task → Bool) (t : Task) → times p (t ∷ []) ≡ to_nat (p t)
    single p t = unfold times in omega arith

pq_pop-Pops : (s : Ready) → IsReady s → Pops s (pq_pop s)
unfolding pq_pop
pq_pop-Pops s v = elim (Bool-cases (s.pq_len == 0)) [
  | inl empty ↦ rw (empty) (record { kept = v; counts = λ p. omega arith })
  | inr full ↦
      let z = v.sized in
      let f = v.fits in
      let n = s.pq_len - 1 in
      let some_there : 0 < s.pq_len = ground arith in
      let l = set s.pq 0 (at s.pq n) in
      let len = length-set s.pq 0 (at s.pq n) in
      rw (full) (record {
        kept = record {
          sized = (sifted (λ t. true) n l (omega arith)).1 ∙ len ∙ z;
          fits = omega arith;
        };
        counts = λ p.
            let a = (sifted p n l (omega arith)).0 in
            let b = taken p n s.pq (omega arith) in
            let e : n + 1 ≡ s.pq_len = omega arith in
            let c = ap (λ k. times p (take k s.pq)) e in omega arith;
      })
]
  where
    sifted :
        (p : Task → Bool) (n : ℕ) (l : List Task)
        → n ≤ length l
        → (times p (take n (sift_down n n 0 l)) ≡ times p (take n l))
          × (length (sift_down n n 0 l) ≡ length l)
    sifted p zero l h = (refl, unfold sift_down in refl)
    sifted p (suc n) l h = sift_down-times p (suc n) (suc n) 0 l (omega arith) h

    taken :
        (p : Task → Bool) (n : ℕ) (l : List Task)
        → n < length l
        → times p (take n (set l 0 (at l n))) + to_nat (p (at l 0)) ≡ times p (take (n + 1) l)
    taken p n l h = rw (add-one) (times_swap_out p no_task l 0 n h (omega arith))

adjusted : (q : ℕ) (s : Ready) → IsReady s → IsReady (adjust_mode q s)
adjusted q s v =
    let (a, b, c, d) = adjust_mode-same q s in
    let z = v.sized in
    let f = v.fits in record { sized = ap length b ∙ z ∙ sym d; fits = omega arith }

adjusted-waiting : (p : Task → Bool) (q : ℕ) (s : Ready) → waiting p (adjust_mode q s) ≡ waiting p s
adjusted-waiting p q s =
    let (a, b, c, d) = adjust_mode-same q s in
    ap₂ (λ x y. x + y) (ap (times p) a) (ap₂ (λ n l. times p (take n l)) c b)

-- A push puts the task into the queue once, ready, and keeps every other task, whichever of the two
-- structures it goes to; a pop takes out the one task that it gives, or nothing, and keeps the rest.
pub push_ready-Pushes :
    (junk t : Task) (s : Ready)
    → IsReady s
    → Pushes (record t { status = 0 }) s (push_ready junk t s) × Pops s (pop_ready s)
unfolding push_ready pop_ready
push_ready-Pushes junk t s v =
    let a = adjust_mode (ready_len s) s in
    let w = adjusted (ready_len s) s v in
    let same : (p : Task → Bool) → waiting p a ≡ waiting p s =
      λ p. adjusted-waiting p (ready_len s) s in
    let u : Task = record t { status = 0 } in
    (
      elim (Bool-cases (a.mode == 0)) [
        | inl round ↦ rw (round) (appended u a s w same)
        | inr heap ↦ rw (heap) (
            let h = pq_push-Pushes junk u a w in
            record {
              kept = h.kept;
              counts = λ p. h.counts p ∙ ap (λ n. n + to_nat (p u)) (same p);
            })
      ],
      elim (Bool-cases (a.mode == 0)) [
        | inl round ↦ rw (round) (first a s w same)
        | inr heap ↦
            rw (heap) (
              let h = pq_pop-Pops a w in
              record { kept = h.kept; counts = λ p. h.counts p ∙ same p })
      ],
    )
  where
    appended :
        (u : Task) (a s : Ready)
        → IsReady a
        → ((p : Task → Bool) → waiting p a ≡ waiting p s)
        → Pushes u s (record a { rr = a.rr ++ u ∷ [] })
    appended u a s w same = record {
      kept = record { sized = w.sized; fits = w.fits };
      counts = λ p.
          let e = same p in
          let x = times-append p a.rr (u ∷ []) in
          let one : times p (u ∷ []) ≡ to_nat (p u) = unfold times in omega arith in omega arith;
    }

    first :
        (a s : Ready)
        → IsReady a
        → ((p : Task → Bool) → waiting p a ≡ waiting p s)
        → Pops s (rr_pop a)
    first a s w same = by_list a.rr refl
      where
        by_list : (l : List Task) → a.rr ≡ l → Pops s (rr_pop a)
        by_list [] e =
            rw (e, rr_pop) (record { kept = w; counts = λ p. let q = same p in omega arith })
        by_list (x ∷ l) e =
            rw (e, rr_pop)
              (record {
                kept = record { sized = w.sized; fits = w.fits };
                counts = λ p.
                    let q = same p in
                    let c : times p a.rr ≡ to_nat (p x) + times p l =
                      ap (times p) e ∙ (unfold times in refl) in
                    omega arith;
              })
