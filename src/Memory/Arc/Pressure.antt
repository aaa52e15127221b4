-- ===== src/Memory/Arc/Pressure.antt =====
-- `plant_lease_evict`: the queue that critical pressure empties, and the eviction as a whole.
use plant_lang.Prelude.{
  ◌+◌, ◌<◌, ◌≤◌, leb, ltb, ◌≤◌, ℕ, zero, suc, ◌<◌, ◌≡◌, refl, sym, ap, ◌∙◌, subst, Bool, true,
  false, [], Option, some, arith, ltb, ◌==◌, ==_iff, Bool-cases, Option-cases, inl, inr, length,
  times, get_or, take, times-get_or, times-take_last, length-take,
}
use plant_lang.Memory.Arc.{ArcConfig, ArcObj, ArcHeap, object, exceeds, destroy, is_zero}
use plant_lang.Memory.Arc.Collect.{
  persist_pressure, lease_evict, expired, is_evictable, evict_all, evict_pass, drain_all,
}
use plant_lang.Memory.Arc.Marking.{Present}
use plant_lang.Memory.Arc.Soundness.{often, IsSound, freed, freed-IsSound}
use plant_lang.Memory.Arc.Sweeping.{Removes, Removes-remove}
use plant_lang.Memory.Arc.Draining.{take_all}
use plant_lang.Memory.Arc.Eviction.{Evicts, evict_all_lem, evictable_zero}

-- Emptying the queue frees what waits in it and nothing else.
record Empties (r : Option (ℕ × ArcHeap)) (h : ArcHeap) : Type 0 where
  count : ℕ
  after : ArcHeap
  result : r ≡ some (count, after)
  sound : IsSound after
  removes : Removes (λ o. o.deferred) h.objs after.objs

drain_all_lem :
    (rounds n : ℕ) (h : ArcHeap)
    → IsSound h
    → length h.queue ≡ rounds
    → Empties (drain_all rounds (n, h)) h
unfolding drain_all destroy freed
drain_all_lem zero n h sound len = record {
  count = n;
  after = h;
  result = refl;
  sound = sound;
  removes = record {
    keeps = λ s o e k. e;
    drops = λ s o e k.
        let f = sound.base.flagged s o e in
        let q = take_all 0 h.queue (omega arith) in
        let z = none_often s (sym q) in absurd (ground arith);
    nones = λ s e. e;
  };
}
  where
    none_often : (s : ℕ) → h.queue ≡ [] → often s h.queue ≡ 0
    none_often s e = ap (often s) e ∙ unfold times in refl
drain_all_lem (suc rounds) n h sound len =
    let last = get_or h.queue rounds 0 in
    let hit =
      times-get_or (λ e. e == last) 0 h.queue rounds (omega arith) ((==_iff last last).1 refl) in
    let (d, e) = sound.base.there last hit in
    let f = sound.base.flagged last d e in
    let def : d.deferred ≡ true = ground arith in
    let q = take rounds h.queue in
    let size = length-take rounds h.queue (omega arith) in
    let room = sound.base.room in
    let h1 = freed h d q true in
    let s1 : IsSound h1 =
      freed-IsSound h d q last true sound e (sound.base.waiting last d e def)
        (λ t.
          let a = times-take_last (λ x. x == t) 0 h.queue rounds (omega arith) in
          let b = ap (often t) (take_all (suc rounds) h.queue (omega arith)) in ground arith)
        (omega arith) in
    let r = drain_all_lem rounds (suc n) h1 s1 size in
    record {
      count = r.count;
      after = r.after;
      result = rw (drain_all, e) r.result;
      sound = r.sound;
      removes =
          Removes-remove (λ o. o.deferred) h.objs r.after.objs last d sound.base.distinct e def
            r.removes;
    }

-- What a scan of the whole list and, under critical pressure, the emptied queue leave.
pub record Evicted (now : ℕ) (critical : Bool) (h h' : ArcHeap) : Type 0 where
  pub sound : IsSound h'
  pub held :
      (s : ℕ) (o : ArcObj)
      → object s h.objs ≡ some o
      → exceeds o.refs 0 ≡ true
      → object s h'.objs ≡ some o
  pub running :
      (s : ℕ) (o : ArcObj)
      → object s h.objs ≡ some o
      → critical ≡ false
      → expired now o ≡ false
      → Present s h'.objs
  pub cleared :
      (s : ℕ) (o : ArcObj)
      → critical ≡ true
      → object s h'.objs ≡ some o
      → is_zero o.refs ≡ true
      → o.leased_until ≡ 0

held_not_evictable : (o : ArcObj) → exceeds o.refs 0 ≡ true → is_evictable o ≡ false
held_not_evictable o h = elim (Bool-cases (is_evictable o)) [
  | inl e ↦ absurd (let (z, d) = evictable_zero o e in ground arith)
  | inr e ↦ e
]

critical_cleared :
    (now : ℕ) (h h2 h' : ArcHeap)
    → Evicts now true h.objs h h2
    → Removes (λ o. o.deferred) h2.objs h'.objs
    → (s : ℕ) (o : ArcObj) → object s h'.objs ≡ some o
    → is_zero o.refs ≡ true
    → o.leased_until ≡ 0
critical_cleared now h h2 h' ev rm s o e z = elim (Option-cases (object s h.objs)) [
  | inl n ↦ absurd (let a = rm.nones s (ev.nones s n) in cc)
  | inr (x, f) ↦ elim (Bool-cases (is_evictable x)) [
    | inl k ↦ absurd (let a = rm.nones s (ev.cleared s x f refl k) in cc)
    | inr k ↦
        let g = ev.held s x f k in
        elim (Bool-cases x.deferred) [
          | inl d ↦ absurd (let a = rm.drops s x g d in cc)
          | inr d ↦
              let a = rm.keeps s x g d in
              let xo : x ≡ o = cc in
              let zx = ap (λ (y : ArcObj). is_zero y.refs) xo ∙ z in
              sym (ap (λ (y : ArcObj). y.leased_until) xo) ∙ ground arith
        ]
  ]
]

evict_pass_lem :
    (margin now : ℕ) (critical : Bool) (h : ArcHeap)
    → IsSound h
    → (n : ℕ) × (h' : ArcHeap) × (evict_pass margin now critical h ≡ some (n, h'))
      × Evicted now critical h h'
unfolding evict_pass
evict_pass_lem margin now critical h sound =
    let r = evict_all margin now critical h.objs (0, h) in
    let ev =
      evict_all_lem margin now critical h.objs (0, h) sound.base.distinct sound (λ s o e. e) in
    elim (Bool-cases critical) [
      | inr c ↦ (
        r.0,
        r.1,
        rw (evict_pass, c) refl,
        record {
          sound = ev.sound;
          held = λ s o e k. ev.held s o e (held_not_evictable o k);
          running = λ s o e k x. ev.running s o e k x;
          cleared = λ s o k. absurd (ground arith);
        },
      )
      | inl c ↦
          let d = drain_all_lem (length r.1.queue) r.0 r.1 ev.sound refl in
          (
            d.count,
            d.after,
            passes c d.result,
            record {
              sound = d.sound;
              held = λ s o e k.
                  let g = ev.held s o e (held_not_evictable o k) in
                  d.removes.keeps s o g (elim (Bool-cases o.deferred) [
                    | inl def ↦ absurd (let z = ev.sound.base.waiting s o g def in ground arith)
                    | inr def ↦ def
                  ]);
              running = λ s o e k. absurd (ground arith);
              cleared = λ s o k.
                  critical_cleared now h r.1 d.after (subst (λ b. Evicts now b h.objs h r.1) c ev)
                    d.removes s o;
            },
          )
    ]
  where
    passes :
        {t : Option (ℕ × ArcHeap)}
        → critical ≡ true
        → (let r = evict_all margin now critical h.objs (0, h) in drain_all (length r.1.queue) r)
          ≡ t
        → evict_pass margin now critical h ≡ t
    passes c e = rw (evict_pass, c) (rw c at e)

counted-IsSound : (h : ArcHeap) (n : ℕ) → IsSound h → IsSound (record h { evicts = h.evicts + n })
counted-IsSound h n s = record {
  base = record {
    distinct = s.base.distinct;
    counts = s.base.counts;
    inner = s.base.inner;
    waiting = s.base.waiting;
    flagged = s.base.flagged;
    there = s.base.there;
    fresh = s.base.fresh;
    unknown = s.base.unknown;
    room = s.base.room;
    lives = s.base.lives;
    bytes = s.base.bytes;
    balance = s.base.balance;
  };
  closed = s.closed;
}

-- An eviction never faults and leaves a well-formed heap, with every object that somebody references
-- as it was. Below a pressure of 80 it changes nothing; below 90 it frees no object before the end of
-- its lease; from 90 on no object without references is left that has a lease, running or not.
pub lease_evict-evicts :
    (cfg : ArcConfig) (h : ArcHeap) (now : ℕ)
    → IsSound h
    → (n : ℕ) × (h' : ArcHeap) × (lease_evict cfg now h ≡ some (n, h'))
      × IsSound h'
      × ((s : ℕ) (o : ArcObj)
          → object s h.objs ≡ some o
          → exceeds o.refs 0 ≡ true
          → object s h'.objs ≡ some o)
      × (persist_pressure cfg h < 80 → (n ≡ 0) × (h' ≡ h))
      × (persist_pressure cfg h < 90
          → (s : ℕ) (o : ArcObj) → object s h.objs ≡ some o
          → expired now o ≡ false
          → Present s h'.objs)
      × (90 ≤ persist_pressure cfg h
          → (s : ℕ) (o : ArcObj) → object s h'.objs ≡ some o
          → is_zero o.refs ≡ true
          → o.leased_until ≡ 0)
unfolding lease_evict
lease_evict-evicts cfg h now sound =
    let critical = leb 90 (persist_pressure cfg h) in
    elim (Bool-cases (ltb (persist_pressure cfg h) 80)) [
      | inl low ↦ (
        0,
        h,
        rw (lease_evict, low) refl,
        sound,
        λ s o e k. e,
        λ p. (refl, refl),
        λ p s o e k. (o, e),
        λ p. absurd (ground arith),
      )
      | inr high ↦
          let (n, h', e, ev) = evict_pass_lem cfg.lease_ms now critical h sound in
          (
            n,
            record h' { evicts = h'.evicts + n },
            rw (lease_evict, high, e) refl,
            counted-IsSound h' n ev.sound,
            ev.held,
            λ p. absurd (ground arith),
            λ p s o f x. ev.running s o f (ground arith) x,
            λ p s o f z. ev.cleared s o (ground arith) f z,
          )
    ]
