-- ===== src/Missions/Audit/Chain.antt =====
-- What the ring holds after a run of log calls.
use plant_lang.Prelude.{
  drop, ℕ, zero, suc, ◌+◌, ◌-◌, ◌%◌, ◌≤◌, ◌<◌, ◌≡◌, refl, sym, ap, ap₂, ◌∙◌, false, List, [], ◌∷◌,
  Option, ltb, ◌==◌, if◌then◌else◌, get_or, set, take, length, length-set, length-replicate,
  get_or-set_self, get_or-set_ne, ltb→lt, ltb→le, Text, arith, Bool-cases, inl, inr, ==_iff,
}
use plant_lang.Missions.Audit.Mixing.{HasNoNul, take-HasNoNul, c_str-HasNoNul}
use plant_lang.Missions.Audit.{
  retained, nth, base, AuditEv, Audit, fnv_offset, no_ev, empty_audit, audit_hash, entry_for,
  audit_log, or_empty, c_str,
}

-- the chain that goes on behind a log that has its newest entry first
unfoldable pub top : List AuditEv → ℕ
top [] = fnv_offset
top (e ∷ es) = e.chain

-- A log without bound, with the newest entry first.
unfoldable pub log_step : Text → Option Text → List AuditEv → List AuditEv
unfolding top
log_step kind msg es =
    let k = take 23 (c_str kind) in
    let m = take 95 (c_str (or_empty msg)) in
    record { seq = length es; kind = k; msg = m; chain = audit_hash (top es) (length es) k m } ∷ es

unfoldable pub full_log : List (Text × Option Text) → List AuditEv → List AuditEv
unfolding log_step
full_log [] es = es
full_log ((kind, msg) ∷ cs) es = full_log cs (log_step kind msg es)

-- the log calls, on the ring
unfoldable pub audit_run : List (Text × Option Text) → Audit → Audit
unfolding audit_log
audit_run [] a = a
audit_run ((kind, msg) ∷ cs) a = audit_run cs (audit_log kind msg a)

unfoldable pub Chained : List AuditEv → Type 0
Chained [] = Unit
Chained (e ∷ es) = (e.chain ≡ audit_hash (top es) e.seq e.kind e.msg) × Chained es

-- The ring has the newest entries of the log, each at its age behind the head.
pub record Holds (es : List AuditEv) (a : Audit) : Type 0 where
  pub size : length a.ring ≡ 256
  pub in_ring : a.head < 256
  pub counted : a.count + a.overflow ≡ length es
  pub few : a.count ≤ 256
  pub full : 0 < a.overflow → a.count ≡ 256
  pub numbered : a.seq ≡ length es
  pub last : a.chain ≡ top es
  pub gone : a.evicted ≡ top (drop 256 es)
  pub kept :
      (t : ℕ) → t < a.count → get_or a.ring ((a.head + 255 - t) % 256) no_ev ≡ get_or es t no_ev

pub top-drop :
    (n : ℕ) (es : List AuditEv) → n < length es → top (drop n es) ≡ (get_or es n no_ev).chain
unfolding top
top-drop n [] h = absurd (omega arith)
top-drop zero (e ∷ es) h = refl
top-drop (suc n) (e ∷ es) h = top-drop n es (omega arith)

pub drop-none : (n : ℕ) (es : List AuditEv) → length es ≤ n → drop n es ≡ []
drop-none zero [] h = refl
drop-none zero (e ∷ es) h = absurd (omega arith)
drop-none (suc n) [] h = refl
drop-none (suc n) (e ∷ es) h = drop-none n es (omega arith)

pub empty-Holds : Holds [] empty_audit
unfolding top
empty-Holds = record {
  size = length-replicate 256 no_ev;
  in_ring = omega arith;
  counted = refl;
  few = omega arith;
  full = λ h. absurd (omega arith);
  numbered = refl;
  last = refl;
  gone = refl;
  kept = λ t h. absurd (omega arith);
}

pub below_cap : (n : ℕ) → n ≤ 256 → (n == 256) ≡ false → n < 256
below_cap n h e = ground arith

pub none_over : (n m : ℕ) → (0 < n → m ≡ 256) → m < 256 → n ≡ 0
none_over zero m f h = refl
none_over (suc n) m f h = let e = f (omega arith) in absurd (omega arith)

new_entry :
    (kind : Text) (msg : Option Text) (es : List AuditEv) (a : Audit)
    → Holds es a
    → entry_for kind msg a ≡ get_or (log_step kind msg es) 0 no_ev
unfolding entry_for log_step
new_entry kind msg es a f =
    let k = take 23 (c_str kind) in
    let m = take 95 (c_str (or_empty msg)) in
    ap₂ (λ s c. record { seq = s; kind = k; msg = m; chain = audit_hash c s k m }) f.numbered f.last

-- the newest entry stands at the head, and the others are one round older
kept_lem :
    (kind : Text) (msg : Option Text) (es : List AuditEv) (a : Audit)
    → Holds es a
    → (t : ℕ) → t < suc a.count
    → t < 256
    → get_or (set a.ring a.head (entry_for kind msg a)) (((a.head + 1) % 256 + 255 - t) % 256) no_ev
      ≡ get_or (log_step kind msg es) t no_ev
unfolding log_step
kept_lem kind msg es a f zero h l =
    let r = f.in_ring in
    let z = f.size in
    let here : ((a.head + 1) % 256 + 255 - 0) % 256 ≡ a.head = omega arith in
    ap (λ n. get_or (set a.ring a.head (entry_for kind msg a)) n no_ev) here
    ∙ get_or-set_self a.ring a.head (entry_for kind msg a) no_ev (omega arith)
    ∙ new_entry kind msg es a f
kept_lem kind msg es a f (suc t) h l =
    let r = f.in_ring in
    let older : ((a.head + 1) % 256 + 255 - suc t) % 256 ≡ (a.head + 255 - t) % 256 = omega arith in
    ap (λ n. get_or (set a.ring a.head (entry_for kind msg a)) n no_ev) older
    ∙ get_or-set_ne a.ring a.head ((a.head + 255 - t) % 256) (entry_for kind msg a) no_ev
        (λ e. absurd (omega arith))
    ∙ f.kept t (omega arith)

-- the link of the chain in front of the oldest entry that is kept
gone_lem :
    (kind : Text) (msg : Option Text) (es : List AuditEv) (a : Audit)
    → Holds es a
    → (if a.count == 256 then (get_or a.ring a.head no_ev).chain else a.evicted)
      ≡ top (drop 256 (log_step kind msg es))
unfolding log_step top
gone_lem kind msg es a f = elim (Bool-cases (a.count == 256)) [
  | inl y ↦
      let e = (==_iff a.count 256).0 y in
      let r = f.in_ring in
      let c = f.counted in
      let here : (a.head + 255 - 255) % 256 ≡ a.head = omega arith in
      rw y (
        ap (λ n. (get_or a.ring n no_ev).chain) (sym here)
        ∙ ap (λ x. x.chain) (f.kept 255 (omega arith))
        ∙ sym (top-drop 255 es (omega arith)))
  | inr n ↦
      let c = f.counted in
      let l = f.few in
      let some_room = below_cap a.count l n in
      let none_lost = none_over a.overflow a.count f.full some_room in
      rw n (
        f.gone
        ∙ ap top (drop-none 256 es (omega arith))
        ∙ sym (ap top (drop-none 255 es (omega arith))))
]

log-Holds :
    (kind : Text) (msg : Option Text) (es : List AuditEv) (a : Audit)
    → Holds es a
    → Holds (log_step kind msg es) (audit_log kind msg a)
unfolding log_step audit_log top
log-Holds kind msg es a f =
    let c = f.counted in
    let l = f.few in
    let n = f.numbered in
    let last_link = ap (λ x. x.chain) (new_entry kind msg es a f) in
    let links = gone_lem kind msg es a f in
    let size' = length-set a.ring a.head (entry_for kind msg a) in
    let z = f.size in
    elim (Bool-cases (ltb a.count 256)) [
      | inl room ↦
          let some_room = ltb→lt a.count 256 room in
          let none_lost = none_over a.overflow a.count f.full some_room in
          rw (audit_log, room)
            (record {
              size = omega arith;
              in_ring = omega arith;
              counted = omega arith;
              few = omega arith;
              full = λ h. absurd (omega arith);
              numbered = omega arith;
              last = last_link;
              gone = links;
              kept = λ t h. kept_lem kind msg es a f t h (omega arith);
            })
      | inr no_room ↦
          let full_up = ltb→le a.count 256 no_room in
          let at_cap : a.count ≡ 256 = omega arith in
          rw (audit_log, no_room)
            (record {
              size = omega arith;
              in_ring = omega arith;
              counted = omega arith;
              few = l;
              full = λ h. at_cap;
              numbered = omega arith;
              last = last_link;
              gone = links;
              kept = λ t h. kept_lem kind msg es a f t (omega arith) (omega arith);
            })
    ]

pub run-Holds :
    (cs : List (Text × Option Text)) (es : List AuditEv) (a : Audit)
    → Holds es a
    → Holds (full_log cs es) (audit_run cs a)
unfolding full_log audit_run
run-Holds [] es a f = f
run-Holds ((kind, msg) ∷ cs) es a f =
    run-Holds cs (log_step kind msg es) (audit_log kind msg a) (log-Holds kind msg es a f)

pub full_log-Chained :
    (cs : List (Text × Option Text)) (es : List AuditEv) → Chained es → Chained (full_log cs es)
unfolding full_log log_step Chained
full_log-Chained [] es c = c
full_log-Chained ((kind, msg) ∷ cs) es c = full_log-Chained cs (log_step kind msg es) (refl, c)

-- the messages of the log, which `snprintf` ends at a NUL byte
pub full_log-HasNoNul :
    (cs : List (Text × Option Text)) (es : List AuditEv)
    → ((t : ℕ) → HasNoNul (get_or es t no_ev).msg)
    → (t : ℕ) → HasNoNul (get_or (full_log cs es) t no_ev).msg
unfolding full_log log_step
full_log-HasNoNul [] es g t = g t
full_log-HasNoNul ((kind, msg) ∷ cs) es g t =
    full_log-HasNoNul cs (log_step kind msg es) (λ u. entry u) t
  where
    entry : (u : ℕ) → HasNoNul (get_or (log_step kind msg es) u no_ev).msg
    entry zero = take-HasNoNul 95 (c_str (or_empty msg)) (c_str-HasNoNul (or_empty msg))
    entry (suc u) = g u

-- Where the ring has the `i`-th of its entries, counted from the oldest.
pub nth-kept :
    (es : List AuditEv) (a : Audit) (i t : ℕ)
    → Holds es a
    → suc (i + t) ≡ a.count
    → ((base a + i) % 256 ≡ (a.head + 255 - t) % 256) × (nth a i ≡ get_or es t no_ev)
nth-kept es a i t f e =
    let l = f.few in
    let r = f.in_ring in
    let n : retained a ≡ a.count = retained_lem a f.few in
    let w : (base a + i) % 256 ≡ (a.head + 255 - t) % 256 =
      base_lem a.head a.count (retained a) i t r l e n in
    (w, ap (λ k. get_or a.ring k no_ev) w ∙ f.kept t (omega arith))
  where
    retained_lem : (a : Audit) → a.count ≤ 256 → retained a ≡ a.count
    retained_lem a l = ground arith

    base_lem :
        (head count n i t : ℕ)
        → head < 256
        → count ≤ 256
        → suc (i + t) ≡ count
        → n ≡ count
        → ((if ltb head n then head + 256 - n else head - n) + i) % 256 ≡ (head + 255 - t) % 256
    base_lem head count n i t r l e k = elim (Bool-cases (ltb head n)) [
      | inl y ↦ let b = ltb→lt head n y in rw y (omega arith)
      | inr y ↦ let b = ltb→le head n y in rw y (omega arith)
    ]
