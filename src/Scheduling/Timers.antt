-- ===== src/Scheduling/Timers.antt =====
-- The timer list (`plant_timer_insert`, `plant_timer_remove`, `plant_next_timer`) and the scaling of
-- deadlines under congestion (`plant_ctx_tick`). Times are stored one higher than in the structs, so
-- that 0 is the -1 of "none"; the clock is an argument.
use plant_lang.Prelude.{
  ℕ, ◌+◌, ◌-◌, ◌%◌, ◌≤◌, ◌<◌, ◌≡◌, refl, Bool, true, false, not, ◌||◌, ◌&&◌, List, [], ◌∷◌, Option,
  none, some, arith, ltb, leb, ◌==◌, if◌then◌else◌, Bool-cases, inl, inr, times, to_nat,
}
use plant_lang.Scheduling.Ready.{Task}

-- `tkey`: the earlier one of `wake` and `deadline` that is set
unfoldable pub timer_key : Task → ℕ
timer_key t =
    let key = if ltb 0 t.wake then t.wake else 0 in
    if ltb 0 t.deadline && (key == 0 || ltb t.deadline key) then t.deadline else key

unfoldable pub timer_put : Task → List Task → List Task
timer_put t [] = t ∷ []
timer_put t (x ∷ xs) =
    let rest = timer_put t xs in if ltb x.tkey t.tkey then x ∷ rest else t ∷ x ∷ xs

unfoldable pub timer_insert : Task → List Task → List Task
unfolding timer_key timer_put
timer_insert t timers = timer_put (record t { tkey = timer_key t; status = 1 }) timers

-- a task is told from the others by its `id`
unfoldable pub timer_remove : ℕ → List Task → List Task
timer_remove id [] = []
timer_remove id (x ∷ xs) = let rest = timer_remove id xs in if x.id == id then xs else x ∷ rest

unfoldable pub next_timer : List Task → ℕ
next_timer [] = 0
next_timer (x ∷ xs) = x.tkey

pub record Context : Type 0 where
  pub adaptive : Bool
  pub cap : ℕ
  pub congested_since : ℕ
  pub deadline_scale : ℕ

unfoldable pub ctx_tick : ℕ → ℕ → Option Context → Option Context
ctx_tick now qlen none = none
ctx_tick now qlen (some c) =
    if not c.adaptive
    then some c
    else if ltb c.cap qlen
    then (if c.congested_since == 0
        then some (record c { congested_since = now + 1 })
        else if leb (c.congested_since + 49) now && ltb c.deadline_scale 150
        then some (record c { deadline_scale = c.deadline_scale + 10; congested_since = now + 1 })
        else some c)
    else some (record c {
      congested_since = 0;
      deadline_scale = if ltb 100 c.deadline_scale then c.deadline_scale - 5 else c.deadline_scale;
    })

-- every key of the list is at least `k`
abbrev pub NotBefore : ℕ → List Task → Type 0
NotBefore k [] = Unit
NotBefore k (x ∷ xs) = (k ≤ x.tkey) × NotBefore k xs

abbrev pub InOrder : List Task → Type 0
InOrder [] = Unit
InOrder (x ∷ xs) = NotBefore x.tkey xs × InOrder xs

NotBefore-le : (a b : ℕ) (l : List Task) → a ≤ b → NotBefore b l → NotBefore a l
NotBefore-le a b [] h w = tt
NotBefore-le a b (x ∷ xs) h (w, ws) = (omega arith, NotBefore-le a b xs h ws)

NotBefore-timer_put :
    (k : ℕ) (t : Task) (l : List Task) → k ≤ t.tkey → NotBefore k l → NotBefore k (timer_put t l)
unfolding timer_put
NotBefore-timer_put k t [] h w = (h, tt)
NotBefore-timer_put k t (x ∷ xs) h (w, ws) =
    let rest = NotBefore-timer_put k t xs h ws in
    elim (Bool-cases (ltb x.tkey t.tkey)) [ inl q ↦ rw (q) (w, rest) | inr q ↦ rw (q) (h, (w, ws)) ]

timer_put-InOrder : (t : Task) (l : List Task) → InOrder l → InOrder (timer_put t l)
unfolding timer_put
timer_put-InOrder t [] s = (tt, tt)
timer_put-InOrder t (x ∷ xs) (a, s) =
    let rest = timer_put-InOrder t xs s in
    elim (Bool-cases (ltb x.tkey t.tkey)) [
      | inl q ↦ rw (q) (NotBefore-timer_put x.tkey t xs (ground arith) a, rest)
      | inr q ↦
          let le : t.tkey ≤ x.tkey = ground arith in
          rw (q) ((le, NotBefore-le t.tkey x.tkey xs le a), (a, s))
    ]

times-timer_put :
    (p : Task → Bool) (t : Task) (l : List Task)
    → times p (timer_put t l) ≡ times p l + to_nat (p t)
unfolding timer_put times
times-timer_put p t [] = omega arith
times-timer_put p t (x ∷ xs) =
    let rest = times-timer_put p t xs in
    elim (Bool-cases (ltb x.tkey t.tkey)) [
      | inl q ↦ rw (q) (omega arith)
      | inr q ↦ rw (q) (omega arith)
    ]

NotBefore-timer_remove :
    (k id : ℕ) (l : List Task) → NotBefore k l → NotBefore k (timer_remove id l)
unfolding timer_remove
NotBefore-timer_remove k id [] w = tt
NotBefore-timer_remove k id (x ∷ xs) (w, ws) =
    let rest = NotBefore-timer_remove k id xs ws in
    elim (Bool-cases (x.id == id)) [ inl q ↦ rw (q) ws | inr q ↦ rw (q) (w, rest) ]

timer_remove-InOrder : (id : ℕ) (l : List Task) → InOrder l → InOrder (timer_remove id l)
unfolding timer_remove
timer_remove-InOrder id [] s = tt
timer_remove-InOrder id (x ∷ xs) (a, s) =
    let rest = timer_remove-InOrder id xs s in
    elim (Bool-cases (x.id == id)) [
      | inl q ↦ rw (q) s
      | inr q ↦ rw (q) (NotBefore-timer_remove x.tkey id xs a, rest)
    ]

first-NotBefore : (l : List Task) → InOrder l → NotBefore (next_timer l) l
unfolding next_timer
first-NotBefore [] s = tt
first-NotBefore (x ∷ xs) (a, s) = (omega arith, a)

pub timer_of : Task → Task
timer_of t = record t { tkey = timer_key t; status = 1 }

-- Inserting a task keeps the timer list in the order of its keys and puts the task in exactly once,
-- with no other gained or lost; removing one keeps the order too; and in a list in order the next
-- timer is the earliest.
pub timer_insert-InOrder :
    (t : Task) (l : List Task)
    → InOrder l
    → InOrder (timer_insert t l)
      × ((p : Task → Bool) → times p (timer_insert t l) ≡ times p l + to_nat (p (timer_of t)))
      × ((id : ℕ) → InOrder (timer_remove id l))
      × NotBefore (next_timer l) l
unfolding timer_insert timer_of
timer_insert-InOrder t l s = (
  timer_put-InOrder (timer_of t) l s,
  λ p. times-timer_put p (timer_of t) l,
  λ id. timer_remove-InOrder id l s,
  first-NotBefore l s,
)

-- a multiple of five between 100 and 155
abbrev pub InScale : Option Context → Type 0
InScale none = Unit
InScale (some c) = (100 ≤ c.deadline_scale) × (c.deadline_scale ≤ 155) × (c.deadline_scale % 5 ≡ 0)

-- A tick keeps the deadline scale of a context a multiple of five between 100 and 155 percent.
pub ctx_tick-InScale :
    (now qlen : ℕ) (c : Option Context) → InScale c → InScale (ctx_tick now qlen c)
unfolding ctx_tick
ctx_tick-InScale now qlen none w = tt
ctx_tick-InScale now qlen (some c) (lo, hi, m) = elim (Bool-cases (not c.adaptive)) [
  | inl off ↦ rw (off) (lo, hi, m)
  | inr on ↦ elim (Bool-cases (ltb c.cap qlen)) [
    | inr free ↦ elim (Bool-cases (ltb 100 c.deadline_scale)) [
      | inl more ↦
          let above : 100 < c.deadline_scale = ground arith in
          rw (on, free, more) (omega arith, omega arith, omega arith)
      | inr base ↦ rw (on, free, base) (lo, hi, m)
    ]
    | inl full ↦ elim (Bool-cases (c.congested_since == 0)) [
      | inl new ↦ rw (on, full, new) (lo, hi, m)
      | inr old ↦ elim (Bool-cases (leb (c.congested_since + 49) now && ltb c.deadline_scale 150)) [
        | inr wait ↦ rw (on, full, old, wait) (lo, hi, m)
        | inl up ↦
            let below : c.deadline_scale < 150 = ground arith in
            rw (on, full, old, up) (omega arith, omega arith, omega arith)
      ]
    ]
  ]
]

-- An adaptive context at 150 percent that sees one tick without congestion and then two congested
-- ones, at least 50 milliseconds apart, is scaled to 155 percent.
pub ctx_tick_overshoots :
    (now later qlen : ℕ) (c : Context)
    → c.adaptive ≡ true
    → c.deadline_scale ≡ 150
    → c.cap < qlen
    → now + 50 ≤ later
    → (r : Context) × (ctx_tick later qlen (ctx_tick now qlen (ctx_tick now 0 (some c))) ≡ some r)
      × (r.deadline_scale ≡ 155)
unfolding ctx_tick
ctx_tick_overshoots now later qlen c on top busy apart =
    let quiet : ltb c.cap 0 ≡ false = ground arith in
    let full : ltb c.cap qlen ≡ true = ground arith in
    let wait : leb (now + 1 + 49) later ≡ true = ground arith in
    let fresh : (now + 1 == 0) ≡ false = ground arith in
    (
      record c { congested_since = later + 1; deadline_scale = 155 },
      rw (on, quiet, full, top, fresh, wait, full),
      refl,
    )
