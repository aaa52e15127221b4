-- ===== src/Scheduling/Ready.antt =====
-- The ready queue of the task engine (`plant_pq_swap` .. `plant_pop_ready`, `plant_unlink_ready`): a
-- round-robin list and a binary heap, and the rule that switches between them. A task is the record
-- of the fields that the queue reads; a time is stored one higher than in the struct, so that 0 is
-- the -1 of "none".
pub mod Swaps
pub mod Conservation
pub mod Modes
use plant_lang.Prelude.{
  ℕ, zero, suc, ◌+◌, ◌-◌, ◌*◌, ◌/◌, ◌%◌, ◌^◌, ◌≤◌, ◌<◌, ◌≡◌, ◌≢◌, ◌↔◌, refl, sym, ap, ap₂, ◌∙◌,
  subst, Bool, true, false, not, ◌||◌, ◌&&◌, List, [], ◌∷◌, ◌++◌, map, append-nil, append_assoc,
  Option, none, some, arith, ltb, leb, ◌==◌, ==_iff, if◌then◌else◌, length, get_or, set, take, drop,
  replicate, length-append, length-set, length-replicate, get_or-set_self, get_or-set_ne,
  get_or-append_left, get_or-append_right, get_or-replicate, take-append, bit_and, Text, codes,
  str_eq, str_eq_iff, str_eq_refl, Bool-cases, ◌⊎◌, inl, inr, times, to_nat, times-set,
  times-append, find_index, Option-cases, min, max, add-one,
}

pub record Task : Type 0 where
  pub id : ℕ
  pub prio : ℕ
  pub deadline : ℕ
  pub wake : ℕ
  pub tkey : ℕ
  pub status : ℕ

abbrev pub no_task : Task
no_task = record { id = 0; prio = 0; deadline = 0; wake = 0; tkey = 0; status = 0 }

pub record Ready : Type 0 where
  pub rr : List Task
  pub pq : List Task
  pub pq_len : ℕ
  pub pq_cap : ℕ
  pub mode : ℕ
  pub samples : ℕ
  pub threshold : ℕ

unfoldable pub pq_less : Task → Task → Bool
pq_less a b =
    if not (a.prio == b.prio)
    then ltb a.prio b.prio
    else if not (a.deadline == b.deadline)
    then ltb a.deadline b.deadline
    else ltb a.id b.id

abbrev pub at : List Task → ℕ → Task
at l i = get_or l i no_task

-- `plant_pq_swap(&g_pq[i], &g_pq[j])`
abbrev pub pq_swap : ℕ → ℕ → List Task → List Task
pq_swap i j l = set (set l i (at l j)) j (at l i)

-- the loop of `plant_pq_push`, which ends within `i` rounds
unfoldable pub sift_up : ℕ → ℕ → List Task → List Task
sift_up zero i l = l
sift_up (suc n) i l =
    let p = (i - 1) / 2 in
    let rest = sift_up n p (pq_swap i p l) in
    if ltb 0 i && pq_less (at l i) (at l p) then rest else l

abbrev pub grown_cap : ℕ → ℕ
grown_cap cap = if cap == 0 then 64 else cap * 2

-- `junk` is what `realloc` leaves in a new slot
module _ (junk : Task) where
  unfoldable pub pq_grow : Ready → Ready
  pq_grow s =
      if leb s.pq_cap s.pq_len
      then record s {
        pq = s.pq ++ replicate (grown_cap s.pq_cap - s.pq_cap) junk;
        pq_cap = grown_cap s.pq_cap;
      }
      else s

  unfoldable pub pq_push : Task → Ready → Ready
  unfolding sift_up pq_grow
  pq_push t s =
      let g = pq_grow s in
      record g { pq = sift_up g.pq_len g.pq_len (set g.pq g.pq_len t); pq_len = g.pq_len + 1 }

-- the smallest of `i` and its children among the first `len`
abbrev pub smaller : ℕ → ℕ → ℕ → List Task → ℕ
smaller len c m l = if ltb c len && pq_less (at l c) (at l m) then c else m

abbrev pub smallest : ℕ → ℕ → List Task → ℕ
smallest len i l = smaller len (2 * i + 2) (smaller len (2 * i + 1) i l) l

-- the loop of `plant_pq_pop`, which ends within `len` rounds
unfoldable pub sift_down : ℕ → ℕ → ℕ → List Task → List Task
sift_down zero len i l = l
sift_down (suc n) len i l =
    let m = smallest len i l in
    let rest = sift_down n len m (pq_swap i m l) in if m == i then l else rest

unfoldable pub pq_pop : Ready → Option Task × Ready
unfolding sift_down
pq_pop s = if s.pq_len == 0 then (none, s) else (
  some (at s.pq 0),
  record s {
    pq = sift_down (s.pq_len - 1) (s.pq_len - 1) 0 (set s.pq 0 (at s.pq (s.pq_len - 1)));
    pq_len = s.pq_len - 1;
  },
)

unfoldable pub ready_len : Ready → ℕ
ready_len s = if s.mode == 0 then length s.rr else s.pq_len

unfoldable pub adjust_mode : ℕ → Ready → Ready
adjust_mode qlen s =
    if s.mode == 0 && leb s.threshold qlen
    then (if leb 2 (s.samples + 1)
        then record s { mode = 1; samples = 0 }
        else record s { samples = s.samples + 1 })
    else if s.mode == 1 && leb qlen (s.threshold * 7 / 10)
    then (if leb 2 (s.samples + 1)
        then record s { mode = 0; samples = 0 }
        else record s { samples = s.samples + 1 })
    else record s { samples = 0 }

unfoldable pub push_ready : Task → Task → Ready → Ready
unfolding pq_push ready_len adjust_mode
push_ready junk t s =
    let a = adjust_mode (ready_len s) s in
    let u : Task = record t { status = 0 } in
    if a.mode == 0 then record a { rr = a.rr ++ u ∷ [] } else pq_push junk u a

abbrev pub rr_pop : Ready → Option Task × Ready
rr_pop s = elim s.rr [ [] ↦ (none, s) | t ∷ r ↦ (some t, record s { rr = r }) ]

unfoldable pub pop_ready : Ready → Option Task × Ready
unfolding pq_pop ready_len adjust_mode
pop_ready s = let a = adjust_mode (ready_len s) s in if a.mode == 0 then rr_pop a else pq_pop a
