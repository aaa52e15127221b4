-- ===== src/Tests/Scheduling.antt =====
-- The ready queue and the timers at concrete inputs.
use plant_lang.Prelude.{ℕ, ◌+◌, ◌≡◌, refl, Bool, true, List, [], ◌∷◌, arith, times, to_nat}
use plant_lang.Scheduling.Ready.{Task, no_task, Ready, push_ready, pop_ready}
use plant_lang.Scheduling.Ready.Conservation.{IsReady, Pushes, Pops, push_ready-Pushes}
use plant_lang.Scheduling.Ready.Modes.{
  push, pop, ready_run, fifo, pushes, Strands, pop_ready-Strands,
}
use plant_lang.Scheduling.Timers.{
  InOrder, NotBefore, timer_insert, timer_remove, next_timer, timer_of, timer_insert-InOrder,
  Context,
}

abbrev job : Task
job = record no_task { id = 5; prio = 1; wake = 30; deadline = 20 }

-- one task in the heap, none in the list
abbrev one_left : Ready
one_left = record {
  rr = [];
  pq = job ∷ [];
  pq_len = 1;
  pq_cap = 1;
  mode = 0;
  samples = 0;
  threshold = 64;
}

one_left-IsReady : IsReady one_left
one_left-IsReady = record { sized = refl; fits = omega arith }

push_ready-Pushes_example :
    Pushes (record job { status = 0 }) one_left (push_ready no_task job one_left)
    × Pops one_left (pop_ready one_left)
push_ready-Pushes_example = push_ready-Pushes no_task job one_left one_left-IsReady

pop_ready-Strands_example :
    Strands
      (fifo (pop ∷ push job ∷ pop ∷ pop ∷ []) [])
      one_left
      (ready_run no_task (pop ∷ push job ∷ pop ∷ pop ∷ []) one_left)
pop_ready-Strands_example =
    pop_ready-Strands no_task (pop ∷ push job ∷ pop ∷ pop ∷ []) one_left refl
      (unfold pushes in omega arith)

abbrev timers : List Task
timers = record job { tkey = 10 } ∷ record job { tkey = 40 } ∷ []

timers-InOrder : InOrder timers
timers-InOrder = ((omega arith, tt), (tt, tt))

timer_insert-InOrder_example :
    InOrder (timer_insert job timers)
    × ((p : Task → Bool)
        → times p (timer_insert job timers) ≡ times p timers + to_nat (p (timer_of job)))
    × ((id : ℕ) → InOrder (timer_remove id timers))
    × NotBefore (next_timer timers) timers
timer_insert-InOrder_example = timer_insert-InOrder job timers timers-InOrder

abbrev congested : Context
congested = record { adaptive = true; cap = 3; congested_since = 0; deadline_scale = 150 }
