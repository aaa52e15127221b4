-- ===== src/Scheduling/Ready/Modes.antt =====
-- When the ready queue switches between its two structures, and what a switch leaves behind.
use plant_lang.Prelude.{
  suc, ◌+◌, ◌++◌, length, length-append, Option, some, refl, sym, ap, subst, ℕ, ◌*◌, ◌/◌, ◌<◌, ◌≡◌,
  false, ◌&&◌, List, [], ◌∷◌, none, arith, leb, if◌then◌else◌,
}
use plant_lang.Scheduling.Ready.{Task, push_ready, rr_pop, Ready, ready_len, adjust_mode, pop_ready}

-- one sample of the queue's length after another
unfoldable pub sample_all : List ℕ → Ready → Ready
sample_all [] s = s
sample_all (q ∷ qs) s = sample_all qs (adjust_mode q s)

-- In round-robin mode a first sample never switches; two samples switch to the heap exactly if both
-- reach the threshold. In heap mode a first sample never switches either, and two switch back
-- exactly if both are at most seven tenths of it.
pub adjust_mode-hysteresis :
    (a b : ℕ) (s : Ready)
    → s.samples ≡ 0
    → ((s.mode ≡ 0)
        → ((adjust_mode a s).mode ≡ 0)
          × ((sample_all (a ∷ b ∷ []) s).mode
              ≡ (if leb s.threshold a && leb s.threshold b then 1 else 0)))
      × ((s.mode ≡ 1)
          → ((adjust_mode a s).mode ≡ 1)
            × ((sample_all (a ∷ b ∷ []) s).mode
                ≡ (if leb a (s.threshold * 7 / 10) && leb b (s.threshold * 7 / 10) then 0 else 1)))
unfolding adjust_mode sample_all
adjust_mode-hysteresis a b s z =
    (λ e. (ground arith, ground arith), λ e. (ground arith, ground arith))

-- The calls on the queue; a pop replies with what it gives.
pub data ReadyCall : Type 0 where
  push : Task → ReadyCall
  pop : ReadyCall

unfoldable pub ready_run : Task → List ReadyCall → Ready → List (Option Task) × Ready
unfolding push_ready pop_ready
ready_run junk [] s = ([], s)
ready_run junk (push t ∷ cs) s = ready_run junk cs (push_ready junk t s)
ready_run junk (pop ∷ cs) s =
    let (t, s1) = pop_ready s in let (ts, s2) = ready_run junk cs s1 in (t ∷ ts, s2)

unfoldable pub pushes : List ReadyCall → ℕ
pushes [] = 0
pushes (push t ∷ cs) = suc (pushes cs)
pushes (pop ∷ cs) = pushes cs

-- the replies of a plain first-in first-out list
unfoldable pub fifo : List ReadyCall → List Task → List (Option Task)
fifo [] q = []
fifo (push t ∷ cs) q = fifo cs (q ++ record t { status = 0 } ∷ [])
fifo (pop ∷ cs) [] = none ∷ fifo cs []
fifo (pop ∷ cs) (t ∷ q) = some t ∷ fifo cs q

-- The heap is as it was, and round-robin mode holds.
pub record Strands (replies : List (Option Task)) (s : Ready) (r : List (Option Task) × Ready)
    : Type 0 where
  pub gives : r.0 ≡ replies
  pub heap : r.1.pq ≡ s.pq
  pub size : r.1.pq_len ≡ s.pq_len
  pub stays : r.1.mode ≡ 0

-- the queue in round-robin mode
abbrev listed : List Task → ℕ → Ready → Ready
listed q n s = record s { rr = q; samples = n; mode = 0 }

push_low :
    (junk t : Task) (q : List Task) (n : ℕ) (s : Ready)
    → length q < s.threshold
    → push_ready junk t (listed q n s) ≡ listed (q ++ record t { status = 0 } ∷ []) 0 s
unfolding push_ready ready_len adjust_mode
push_low junk t q n s h =
    let low : leb s.threshold (length q) ≡ false = ground arith in rw (low) refl

pop_low :
    (q : List Task) (n : ℕ) (s : Ready)
    → length q < s.threshold
    → pop_ready (listed q n s) ≡ rr_pop (listed q 0 s)
unfolding pop_ready ready_len adjust_mode
pop_low q n s h = let low : leb s.threshold (length q) ≡ false = ground arith in rw (low) refl

run-Strands :
    (junk : Task) (calls : List ReadyCall) (q : List Task) (n : ℕ) (s : Ready)
    → length q + pushes calls < s.threshold
    → Strands (fifo calls q) s (ready_run junk calls (listed q n s))
unfolding ready_run fifo pushes
run-Strands junk [] q n s h = record { gives = refl; heap = refl; size = refl; stays = refl }
run-Strands junk (push t ∷ cs) q n s h =
    let l = length-append q (record t { status = 0 } ∷ []) in
    subst (λ x. Strands (fifo cs (q ++ record t { status = 0 } ∷ [])) s (ready_run junk cs x))
      (sym (push_low junk t q n s (omega arith)))
      (run-Strands junk cs (q ++ record t { status = 0 } ∷ []) 0 s (omega arith))
run-Strands junk (pop ∷ cs) [] n s h =
    let f = run-Strands junk cs [] 0 s h in
    subst
      (λ x.
        Strands (none ∷ fifo cs []) s (x.0 ∷ (ready_run junk cs x.1).0, (ready_run junk cs x.1).1))
      (sym (pop_low [] n s (omega arith)))
      (record { gives = ap (λ x. none ∷ x) f.gives; heap = f.heap; size = f.size; stays = f.stays })
run-Strands junk (pop ∷ cs) (t ∷ q) n s h =
    let f = run-Strands junk cs q 0 s (omega arith) in
    subst
      (λ x.
        Strands (some t ∷ fifo cs q) s (x.0 ∷ (ready_run junk cs x.1).0, (ready_run junk cs x.1).1))
      (sym (pop_low (t ∷ q) n s (omega arith)))
      (record {
        gives = ap (λ x. some t ∷ x) f.gives;
        heap = f.heap;
        size = f.size;
        stays = f.stays;
      })

-- In round-robin mode, whatever is pushed and popped while the list and the tasks that are still to
-- be pushed stay below the threshold: the pops give the tasks of the list and the pushed ones in
-- order, and `NULL` when these are out; the heap is not touched, so the tasks that were pushed in
-- heap mode wait, however often a pop finds the list empty.
pub pop_ready-Strands :
    (junk : Task) (calls : List ReadyCall) (s : Ready)
    → s.mode ≡ 0
    → length s.rr + pushes calls < s.threshold
    → Strands (fifo calls s.rr) s (ready_run junk calls s)
pop_ready-Strands junk calls s m h =
    subst (λ k. Strands (fifo calls s.rr) s (ready_run junk calls (record s { mode = k }))) (sym m)
      (run-Strands junk calls s.rr s.samples s h)
