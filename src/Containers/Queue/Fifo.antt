-- ===== src/Containers/Queue/Fifo.antt =====
-- The ring queue against its abstract view: a list that grows at the end and shrinks at the front.
use mathlib.Core.Path.{ap₂}
use native.Mathlib.Nat.{mod-add-mod}
use plant_lang.Prelude.{
  ℕ, suc, ◌+◌, ◌-◌, ◌%◌, ◌<◌, ◌≡◌, refl, sym, ap, ◌∙◌, List, [], ◌∷◌, ◌++◌, Option, some, arith,
  length, get_or, tabulate, length-tabulate, tabulate-ext, ◌==◌, Bool-cases, ==_iff, inl, inr,
}
use plant_lang.Containers.Queue.{
  PlantQueue, queue_create, grow, store, queue_push, queue_pop, queue_peek, queue_size,
}
use plant_lang.Containers.Queue.Ring.{
  IsRing, slot, contents, queue_create-IsRing, grow-IsRing, cap-grow, contents-grow, store-IsRing,
  contents-store,
}

-- The calls that a program makes, and what it gets back.
pub data QueueOp {ℓ} (A : Type ℓ) : Type ℓ where
  push : A → QueueOp A
  pop peek size : QueueOp A

pub data QueueReply {ℓ} (A : Type ℓ) : Type ℓ where
  done : QueueReply A
  word : A → QueueReply A
  number : ℕ → QueueReply A

module _ {ℓ} {A : Type ℓ} (nil empty_text : A) where
  step : Option (PlantQueue A) → QueueOp A → QueueReply A × Option (PlantQueue A)
  step o (push v) = (done, queue_push nil o v)
  step o pop = (word (queue_pop nil empty_text o).0, (queue_pop nil empty_text o).1)
  step o peek = (word (queue_peek nil empty_text o), o)
  step o size = (number (queue_size o), o)

  -- The replies that a sequence of calls gets, from a given queue.
  pub run : Option (PlantQueue A) → List (QueueOp A) → List (QueueReply A)
  run o [] = []
  run o (op ∷ ops) = (step o op).0 ∷ run (step o op).1 ops

  -- The same calls on a list.
  abbrev front : List A → A
  front [] = empty_text
  front (x ∷ xs) = x

  abbrev rest : List A → List A
  rest [] = []
  rest (x ∷ xs) = xs

  fifo : List A → QueueOp A → QueueReply A × List A
  fifo l (push v) = (done, l ++ v ∷ [])
  fifo l pop = (word (front l), rest l)
  fifo l peek = (word (front l), l)
  fifo l size = (number (length l), l)

  pub run_fifo : List A → List (QueueOp A) → List (QueueReply A)
  run_fifo l [] = []
  run_fifo l (op ∷ ops) = (fifo l op).0 ∷ run_fifo (fifo l op).1 ops

  -- The handle holds a queue in good order whose values are `l`.
  pub record Shows (o : Option (PlantQueue A)) (l : List A) : Type ℓ where
    pub queue : PlantQueue A
    pub held : o ≡ some queue
    pub ring : IsRing queue
    pub reads : contents nil queue ≡ l

  push-Shows :
      {o : Option (PlantQueue A)} {l : List A} (v : A)
      → Shows o l
      → Shows (queue_push nil o v) (l ++ v ∷ [])
  unfolding queue_push
  push-Shows v s =
      let q = s.queue in
      let g = grow nil q in
      let ring = grow-IsRing nil q s.ring in
      let room = cap-grow nil q s.ring in
      record {
        queue = store nil g v;
        held = rw s.held;
        ring = store-IsRing nil g v ring room;
        reads =
            contents-store nil g v ring room
            ∙ ap (λ t. t ++ v ∷ []) (contents-grow nil q s.ring ∙ s.reads);
      }

  tabulate_front :
      (q : PlantQueue A) → IsRing q → 0 < q.count → get_or q.buf q.head nil ≡ front (contents nil q)
  unfolding contents
  tabulate_front q ring h =
      let e : q.count ≡ suc (q.count - 1) = omega arith in
      rw e (ap (λ k. get_or q.buf k nil) (let r = ring.start in grind arith))

  tabulate_empty : (q : PlantQueue A) → q.count ≡ 0 → contents nil q ≡ []
  unfolding contents
  tabulate_empty q e = rw e

  advance : PlantQueue A → PlantQueue A
  advance q = record { buf = q.buf; cap = q.cap; head = (q.head + 1) % q.cap; count = q.count - 1 }

  advance-IsRing : (q : PlantQueue A) → IsRing q → IsRing (advance q)
  unfolding advance
  advance-IsRing q ring = record {
    sized = ring.sized;
    roomy = ring.roomy;
    start = let r = ring.roomy in omega arith;
    fits = let f = ring.fits in omega arith;
  }

  next_slot : (head i cap : ℕ) → ((head + 1) % cap + i) % cap ≡ (head + suc i) % cap
  next_slot head i cap = mod-add-mod (head + 1) cap i ∙ ap (λ k. k % cap) (omega arith)

  contents-advance :
      (q : PlantQueue A) → 0 < q.count → contents nil (advance q) ≡ rest (contents nil q)
  unfolding contents advance
  contents-advance q h =
      let e : suc (q.count - 1) ≡ q.count = omega arith in
      tabulate-ext (q.count - 1) _ (λ i. slot nil q (suc i))
        (λ i p. ap (λ k. get_or q.buf k nil) (next_slot q.head i q.cap))
      ∙ ap (λ n. rest (tabulate n (slot nil q))) e

  -- What a call returns, and what it leaves, on both sides.
  record Agrees (r : QueueReply A × Option (PlantQueue A)) (f : QueueReply A × List A)
      : Type ℓ where
    reply : r.0 ≡ f.0
    shows : Shows r.1 f.1

  pop-Agrees :
      {o : Option (PlantQueue A)} {l : List A} → Shows o l → Agrees (step o pop) (fifo l pop)
  unfolding step fifo queue_pop
  pop-Agrees s =
      let q = s.queue in
      rw (s.held, ← s.reads)
        (elim (Bool-cases (q.count == 0)) [
          | inl none_left ↦
              let e = tabulate_empty q ((==_iff _ _).0 none_left) in
              rw (none_left, e)
                (record {
                  reply = refl;
                  shows = record { queue = q; held = refl; ring = s.ring; reads = e };
                })
          | inr some_left ↦
              let h : 0 < q.count = ground arith in
              rw some_left (record {
                reply = ap word (tabulate_front q s.ring h);
                shows = record {
                  queue = advance q;
                  held = unfold advance in refl;
                  ring = advance-IsRing q s.ring;
                  reads = contents-advance q h;
                };
              })
        ])

  peek-Agrees :
      {o : Option (PlantQueue A)} {l : List A} → Shows o l → Agrees (step o peek) (fifo l peek)
  unfolding step fifo queue_peek
  peek-Agrees s =
      let q = s.queue in
      record {
        shows = s;
        reply = ap word (
            rw (s.held, ← s.reads)
              (elim (Bool-cases (q.count == 0)) [
                | inl none_left ↦ rw (none_left, tabulate_empty q ((==_iff _ _).0 none_left))
                | inr some_left ↦ rw some_left (tabulate_front q s.ring (ground arith))
              ]));
      }

  size-Agrees :
      {o : Option (PlantQueue A)} {l : List A} → Shows o l → Agrees (step o size) (fifo l size)
  unfolding step fifo queue_size contents
  size-Agrees s =
      let q = s.queue in
      record {
        shows = s;
        reply = ap number (rw (s.held, ← s.reads) (sym (length-tabulate q.count (slot nil q))));
      }

  step-Agrees :
      (op : QueueOp A) {o : Option (PlantQueue A)} {l : List A}
      → Shows o l
      → Agrees (step o op) (fifo l op)
  unfolding step fifo
  step-Agrees (push v) s = record { reply = refl; shows = push-Shows v s }
  step-Agrees pop s = pop-Agrees s
  step-Agrees peek s = peek-Agrees s
  step-Agrees size s = size-Agrees s

  run-eq-run_fifo :
      (ops : List (QueueOp A)) (o : Option (PlantQueue A)) (l : List A)
      → Shows o l
      → run o ops ≡ run_fifo l ops
  unfolding run run_fifo
  run-eq-run_fifo [] o l s = refl
  run-eq-run_fifo (op ∷ ops) o l s =
      let t = step-Agrees op s in
      ap₂ (λ (r : QueueReply A) (rs : List (QueueReply A)). r ∷ rs) t.reply
        (run-eq-run_fifo ops (step o op).1 (fifo l op).1 t.shows)

  -- Every sequence of pushes, pops, peeks and size queries on a queue fresh from `queue_create`
  -- gets the replies that a plain first-in first-out list gives, however often the ring wraps
  -- round or grows: nothing is lost, doubled or reordered, and a pop or a peek of an empty queue
  -- returns the empty text.
  pub queue_refines_fifo :
      (ops : List (QueueOp A)) → run (some (queue_create nil)) ops ≡ run_fifo [] ops
  queue_refines_fifo ops = run-eq-run_fifo ops _ [] (record {
    queue = queue_create nil;
    held = refl;
    ring = queue_create-IsRing nil;
    reads = unfold queue_create contents in refl;
  })
