-- ===== src/Containers/Stack/Lifo.antt =====
-- The stack against its abstract view: a list whose head is the top.
use mathlib.Core.Path.{ap₂}
use native.Mathlib.Numerals.{add-one}
use plant_lang.Prelude.{
  ℕ, zero, suc, ◌-◌, ◌≤◌, ◌<◌, ◌≡◌, refl, sym, ap, ◌∙◌, List, [], ◌∷◌, ◌++◌, Option, some, arith,
  length, get_or, set, replicate, length-append, length-set, length-replicate, get_or-set_self,
  get_or-set_ne, get_or-append_left, ◌==◌, Bool-cases, ==_iff, inl, inr,
}
use plant_lang.Containers.Stack.{
  PlantStack, stack_create, stack_grow, stack_store, stack_push, stack_pop, stack_peek, stack_size,
}

-- The calls that a program makes, and what it gets back.
pub data StackOp {ℓ} (A : Type ℓ) : Type ℓ where
  push : A → StackOp A
  pop peek size : StackOp A

pub data StackReply {ℓ} (A : Type ℓ) : Type ℓ where
  done : StackReply A
  word : A → StackReply A
  number : ℕ → StackReply A

module _ {ℓ} {A : Type ℓ} where
  pub record IsStack (s : PlantStack A) : Type 0 where
    pub sized : length s.buf ≡ s.cap
    pub roomy : 0 < s.cap
    pub fits : s.count ≤ s.cap

module _ {ℓ} {A : Type ℓ} (nil junk empty_text : A) where
  -- The first `n` slots, the last of them first.
  tops : List A → ℕ → List A
  tops buf zero = []
  tops buf (suc n) = get_or buf n nil ∷ tops buf n

  contents : PlantStack A → List A
  contents s = tops s.buf s.count

  tops-ext :
      (a b : List A) (n : ℕ)
      → ((i : ℕ) → i < n → get_or a i nil ≡ get_or b i nil)
      → tops a n ≡ tops b n
  unfolding tops
  tops-ext a b zero h = refl
  tops-ext a b (suc n) h =
      ap₂ (λ (x : A) (l : List A). x ∷ l) (h n (omega arith))
        (tops-ext a b n (λ i p. h i (omega arith)))

  length-tops : (a : List A) (n : ℕ) → length (tops a n) ≡ n
  unfolding tops
  length-tops a zero = refl
  length-tops a (suc n) = ap suc (length-tops a n)

  stack_grow-IsStack : (s : PlantStack A) → IsStack s → IsStack (stack_grow nil junk empty_text s)
  unfolding stack_grow
  stack_grow-IsStack s v =
      ground (arith, length-append s.buf (replicate s.cap junk), length-replicate s.cap junk)

  stack_grow_room :
      (s : PlantStack A)
      → IsStack s
      → (stack_grow nil junk empty_text s).count < (stack_grow nil junk empty_text s).cap
  unfolding stack_grow
  stack_grow_room s v = ground arith

  contents-stack_grow :
      (s : PlantStack A) → IsStack s → contents (stack_grow nil junk empty_text s) ≡ contents s
  unfolding stack_grow contents
  contents-stack_grow s v = elim (Bool-cases (s.count == s.cap)) [
    | inr room ↦ rw room
    | inl full ↦ rw full (
        tops-ext (s.buf ++ replicate s.cap junk) s.buf s.count λ i p.
          get_or-append_left s.buf (replicate s.cap junk) i nil
            (let e = v.sized in let f = v.fits in omega arith))
  ]

  -- The handle holds a stack in good order whose values are `l`, the top first.
  record Shows (o : Option (PlantStack A)) (l : List A) : Type ℓ where
    stack : PlantStack A
    held : o ≡ some stack
    good : IsStack stack
    reads : contents stack ≡ l

  abbrev top : List A → A
  top [] = empty_text
  top (x ∷ xs) = x

  abbrev below : List A → List A
  below [] = []
  below (x ∷ xs) = xs

  lifo : List A → StackOp A → StackReply A × List A
  lifo l (push v) = (done, v ∷ l)
  lifo l pop = (word (top l), below l)
  lifo l peek = (word (top l), l)
  lifo l size = (number (length l), l)

  step : Option (PlantStack A) → StackOp A → StackReply A × Option (PlantStack A)
  step o (push v) = (done, stack_push nil junk empty_text o v)
  step o pop = (word (stack_pop nil junk empty_text o).0, (stack_pop nil junk empty_text o).1)
  step o peek = (word (stack_peek nil junk empty_text o), o)
  step o size = (number (stack_size o), o)

  -- The replies that a sequence of calls gets, on the stack and on a list.
  pub run : Option (PlantStack A) → List (StackOp A) → List (StackReply A)
  run o [] = []
  run o (op ∷ ops) = (step o op).0 ∷ run (step o op).1 ops

  pub run_lifo : List A → List (StackOp A) → List (StackReply A)
  run_lifo l [] = []
  run_lifo l (op ∷ ops) = (lifo l op).0 ∷ run_lifo (lifo l op).1 ops

  push-Shows :
      {o : Option (PlantStack A)} {l : List A} (v : A)
      → Shows o l
      → Shows (stack_push nil junk empty_text o v) (v ∷ l)
  unfolding stack_push stack_store
  push-Shows v s =
      let g = stack_grow nil junk empty_text s.stack in
      let good = stack_grow-IsStack s.stack s.good in
      let room = stack_grow_room s.stack s.good in
      record {
        stack = stack_store nil junk empty_text g v;
        held = rw s.held;
        good = record {
          sized = length-set g.buf g.count v ∙ good.sized;
          roomy = good.roomy;
          fits = let r = room in omega arith;
        };
        reads =
            unfold contents tops in
            rw add-one (
              ap₂ (λ (x : A) (l : List A). x ∷ l)
                (get_or-set_self g.buf g.count v nil (let e = good.sized in omega arith))
                (tops-ext (set g.buf g.count v) g.buf g.count
                    (λ i p. get_or-set_ne g.buf g.count i v nil (omega arith))
                  ∙ (contents-stack_grow s.stack s.good ∙ s.reads)));
      }

  record Agrees (r : StackReply A × Option (PlantStack A)) (f : StackReply A × List A)
      : Type ℓ where
    reply : r.0 ≡ f.0
    shows : Shows r.1 f.1

  tops_last :
      (buf : List A) (n : ℕ) → 0 < n → get_or buf (n - 1) nil ∷ tops buf (n - 1) ≡ tops buf n
  unfolding tops
  tops_last buf n h = let e : n ≡ suc (n - 1) = omega arith in ap (tops buf) (sym e)

  contents_empty : (s : PlantStack A) → s.count ≡ 0 → contents s ≡ []
  unfolding contents tops
  contents_empty s e = ap (tops s.buf) e

  pop-Agrees :
      {o : Option (PlantStack A)} {l : List A} → Shows o l → Agrees (step o pop) (lifo l pop)
  unfolding step lifo stack_pop contents
  pop-Agrees t =
      let s = t.stack in
      rw (t.held, ← t.reads)
        (elim (Bool-cases (s.count == 0)) [
          | inl none_left ↦
              let e = contents_empty s ((==_iff _ _).0 none_left) in
              rw (none_left, e)
                (record {
                  reply = refl;
                  shows = record { stack = s; held = refl; good = t.good; reads = e };
                })
          | inr some_left ↦
              let h : 0 < s.count = ground arith in
              rw (some_left, ← tops_last s.buf s.count h)
                (record {
                  reply = refl;
                  shows = record {
                    stack = record s { count = s.count - 1 };
                    held = refl;
                    good = record {
                      sized = t.good.sized;
                      roomy = t.good.roomy;
                      fits = let f = t.good.fits in omega arith;
                    };
                    reads = refl;
                  };
                })
        ])

  peek-Agrees :
      {o : Option (PlantStack A)} {l : List A} → Shows o l → Agrees (step o peek) (lifo l peek)
  unfolding step lifo stack_peek
  peek-Agrees t =
      let s = t.stack in
      record {
        shows = t;
        reply = ap word (
            rw (t.held, ← t.reads)
              (elim (Bool-cases (s.count == 0)) [
                | inl none_left ↦ rw (none_left, contents_empty s ((==_iff _ _).0 none_left))
                | inr some_left ↦
                    rw some_left
                      (unfold contents in ap top (tops_last s.buf s.count (ground arith)))
              ]));
      }

  size-Agrees :
      {o : Option (PlantStack A)} {l : List A} → Shows o l → Agrees (step o size) (lifo l size)
  unfolding step lifo stack_size contents
  size-Agrees t = record {
    shows = t;
    reply = ap number (rw (t.held, ← t.reads) (sym (length-tops t.stack.buf t.stack.count)));
  }

  step-Agrees :
      (op : StackOp A) {o : Option (PlantStack A)} {l : List A}
      → Shows o l
      → Agrees (step o op) (lifo l op)
  unfolding step lifo
  step-Agrees (push v) s = record { reply = refl; shows = push-Shows v s }
  step-Agrees pop s = pop-Agrees s
  step-Agrees peek s = peek-Agrees s
  step-Agrees size s = size-Agrees s

  run-eq-run_lifo :
      (ops : List (StackOp A)) (o : Option (PlantStack A)) (l : List A)
      → Shows o l
      → run o ops ≡ run_lifo l ops
  unfolding run run_lifo
  run-eq-run_lifo [] o l s = refl
  run-eq-run_lifo (op ∷ ops) o l s =
      let t = step-Agrees op s in
      ap₂ (λ (r : StackReply A) (rs : List (StackReply A)). r ∷ rs) t.reply
        (run-eq-run_lifo ops (step o op).1 (lifo l op).1 t.shows)

  -- Every sequence of pushes, pops, peeks and size queries on a stack fresh from `stack_create`
  -- gets the replies that a plain last-in first-out list gives, whatever `realloc` leaves in the
  -- new slots: no unwritten slot is ever returned, and a pop or a peek of an empty stack returns
  -- the empty text.
  pub stack_refines_lifo :
      (ops : List (StackOp A)) → run (some (stack_create nil junk empty_text)) ops ≡ run_lifo [] ops
  stack_refines_lifo ops = run-eq-run_lifo ops _ [] (record {
    stack = stack_create nil junk empty_text;
    held = refl;
    good = unfold stack_create in omega arith;
    reads = unfold stack_create contents tops in refl;
  })
