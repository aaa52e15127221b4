-- ===== src/Containers/Queue/Ring.antt =====
-- The ring queue read in order, its invariant, and what each operation does to both.
use plant_lang.Prelude.{
  ℕ, zero, suc, ◌+◌, ◌*◌, ◌%◌, ◌≤◌, ◌<◌, ◌≡◌, ◌≢◌, refl, ap, ◌∙◌, List, [], ◌∷◌, ◌++◌, arith,
  length, get_or, set, replicate, tabulate, length-set, length-replicate, get_or-set_self,
  get_or-set_ne, tabulate-ext, tabulate-suc, ◌==◌, Bool-cases, ==_iff, inl, inr,
}
use native.Mathlib.Numerals.{add-one}
use mathlib.Core.Path.{ap₂}
use plant_lang.Containers.Queue.{PlantQueue, queue_create, copy_ring, grow, store}

module _ {ℓ} {A : Type ℓ} where
  -- What every reachable queue satisfies.
  pub record IsRing (q : PlantQueue A) : Type 0 where
    pub sized : length q.buf ≡ q.cap
    pub roomy : 0 < q.cap
    pub start : q.head < q.cap
    pub fits : q.count ≤ q.cap

module _ {ℓ} {A : Type ℓ} (nil : A) where
  abbrev pub slot : PlantQueue A → ℕ → A
  slot q i = get_or q.buf ((q.head + i) % q.cap) nil

  -- The queued values, the oldest first.
  unfoldable pub contents : PlantQueue A → List A
  contents q = tabulate q.count (slot q)

  pub queue_create-IsRing : IsRing (queue_create nil)
  unfolding queue_create
  queue_create-IsRing = omega arith

  length-copy_ring :
      (q : PlantQueue A) (n i : ℕ) (nb : List A) → length (copy_ring nil q n i nb) ≡ length nb
  unfolding copy_ring
  length-copy_ring q zero i nb = refl
  length-copy_ring q (suc n) i nb =
      length-copy_ring q n (i + 1) (set nb i (slot q i)) ∙ length-set nb i (slot q i)

  -- Later rounds leave the slots below `i` alone.
  copy_ring_below :
      (q : PlantQueue A) (n i : ℕ) (nb : List A) (j : ℕ)
      → j < i
      → get_or (copy_ring nil q n i nb) j nil ≡ get_or nb j nil
  unfolding copy_ring
  copy_ring_below q zero i nb j h = refl
  copy_ring_below q (suc n) i nb j h =
      copy_ring_below q n (i + 1) (set nb i (slot q i)) j (omega arith)
      ∙ get_or-set_ne nb i j (slot q i) nil (omega arith)

  copy_ring_at :
      (q : PlantQueue A) (n i : ℕ) (nb : List A) (j : ℕ)
      → i ≤ j
      → j < i + n
      → i + n ≤ length nb
      → get_or (copy_ring nil q n i nb) j nil ≡ slot q j
  unfolding copy_ring
  copy_ring_at q zero i nb j lo hi fit = absurd (omega arith)
  copy_ring_at q (suc n) i nb j lo hi fit = elim (Bool-cases (i == j)) [
    | inl same ↦
        let e : i ≡ j = (==_iff i j).0 same in
        copy_ring_below q n (i + 1) (set nb i (slot q i)) j (omega arith)
        ∙ (rw (← e) (get_or-set_self nb i (slot q i) nil (omega arith)))
    | inr other ↦
        copy_ring_at q n (i + 1) (set nb i (slot q i)) j (ground arith) (omega arith)
          (rw length-set (omega arith))
  ]

  pub grow-IsRing : (q : PlantQueue A) → IsRing q → IsRing (grow nil q)
  unfolding grow
  grow-IsRing q v = ground (
    arith,
    length-copy_ring q q.count 0 (replicate (q.cap * 2) nil),
    length-replicate (q.cap * 2) nil,
  )

  pub count-grow : (q : PlantQueue A) → (grow nil q).count ≡ q.count
  unfolding grow
  count-grow q = ground arith

  pub cap-grow : (q : PlantQueue A) → IsRing q → (grow nil q).count < (grow nil q).cap
  unfolding grow
  cap-grow q v = ground arith

  -- Growing moves the values and keeps their order.
  pub contents-grow : (q : PlantQueue A) → IsRing q → contents (grow nil q) ≡ contents q
  unfolding grow contents
  contents-grow q v = elim (Bool-cases (q.count == q.cap)) [
    | inr room ↦ rw room refl
    | inl full ↦ rw full (
        tabulate-ext q.count _ (slot q) λ i p.
          ap (λ k. get_or (copy_ring nil q q.count 0 (replicate (q.cap * 2) nil)) k nil)
            (let e = (==_iff q.count q.cap).0 full in grind arith)
          ∙ copy_ring_at q q.count 0 (replicate (q.cap * 2) nil) i (omega arith) (omega arith)
              (rw length-replicate (omega arith)))
  ]

  ring_ne : (head i j cap : ℕ) → head < cap → i < j → j < cap → (head + j) % cap ≢ (head + i) % cap
  ring_ne head i j cap h p q = grind arith

  pub store-IsRing :
      (q : PlantQueue A) (v : A) → IsRing q → q.count < q.cap → IsRing (store nil q v)
  unfolding store
  store-IsRing q v ring room = ground (arith, length-set q.buf ((q.head + q.count) % q.cap) v)

  pub contents-store :
      (q : PlantQueue A) (v : A)
      → IsRing q
      → q.count < q.cap
      → contents (store nil q v) ≡ contents q ++ v ∷ []
  unfolding store contents
  contents-store q v ring room =
      let spot : (q.head + q.count) % q.cap < length q.buf = rw ring.sized (grind arith) in
      rw add-one (
        tabulate-suc q.count _
        ∙ ap₂ (λ (l : List A) (x : A). l ++ x ∷ [])
            (tabulate-ext q.count _ (slot q) λ i p.
              get_or-set_ne q.buf ((q.head + q.count) % q.cap) ((q.head + i) % q.cap) v nil
                (ring_ne q.head i q.count q.cap ring.start p room))
            (get_or-set_self q.buf ((q.head + q.count) % q.cap) v nil spot))
