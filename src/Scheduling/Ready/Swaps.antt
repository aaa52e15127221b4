-- ===== src/Scheduling/Ready/Swaps.antt =====
-- Moving tasks about in the heap keeps every task.
use plant_lang.Prelude.{
  ℕ, zero, suc, ◌+◌, ◌-◌, ◌*◌, ◌/◌, ◌≤◌, ◌<◌, ◌≡◌, ◌≢◌, refl, sym, ap, ◌∙◌, Bool, ◌&&◌, List, arith,
  ltb, ◌==◌, ==_iff, length, get_or, set, take, length-set, get_or-set_self, get_or-set_ne,
  Bool-cases, inl, inr, times, to_nat, times-set,
}
use plant_lang.Prelude.{length-take, get_or-take, take-set_comm}
use plant_lang.Scheduling.Ready.{
  Task, no_task, pq_less, at, pq_swap, sift_up, smaller, smallest, sift_down,
}

length-pq_swap : (i j : ℕ) (l : List Task) → length (pq_swap i j l) ≡ length l
length-pq_swap i j l = length-set (set l i (at l j)) j (at l i) ∙ length-set l i (at l j)

pq_swap-times :
    (p : Task → Bool) (n i j : ℕ) (l : List Task)
    → i < n
    → j < n
    → n ≤ length l
    → times p (take n (pq_swap i j l)) ≡ times p (take n l)
pq_swap-times p n i j l hi hj fit =
    let a = at l i in
    let b = at l j in
    let m = take n l in
    let len = length-take n l fit in
    let one = times-set p b no_task m i (omega arith) in
    let len' = length-set m i b in
    let two = times-set p a no_task (set m i b) j (omega arith) in
    let at_i : get_or m i no_task ≡ a = get_or-take n l i no_task hi in
    let at_j : get_or (set m i b) j no_task ≡ b = behind in
    let shape : take n (pq_swap i j l) ≡ set (set m i b) j a =
      take-set_comm n (set l i b) j a ∙ ap (λ t. set t j a) (take-set_comm n l i b) in
    let pi = ap (λ t. to_nat (p t)) at_i in
    let pj = ap (λ t. to_nat (p t)) at_j in ap (times p) shape ∙ omega arith
  where
    behind : get_or (set (take n l) i (at l j)) j no_task ≡ at l j
    behind = elim (Bool-cases (i == j)) [
      | inl same ↦
          let q = (==_iff i j).0 same in
          ap (λ t. get_or (set (take n l) i (at l j)) t no_task) (sym q)
          ∙ get_or-set_self (take n l) i (at l j) no_task
              (let e = length-take n l fit in omega arith)
      | inr other ↦
          let q : i ≢ j = ground arith in
          get_or-set_ne (take n l) i j (at l j) no_task q ∙ get_or-take n l j no_task hj
    ]

pub sift_up-times :
    (p : Task → Bool) (m n i : ℕ) (l : List Task)
    → i < m
    → m ≤ length l
    → (times p (take m (sift_up n i l)) ≡ times p (take m l)) × (length (sift_up n i l) ≡ length l)
unfolding sift_up
sift_up-times p m zero i l hi fit = (refl, refl)
sift_up-times p m (suc n) i l hi fit =
    let q = (i - 1) / 2 in
    let len = length-pq_swap i q l in
    let (t, e) = sift_up-times p m n q (pq_swap i q l) (omega arith) (omega arith) in
    let swapped = pq_swap-times p m i q l hi (omega arith) fit in
    elim (Bool-cases (ltb 0 i && pq_less (at l i) (at l q))) [
      | inl up ↦ rw (up) (t ∙ swapped, e ∙ len)
      | inr stop ↦ rw (stop) (refl, refl)
    ]

smallest-lt : (len i : ℕ) (l : List Task) → i < len → smallest len i l < len
smallest-lt len i l h = bound (2 * i + 2) (smaller len (2 * i + 1) i l) (bound (2 * i + 1) i h)
  where
    bound : (c m : ℕ) → m < len → smaller len c m l < len
    bound c m h = elim (Bool-cases (ltb c len)) [
      | inr out ↦ rw (out) h
      | inl inside ↦ elim (Bool-cases (pq_less (at l c) (at l m))) [
        | inl less ↦ rw (inside, less) (ground arith)
        | inr more ↦ rw (inside, more) h
      ]
    ]

pub sift_down-times :
    (p : Task → Bool) (n len i : ℕ) (l : List Task)
    → i < len
    → len ≤ length l
    → (times p (take len (sift_down n len i l)) ≡ times p (take len l))
      × (length (sift_down n len i l) ≡ length l)
unfolding sift_down
sift_down-times p zero len i l hi fit = (refl, refl)
sift_down-times p (suc n) len i l hi fit =
    let m = smallest len i l in
    let hm = smallest-lt len i l hi in
    let size = length-pq_swap i m l in
    let (t, e) = sift_down-times p n len m (pq_swap i m l) hm (omega arith) in
    let swapped = pq_swap-times p len i m l hi hm fit in
    elim (Bool-cases (m == i)) [
      | inl stop ↦ rw (stop) (refl, refl)
      | inr down ↦ rw (down) (t ∙ swapped, e ∙ size)
    ]
