-- ===== src/Registry/Fds/Counts.antt =====
-- How often a descriptor stands in the registry, before and after each operation.
use plant_lang.Prelude.{
  ℕ, suc, ◌+◌, ◌-◌, ◌≤◌, ◌<◌, ◌≡◌, refl, sym, ap, ap₂, ◌∙◌, Bool, true, List, [], ◌∷◌, ◌++◌, none,
  some, arith, add-one, ◌==◌, ==_iff, if◌then◌else◌, length, get_or, take, length-set, take-set,
  length-take, times, to_nat, find_index-times, find_index-Found, times-get_or, times-append,
  times-erase_idx, length-move_down, take-move_down, move_down, erase_idx, Option-cases, Bool-cases,
  inl, inr,
}
use plant_lang.Registry.Fds.{
  ClosedFds, fds_max, fds_init, search_fd, fd_is_closed, free_slot, fd_remember, fd_forget,
}

abbrev pub live : ClosedFds → List ℕ
live s = take s.n s.fds

abbrev pub is : ℕ → ℕ → Bool
is fd x = x == fd

-- The array keeps its size, and no descriptor is registered twice.
pub record IsRegistry (s : ClosedFds) : Type 0 where
  pub sized : length s.fds ≡ fds_max
  pub fits : s.n ≤ fds_max
  pub once : (fd : ℕ) → times (is fd) (live s) ≤ 1

pub fds_init-IsRegistry : IsRegistry fds_init
unfolding times
fds_init-IsRegistry = record { sized = refl; fits = omega arith; once = λ fd. omega arith }

module _ (s : ClosedFds) (v : IsRegistry s) where
  -- `_plant_fd_is_closed` says whether the descriptor is registered.
  pub closed-times : (fd : ℕ) → to_nat (fd_is_closed fd s) ≡ times (is fd) (live s)
  unfolding fd_is_closed
  closed-times fd = elim (Option-cases (search_fd fd s)) [
    | inl e ↦ rw (e, fd_is_closed) (sym (find_index-times (is fd) (live s) e))
    | inr (i, e) ↦
        let f = find_index-Found (is fd) 0 (live s) i e in
        let p = times-get_or (is fd) 0 (live s) i f.below f.hit in
        let o = v.once fd in rw (e, fd_is_closed) (omega arith)
  ]

  length-live : length (live s) ≡ s.n
  length-live = length-take s.n s.fds (let e = v.sized in let f = v.fits in omega arith)

  module _ (fd : ℕ) where
    is_both : (f x : ℕ) → is fd x ≡ true → is f x ≡ is fd f
    is_both f x h = ground arith

    forget-times :
        (i : ℕ)
        → search_fd fd s ≡ some i
        → (f : ℕ)
        → times (is f) (take (s.n - 1) (move_down 0 (s.n - i - 1) i s.fds)) + to_nat (is fd f)
          ≡ times (is f) (live s)
    forget-times i e f =
        let w = find_index-Found (is fd) 0 (live s) i e in
        let b : i < s.n = let q = w.below in omega (arith, length-live) in
        let sz = v.sized in
        let fit = v.fits in
        let split : s.n - 1 ≡ i + (s.n - i - 1) = omega arith in
        let whole : suc (i + (s.n - i - 1)) ≡ s.n = omega arith in
        let shifted =
          take-move_down 0 (s.n - i - 1) i s.fds (omega arith)
          ∙ ap (λ m. erase_idx i (take m s.fds)) whole in
        ap₂ (λ (a b : ℕ). a + b)
          (ap (λ m. times (is f) (take m (move_down 0 (s.n - i - 1) i s.fds))) split
            ∙ ap (times (is f)) shifted)
          (ap to_nat (sym (is_both f (get_or (live s) i 0) w.hit)))
        ∙ times-erase_idx (is f) 0 (live s) i w.below

    pub forget-IsRegistry : IsRegistry (fd_forget fd s)
    unfolding fd_forget
    forget-IsRegistry = elim (Option-cases (search_fd fd s)) [
      | inl e ↦ rw (e, fd_forget) v
      | inr (i, e) ↦
          let fit = v.fits in
          rw (e, fd_forget)
            (record {
              sized = length-move_down 0 (s.n - i - 1) i s.fds ∙ v.sized;
              fits = omega arith;
              once = λ f. let o = v.once f in omega (arith, forget-times i e f);
            })
    ]

    pub forget_times_all :
        (f : ℕ)
        → times (is f) (live (fd_forget fd s)) ≡ (if f == fd then 0 else times (is f) (live s))
    unfolding fd_forget
    forget_times_all f = elim (Option-cases (search_fd fd s)) [
      | inl e ↦
          let z = find_index-times (is fd) (live s) e in
          rw (e, fd_forget)
            (elim (Bool-cases (f == fd)) [
              | inl same ↦ let q : f ≡ fd = (==_iff f fd).0 same in rw same (rw q z)
              | inr other ↦ rw other
            ])
      | inr (i, e) ↦
          let t = forget-times i e f in
          let o = v.once f in
          rw (e, fd_forget)
            (elim (Bool-cases (f == fd)) [
              | inl same ↦ rw same (let t' = rw same at t in omega arith)
              | inr other ↦ rw other (let t' = rw other at t in omega arith)
            ])
    ]

    module _ (absent : search_fd fd s ≡ none) (room : s.n < fds_max) where
      slot_is : free_slot s ≡ s.n
      slot_is = ground arith

      pub remember_live : live (fd_remember fd s) ≡ live s ++ fd ∷ []
      unfolding fd_remember
      remember_live =
          rw (absent, fd_remember, slot_is, add-one)
            (take-set s.n s.fds fd (let e = v.sized in omega arith))

      pub remember-IsRegistry : IsRegistry (fd_remember fd s)
      remember-IsRegistry = record {
        sized =
            unfold fd_remember in
            rw (absent, fd_remember) (length-set s.fds (free_slot s) fd ∙ v.sized);
        fits = unfold fd_remember in rw (absent, fd_remember, slot_is) (omega arith);
        once = λ f.
            rw (remember_live, times-append)
              (let o = v.once f in
                let z = find_index-times (is fd) (live s) absent in
                elim (Bool-cases (f == fd)) [
                  | inl same ↦
                      let q : f ≡ fd = (==_iff f fd).0 same in
                      rw (q, z) (unfold times in ground arith)
                  | inr other ↦ unfold times in ground arith
                ]);
      }

      pub remember_times :
          (f : ℕ)
          → times (is f) (live (fd_remember fd s)) ≡ times (is f) (live s) + to_nat (fd == f)
      remember_times f = rw (remember_live, times-append) (unfold times in omega arith)
