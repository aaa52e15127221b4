-- ===== src/Registry/Fds/Closing.antt =====
-- What the registry of closed descriptors promises: a closed descriptor is not closed again.
use plant_lang.Prelude.{
  true_ne_false, sym, ◌⊎◌, false, pos, ◌&&◌, not, ◌||◌, ℕ, ◌<◌, ◌≡◌, refl, ap, ◌∙◌, Bool, true,
  List, [], ◌∷◌, none, some, arith, ◌==◌, ==_iff, if◌then◌else◌, to_nat, Option-cases, Bool-cases,
  inl, inr,
}
use plant_lang.Registry.Fds.{
  close_raw, ClosedFds, fds_max, search_fd, fd_is_closed, fd_remember, fd_forget,
}
use plant_lang.Registry.Fds.Counts.{
  IsRegistry, closed-times, forget-IsRegistry, forget_times_all, remember-IsRegistry,
  remember_times,
}

-- A registry after a successful close of `fd`, and after `fd` is opened again.
pub record ClosesOnce (close : ℕ → Bool) (fd : ℕ) (s t : ClosedFds) : Type 0 where
  pub kept : IsRegistry t
  pub again : (close_raw close (pos fd) t).0 ≡ []
  pub others : (f : ℕ) → fd_is_closed f t ≡ (fd == f) || fd_is_closed f s
  pub reopened : (f : ℕ) → fd_is_closed f (fd_forget fd t) ≡ not (f == fd) && fd_is_closed f t

pub nat_injective : (a b : Bool) → to_nat a ≡ to_nat b → a ≡ b
nat_injective a b h = ground arith

forget_closed :
    (s : ClosedFds)
    → IsRegistry s
    → (fd f : ℕ) → fd_is_closed f (fd_forget fd s) ≡ not (f == fd) && fd_is_closed f s
forget_closed s v fd f = nat_injective _ _ (
    closed-times (fd_forget fd s) (forget-IsRegistry s v fd) f
    ∙ forget_times_all s v fd f
    ∙ (let c = closed-times s v f in ground arith))

close_again :
    (close : ℕ → Bool) (fd : ℕ) (s : ClosedFds)
    → fd_is_closed fd s ≡ true
    → close_raw close (pos fd) s ≡ ([], s)
unfolding close_raw
close_again close fd s h = rw h

pub close_fresh :
    (close : ℕ → Bool) (fd : ℕ) (s : ClosedFds)
    → fd_is_closed fd s ≡ false
    → close fd ≡ true
    → close_raw close (pos fd) s ≡ (fd ∷ [], fd_remember fd s)
unfolding close_raw
close_fresh close fd s h fine = rw (h, fine)

pub close_made :
    (close : ℕ → Bool) (fd : ℕ) (s : ClosedFds)
    → fd_is_closed fd s ≡ false
    → (close_raw close (pos fd) s).0 ≡ fd ∷ []
unfolding close_raw
close_made close fd s h = rw h

remember_closed :
    (s : ClosedFds)
    → IsRegistry s
    → (fd f : ℕ) → search_fd fd s ≡ none
    → s.n < fds_max
    → fd_is_closed f (fd_remember fd s) ≡ (fd == f) || fd_is_closed f s
remember_closed s v fd f absent room =
    let w = remember-IsRegistry s v fd absent room in
    let o = w.once f in
    nat_injective _ _ (
      closed-times (fd_remember fd s) w f
      ∙ remember_times s v fd absent room f
      ∙ (let c = closed-times s v f in let t = remember_times s v fd absent room f in ground arith))

-- What `_plant_close_raw` does, by what the system call says.
pub record Closes (close : ℕ → Bool) (fd : ℕ) (s : ClosedFds) (r : List ℕ × ClosedFds)
    : Type 0 where
  pub calls : r.0 ≡ (if fd_is_closed fd s then [] else fd ∷ [])
  pub done : (fd_is_closed fd s ≡ true) ⊎ (close fd ≡ true) → ClosesOnce close fd s r.1
  pub failed : close fd ≡ false → r.1 ≡ s

close_failed :
    (close : ℕ → Bool) (fd : ℕ) (s : ClosedFds)
    → fd_is_closed fd s ≡ false
    → close fd ≡ false
    → close_raw close (pos fd) s ≡ (fd ∷ [], s)
unfolding close_raw
close_failed close fd s h fails = rw (h, fails) refl

-- Where there is room, closing a descriptor makes the system call exactly if the descriptor was not
-- closed before, whether or not the call succeeds. Where it succeeds, or none was made, closing the
-- descriptor a second time makes no call, every other descriptor is as closed as it was, and once the
-- descriptor is opened again it alone is taken out. Where the call fails the registry is as before,
-- so the next close calls again.
pub close_raw_once :
    (close : ℕ → Bool) (fd : ℕ) (s : ClosedFds)
    → IsRegistry s
    → s.n < fds_max
    → Closes close fd s (close_raw close (pos fd) s)
close_raw_once close fd s v room = elim (Option-cases (search_fd fd s)) [
  | inr (i, e) ↦
      let shut = is_shut i e in
      rw (close_again close fd s shut) (record {
        calls = rw shut refl;
        done = λ c. record {
          kept = v;
          again = ap (λ (r : List ℕ × ClosedFds). r.0) (close_again close fd s shut);
          others = λ f. elim (Bool-cases (fd == f)) [
            | inl same ↦ let q : fd ≡ f = (==_iff fd f).0 same in rw same (rw (← q) shut)
            | inr other ↦ rw other
          ];
          reopened = forget_closed s v fd;
        };
        failed = λ c. refl;
      })
  | inl e ↦
      let fresh = is_open e in
      elim (Bool-cases (close fd)) [
        | inl fine ↦
            let t = fd_remember fd s in
            let w = remember-IsRegistry s v fd e room in
            rw (close_fresh close fd s fresh fine) (record {
              calls = rw fresh refl;
              done = λ c. record {
                kept = w;
                again =
                    ap (λ (r : List ℕ × ClosedFds). r.0)
                      (close_again close fd t
                        (let c = remember_closed s v fd fd e room in ground arith));
                others = λ f. remember_closed s v fd f e room;
                reopened = forget_closed t w fd;
              };
              failed = λ c. absurd (true_ne_false (sym fine ∙ c));
            })
        | inr fails ↦ rw (close_failed close fd s fresh fails) (record {
          calls = rw fresh refl;
          done = λ c. elim c [
            | inl shut ↦ absurd (true_ne_false (sym shut ∙ fresh))
            | inr fine ↦ absurd (true_ne_false (sym fine ∙ fails))
          ];
          failed = λ c. refl;
        })
      ]
]
  where
    is_shut : (i : ℕ) → search_fd fd s ≡ some i → fd_is_closed fd s ≡ true
    is_shut i e = unfold fd_is_closed in rw (e, fd_is_closed)

    is_open : search_fd fd s ≡ none → fd_is_closed fd s ≡ false
    is_open e = unfold fd_is_closed in rw (e, fd_is_closed)
