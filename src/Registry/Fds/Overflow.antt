-- ===== src/Registry/Fds/Overflow.antt =====
-- What the registry of closed descriptors does when its 128 entries are in use.
use plant_lang.Prelude.{
  pos, false, times-take_last, ℕ, ◌+◌, ◌≡◌, refl, sym, ap, ◌∙◌, Bool, true, [], ◌∷◌, none, some,
  arith, ◌==◌, ==_iff, get_or, take, length-set, take-set, times, to_nat, find_index-times,
  times-append, Option-cases, Bool-cases, inl, inr,
}
use plant_lang.Registry.Fds.{
  close_raw, ClosedFds, fds_max, search_fd, fd_is_closed, free_slot, fd_remember,
}
use plant_lang.Registry.Fds.Counts.{live, is, IsRegistry, closed-times}
use plant_lang.Registry.Fds.Closing.{nat_injective, close_fresh, close_made}

module _ (s : ClosedFds) (v : IsRegistry s) (top : s.n ≡ fds_max) (fd : ℕ)
    (absent : search_fd fd s ≡ none) where
  full_live :
      (f : ℕ)
      → times (is f) (live s) ≡ times (is f) (take 127 s.fds) + to_nat (get_or s.fds 127 0 == f)
  full_live f =
      ap (λ m. times (is f) (take m s.fds)) top
      ∙ times-take_last (is f) 0 s.fds 127 (let e = v.sized in omega arith)

  overflow_live :
      (f : ℕ)
      → times (is f) (live (fd_remember fd s)) ≡ times (is f) (take 127 s.fds) + to_nat (fd == f)
  unfolding fd_remember
  overflow_live f =
      let slot : free_slot s ≡ 127 = ground arith in
      rw (absent, fd_remember, slot)
        (ap (times (is f)) (take-set 127 s.fds fd (let e = v.sized in omega arith))
          ∙ times-append (is f) (take 127 s.fds) (fd ∷ [])
          ∙ (unfold times in omega arith))

  absent_times : times (is fd) (live s) ≡ 0
  absent_times = find_index-times (is fd) (live s) absent

  overflow-IsRegistry : IsRegistry (fd_remember fd s)
  overflow-IsRegistry = record {
    sized =
        unfold fd_remember in
        rw (absent, fd_remember) (length-set s.fds (free_slot s) fd ∙ v.sized);
    fits =
        unfold fd_remember in
        let slot : free_slot s ≡ 127 = ground arith in rw (absent, fd_remember, slot) (omega arith);
    once = λ f.
        let z = absent_times in
        let a = overflow_live f in
        let b = full_live f in
        let o = v.once f in
        elim (Bool-cases (fd == f)) [
          | inl same ↦
              let q : fd ≡ f = (==_iff fd f).0 same in
              let z' = rw q at z in let a' = rw same at a in omega arith
          | inr other ↦ let a' = rw other at a in omega arith
        ];
  }

  overflow_last :
      let last = get_or s.fds 127 0 in
      (fd_is_closed last s ≡ true) × (fd_is_closed last (fd_remember fd s) ≡ false)
  overflow_last =
      let last = get_or s.fds 127 0 in
      let a = overflow_live last in
      let b = full_live last in
      let o = v.once last in
      let z = absent_times in
      let c = closed-times s v last in
      let d = closed-times (fd_remember fd s) overflow-IsRegistry last in
      let r : (last == last) ≡ true = (==_iff last last).1 refl in
      let b' = rw r at b in
      elim (Bool-cases (fd == last)) [
        | inl same ↦
            let q : fd ≡ last = (==_iff fd last).0 same in
            let z' : times (is last) (live s) ≡ 0 = ap (λ m. times (is m) (live s)) (sym q) ∙ z in
            absurd (omega arith)
        | inr other ↦
            let a' = rw other at a in
            (
              nat_injective _ true (c ∙ (let t = o in omega arith)),
              nat_injective _ false (d ∙ omega arith),
            )
      ]

-- A full registry that closes one more descriptor gives up its last entry: that descriptor counts
-- as open again, although nothing has opened it, and closing it calls `close` on it a second time.
pub close_raw_overflow :
    (close : ℕ → Bool) (fd : ℕ) (s : ClosedFds)
    → IsRegistry s
    → s.n ≡ fds_max
    → fd_is_closed fd s ≡ false
    → close fd ≡ true
    → let last = get_or s.fds 127 0 in
      (fd_is_closed last s ≡ true)
      × ((close_raw close (pos last) (close_raw close (pos fd) s).1).0 ≡ last ∷ [])
close_raw_overflow close fd s v top fresh fine = elim (Option-cases (search_fd fd s)) [
  | inr (i, e) ↦ let shut = is_shut i e in cc
  | inl e ↦
      let (was, now) = overflow_last s v top fd e in
      let last = get_or s.fds 127 0 in
      (was, rw (close_fresh close fd s fresh fine) (close_made close last (fd_remember fd s) now))
]
  where
    is_shut : (i : ℕ) → search_fd fd s ≡ some i → fd_is_closed fd s ≡ true
    is_shut i e = unfold fd_is_closed in rw (e, fd_is_closed)
