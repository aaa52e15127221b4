-- ===== src/Storms/Shelter.antt =====
-- The scope of a shelter body on the exit list of its frame.
use plant_lang.Prelude.{
  ℕ, ◌≡◌, refl, sym, ap, ◌∙◌, false, List, [], ◌∷◌, ◌++◌, append-nil, append_assoc, arith, leb,
  ◌==◌, length, take, drop, length-append, take-append, Bool-cases, inl, inr, find_index,
  Option-cases, min,
}
use plant_lang.Storms.Frames.{
  Exit, Weather, Reclaimer, is_handle, register, shelter_enter, shelter_leave, free_all, exit_max,
}

unfoldable pub register_all : List ℕ → Weather → Weather
register_all [] w = w
register_all (x ∷ xs) w = register_all xs (register x w).1

-- A registration leaves the mark, and only adds to the end of the list.
register_adds :
    (x : ℕ) (w : Weather)
    → (news : List Exit) × ((register x w).1.exits ≡ w.exits ++ news)
      × ((register x w).1.shelter_mark ≡ w.shelter_mark)
unfolding register
register_adds x w = elim (Bool-cases (x == 0)) [
  | inl null ↦ ([], rw (null) (sym (append-nil w.exits)), rw (null))
  | inr real ↦ elim (Option-cases (find_index (is_handle x) w.exits)) [
    | inr (i, e) ↦ ([], rw (real, e) (sym (append-nil w.exits)), rw (real, e))
    | inl e ↦ elim (Bool-cases (leb exit_max (length w.exits))) [
      | inl full ↦ ([], rw (real, e, full) (sym (append-nil w.exits)), rw (real, e, full))
      | inr room ↦
          (record { handle = x; deferred = false } ∷ [], rw (real, e, room), rw (real, e, room))
    ]
  ]
]

register_all_adds :
    (xs : List ℕ) (w : Weather)
    → (news : List Exit) × ((register_all xs w).exits ≡ w.exits ++ news)
      × ((register_all xs w).shelter_mark ≡ w.shelter_mark)
unfolding register_all
register_all_adds [] w = ([], sym (append-nil w.exits), refl)
register_all_adds (x ∷ xs) w =
    let (n1, e1, m1) = register_adds x w in
    let (n2, e2, m2) = register_all_adds xs (register x w).1 in
    (n1 ++ n2, e2 ∙ ap (λ l. l ++ n2) e1 ∙ append_assoc w.exits n1 n2, m2 ∙ m1)

take_front : (xs ys : List Exit) → take (min (length xs) (length (xs ++ ys))) (xs ++ ys) ≡ xs
take_front xs ys =
    let l = length-append xs ys in
    let m : min (length xs) (length (xs ++ ys)) ≡ length xs = omega arith in
    ap (λ n. take n (xs ++ ys)) m ∙ take-append xs ys

drop_front : (xs ys : List Exit) → drop (min (length xs) (length (xs ++ ys))) (xs ++ ys) ≡ ys
drop_front xs ys =
    let l = length-append xs ys in
    let m : min (length xs) (length (xs ++ ys)) ≡ length xs = omega arith in
    ap (λ n. drop n (xs ++ ys)) m ∙ behind xs
  where
    behind : (xs : List Exit) → drop (length xs) (xs ++ ys) ≡ ys
    behind [] = refl
    behind (x ∷ xs) = behind xs

module _ {ℓ} {H : Type ℓ} (r : Reclaimer H) where
  -- Whatever a shelter body registers, leaving the shelter frees exactly the entries that the body
  -- added, and leaves those that stood on the list before.
  pub shelter_scope :
      (xs : List ℕ) (w : Weather) (h : H)
      → let inside = register_all xs (shelter_enter w) in
        (news : List Exit) × (inside.exits ≡ w.exits ++ news)
        × ((shelter_leave r inside h).0.exits ≡ w.exits)
        × ((shelter_leave r inside h).1 ≡ free_all r news h)
  unfolding shelter_enter shelter_leave
  shelter_scope xs w h =
      let inside = register_all xs (shelter_enter w) in
      let (news, e, m) = register_all_adds xs (shelter_enter w) in
      (
        news,
        e,
        rw (m, e) (take_front w.exits news),
        rw (m, e) (ap (λ l. free_all r l h) (drop_front w.exits news)),
      )
