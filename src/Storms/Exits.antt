-- ===== src/Storms/Exits.antt =====
-- The exit list of a frame: registration, teardown, and the scope of a shelter body.
use plant_lang.Prelude.{
  ℕ, ◌+◌, ◌≤◌, ◌<◌, ◌≡◌, ◌≢◌, refl, sym, ap, ◌∙◌, Bool, true, false, List, [], ◌∷◌, ◌++◌, arith,
  leb, ◌==◌, ==_iff, if◌then◌else◌, length, length-append, Bool-cases, ◌⊎◌, inl, inr, times, to_nat,
  times-append, find_index, Option-cases,
}
use plant_lang.Prelude.{times-get_or, find_index-times, find_index-Found}
use plant_lang.Storms.Frames.{
  Exit, Weather, Reclaimer, is_handle, register, free_where, teardown, exit_max,
}

-- No handle stands twice on the list, `NULL` never, and there are at most 64.
pub record IsExits (w : Weather) : Type 0 where
  pub fits : length w.exits ≤ exit_max
  pub once : (h : ℕ) → times (is_handle h) w.exits ≤ 1
  pub real : times (is_handle 0) w.exits ≡ 0

-- What a registration may do: put the handle on the list, once, or refuse it and change nothing.
pub record Registers (handle : ℕ) (w : Weather) (r : Bool × Weather) : Type 0 where
  pub kept : IsExits r.1
  pub tracked : r.0 ≡ true → times (is_handle handle) r.1.exits ≡ 1
  pub others : (h : ℕ) → h ≢ handle → times (is_handle h) r.1.exits ≡ times (is_handle h) w.exits
  pub refused :
      r.0 ≡ false
      → (r.1 ≡ w)
        × ((handle ≡ 0) ⊎ ((length w.exits ≡ exit_max) × (times (is_handle handle) w.exits ≡ 0)))

abbrev added : ℕ → Weather → Weather
added handle w = record w { exits = w.exits ++ record { handle = handle; deferred = false } ∷ [] }

added-times :
    (handle h : ℕ) (w : Weather)
    → times (is_handle h) (added handle w).exits
      ≡ times (is_handle h) w.exits + to_nat (handle == h)
unfolding times
added-times handle h w =
    let a =
      times-append (is_handle h) w.exits (record { handle = handle; deferred = false } ∷ []) in
    omega arith

added-IsExits :
    (handle : ℕ) (w : Weather)
    → IsExits w
    → handle ≢ 0
    → length w.exits < exit_max
    → times (is_handle handle) w.exits ≡ 0
    → IsExits (added handle w)
added-IsExits handle w v real room absent = record {
  fits =
      let l = length-append w.exits (record { handle = handle; deferred = false } ∷ []) in
      omega arith;
  once = λ h.
      let a = added-times handle h w in
      let o = v.once h in
      elim (Bool-cases (handle == h)) [
        | inl same ↦
            let q = (==_iff handle h).0 same in
            let z : times (is_handle h) w.exits ≡ 0 =
              ap (λ t. times (is_handle t) w.exits) (sym q) ∙ absent in
            ground arith
        | inr other ↦ ground arith
      ];
  real = let a = added-times handle 0 w in let z = v.real in ground arith;
}

-- A registration returns 1 exactly if the handle is on the frame's list afterwards, where it then
-- stands once however often it is registered; it is refused only if it is `NULL`, or new to a list
-- of 64; and no other handle is touched.
pub register-Registers :
    (handle : ℕ) (w : Weather) → IsExits w → Registers handle w (register handle w)
unfolding register
register-Registers handle w v = elim (Bool-cases (handle == 0)) [
  | inl null ↦ rw (null) (record {
    kept = v;
    tracked = λ e. cc;
    others = λ h o. refl;
    refused = λ e. (refl, inl (ground arith));
  })
  | inr real ↦ elim (Option-cases (find_index (is_handle handle) w.exits)) [
    | inr (i, e) ↦
        let f =
          find_index-Found (is_handle handle) (record { handle = 0; deferred = false }) w.exits i
            e in
        let some_there =
          times-get_or (is_handle handle) (record { handle = 0; deferred = false }) w.exits i
            f.below f.hit in
        let o = v.once handle in
        rw (real, e)
          (record { kept = v; tracked = λ q. omega arith; others = λ h o. refl; refused = λ q. cc })
    | inl e ↦
        let absent = find_index-times (is_handle handle) w.exits e in
        elim (Bool-cases (leb exit_max (length w.exits))) [
          | inl full ↦
              let fits = v.fits in
              rw (real, e, full)
                (record {
                  kept = v;
                  tracked = λ q. cc;
                  others = λ h o. refl;
                  refused = λ q. (refl, inr (ground arith, absent));
                })
          | inr room ↦
              let r : handle ≢ 0 = ground arith in
              rw (real, e, room)
                (record {
                  kept = added-IsExits handle w v r (ground arith) absent;
                  tracked = λ q. let a = added-times handle handle w in ground arith;
                  others = λ h o. let a = added-times handle h w in ground arith;
                  refused = λ q. cc;
                })
        ]
  ]
]

-- The handles of the entries with a flag, in order.
unfoldable pub handles_where : Bool → List Exit → List ℕ
handles_where flag [] = []
handles_where flag (e ∷ es) = elim e.deferred [
  | true ↦ if flag then e.handle ∷ handles_where flag es else handles_where flag es
  | false ↦ if flag then handles_where flag es else e.handle ∷ handles_where flag es
]

-- The order of a teardown: the deferred handles first.
abbrev pub free_order : List Exit → List ℕ
free_order es = handles_where true es ++ handles_where false es

abbrev pub is_number : ℕ → ℕ → Bool
is_number h x = x == h

times-handles_where :
    (h : ℕ) (es : List Exit)
    → times (is_number h) (handles_where true es) + times (is_number h) (handles_where false es)
      ≡ times (is_handle h) es
unfolding handles_where times
times-handles_where h [] = refl
times-handles_where h (e ∷ es) =
    let rest = times-handles_where h es in
    elim (Bool-cases e.deferred) [ inl d ↦ rw (d) (omega arith) | inr d ↦ rw (d) (omega arith) ]

module _ {ℓ} {H : Type ℓ} (r : Reclaimer H) where
  -- The handles of a list freed one after the other.
  unfoldable pub frees : List ℕ → H → H
  frees [] h = h
  frees (x ∷ xs) h = frees xs (r.free_handle x h)

  frees-append : (xs ys : List ℕ) (h : H) → frees (xs ++ ys) h ≡ frees ys (frees xs h)
  unfolding frees
  frees-append [] ys h = refl
  frees-append (x ∷ xs) ys h = frees-append xs ys (r.free_handle x h)

  free_where-frees :
      (flag : Bool) (es : List Exit) (h : H)
      → free_where r flag es h ≡ frees (handles_where flag es) h
  unfolding free_where frees handles_where
  free_where-frees flag [] h = refl
  free_where-frees true (e ∷ es) h =
      let rest = free_where-frees true es in
      elim (Bool-cases e.deferred) [
        | inl d ↦ rw (d) (rest (r.free_handle e.handle h))
        | inr d ↦ rw (d) (rest h)
      ]
  free_where-frees false (e ∷ es) h =
      let rest = free_where-frees false es in
      elim (Bool-cases e.deferred) [
        | inl d ↦ rw (d) (rest h)
        | inr d ↦ rw (d) (rest (r.free_handle e.handle h))
      ]

  -- A teardown hands every registered handle to `plant_weather_free_handle` exactly once and no other,
  -- the deferred ones first and each group in the order of registration, and then drains the deferred
  -- deallocations; a second one of the same frame hands over none and only drains again.
  pub teardown_once :
      (w : Weather) (h : H)
      → IsExits w
      → ((teardown r w h).1 ≡ r.drain (frees (free_order w.exits) h))
        × ((x : ℕ)
            → (times (is_number x) (free_order w.exits) ≡ times (is_handle x) w.exits)
              × (times (is_number x) (free_order w.exits) ≤ 1))
        × ((h' : H) → (teardown r (teardown r w h).0 h').1 ≡ r.drain h')
  unfolding teardown free_where
  teardown_once w h v = (
    ap r.drain (
        free_where-frees false w.exits (free_where r true w.exits h)
        ∙ ap (frees (handles_where false w.exits)) (free_where-frees true w.exits h)
        ∙ sym (frees-append (handles_where true w.exits) (handles_where false w.exits) h)),
    λ x.
        let t = times-handles_where x w.exits in
        let a =
          times-append (is_number x) (handles_where true w.exits) (handles_where false w.exits) in
        let o = v.once x in (omega arith, omega arith),
    λ h'. refl,
  )
