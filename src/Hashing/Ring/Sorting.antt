-- ===== src/Hashing/Ring/Sorting.antt =====
-- The ring is sorted by hash, and holds every point of every node once.
use plant_lang.Prelude.{
  ℕ, zero, suc, ◌+◌, ◌-◌, ◌≤◌, ◌<◌, ◌≡◌, refl, sym, ap, ap₂, ◌∙◌, subst, Bool, true, false, List,
  [], ◌∷◌, ◌++◌, append-nil, arith, ltb, if◌then◌else◌, length, get_or, set, length-append,
  length-set, get_or-set_ne, Bool-cases, inl, inr, times, to_nat, times-append,
}
use plant_lang.Hashing.Ring.{
  Point, Dist, no_point, shift, sort_from, ring_build, points_from, clamp_nodes,
}

-- every hash of the list is at least `h`
abbrev pub AtLeast : ℕ → List Point → Type 0
AtLeast h [] = Unit
AtLeast h (x ∷ xs) = (h ≤ x.hash) × AtLeast h xs

abbrev pub IsSorted : List Point → Type 0
IsSorted [] = Unit
IsSorted (x ∷ xs) = AtLeast x.hash xs × IsSorted xs

-- Insertion behind the points that are not greater.
unfoldable pub insert_point : Point → List Point → List Point
insert_point t [] = t ∷ []
insert_point t (x ∷ xs) = if ltb t.hash x.hash then t ∷ x ∷ xs else x ∷ insert_point t xs

AtLeast-le : (a b : ℕ) (l : List Point) → a ≤ b → AtLeast b l → AtLeast a l
AtLeast-le a b [] h w = tt
AtLeast-le a b (x ∷ xs) h (w, ws) = (omega arith, AtLeast-le a b xs h ws)

AtLeast-insert_point :
    (h : ℕ) (t : Point) (l : List Point) → h ≤ t.hash → AtLeast h l → AtLeast h (insert_point t l)
unfolding insert_point
AtLeast-insert_point h t [] e w = (e, tt)
AtLeast-insert_point h t (x ∷ xs) e (w, ws) =
    let rest = AtLeast-insert_point h t xs e ws in
    elim (Bool-cases (ltb t.hash x.hash)) [ inl q ↦ rw (q) (e, (w, ws)) | inr q ↦ rw (q) (w, rest) ]

insert_point-IsSorted : (t : Point) (l : List Point) → IsSorted l → IsSorted (insert_point t l)
unfolding insert_point
insert_point-IsSorted t [] s = (tt, tt)
insert_point-IsSorted t (x ∷ xs) (a, s) =
    let rest = insert_point-IsSorted t xs s in
    elim (Bool-cases (ltb t.hash x.hash)) [
      | inl q ↦
          let less : t.hash ≤ x.hash = ground arith in
          rw (q) ((less, AtLeast-le t.hash x.hash xs less a), (a, s))
      | inr q ↦ rw (q) (AtLeast-insert_point x.hash t xs (ground arith) a, rest)
    ]

times-insert_point :
    (p : Point → Bool) (t : Point) (l : List Point)
    → times p (insert_point t l) ≡ to_nat (p t) + times p l
unfolding insert_point times
times-insert_point p t [] = refl
times-insert_point p t (x ∷ xs) =
    let rest = times-insert_point p t xs in
    elim (Bool-cases (ltb t.hash x.hash)) [ inl q ↦ rw (q) | inr q ↦ rw (q) (omega arith) ]

length-insert_point : (t : Point) (l : List Point) → length (insert_point t l) ≡ length l + 1
unfolding insert_point
length-insert_point t [] = refl
length-insert_point t (x ∷ xs) =
    let rest = length-insert_point t xs in
    elim (Bool-cases (ltb t.hash x.hash)) [
      | inl q ↦ rw (q) (omega arith)
      | inr q ↦ rw (q) (omega arith)
    ]

-- A first point that is not greater stays in front.
shift_keep :
    (n : ℕ) (t x : Point) (r : List Point)
    → ltb t.hash x.hash ≡ false
    → shift (suc n) t (x ∷ r) ≡ x ∷ shift n t r
unfolding shift
shift_keep zero t x r h = rw (h)
shift_keep (suc n) t x r h =
    let rest = shift_keep n t x (set r (suc n) (get_or r n no_point)) h in
    elim (Bool-cases (ltb t.hash (get_or r n no_point).hash)) [
      | inl q ↦ rw (q) rest
      | inr q ↦ rw (q)
    ]

-- A first point that is greater, with only greater ones behind it, moves up.
shift_past :
    (n : ℕ) (t x : Point) (r s : List Point)
    → ltb t.hash x.hash ≡ true
    → ((i : ℕ) → i < n → ltb t.hash (get_or r i no_point).hash ≡ true)
    → n < length r
    → shift n t r ≡ t ∷ s
    → shift (suc n) t (x ∷ r) ≡ t ∷ x ∷ s
unfolding shift
shift_past zero t x [] s h all fit e = elim fit [ ]
shift_past zero t x (y ∷ r) s h all fit e = rw (h) (let q : r ≡ s = cc in ap (λ l. t ∷ x ∷ l) q)
shift_past (suc n) t x r s h all fit e =
    let big = all n (omega arith) in
    let r' = set r (suc n) (get_or r n no_point) in
    let e' : shift n t r' ≡ t ∷ s = sym (rw (big, shift)) ∙ e in
    let rest =
      shift_past n t x r' s h
        (λ i w.
          ap (λ (q : Point). ltb t.hash q.hash)
            (get_or-set_ne r (suc n) i (get_or r n no_point) no_point (λ q. omega arith))
          ∙ all i (omega arith))
        (let l = length-set r (suc n) (get_or r n no_point) in omega arith) e' in
    rw (big) rest

above :
    (t : Point) (h : ℕ) (p q : List Point) (i : ℕ)
    → t.hash < h
    → AtLeast h p
    → i < length p
    → ltb t.hash (get_or (p ++ q) i no_point).hash ≡ true
above t h [] q i less w fit = elim fit [ ]
above t h (x ∷ p) q zero less (w, ws) fit = ground arith
above t h (x ∷ p) q (suc i) less (w, ws) fit = above t h p q i less ws (omega arith)

insert_point-first :
    (t : Point) (h : ℕ) (p : List Point) → t.hash < h → AtLeast h p → insert_point t p ≡ t ∷ p
unfolding insert_point
insert_point-first t h [] less w = refl
insert_point-first t h (x ∷ p) less (w, ws) =
    let q : ltb t.hash x.hash ≡ true = ground arith in rw (q)

-- One round of the insertion sort.
shift-insert_point :
    (t y : Point) (p q : List Point)
    → IsSorted p
    → shift (length p) t (p ++ y ∷ q) ≡ insert_point t p ++ q
unfolding shift insert_point
shift-insert_point t y [] q s = refl
shift-insert_point t y (x ∷ p) q (a, s) =
    let rest = shift-insert_point t y p q s in
    elim (Bool-cases (ltb t.hash x.hash)) [
      | inr keep ↦ shift_keep (length p) t x (p ++ y ∷ q) keep ∙ rw (keep) (ap (λ l. x ∷ l) rest)
      | inl past ↦
          let less : t.hash < x.hash = ground arith in
          rw (past) (
            shift_past (length p) t x (p ++ y ∷ q) (p ++ q) past
              (λ i w. above t x.hash p (y ∷ q) i less a w)
              (let l = length-append p (y ∷ q) in omega arith)
              (rest ∙ ap (λ l. l ++ q) (insert_point-first t x.hash p less a)))
    ]

-- What the sort makes of a list.
pub record Sorts (points ring : List Point) : Type 0 where
  pub sorted : IsSorted ring
  pub same_size : length ring ≡ length points
  pub same : (p : Point → Bool) → times p ring ≡ times p points

get_or_middle : (p q : List Point) (y : Point) → get_or (p ++ y ∷ q) (length p) no_point ≡ y
get_or_middle [] q y = refl
get_or_middle (x ∷ p) q y = get_or_middle p q y

sort_from-Sorts :
    (p q : List Point) → IsSorted p → Sorts (p ++ q) (sort_from (length q) (length p) (p ++ q))
unfolding sort_from times
sort_from-Sorts p [] s = rw (append-nil) (record { sorted = s; same_size = refl; same = λ f. refl })
sort_from-Sorts p (y ∷ q) s =
    let p' = insert_point y p in
    let round : shift (length p) (get_or (p ++ y ∷ q) (length p) no_point) (p ++ y ∷ q) ≡ p' ++ q =
      ap (λ t. shift (length p) t (p ++ y ∷ q)) (get_or_middle p q y)
      ∙ shift-insert_point y y p q s in
    let len = length-insert_point y p in
    let rest = sort_from-Sorts p' q (insert_point-IsSorted y p s) in
    let step : sort_from (length q) (length p + 1)
          (shift (length p) (get_or (p ++ y ∷ q) (length p) no_point) (p ++ y ∷ q))
        ≡ sort_from (length q) (length p') (p' ++ q) =
      ap₂ (sort_from (length q)) (sym len) round in
    record {
      sorted = subst IsSorted (sym step) rest.sorted;
      same_size = ap length step ∙ rest.same_size ∙ lengths p' p q y len;
      same = λ f. ap (times f) step ∙ rest.same f ∙ counts f p q y;
    }
  where
    lengths :
        (p' p q : List Point) (y : Point)
        → length p' ≡ length p + 1
        → length (p' ++ q) ≡ length (p ++ y ∷ q)
    lengths p' p q y len =
        let a = length-append p' q in let b = length-append p (y ∷ q) in omega arith

    counts :
        (f : Point → Bool) (p q : List Point) (y : Point)
        → times f (insert_point y p ++ q) ≡ times f (p ++ y ∷ q)
    counts f p q y =
        let a = times-append f (insert_point y p) q in
        let b = times-append f p (y ∷ q) in let c = times-insert_point f y p in omega arith

-- Building the ring leaves it sorted by hash, with every point of every node in it exactly as often
-- as the loops produce it, whatever the hashes are, and the number of nodes between 1 and 64.
pub ring_build-Sorts :
    (d : Dist)
    → Sorts (points_from (clamp_nodes d.nodes) 0 d.vpts) (ring_build d).ring
      × (1 ≤ (ring_build d).nodes)
      × ((ring_build d).nodes ≤ 64)
unfolding ring_build
ring_build-Sorts d =
    (sorts (points_from (clamp_nodes d.nodes) 0 d.vpts), ground arith, ground arith)
  where
    sorts : (l : List Point) → Sorts l (sort_from (length l - 1) 1 l)
    sorts [] = record { sorted = tt; same_size = refl; same = λ f. refl }
    sorts (x ∷ l) =
        let e : length (x ∷ l) - 1 ≡ length l = omega arith in
        rw (e) (sort_from-Sorts (x ∷ []) l (tt, tt))
