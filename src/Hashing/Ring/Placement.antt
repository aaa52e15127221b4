-- ===== src/Hashing/Ring/Placement.antt =====
-- The placement of a key: the first point on the ring at or behind its hash.
use plant_lang.Prelude.{
  ℕ, zero, suc, ◌+◌, ◌/◌, ◌≤◌, ◌<◌, ◌≡◌, refl, List, [], ◌∷◌, Option, some, arith, ltb, leb, ◌==◌,
  if◌then◌else◌, length, get_or, Text, Bool-cases, ◌⊎◌, inl, inr,
}
use plant_lang.Hashing.Ring.{
  Point, Dist, no_point, dist_hash, ring_build, points_of, points_from, clamp_nodes, search,
  node_at, place_in_ring, dist_place,
}
use plant_lang.Hashing.Ring.Sorting.{AtLeast, IsSorted, ring_build-Sorts}

abbrev hash_at : List Point → ℕ → ℕ
hash_at ring i = (get_or ring i no_point).hash

AtLeast-get : (h : ℕ) (l : List Point) (j : ℕ) → AtLeast h l → j < length l → h ≤ hash_at l j
AtLeast-get h [] j w fit = elim fit [ ]
AtLeast-get h (x ∷ l) zero (w, ws) fit = w
AtLeast-get h (x ∷ l) (suc j) (w, ws) fit = AtLeast-get h l j ws (omega arith)

ascending :
    (l : List Point) (i j : ℕ) → IsSorted l → i ≤ j → j < length l → hash_at l i ≤ hash_at l j
ascending [] i j s le fit = elim fit [ ]
ascending (x ∷ l) zero zero s le fit = omega arith
ascending (x ∷ l) zero (suc j) (a, s) le fit = AtLeast-get x.hash l j a (omega arith)
ascending (x ∷ l) (suc i) zero s le fit = absurd (omega arith)
ascending (x ∷ l) (suc i) (suc j) (a, s) le fit = ascending l i j s (omega arith) (omega arith)

-- `lo` divides the ring into the hashes below `h` and the others.
pub record Divides (h : ℕ) (ring : List Point) (lo : ℕ) : Type 0 where
  pub within : lo ≤ length ring
  pub below : (j : ℕ) → j < lo → hash_at ring j < h
  pub above : (j : ℕ) → lo ≤ j → j < length ring → h ≤ hash_at ring j

-- The binary search finds the dividing index.
search-Divides :
    (fuel lo hi h : ℕ) (ring : List Point)
    → IsSorted ring
    → lo ≤ hi
    → hi ≤ length ring
    → hi < lo + fuel
    → ((j : ℕ) → j < lo → hash_at ring j < h)
    → ((j : ℕ) → hi ≤ j → j < length ring → h ≤ hash_at ring j)
    → (r : ℕ) × (search fuel lo hi h ring ≡ some r) × Divides h ring r
unfolding search
search-Divides zero lo hi h ring s le fit f below above = absurd (omega arith)
search-Divides (suc fuel) lo hi h ring s le fit f below above =
    let mid = (lo + hi) / 2 in
    let upper = search-Divides fuel (mid + 1) hi h ring s in
    let lower = search-Divides fuel lo mid h ring s in
    elim (Bool-cases (ltb lo hi)) [
      | inr done ↦
          let same : lo ≡ hi = ground arith in
          (
            lo,
            rw (done),
            record { within = omega arith; below = below; above = λ j w. above j (omega arith) },
          )
      | inl more ↦
          let less : lo < hi = ground arith in
          let m0 : lo ≤ mid = omega arith in
          let m1 : mid < hi = omega arith in
          elim (Bool-cases (ltb (hash_at ring mid) h)) [
            | inl small ↦
                let (r, e, d) =
                  upper (omega arith) fit (omega arith)
                    (λ j w.
                      let a = ascending ring j mid s (omega arith) (omega arith) in ground arith)
                    above in
                (r, rw (more, small) e, d)
            | inr large ↦
                let (r, e, d) =
                  lower m0 (omega arith) (omega arith) below
                    (λ j w z. let a = ascending ring mid j s w z in ground arith) in
                (r, rw (more, large) e, d)
          ]
    ]

-- The node of the first point whose hash is not below `h`, or of the first point of all where every
-- hash is below `h`.
abbrev pub Owns : ℕ → List Point → ℕ → Type 0
Owns h ring node =
    (i : ℕ) × (i < length ring)
    × (node ≡ (get_or ring i no_point).node)
    × ((j : ℕ) → j < i → hash_at ring j < h)
    × ((h ≤ hash_at ring i) ⊎ ((i ≡ 0) × ((j : ℕ) → j < length ring → hash_at ring j < h)))

node_at-Owns :
    (h r : ℕ) (ring : List Point)
    → 0 < length ring
    → Divides h ring r
    → Owns h ring (node_at ring r)
node_at-Owns h r ring full d = elim (Bool-cases (leb (length ring) r)) [
  | inl wraps ↦
      let past : length ring ≤ r = ground arith in
      (
        0,
        full,
        rw (wraps, node_at),
        λ j w. absurd (omega arith),
        inr (refl, λ j w. d.below j (omega arith)),
      )
  | inr stays ↦
      let fit : r < length ring = ground arith in
      (r, fit, rw (stays, node_at), d.below, inl (d.above r (omega arith) fit))
]

place_in_ring-Owns :
    (key : Option Text) (ring : List Point)
    → IsSorted ring
    → 0 < length ring
    → (n : ℕ) × (place_in_ring key ring ≡ some n) × Owns (dist_hash key) ring n
unfolding place_in_ring
place_in_ring-Owns key ring s full =
    let h = dist_hash key in
    let (r, e, d) =
      search-Divides (length ring + 1) 0 (length ring) h ring s (omega arith) (omega arith)
        (omega arith) (λ j w. absurd (omega arith)) (λ j w z. absurd (omega arith)) in
    (node_at ring r, placed r e, node_at-Owns h r ring full d)
  where
    placed :
        (r : ℕ)
        → search (length ring + 1) 0 (length ring) (dist_hash key) ring ≡ some r
        → place_in_ring key ring ≡ some (node_at ring r)
    placed r e = rw (e, place_in_ring)

points_from-some : (n v : ℕ) → 1 ≤ n → 1 ≤ v → 0 < length (points_from n 0 v)
unfolding points_from points_of
points_from-some zero v h w = absurd (omega arith)
points_from-some (suc n) zero h w = absurd (omega arith)
points_from-some (suc n) (suc v) h w = omega arith

-- Once a node has at least one point on the ring, every key is placed: on the node of the first
-- point whose hash is not below the key's hash, round to the first point of the ring where there
-- is none. The ring is built first if it is empty, is sorted then, and is left alone if it is not.
pub dist_place-Owns :
    (key : Option Text) (d : Dist)
    → 1 ≤ d.vpts
    → IsSorted d.ring
    → (n : ℕ) × ((dist_place key d).0 ≡ some n)
      × IsSorted (dist_place key d).1.ring
      × Owns (dist_hash key) (dist_place key d).1.ring n
      × ((dist_place key d).1 ≡ (if length d.ring == 0 then ring_build d else d))
unfolding dist_place
dist_place-Owns key d v s = elim (Bool-cases (length d.ring == 0)) [
  | inr built ↦
      let full : 0 < length d.ring = ground arith in
      let (n, e, o) = place_in_ring-Owns key d.ring s full in
      (n, rw (built) e, rw (built) s, rw (built) o, rw (built))
  | inl empty ↦
      let (b, lo, hi) = ring_build-Sorts d in
      let some_points = points_from-some (clamp_nodes d.nodes) d.vpts (ground arith) v in
      let size = b.same_size in
      let full : 0 < length (ring_build d).ring = omega arith in
      let (n, e, o) = place_in_ring-Owns key (ring_build d).ring b.sorted full in
      (n, rw (empty) e, rw (empty) b.sorted, rw (empty) o, rw (empty))
]
