-- ===== src/Hashing/Map/Latest.antt =====
-- `plant_map_hash_set` as its callers see it: from any well-formed map it finishes, and later lookups
-- give the latest value.
use native.Mathlib.Nat.{pow-suc}
use plant_lang.Prelude.{
  ℕ, suc, ◌*◌, ◌/◌, ◌^◌, ◌<◌, ◌≡◌, refl, sym, ap, ◌∙◌, Bool, true, false, List, [], ◌∷◌, Option,
  none, some, arith, ltb, leb, if◌then◌else◌, Text, str_eq, Bool-cases, inl, inr,
}
use plant_lang.Hashing.Map.{
  PlantMap, Probe, at_vacant, at_key, exhausted, probe, map_hash_create, hash_get, hash_has, insert,
  doubled, set_at, hash_set,
}
use plant_lang.Hashing.Map.Probing.{Stops}
use plant_lang.Hashing.Map.Core.{IsCore, probe-Stops}
use plant_lang.Hashing.Map.Insertion.{insert-sizes, insert-IsCore, hash_get-insert}
use plant_lang.Hashing.Map.Growth.{
  IsMap, get, last_of, or_else, last_of-get, empty-IsCore, empty-get, set_at-room, reinsert-Carried,
}

module _ {ℓ} {V : Type ℓ} where
  -- A well-formed map with a new value under a key.
  abbrev pub Sets : PlantMap V → Text → V → PlantMap V → Type ℓ
  Sets m key v m' = IsMap m' × ((j : Text) → get m' j ≡ (if str_eq key j then some v else get m j))

  insert-Sets :
      (m : PlantMap V)
      → IsCore m
      → m.threshold ≡ m.capacity * 3 / 4
      → m.count < m.threshold
      → (key : Text) (v : V) → Sets m key v (insert key v m)
  insert-Sets m c t few key v =
      let b = c.big in
      let room : m.count < m.capacity = omega arith in
      let (sc, st, su) = insert-sizes m c key v room in
      (
        record {
          core = insert-IsCore m c key v room;
          limit = st ∙ t ∙ ap (λ n. n * 3 / 4) (sym sc);
          load = omega arith;
        },
        hash_get-insert m c key v room,
      )

  grown_set :
      (key : Text) (v : V) (m : PlantMap V)
      → IsMap m
      → m.count ≡ m.threshold
      → (m' : PlantMap V) × (set_at 2 key v m ≡ some m') × Sets m key v m'
  unfolding set_at doubled
  grown_set key v m i full =
      let c = i.core in
      let b = c.big in
      let l = i.limit in
      let n = c.counted in
      let d = doubled m in
      let w : m.capacity * 2 ≡ 2 ^ suc c.exponent =
        ap (λ n. n * 2) c.wide ∙ sym (pow-suc 2 c.exponent) in
      let dc : IsCore d =
        empty-IsCore (m.capacity * 2) (suc c.exponent) w (omega arith) (m.capacity * 2 * 3 / 4) in
      let (g, e, k) = reinsert-Carried 0 m.entries d dc (omega arith) (omega arith) in
      let gf = k.few in
      let gt = k.same_threshold in
      let gc = k.same_capacity in
      let (im, gets) =
        insert-Sets g k.core (gt ∙ sym (ap (λ n. n * 3 / 4) gc)) (omega arith) key v in
      let reached : leb m.threshold m.count ≡ true = ground arith in
      (
        insert key v g,
        rw (reached, e),
        (
          im,
          λ j.
              gets j
              ∙ ap (λ o. if str_eq key j then some v else o)
                  (k.gets j
                    ∙ ap (or_else (last_of j m.entries)) (empty-get d dc dc.counted j)
                    ∙ or_none _
                    ∙ last_of-get m c j),
        ),
      )
    where
      or_none : (o : Option V) → or_else o none ≡ o
      or_none none = refl
      or_none (some w) = refl

  -- From a well-formed map `plant_map_hash_set` finishes, in a well-formed map, where the key has the
  -- new value and every other key what it had.
  pub hash_set-latest :
      (m : PlantMap V)
      → IsMap m
      → (key : Text) (v : V)
      → (m' : PlantMap V) × (hash_set (some m) (some key) v ≡ some m') × Sets m key v m'
  unfolding hash_set
  hash_set-latest m i key v =
      let l = i.load in
      elim (Bool-cases (ltb m.count m.threshold)) [
        | inl few ↦
            let f : m.count < m.threshold = ground arith in
            (insert key v m, set_at-room 1 key v m f, insert-Sets m i.core i.limit f key v)
        | inr full ↦ grown_set key v m i (ground arith)
      ]

  -- `plant_map_hash_create` with a power of two
  pub create-IsMap : (e : ℕ) → IsMap (map_hash_create {V = V} (2 ^ e))
  unfolding map_hash_create
  create-IsMap e = elim (Bool-cases (ltb (2 ^ e) 8)) [
    | inl small ↦
        rw (small) (record {
          core = empty-IsCore 8 3 refl (omega arith) 6;
          limit = refl;
          load = omega arith;
        })
    | inr big ↦ rw (big) (record {
      core = empty-IsCore (2 ^ e) e refl (ground arith) (2 ^ e * 3 / 4);
      limit = refl;
      load = omega arith;
    })
  ]

  create-get : (e : ℕ) (j : Text) → get (map_hash_create {V = V} (2 ^ e)) j ≡ none
  unfolding map_hash_create
  create-get e j =
      empty-get (map_hash_create (2 ^ e)) (create-IsMap e).core
        ((create-IsMap e).core.counted ∙ no_count) j
    where
      no_count : (map_hash_create {V = V} (2 ^ e)).count ≡ 0
      no_count = refl

  -- The writes of a list, the first one first.
  unfoldable pub set_all : List (Text × V) → PlantMap V → Option (PlantMap V)
  set_all [] m = some m
  set_all ((k, v) ∷ r) m = elim (hash_set (some m) (some k) v) [
    | none ↦ none
    | some m' ↦ set_all r m'
  ]

  -- The value of the last write of a key.
  unfoldable pub latest : Text → List (Text × V) → Option V → Option V
  latest j [] d = d
  latest j ((k, v) ∷ r) d = latest j r (if str_eq k j then some v else d)

  abbrev pub is_some : Option V → Bool
  is_some none = false
  is_some (some w) = true

  has-get :
      (m : PlantMap V) → IsCore m → (j : Text) → hash_has (some m) (some j) ≡ is_some (get m j)
  unfolding hash_has hash_get
  has-get m c j = by_probe (probe j m) refl (probe-Stops m c j)
    where
      by_probe :
          (r : Probe) → probe j m ≡ r → Stops m j r → hash_has (some m) (some j) ≡ is_some (get m j)
      by_probe (at_vacant p) e w = rw (e, hash_has, hash_get)
      by_probe exhausted e w = rw (e, hash_has, hash_get)
      by_probe (at_key p) e (w, f, x) = rw (e, f, hash_has, hash_get)

  all_latest :
      (ws : List (Text × V)) (m : PlantMap V)
      → IsMap m
      → (m' : PlantMap V) × (set_all ws m ≡ some m')
        × IsMap m'
        × ((j : Text) → get m' j ≡ latest j ws (get m j))
  unfolding set_all latest
  all_latest [] m i = (m, refl, i, λ j. refl)
  all_latest ((k, v) ∷ r) m i =
      let (m1, e, (i1, g1)) = hash_set-latest m i k v in
      let (m2, f, i2, g2) = all_latest r m1 i1 in
      (m2, rw (e, set_all) f, i2, λ j. g2 j ∙ ap (latest j r) (g1 j))

  -- A map made with a power of two as its capacity takes any sequence of `plant_map_hash_set`: every
  -- one finishes, and then `plant_map_get` gives each key the value of its last write, or `NULL`, and
  -- `plant_map_has` tells whether it was written.
  pub hash_map_refines_writes :
      (e : ℕ) (ws : List (Text × V))
      → (m : PlantMap V) × (set_all ws (map_hash_create (2 ^ e)) ≡ some m)
        × ((j : Text)
            → (hash_get (some m) (some j) ≡ latest j ws none)
              × (hash_has (some m) (some j) ≡ is_some (latest j ws none)))
  hash_map_refines_writes e ws =
      let (m, f, i, g) = all_latest ws (map_hash_create (2 ^ e)) (create-IsMap e) in
      let at : (j : Text) → get m j ≡ latest j ws none =
        λ j. g j ∙ ap (latest j ws) (create-get e j) in
      (m, f, λ j. (at j, has-get m i.core j ∙ ap is_some (at j)))
