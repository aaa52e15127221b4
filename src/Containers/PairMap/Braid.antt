-- ===== src/Containers/PairMap/Braid.antt =====
-- The map that `plant_braid_map` builds from a list of keys and a list of values.
use plant_lang.Prelude.{
  ℕ, zero, suc, ◌+◌, ◌≤◌, ◌≡◌, refl, sym, ap, ap₂, ◌∙◌, List, [], ◌∷◌, some, arith, ltb,
  if◌then◌else◌, length, get_or, tabulate, tabulate-ext, get_or-take, Text, str_eq, pos, ◌⊎◌,
}
use plant_lang.Containers.Array.{Value, null, text, array, empty_text, PlantArray, list_create}
use plant_lang.Containers.Array.Contents.{IsArray, contents, length-contents, create-Holds}
use plant_lang.Containers.PairMap.{map_get, braid_pair, braid_map_from, braid_map}
use plant_lang.Containers.PairMap.Loops.{lookup}
use plant_lang.Containers.PairMap.Laws.{IsPairMap, map_get-lookup, upsert-IsPairMap, map_get-upsert}

module _ (raw : ℕ → Text) where
  -- The bindings that `plant_braid_map` makes: its `NULL` keys are skipped.
  pub latest_braid : Text → List Value → List Value → Value → Value
  latest_braid j [] ys d = d
  latest_braid j (x ∷ xs) [] d = d
  latest_braid j (null ∷ xs) (y ∷ ys) d = latest_braid j xs ys d
  latest_braid j (text t ∷ xs) (y ∷ ys) d = latest_braid j xs ys (if str_eq t j then y else d)
  latest_braid j (array p ∷ xs) (y ∷ ys) d =
      latest_braid j xs ys (if str_eq (raw p) j then y else d)

  abbrev bound : Text → Value → Value → Value → Value
  bound j null y d = d
  bound j (text t) y d = if str_eq t j then y else d
  bound j (array p) y d = if str_eq (raw p) j then y else d

  latest_braid_step :
      (j : Text) (x y : Value) (xs ys : List Value) (d : Value)
      → latest_braid j (x ∷ xs) (y ∷ ys) d ≡ latest_braid j xs ys (bound j x y d)
  unfolding latest_braid
  latest_braid_step j null y xs ys d = refl
  latest_braid_step j (text t) y xs ys d = refl
  latest_braid_step j (array p) y xs ys d = refl

  latest_braid_tables :
      (j : Text) (n : ℕ) (xs ys : List Value) (d : Value)
      → n ≤ length xs
      → n ≤ length ys
      → (n ≡ length xs) ⊎ (n ≡ length ys)
      → latest_braid j (tabulate n (λ k. get_or xs k null)) (tabulate n (λ k. get_or ys k null)) d
        ≡ latest_braid j xs ys d
  latest_braid_tables j zero [] ys d h k e = unfold latest_braid in refl
  latest_braid_tables j zero (x ∷ xs) [] d h k e = unfold latest_braid in refl
  latest_braid_tables j zero (x ∷ xs) (y ∷ ys) d h k e = absurd (omega arith)
  latest_braid_tables j (suc n) [] ys d h k e = elim h [ ]
  latest_braid_tables j (suc n) (x ∷ xs) [] d h k e = elim k [ ]
  latest_braid_tables j (suc n) (x ∷ xs) (y ∷ ys) d h k e =
      latest_braid_step j x y _ _ d
      ∙ latest_braid_tables j n xs ys (bound j x y d) (omega arith) (omega arith) (omega arith)
      ∙ sym (latest_braid_step j x y xs ys d)

  cells :
      (n : ℕ) (a : PlantArray)
      → n ≤ a.count
      → tabulate n (λ k. get_or a.items (0 + k) null) ≡ tabulate n (λ k. get_or (contents a) k null)
  unfolding contents
  cells n a h = tabulate-ext n _ _ λ k p.
      ap (λ t. get_or a.items t null) (omega arith)
      ∙ sym (get_or-take a.count a.items k null (omega arith))

  list_create-IsPairMap : IsPairMap (list_create (pos 0))
  list_create-IsPairMap = record {
    good = (create-Holds (pos 0)).good;
    paired = unfold contents list_create in tt;
  }

  get-list_create : (j : Text) → map_get raw (some (list_create (pos 0))) (some j) ≡ empty_text
  unfolding contents list_create lookup
  get-list_create j = map_get-lookup raw (list_create (pos 0)) j list_create-IsPairMap.good

  module _ (junk : Value) where
    braid_pair_lem :
        (x y : Value) (j : Text) (out : PlantArray)
        → IsPairMap out
        → IsPairMap (braid_pair raw junk x y out)
          × (map_get raw (some (braid_pair raw junk x y out)) (some j)
              ≡ bound j x y (map_get raw (some out) (some j)))
    unfolding braid_pair
    braid_pair_lem null y j out p = (p, refl)
    braid_pair_lem (text t) y j out p =
        (upsert-IsPairMap raw junk (text t) y out p, map_get-upsert raw junk (text t) y j out p tt)
    braid_pair_lem (array q) y j out p = (
      upsert-IsPairMap raw junk (array q) y out p,
      map_get-upsert raw junk (array q) y j out p tt,
    )

    braid_map_from-latest :
        (n i : ℕ) (a b out : PlantArray) (j : Text)
        → IsPairMap out
        → map_get raw (some (braid_map_from raw junk n i a b out)) (some j)
          ≡ latest_braid j
              (tabulate n (λ k. get_or a.items (i + k) null))
              (tabulate n (λ k. get_or b.items (i + k) null))
              (map_get raw (some out) (some j))
    unfolding braid_map_from
    braid_map_from-latest zero i a b out j p = unfold latest_braid in refl
    braid_map_from-latest (suc n) i a b out j p =
        let x = get_or a.items i null in
        let y = get_or b.items i null in
        let (p', got) = braid_pair_lem x y j out p in
        let e : i + 0 ≡ i = omega arith in
        let next = λ (c : PlantArray).
          tabulate-ext n (λ k. get_or c.items (i + 1 + k) null)
            (λ k. get_or c.items (i + suc k) null)
            (λ k q. ap (λ t. get_or c.items t null) (omega arith)) in
        rw (e, latest_braid_step j x y)
          (braid_map_from-latest n (i + 1) a b (braid_pair raw junk x y out) j p'
            ∙ ap₂
                (λ (s t : List Value).
                  latest_braid j s t (map_get raw (some (braid_pair raw junk x y out)) (some j)))
                (next a) (next b)
            ∙ ap
                (latest_braid j (tabulate n (λ k. get_or a.items (i + suc k) null))
                  (tabulate n (λ k. get_or b.items (i + suc k) null)))
                got)

    -- The map braided from a list of keys and a list of values reads, at every key, as the value
    -- beside its last occurrence among the keys that have a value, and as the empty text where there
    -- is none; `NULL` keys bind nothing.
    pub braid_map-latest :
        (a b : PlantArray) (j : Text)
        → IsArray a
        → IsArray b
        → map_get raw (some (braid_map raw junk (some a) (some b))) (some j)
          ≡ latest_braid j (contents a) (contents b) empty_text
    unfolding braid_map
    braid_map-latest a b j v w =
        let n : ℕ = if ltb a.count b.count then a.count else b.count in
        let la = length-contents a v in
        let lb = length-contents b w in
        let na : n ≤ a.count = ground arith in
        let nb : n ≤ b.count = ground arith in
        braid_map_from-latest n 0 a b (list_create (pos 0)) j list_create-IsPairMap
        ∙ ap₂
            (λ (s t : List Value).
              latest_braid j s t (map_get raw (some (list_create (pos 0))) (some j)))
            (cells n a na) (cells n b nb)
        ∙ latest_braid_tables j n (contents a) (contents b) _ (omega arith) (omega arith)
            (ground arith)
        ∙ ap (latest_braid j (contents a) (contents b)) (get-list_create j)
