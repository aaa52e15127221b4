-- ===== src/Containers/PairMap/Laws.antt =====
-- Reading a pair-list map after writing it.
use plant_lang.Prelude.{
  ℕ, ◌≡◌, refl, true, false, ◌||◌, List, [], ◌∷◌, some, arith, if◌then◌else◌, Text, str_eq,
  str_eq_iff, Bool-cases, inl, inr,
}
use plant_lang.Containers.Array.{Value, null, text, array, PlantArray, or_empty}
use plant_lang.Containers.Array.Contents.{IsArray, contents}
use plant_lang.Containers.PairMap.{key_is, map_get, map_has, key_text, upsert, link}
use plant_lang.Containers.PairMap.Loops.{
  lookup, has_key, insert, get_from-lookup, has_from-has_key, upsert-Holds,
}

-- An array of whole pairs.
abbrev pub Paired : List Value → Type 0
Paired [] = Unit
Paired (x ∷ []) = ⊥
Paired (x ∷ y ∷ r) = Paired r

pub record IsPairMap (m : PlantArray) : Type 0 where
  pub good : IsArray m
  pub paired : Paired (contents m)

-- A pointer that is not `NULL`.
abbrev pub IsKey : Value → Type 0
IsKey null = ⊥
IsKey (text t) = Unit
IsKey (array p) = Unit

pub or_empty-IsKey : (key : Value) → IsKey (or_empty key)
unfolding or_empty
or_empty-IsKey null = tt
or_empty-IsKey (text t) = tt
or_empty-IsKey (array p) = tt

module _ (raw : ℕ → Text) where
  insert-Paired : (key v : Value) (l : List Value) → Paired l → Paired (insert raw key v l)
  unfolding insert
  insert-Paired key v [] h = tt
  insert-Paired key v (x ∷ []) h = absurd h
  insert-Paired key v (x ∷ y ∷ r) h =
      let rest = insert-Paired key v r h in
      elim (Bool-cases (key_is raw x (key_text raw key))) [
        | inl hit ↦ rw hit h
        | inr other ↦ rw other rest
      ]

  key_is_self :
      (key : Value) (k : Text) → IsKey key → key_is raw key k ≡ str_eq (key_text raw key) k
  unfolding key_is
  key_is_self null k h = absurd h
  key_is_self (text t) k h = refl
  key_is_self (array p) k h = refl

  key_is_congr : (x : Value) (j k : Text) → key_is raw x k ≡ true → key_is raw x j ≡ str_eq k j
  unfolding key_is
  key_is_congr null j k h = cc
  key_is_congr (text t) j k h = rw ((str_eq_iff t k).0 h)
  key_is_congr (array p) j k h = rw ((str_eq_iff (raw p) k).0 h)

  key_is_both :
      (x : Value) (j k : Text) → key_is raw x k ≡ false → key_is raw x j ≡ true → str_eq k j ≡ false
  unfolding key_is
  key_is_both null j k h g = cc
  key_is_both (text t) j k h g = ground (arith, str_eq_iff t k, str_eq_iff t j, str_eq_iff k j)
  key_is_both (array p) j k h g =
      ground (arith, str_eq_iff (raw p) k, str_eq_iff (raw p) j, str_eq_iff k j)

  pub lookup-insert :
      (key v : Value) (j : Text) (l : List Value)
      → IsKey key
      → Paired l
      → lookup raw j (insert raw key v l)
        ≡ (if str_eq (key_text raw key) j then v else lookup raw j l)
  unfolding lookup insert
  lookup-insert key v j [] w h = rw (key_is_self key j w)
  lookup-insert key v j (x ∷ []) w h = absurd h
  lookup-insert key v j (x ∷ y ∷ r) w h =
      let k = key_text raw key in
      let rest = lookup-insert key v j r w h in
      elim (Bool-cases (key_is raw x k)) [
        | inl hit ↦ rw (hit, key_is_congr x j k hit) (ground arith)
        | inr other ↦ rw other (ground (arith, key_is_both x j k, rest))
      ]

  pub has_key-insert :
      (key v : Value) (j : Text) (l : List Value)
      → IsKey key
      → Paired l
      → has_key raw j (insert raw key v l) ≡ (str_eq (key_text raw key) j || has_key raw j l)
  unfolding has_key insert
  has_key-insert key v j [] w h = rw (key_is_self key j w) (ground arith)
  has_key-insert key v j (x ∷ []) w h = absurd h
  has_key-insert key v j (x ∷ y ∷ r) w h =
      let k = key_text raw key in
      let rest = has_key-insert key v j r w h in
      elim (Bool-cases (key_is raw x k)) [
        | inl hit ↦ rw (hit, key_is_congr x j k hit) (ground arith)
        | inr other ↦ rw other (ground (arith, key_is_both x j k, rest))
      ]

  pub map_get-lookup :
      (m : PlantArray) (j : Text)
      → IsArray m
      → map_get raw (some m) (some j) ≡ lookup raw j (contents m)
  unfolding map_get
  map_get-lookup m j v = get_from-lookup raw m v j m.count 0 (omega arith)

  pub map_has-has_key :
      (m : PlantArray) (j : Text)
      → IsArray m
      → map_has raw (some m) (some j) ≡ has_key raw j (contents m)
  unfolding map_has
  map_has-has_key m j v = has_from-has_key raw m v j m.count 0 (omega arith)

  module _ (junk : Value) where
    pub upsert-IsPairMap :
        (key v : Value) (m : PlantArray) → IsPairMap m → IsPairMap (upsert raw junk key v m)
    upsert-IsPairMap key v m p =
        let h = upsert-Holds raw m p.good junk key v in
        record { good = h.good; paired = rw h.reads (insert-Paired key v (contents m) p.paired) }

    pub map_get-upsert :
        (key v : Value) (j : Text) (m : PlantArray)
        → IsPairMap m
        → IsKey key
        → map_get raw (some (upsert raw junk key v m)) (some j)
          ≡ (if str_eq (key_text raw key) j then v else map_get raw (some m) (some j))
    map_get-upsert key v j m p w =
        let h = upsert-Holds raw m p.good junk key v in
        rw (map_get-lookup _ j h.good, map_get-lookup m j p.good, h.reads)
          (lookup-insert key v j (contents m) w p.paired)

    map_has-upsert :
        (key v : Value) (j : Text) (m : PlantArray)
        → IsPairMap m
        → IsKey key
        → map_has raw (some (upsert raw junk key v m)) (some j)
          ≡ (str_eq (key_text raw key) j || map_has raw (some m) (some j))
    map_has-upsert key v j m p w =
        let h = upsert-Holds raw m p.good junk key v in
        rw (map_has-has_key _ j h.good, map_has-has_key m j p.good, h.reads)
          (has_key-insert key v j (contents m) w p.paired)

    -- After `plant_link` the map is again a list of whole pairs; a read of any key gives the linked
    -- value if the key is the linked one (a `NULL` key counts as the empty text) and otherwise what
    -- it gave before; and exactly the linked key is added to the keys that are present.
    pub map_get-link :
        (m : PlantArray) (key v : Value) (j : Text)
        → IsPairMap m
        → IsPairMap (link raw junk (some m) key v)
          × (map_get raw (some (link raw junk (some m) key v)) (some j) ≡ (
              if str_eq (key_text raw (or_empty key)) j then v else map_get raw (some m) (some j)))
          × (map_has raw (some (link raw junk (some m) key v)) (some j)
              ≡ (str_eq (key_text raw (or_empty key)) j || map_has raw (some m) (some j)))
    unfolding link
    map_get-link m key v j p = (
      upsert-IsPairMap (or_empty key) v m p,
      map_get-upsert (or_empty key) v j m p (or_empty-IsKey key),
      map_has-upsert (or_empty key) v j m p (or_empty-IsKey key),
    )
