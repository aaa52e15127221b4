-- ===== src/Containers/PairMap/Literal.antt =====
-- A map literal, which compiles to a chain of `plant_map_set` calls.
use plant_lang.Prelude.{
  ℕ, ◌≡◌, refl, sym, ap, ◌∙◌, List, [], ◌∷◌, some, arith, if◌then◌else◌, Text, str_eq,
}
use plant_lang.Containers.Array.{Value, empty_text, PlantArray, list_create, or_empty}
use plant_lang.Containers.Array.Contents.{IsArray, contents}
use plant_lang.Containers.PairMap.{map_get, key_text, upsert, map_create, map_set}
use plant_lang.Containers.PairMap.Loops.{lookup}
use plant_lang.Containers.PairMap.Laws.{
  IsPairMap, or_empty-IsKey, map_get-lookup, upsert-IsPairMap, map_get-upsert,
}

module _ (raw : ℕ → Text) where
  -- The last value bound to `j` in a list of bindings, or `d`.
  pub latest : Text → List (Value × Value) → Value → Value
  latest j [] d = d
  latest j ((key, v) ∷ r) d = latest j r (if str_eq (key_text raw (or_empty key)) j then v else d)

  module _ (junk : Value) where
    map_set-some :
        (m : PlantArray) (key v : Value) (j : Text)
        → IsPairMap m
        → IsPairMap (map_set raw junk (some m) key v)
          × (map_get raw (some (map_set raw junk (some m) key v)) (some j) ≡ (
              if str_eq (key_text raw (or_empty key)) j then v else map_get raw (some m) (some j)))
    unfolding map_set contents
    map_set-some m key v j p =
        let m' : PlantArray = record m { kind = 1 } in
        let p' : IsPairMap m' = record {
          good = record { sized = p.good.sized; fits = p.good.fits };
          paired = p.paired;
        } in
        let u = upsert-IsPairMap raw junk (or_empty key) v m' p' in
        let w : IsArray (record (upsert raw junk (or_empty key) v m') { kind = 1 }) = record {
          sized = u.good.sized;
          fits = u.good.fits;
        } in
        let got = map_get-upsert raw junk (or_empty key) v j m' p' (or_empty-IsKey key) in
        (
          record { good = w; paired = u.paired },
          map_get-lookup raw (record (upsert raw junk (or_empty key) v m') { kind = 1 }) j w
              ∙ sym (map_get-lookup raw (upsert raw junk (or_empty key) v m') j u.good)
              ∙ got
              ∙ ap (λ t. if str_eq (key_text raw (or_empty key)) j then v else t)
                  (map_get-lookup raw m' j p'.good ∙ sym (map_get-lookup raw m j p.good)),
        )

    map_create-IsPairMap : IsPairMap (map_create raw junk)
    unfolding map_create list_create contents
    map_create-IsPairMap = record {
      good = record { sized = refl; fits = omega arith };
      paired = tt;
    }

    -- `plant_map_set(... plant_map_set(m, k1, v1) ..., kn, vn)`, what a map literal compiles to
    pub set_all : List (Value × Value) → PlantArray → PlantArray
    set_all [] m = m
    set_all ((key, v) ∷ r) m = set_all r (map_set raw junk (some m) key v)

    set_all-latest :
        (r : List (Value × Value)) (m : PlantArray) (j : Text)
        → IsPairMap m
        → map_get raw (some (set_all r m)) (some j) ≡ latest j r (map_get raw (some m) (some j))
    unfolding set_all latest
    set_all-latest [] m j p = refl
    set_all-latest ((key, v) ∷ r) m j p =
        let (p', got) = map_set-some m key v j p in
        set_all-latest r (map_set raw junk (some m) key v) j p' ∙ ap (latest j r) got

    -- A map literal reads, at every key, as the last value that it binds to the key, and as the
    -- empty text at a key that it does not bind; a `NULL` key counts as the empty text.
    pub map_literal_lem :
        (r : List (Value × Value)) (j : Text)
        → map_get raw (some (set_all r (map_create raw junk))) (some j) ≡ latest j r empty_text
    map_literal_lem r j =
        set_all-latest r (map_create raw junk) j map_create-IsPairMap
        ∙ ap (latest j r) (
            map_get-lookup raw (map_create raw junk) j map_create-IsPairMap.good
            ∙ (unfold map_create list_create contents lookup in refl))
