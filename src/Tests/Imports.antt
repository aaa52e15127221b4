-- ===== src/Tests/Imports.antt =====
-- Two files that import each other, and an entry that imports one of them.
use plant_lang.Prelude.{
  zero, suc, ℕ, ap, ◌∙◌, str_eq_iff, sym, subst, times, ◌<◌, ◌≡◌, ◌∙◌, sym, subst, str_eq_iff, ap,
  to_nat, times, find_index, erase_idx, ◌≢◌, refl, List, [], ◌∷◌, ◌++◌, Option, none, some, arith,
  Text, codes, str_eq, Bool-cases, inl, inr, if◌then◌else◌,
}
use plant_lang.Imports.{
  imp_resolve, with_suffix, has_byte, split_last, in_dir, imp_dirname, lines_from, after_quote,
  until_quote, import_of, expand_line, import_file, finish, imp_has, imp_remove, import_report,
  import_of, until_quote, after_quote, lines_from, imp_expand, scan_file, import_load, entry_state,
  lines_of,
}
use plant_lang.Imports.Distinct.{count}
use plant_lang.Imports.Depth.{Clean, Within, import_load-terminates}

abbrev quoted : Text → Text
quoted t = codes "IMPORT " ++ 34 ∷ (t ++ 34 ∷ 10 ∷ [])

abbrev disk : Text → Option Text
disk p =
    if str_eq p (codes "a.plant")
    then some (quoted (codes "b"))
    else if str_eq p (codes "b.plant")
    then some (codes "SET x")
    else none

abbrev universe : List Text
universe = codes "a.plant" ∷ codes "b.plant" ∷ []

load_test : import_load disk 2 (codes "a.plant") ≡ some (codes "SET x" ++ 10 ∷ [])
unfolding import_load imp_expand scan_file str_eq lines_of lines_from after_quote until_quote
    import_of imp_resolve with_suffix has_byte split_last in_dir imp_dirname expand_line import_file
    finish imp_has imp_remove find_index erase_idx import_report
load_test = refl

known : (path body : Text) → disk path ≡ some body → 0 < count path universe
unfolding times str_eq
known path body e = elim (Bool-cases (str_eq path (codes "a.plant"))) [
  | inl a ↦
      subst (λ t. 0 < count t universe) (sym ((str_eq_iff path (codes "a.plant")).0 a))
        (omega arith)
  | inr n ↦ elim (Bool-cases (str_eq path (codes "b.plant"))) [
    | inl b ↦
        subst (λ t. 0 < count t universe) (sym ((str_eq_iff path (codes "b.plant")).0 b))
          (omega arith)
    | inr m ↦
        let z : disk path ≡ none = rw (n, m) refl in
        absurd (subst (λ o. elim o [ none ↦ ⊥ | some a ↦ Unit ]) (sym e ∙ z) tt)
  ]
]

import_load-terminates_example : import_load disk 2 (codes "a.plant") ≢ none
import_load-terminates_example = import_load-terminates disk universe known (codes "a.plant")

entry-Clean : Clean (entry_state (codes "a.plant"))
unfolding times Clean
entry-Clean x = elim (Bool-cases (str_eq (codes "a.plant") x)) [
  | inl y ↦ let t = ap to_nat y in omega arith
  | inr n ↦ let t = ap to_nat n in omega arith
]

entry-Within : Within universe (entry_state (codes "a.plant"))
unfolding times Within
entry-Within x h = omega arith

-- `./` in front of `a.plant`, again and again
abbrev spelled : ℕ → Text
spelled zero = codes "a.plant"
spelled (suc k) = 46 ∷ 47 ∷ spelled k

abbrev dots : ℕ → Text
dots zero = 46 ∷ []
dots (suc k) = 46 ∷ 47 ∷ dots k

-- the file that all these paths lead to, which imports itself
abbrev self_import : Text
self_import = quoted (codes "./a")

-- a path whose last part is `a.plant`
abbrev last_part : Text → Option (Text × Text) → Text
last_part p none = p
last_part p (some (d, b)) = b

abbrev one_file : Text → Option Text
one_file p =
    if str_eq (last_part p (split_last p)) (codes "a.plant") then some self_import else none
