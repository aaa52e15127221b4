-- ===== src/Imports.antt =====
-- The expansion of imports in runtime/c/plant_runtime.c (`_imp_list_push` .. `_imp_expand`,
-- `plant_import_load`). A text is its bytes; which text a path holds is the argument `files` of
-- `plant_file_read`. Paths are taken to be shorter than the buffers they are built in. The text of
-- a line ends before its newline.
pub mod Distinct
pub mod Depth
pub mod Escaping
use plant_lang.Prelude.{
  ℕ, zero, suc, ◌+◌, ◌-◌, ◌*◌, ◌/◌, ◌%◌, ◌^◌, ◌≤◌, ◌<◌, ◌≡◌, ◌≢◌, ◌↔◌, refl, sym, ap, ap₂, ◌∙◌,
  subst, Bool, true, false, not, ◌||◌, ◌&&◌, List, [], ◌∷◌, ◌++◌, map, append-nil, append_assoc,
  Option, none, some, arith, ltb, leb, ◌==◌, ==_iff, if◌then◌else◌, length, get_or, set, take, drop,
  replicate, length-append, length-set, length-replicate, get_or-set_self, get_or-set_ne,
  get_or-append_left, get_or-append_right, get_or-replicate, take-append, bit_and, Text, codes,
  str_eq, str_eq_iff, str_eq_refl, Bool-cases, ◌⊎◌, inl, inr, times, to_nat, times-set,
  times-append, find_index, erase_idx, drop, Option-cases, min, max, add-one,
}

-- `pending` is the chain of files being expanded, `done` the files that are
pub record ImpState : Type 0 where
  pub pending : List Text
  pub done : List Text
  pub out : Text

-- `out_of_depth` means that the nesting ran out, which the code has no bound for
pub data ImpResult : Type 0 where
  expanded : ImpState → ImpResult
  cycle unreadable : Text → ImpResult
  out_of_depth : ImpResult

abbrev pub is_text : Text → Text → Bool
is_text x y = str_eq y x

unfoldable pub imp_has : List Text → Text → Bool
imp_has l s = elim (find_index (is_text s) l) [ none ↦ false | some i ↦ true ]

unfoldable pub imp_remove : List Text → Text → List Text
imp_remove l s = elim (find_index (is_text s) l) [ none ↦ l | some i ↦ erase_idx i l ]

-- the part in front of the last `/`, and the part behind it
unfoldable pub split_last : Text → Option (Text × Text)
split_last [] = none
split_last (c ∷ cs) = elim (split_last cs) [
  | some (d, b) ↦ some (c ∷ d, b)
  | none ↦ if c == 47 then some ([], cs) else none
]

unfoldable pub imp_dirname : Text → Text
imp_dirname p = elim (split_last p) [ none ↦ [] | some (d, b) ↦ d ]

unfoldable pub has_byte : ℕ → Text → Bool
has_byte b [] = false
has_byte b (c ∷ cs) = c == b || has_byte b cs

abbrev starts_with : ℕ → Text → Bool
starts_with b [] = false
starts_with b (c ∷ cs) = c == b

-- `name` with the suffix `.plant` where its last part has no dot
unfoldable pub with_suffix : Text → Text
with_suffix name =
    let base : Text = elim (split_last name) [ none ↦ name | some (d, b) ↦ b ] in
    if has_byte 46 base then name else name ++ codes ".plant"

unfoldable pub in_dir : Text → Text → Text
in_dir [] full = full
in_dir (c ∷ cs) full = if starts_with 47 full then full else (c ∷ cs) ++ 47 ∷ full

unfoldable pub imp_resolve : Text → Text → Text
imp_resolve dir rel = in_dir dir (with_suffix rel)

-- the loop over the lines: the text so far, and nothing behind a final newline
abbrev behind : Text → List Text → List Text
behind [] l = []
behind (c ∷ cs) l = l

unfoldable pub lines_from : Text → Text → List Text
lines_from [] line = line ∷ []
lines_from (c ∷ cs) line = elim (c == 10) [
  | true ↦ line ∷ behind cs (lines_from cs [])
  | false ↦ lines_from cs (line ++ c ∷ [])
]

unfoldable pub lines_of : Text → List Text
unfolding lines_from
lines_of text = behind text (lines_from text [])

unfoldable pub after_quote : Text → Option Text
after_quote [] = none
after_quote (c ∷ cs) = let rest = after_quote cs in if c == 34 then some cs else rest

unfoldable pub until_quote : Text → Option Text
until_quote [] = none
until_quote (c ∷ cs) =
    let rest = until_quote cs in
    if c == 34 then some [] else elim rest [ none ↦ none | some t ↦ some (c ∷ t) ]

-- the path between the quotes of an import line
unfoldable pub import_of : Text → Option Text
import_of line =
    if str_eq (take 7 line) (codes "IMPORT ")
    then elim (after_quote (drop 7 line)) [ none ↦ none | some t ↦ until_quote t ]
    else none

abbrev pub emit : Text → ImpState → ImpState
emit line st = record st { out = st.out ++ line ++ 10 ∷ [] }

abbrev pub enter : Text → ImpState → ImpState
enter full st = record st { pending = st.pending ++ full ∷ [] }

-- what follows the call of `_imp_scan_file`
unfoldable pub finish : Text → ImpResult → ImpResult
unfolding imp_remove
finish full (expanded st) =
    expanded (record st { pending = imp_remove st.pending full; done = st.done ++ full ∷ [] })
finish full (cycle p) = cycle p
finish full (unreadable p) = unreadable p
finish full out_of_depth = out_of_depth

-- `scan` is `_imp_scan_file`
module _ (scan : Text → ImpState → ImpResult) where
  unfoldable pub import_file : Text → Text → ImpState → ImpResult
  unfolding imp_has finish
  import_file full line st =
      if imp_has st.done full
      then expanded (emit line st)
      else if imp_has st.pending full
      then cycle full
      else finish full (scan full (enter full st))

  unfoldable pub expand_line : Text → Text → ImpState → ImpResult
  unfolding import_file
  expand_line dir line st = elim (import_of line) [
    | none ↦ expanded (emit line st)
    | some rel ↦ import_file (imp_resolve dir rel) line st
  ]

  unfoldable pub imp_expand : Text → List Text → ImpState → ImpResult
  unfolding expand_line
  imp_expand dir [] st = expanded st
  imp_expand dir (line ∷ lines) st = elim (expand_line dir line st) [
    | expanded st' ↦ imp_expand dir lines st'
    | cycle p ↦ cycle p
    | unreadable p ↦ unreadable p
    | out_of_depth ↦ out_of_depth
  ]

-- `_imp_scan_file`, nested at most `depth` deep
unfoldable pub scan_file : (Text → Option Text) → ℕ → Text → ImpState → ImpResult
unfolding imp_expand
scan_file files zero path st = out_of_depth
scan_file files (suc depth) path st = elim (files path) [
  | none ↦ unreadable path
  | some body ↦ imp_expand (scan_file files depth) (imp_dirname path) (lines_of body) st
]

-- the message for the caller; the code answers it as the text
abbrev cannot_read : Text → Text
cannot_read p = codes "Error: cannot read import: " ++ p

unfoldable pub import_report : ImpResult → Option Text
import_report (expanded st) = some st.out
import_report (cycle p) = some (codes "@@E@@Error: import cycle detected: " ++ p)
import_report (unreadable p) = some (codes "@@E@@" ++ cannot_read p)
import_report out_of_depth = none

abbrev pub entry_state : Text → ImpState
entry_state entry = record { pending = entry ∷ []; done = []; out = [] }

-- `plant_import_load`; nothing where the nesting runs out
unfoldable pub import_load : (Text → Option Text) → ℕ → Text → Option Text
unfolding import_report
import_load files depth entry = elim (files entry) [
  | none ↦ some (codes "@@E@@" ++ cannot_read (codes "entry file"))
  | some body ↦
      import_report
        (imp_expand (scan_file files depth) (imp_dirname entry) (lines_of body) (entry_state entry))
]
