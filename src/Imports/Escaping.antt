-- ===== src/Imports/Escaping.antt =====
-- Imports whose paths are spelled anew at each level: `_imp_expand` compares the spellings, so it
-- does not see that such a file imports itself.
use plant_lang.Prelude.{ℕ, suc, ◌<◌, ◌≡◌, List, [], ◌∷◌, Option, some, Text}
use plant_lang.Imports.{ImpState, imp_dirname, imp_resolve, import_of, lines_of}
use plant_lang.Imports.Distinct.{count}

-- A file of the sequence reads as a text that imports the next one in its first line.
pub record Leads (files : Text → Option Text) (path next : Text) : Type 0 where
  pub body : Text
  pub line : Text
  pub lines : List Text
  pub rel : Text
  pub reads : files path ≡ some body
  pub split : lines_of body ≡ line ∷ lines
  pub imports : import_of line ≡ some rel
  pub leads : imp_resolve (imp_dirname path) rel ≡ next

module _ (files : Text → Option Text) (path : ℕ → Text)
    (leads : (k : ℕ) → Leads files (path k) (path (suc k)))
    (apart : (i j : ℕ) → path i ≡ path j → i ≡ j) where
  -- no file of the sequence behind the place `k` is pending or done
  record Ahead (k : ℕ) (st : ImpState) : Type 0 where
    fresh : (j : ℕ) → k < j → count (path j) st.pending ≡ 0
    none_done : st.done ≡ []
