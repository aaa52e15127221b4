-- ===== src/Frontend/Lexer.antt =====
-- The lexer interface (runtime/c/plant_lexer.c). The generated functions behind it (`tokenize`,
-- `peek`, `consume`, `is_eof`, `tok_type`, `tok_lex`) are parameters: `T` is the type of a token
-- list, `R` that of the pointers which they return, `words` the words of the array that such a
-- pointer leads to, `none` for `NULL`.
pub mod Streaming
use plant_lang.Prelude.{
  ℕ, zero, suc, ◌+◌, ◌-◌, ◌*◌, ◌/◌, ◌%◌, ◌^◌, ◌≤◌, ◌<◌, ◌≡◌, ◌≢◌, ◌↔◌, refl, sym, ap, ap₂, ◌∙◌,
  subst, Bool, true, false, not, ◌||◌, ◌&&◌, List, [], ◌∷◌, ◌++◌, map, append-nil, append_assoc,
  Option, none, some, arith, ltb, leb, ◌==◌, ==_iff, if◌then◌else◌, length, get_or, set, take, drop,
  replicate, length-append, length-set, length-replicate, get_or-set_self, get_or-set_ne,
  get_or-append_left, get_or-append_right, get_or-replicate, take-append, bit_and, Text, codes,
  str_eq, str_eq_iff, str_eq_refl, Bool-cases, ◌⊎◌, inl, inr, times, to_nat, times-set,
  times-append, find_index, Option-cases, min, max, add-one,
}

pub record Generated (T R : Type 0) : Type 0 where
  pub null : R
  pub tokenize : Option Text → Option T
  pub peek : Option T → ℕ → R
  pub consume : Option T → ℕ → R
  pub is_eof : Option T → ℕ → Bool
  pub tok_type : R → R
  pub tok_lex : R → R
  pub words : R → Option (List ℕ)

pub record LexerContext (T : Type 0) : Type 0 where
  pub tokens : Option T
  pub pos : ℕ

-- the function pointers of the struct, each possibly `NULL`
pub record ILexer (T R : Type 0) : Type 0 where
  pub context : Option (LexerContext T)
  pub tokenize_fn :
      Option (Option (LexerContext T) → Option Text → Option T × Option (LexerContext T))
  pub peek_fn : Option (Option (LexerContext T) → R)
  pub consume_fn : Option (Option (LexerContext T) → R × Option (LexerContext T))
  pub tok_type_fn : Option (R → R)
  pub tok_lex_fn : Option (R → R)
  pub is_eof_fn : Option (Option (LexerContext T) → Bool)
  pub peek_at_fn : Option (Option T → ℕ → R)
  pub consume_at_fn : Option (Option T → ℕ → R)
  pub is_eof_at_fn : Option (Option T → ℕ → Bool)

module _ {T R : Type 0} (g : Generated T R) where
  unfoldable pub ilexer_tokenize :
      Option (LexerContext T) → Option Text → Option T × Option (LexerContext T)
  ilexer_tokenize none source = (none, none)
  ilexer_tokenize (some lc) source =
      (g.tokenize source, some (record { tokens = g.tokenize source; pos = 0 }))

  unfoldable pub ilexer_peek : Option (LexerContext T) → R
  ilexer_peek none = g.null
  ilexer_peek (some lc) = elim lc.tokens [ none ↦ g.null | some t ↦ g.peek (some t) lc.pos ]

  -- the position behind the pair `[token, pos + 1]`
  abbrev pub next_pos : R → ℕ → ℕ
  next_pos result pos = elim (g.words result) [
    | none ↦ pos + 1
    | some ws ↦ if leb 2 (length ws) then get_or ws 1 0 else pos + 1
  ]

  unfoldable pub ilexer_consume : Option (LexerContext T) → R × Option (LexerContext T)
  ilexer_consume none = (g.null, none)
  ilexer_consume (some lc) = elim lc.tokens [
    | none ↦ (g.null, some lc)
    | some t ↦ (
      g.consume (some t) lc.pos,
      some (record { tokens = some t; pos = next_pos (g.consume (some t) lc.pos) lc.pos }),
    )
  ]

  unfoldable pub ilexer_is_eof : Option (LexerContext T) → Bool
  ilexer_is_eof none = true
  ilexer_is_eof (some lc) = elim lc.tokens [ none ↦ true | some t ↦ g.is_eof (some t) lc.pos ]

  -- `PlantLexer_create`; the Boolean arguments say whether each `malloc` succeeds
  unfoldable pub lexer_create : Bool → Bool → Option (LexerContext T) → Option (ILexer T R)
  unfolding ilexer_tokenize ilexer_peek ilexer_consume ilexer_is_eof
  lexer_create false second context = none
  lexer_create true false context = none
  lexer_create true true context = some (record {
    context = elim context [ some c ↦ some c | none ↦ some (record { tokens = none; pos = 0 }) ];
    tokenize_fn = some ilexer_tokenize;
    peek_fn = some ilexer_peek;
    consume_fn = some ilexer_consume;
    tok_type_fn = some g.tok_type;
    tok_lex_fn = some g.tok_lex;
    is_eof_fn = some ilexer_is_eof;
    peek_at_fn = some g.peek;
    consume_at_fn = some g.consume;
    is_eof_at_fn = some g.is_eof;
  })

  -- `plant_iLexer_tokenize`
  unfoldable pub lexer_tokenize : Option (ILexer T R) → Option Text → Option T × Option (ILexer T R)
  lexer_tokenize none source = (none, none)
  lexer_tokenize (some l) source = elim l.tokenize_fn [
    | none ↦ (none, some l)
    | some f ↦ ((f l.context source).0, some (record l { context = (f l.context source).1 }))
  ]

  unfoldable pub lexer_peek : Option (ILexer T R) → R
  lexer_peek none = g.null
  lexer_peek (some l) = elim l.peek_fn [ none ↦ g.null | some f ↦ f l.context ]

  unfoldable pub lexer_consume : Option (ILexer T R) → R × Option (ILexer T R)
  lexer_consume none = (g.null, none)
  lexer_consume (some l) = elim l.consume_fn [
    | none ↦ (g.null, some l)
    | some f ↦ ((f l.context).0, some (record l { context = (f l.context).1 }))
  ]

  unfoldable pub lexer_tok_type : Option (ILexer T R) → R → R
  lexer_tok_type none token = g.null
  lexer_tok_type (some l) token = elim l.tok_type_fn [ none ↦ g.null | some f ↦ f token ]

  unfoldable pub lexer_tok_lex : Option (ILexer T R) → R → R
  lexer_tok_lex none token = g.null
  lexer_tok_lex (some l) token = elim l.tok_lex_fn [ none ↦ g.null | some f ↦ f token ]

  unfoldable pub lexer_is_eof : Option (ILexer T R) → Bool
  lexer_is_eof none = true
  lexer_is_eof (some l) = elim l.is_eof_fn [ none ↦ true | some f ↦ f l.context ]

  unfoldable pub lexer_peek_at : Option (ILexer T R) → Option T → ℕ → R
  lexer_peek_at none tokens pos = g.null
  lexer_peek_at (some l) tokens pos = elim l.peek_at_fn [ none ↦ g.null | some f ↦ f tokens pos ]

  unfoldable pub lexer_consume_at : Option (ILexer T R) → Option T → ℕ → R
  lexer_consume_at none tokens pos = g.null
  lexer_consume_at (some l) tokens pos = elim l.consume_at_fn [
    | none ↦ g.null
    | some f ↦ f tokens pos
  ]

  unfoldable pub lexer_is_eof_at : Option (ILexer T R) → Option T → ℕ → Bool
  lexer_is_eof_at none tokens pos = true
  lexer_is_eof_at (some l) tokens pos = elim l.is_eof_at_fn [ none ↦ true | some f ↦ f tokens pos ]
