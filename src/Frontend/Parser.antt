-- ===== src/Frontend/Parser.antt =====
-- The parser interface (runtime/c/plant_parser.c), over the lexer interface. `parse_program` and
-- `parse_statement` are generated code, and parameters.
pub mod Statements
use plant_lang.Prelude.{
  ℕ, zero, suc, ◌+◌, ◌-◌, ◌*◌, ◌/◌, ◌%◌, ◌^◌, ◌≤◌, ◌<◌, ◌≡◌, ◌≢◌, ◌↔◌, refl, sym, ap, ap₂, ◌∙◌,
  subst, Bool, true, false, not, ◌||◌, ◌&&◌, List, [], ◌∷◌, ◌++◌, map, append-nil, append_assoc,
  Option, none, some, arith, ltb, leb, ◌==◌, ==_iff, if◌then◌else◌, length, get_or, set, take, drop,
  replicate, length-append, length-set, length-replicate, get_or-set_self, get_or-set_ne,
  get_or-append_left, get_or-append_right, get_or-replicate, take-append, bit_and, Text, codes,
  str_eq, str_eq_iff, str_eq_refl, Bool-cases, ◌⊎◌, inl, inr, times, to_nat, times-set,
  times-append, find_index, Option-cases, min, max, add-one,
}
use plant_lang.Frontend.Lexer.{Generated, LexerContext, ILexer, lexer_tokenize}

-- `tables` stands for the fields `ctab`, `rtab`, `clv` and `emode`, which are only passed on
pub record ParserContext (T R X : Type 0) : Type 0 where
  pub lexer : Option (ILexer T R)
  pub tokens : Option T
  pub tables : X
  pub bstart : ℕ

pub record GeneratedParser (T R X : Type 0) : Type 0 where
  pub null : R
  pub parse_program : Option T → R
  pub parse_statement : Option T → ℕ → X → ℕ → R

module _ {T R X : Type 0} (p : GeneratedParser T R X) where
  -- `_iparser_parse`: the result, and the context, in which the lexer has moved
  unfoldable pub iparser_parse :
      Option (ParserContext T R X) → Option Text → R × Option (ParserContext T R X)
  iparser_parse none source = (p.null, none)
  iparser_parse (some pc) source = elim pc.lexer [
    | none ↦ (p.null, some pc)
    | some l ↦ elim l.tokenize_fn [
      | none ↦ (p.null, some pc)
      | some f ↦ (
        elim (f l.context source).0 [ none ↦ p.null | some t ↦ p.parse_program (some t) ],
        some (record pc {
          lexer = some (record l { context = (f l.context source).1 });
          tokens = (f l.context source).0;
        }),
      )
    ]
  ]

  -- `_iparser_parse_statement`; the token that it peeks is dropped
  unfoldable pub iparser_parse_statement : Option (ParserContext T R X) → R
  iparser_parse_statement none = p.null
  iparser_parse_statement (some pc) = elim pc.tokens [
    | none ↦ p.null
    | some t ↦ p.parse_statement (some t) 0 pc.tables pc.bstart
  ]

  -- the context of `PlantParser_create`, where no other is given
  unfoldable pub parser_create : X → Option (ILexer T R) → ParserContext T R X
  parser_create no_tables lexer = record {
    lexer = lexer;
    tokens = none;
    tables = no_tables;
    bstart = 0;
  }
