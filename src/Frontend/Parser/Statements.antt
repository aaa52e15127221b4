-- ===== src/Frontend/Parser/Statements.antt =====
-- What the parser parses: the whole source, and statements at the start of its tokens.
use plant_lang.Prelude.{ℕ, zero, suc, ◌≡◌, refl, subst, true, Option, none, some, Text}
use plant_lang.Frontend.Lexer.{Generated, ILexer, ilexer_tokenize, lexer_create, lexer_consume}
use plant_lang.Frontend.Parser.{
  ParserContext, GeneratedParser, iparser_parse, iparser_parse_statement, parser_create,
}

module _ {T R X : Type 0} (g : Generated T R) (p : GeneratedParser T R X) where
  -- the lexer of a parser takes `n` tokens
  unfoldable pub advance : ℕ → ParserContext T R X → ParserContext T R X
  advance zero pc = pc
  advance (suc n) pc = advance n (record pc { lexer = (lexer_consume g pc.lexer).1 })

  advance_statement :
      (n : ℕ) (pc : ParserContext T R X) (t : T)
      → pc.tokens ≡ some t
      → iparser_parse_statement p (some (advance n pc))
        ≡ p.parse_statement (some t) 0 pc.tables pc.bstart
  unfolding advance iparser_parse_statement
  advance_statement zero pc t e = rw (e)
  advance_statement (suc n) pc t e =
      advance_statement n (record pc { lexer = (lexer_consume g pc.lexer).1 }) t e

  -- Parsing a source that tokenizes parses all its tokens as a program; a statement is then parsed
  -- from the first token, however many tokens were consumed through the parser's lexer before.
  pub parse_lem :
      (x : X) (source : Option Text) (l : ILexer T R) (t : T)
      → lexer_create g true true none ≡ some l
      → g.tokenize source ≡ some t
      → (pc : ParserContext T R X) × (iparser_parse p (some (parser_create p x (some l))) source
          ≡ (p.parse_program (some t), some pc))
        × ((n : ℕ)
            → iparser_parse_statement p (some (advance n pc)) ≡ p.parse_statement (some t) 0 x 0)
  unfolding lexer_create iparser_parse parser_create ilexer_tokenize
  parse_lem x source l t e q =
      let pc : ParserContext T R X = record {
        lexer = some (record l { context = some (record { tokens = some t; pos = 0 }) });
        tokens = some t;
        tables = x;
        bstart = 0;
      } in
      (
        pc,
        subst
            (λ l. iparser_parse p (some (parser_create p x (some l))) source ≡ (
              p.parse_program (some t),
              some (record {
                lexer = some (record l { context = some (record { tokens = some t; pos = 0 }) });
                tokens = some t;
                tables = x;
                bstart = 0;
              }),
            ))
            (injective e) (rw (q)),
        λ n. advance_statement n pc t refl,
      )
    where
      injective : {a b : ILexer T R} → some a ≡ some b → a ≡ b
      injective q = cc
