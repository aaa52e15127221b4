-- ===== src/Frontend/Lexer/Streaming.antt =====
-- The cursor of the lexer against the functions that take an explicit position.
use plant_lang.Prelude.{ℕ, zero, suc, Bool, List, [], ◌∷◌, Option, none, some}
use plant_lang.Frontend.Lexer.{
  Generated, LexerContext, ILexer, ilexer_tokenize, ilexer_peek, ilexer_consume, ilexer_is_eof,
  lexer_peek, lexer_consume, lexer_is_eof,
}

module _ {T R : Type 0} (g : Generated T R) where
  -- what one round of reading sees: the token ahead, the end of the input, the token taken
  pub record Seen : Type 0 where
    pub ahead : R
    pub ends : Bool
    pub taken : R

  -- `n` tokens taken through the cursor of the lexer
  unfoldable pub stream : ℕ → Option (ILexer T R) → List Seen
  stream zero l = []
  stream (suc n) l =
      record { ahead = lexer_peek g l; ends = lexer_is_eof g l; taken = (lexer_consume g l).0 }
      ∷ stream n (lexer_consume g l).1

  -- the position that the words of a pair give: the second, and the next index where there is none
  unfoldable pub second_or : Option (List ℕ) → ℕ → ℕ
  second_or none pos = suc pos
  second_or (some []) pos = suc pos
  second_or (some (w ∷ [])) pos = suc pos
  second_or (some (w ∷ p ∷ ws)) pos = p

  -- `n` tokens of a token list that the generated functions read at explicit positions
  unfoldable pub walk : ℕ → T → ℕ → List Seen
  walk zero t pos = []
  walk (suc n) t pos =
      record {
        ahead = g.peek (some t) pos;
        ends = g.is_eof (some t) pos;
        taken = g.consume (some t) pos;
      }
      ∷ walk n t (second_or (g.words (g.consume (some t) pos)) pos)

  -- a lexer of `PlantLexer_create` in a given context
  abbrev at_context : Option (LexerContext T) → ILexer T R
  at_context c = record {
    context = c;
    tokenize_fn = some (ilexer_tokenize g);
    peek_fn = some (ilexer_peek g);
    consume_fn = some (ilexer_consume g);
    tok_type_fn = some g.tok_type;
    tok_lex_fn = some g.tok_lex;
    is_eof_fn = some (ilexer_is_eof g);
    peek_at_fn = some g.peek;
    consume_at_fn = some g.consume;
    is_eof_at_fn = some g.is_eof;
  }
