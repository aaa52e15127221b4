-- ===== src/Tests/Frontend.antt =====
-- The lexer and the parser at concrete inputs.
use plant_lang.Prelude.{List, ℕ, ◌+◌, true, List, [], ◌∷◌, none, some, leb, length, get_or, Text}
use plant_lang.Frontend.Lexer.{
  Generated, ILexer, ilexer_tokenize, ilexer_peek, ilexer_consume, ilexer_is_eof,
}
use plant_lang.Frontend.Parser.{GeneratedParser}

-- tokens are bytes, and pointers lead to the arrays that they are
abbrev bytes : Generated Text (List ℕ)
bytes = record {
  null = [];
  tokenize = λ source. source;
  peek = λ t n. elim t [ none ↦ [] | some s ↦ get_or s n 0 ∷ [] ];
  consume = λ t n. elim t [ none ↦ [] | some s ↦ get_or s n 0 ∷ (n + 1) ∷ [] ];
  is_eof = λ t n. elim t [ none ↦ true | some s ↦ leb (length s) n ];
  tok_type = λ r. r;
  tok_lex = λ r. r;
  words = λ r. some r;
}

abbrev fresh : ILexer Text (List ℕ)
fresh = record {
  context = some (record { tokens = none; pos = 0 });
  tokenize_fn = some (ilexer_tokenize bytes);
  peek_fn = some (ilexer_peek bytes);
  consume_fn = some (ilexer_consume bytes);
  tok_type_fn = some (λ r. r);
  tok_lex_fn = some (λ r. r);
  is_eof_fn = some (ilexer_is_eof bytes);
  peek_at_fn = some (λ t n. elim t [ none ↦ [] | some s ↦ get_or s n 0 ∷ [] ]);
  consume_at_fn = some (λ t n. elim t [ none ↦ [] | some s ↦ get_or s n 0 ∷ (n + 1) ∷ [] ]);
  is_eof_at_fn = some (λ t n. elim t [ none ↦ true | some s ↦ leb (length s) n ]);
}

abbrev statements : GeneratedParser Text (List ℕ) Unit
statements = record {
  null = [];
  parse_program = λ t. elim t [ none ↦ [] | some s ↦ s ];
  parse_statement = λ t n x b. elim t [ none ↦ [] | some s ↦ get_or s n 0 ∷ [] ];
}
