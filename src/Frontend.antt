-- ===== src/Frontend.antt =====
-- The abstract lexer and parser of the runtime, runtime/c/plant_lexer.c and plant_parser.c.
pub mod Lexer
pub mod Parser
