-- ===== src/Parser.antt =====
-- src/parser.c, inc/parser.h and inc/keywords.h: the parser of ltd files.
pub mod Keywords
pub mod Lexer
pub mod Ltd
pub mod Lines
pub mod Left
pub mod Ending
mod Tests
