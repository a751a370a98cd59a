-- ===== src/Parser.antt =====
-- The parser: src/parser/sli_parser.h and src/parser/sli_parser.cpp.
pub mod Parse
pub mod Total
pub mod Rounds
pub mod Procedures
pub mod Examples
