-- ===== src/Scanner.antt =====
-- The lexical analyser: src/parser/sli_scanner.h, src/parser/sli_scanner.cpp and
-- src/parser/sli_charcode.cpp.
pub mod States
pub mod Charcode
pub mod Trans
pub mod Lexeme
pub mod Scan
pub mod Tests
pub mod Bytes
pub mod Digits
pub mod Integers
pub mod Zeros
pub mod Literals
pub mod Signs
pub mod Strings
pub mod Quotes
pub mod Print
pub mod Comments
pub mod Words
pub mod Names
pub mod SignedNames
pub mod Total
pub mod Examples
