-- ===== src/Serialize.antt =====
-- The binary form of tokens and of token stacks: src/serialize.
pub mod Codec
pub mod Tokens
pub mod Words
pub mod RoundTrip
pub mod Examples
