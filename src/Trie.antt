-- ===== src/Trie.antt =====
-- Tries of type signatures: src/trie.
pub mod TypeNode
pub mod Stored
pub mod Laws
pub mod Keeps
pub mod Alternatives
pub mod Insert
pub mod Ambiguous
pub mod Match
pub mod Fits
pub mod Outcomes
pub mod Arrays
pub mod RoundTrip
pub mod Listing
pub mod Examples
