-- ===== src/Names.antt =====
-- The interning of names: src/containers/sli_name.h and src/containers/sli_name.cpp.
pub mod Table
pub mod Interning
pub mod Examples
