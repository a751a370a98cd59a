-- ===== src/Dict.antt =====
-- The dictionary stack and its caches: src/containers/sli_dictstack.h, src/containers/sli_dictstack.cpp
-- and src/containers/sli_dictionary.h.
pub mod Map
pub mod Cache
pub mod Stack
pub mod Change
pub mod Search
pub mod Coherent
pub mod Keeps
pub mod Restore
pub mod Lookup
pub mod Runs
pub mod Base
pub mod Examples
