-- ===== src/Interpreter.antt =====
-- The dispatcher of the interpreter: src/interpreter/sli_interpreter.cpp.
pub mod Dispatch
pub mod Exhausted
pub mod Repeat
pub mod Procedure
pub mod Counts
pub mod For
pub mod Bodies
pub mod Examples
