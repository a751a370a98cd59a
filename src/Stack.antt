-- ===== src/Stack.antt =====
-- The operand stack and its operators: src/builtins/sli_stack.cpp over
-- src/containers/sli_tokenstack.h.
pub mod Token
pub mod TokenStack
pub mod Operators
pub mod Loads
pub mod Turns
pub mod Rolls
pub mod Copies
pub mod Errors
pub mod Saves
pub mod Examples
