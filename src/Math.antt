-- ===== src/Math.antt =====
-- Arithmetic on the operand stack: src/builtins/sli_math.cpp and src/builtins/sli_op_bodies.h.
pub mod Operators
pub mod Integers
pub mod Bounds
pub mod Comparisons
pub mod Orders
pub mod Examples
