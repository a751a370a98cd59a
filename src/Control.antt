-- ===== src/Control.antt =====
-- The control operators: src/builtins/sli_control.cpp.
pub mod Interp
pub mod Loops
pub mod Unwind
pub mod Shapes
pub mod Choices
pub mod Marks
pub mod Returns
pub mod Stops
pub mod Framed
pub mod Frames
pub mod Examples
