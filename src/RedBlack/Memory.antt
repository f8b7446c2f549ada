-- ===== src/RedBlack/Memory.antt =====
-- The nodes of redblack.c in memory, as the tree that they stand for.
pub mod Shape
pub mod Parts
pub mod Rotation
pub mod Turn
pub mod Recolor
pub mod Balance
