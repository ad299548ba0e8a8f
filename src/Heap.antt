-- ===== src/Heap.antt =====
-- c/scheme48heap.c: the two semispaces of the heap.
pub mod Memory
pub mod Space
pub mod Copy
pub mod Trace
pub mod Find
pub mod Collect
pub mod Bounds
mod Tests
