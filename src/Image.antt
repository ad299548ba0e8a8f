-- ===== src/Image.antt =====
-- The heap images of c/scheme48heap.c: a file with a header of text and the cells of the heap.
pub mod Header
pub mod Read
pub mod Load
pub mod Write
mod Tests
