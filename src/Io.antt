-- ===== src/Io.antt =====
-- c/unix/io.c: buffered input and output that survives interrupted system calls.
pub mod Stdio
pub mod Reader
pub mod Writer
pub mod Strings
pub mod Decimal
pub mod Read
pub mod Write
pub mod Parse
pub mod RoundTrip
pub mod Block
pub mod Open
mod Tests
