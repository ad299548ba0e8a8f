-- ===== src/Vm.antt =====
-- The virtual machine of c/scheme48vm.c: the parts of `restart` that move arguments between the
-- stack and lists.
mod Tests
pub mod Pair
pub mod Lists
pub mod Stack
pub mod Setup
pub mod Fixnum
pub mod Arith
pub mod Raise
pub mod Dispatch
