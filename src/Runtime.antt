-- ===== src/Runtime.antt =====
-- The C library that programs of the target are linked with: src/runtime.
pub mod Sort
pub mod Memory
pub mod Strings
pub mod Convert
