-- ===== src/Object.antt =====
-- The object builder and writer: src/backend/object.c and object.h.
pub mod Strings
pub mod Build
pub mod Order
