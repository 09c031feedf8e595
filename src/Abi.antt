-- ===== src/Abi.antt =====
-- How values are passed: src/backend/abi.c and abi.h.
pub mod Classify
pub mod Assign
pub mod Walks
pub mod Pieces
pub mod Places
pub mod Slots
pub mod Flat
