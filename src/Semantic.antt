-- ===== src/Semantic.antt =====
-- Types, their conversions and scopes: src/semantic/semantic.c and semantic.h.
pub mod Kind
pub mod Store
pub mod Build
pub mod Predicates
pub mod Arithmetic
pub mod Valid
pub mod Stored
pub mod Basic
pub mod Standard
pub mod Promotion
pub mod Rule
pub mod Operands
pub mod Usual
pub mod Names
pub mod Scopes
