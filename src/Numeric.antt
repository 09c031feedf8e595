-- ===== src/Numeric.antt =====
-- Decimal constants: src/frontend/numeric.c.
pub mod Wide
pub mod Product
pub mod Quotient
