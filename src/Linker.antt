-- ===== src/Linker.antt =====
-- The linker: src/linker/linker.c, and the byte order that it shares with the writer of
-- src/backend/object.c.
pub mod Bytes
pub mod Objects
pub mod Outputs
pub mod Align
pub mod Placed
pub mod Layout
pub mod Bases
pub mod Globals
pub mod Relocate
pub mod Signed
pub mod Patched
pub mod Word
pub mod Sorted
pub mod Stable
pub mod Image
pub mod Contents
pub mod Written
pub mod Drive
pub mod Checksum
pub mod Read
pub mod SectionEntries
pub mod SymbolEntries
pub mod Validated
pub mod Loads
pub mod RoundTrip
pub mod Ranges
pub mod Disjoint
pub mod Covered
