-- ===== src/Lib.antt =====
-- CC64 is a C compiler, linker and runtime for a 64-bit DOS target. This library models the parts of it
-- whose logic is its own, one tree of modules per part.
--
-- The parts and how they meet. The compiler allocates from an arena; the lexer turns a source into tokens
-- whose texts stand in it, and reports to a sink of diagnostics; types and scopes are records in the arena. The calling convention classifies types and places arguments; the object builder collects
-- sections, symbols and relocations and its writer sorts symbols with the `qsort` of the runtime and
-- shares names in a string table; the linker accounts for every byte of the files that the writer makes,
-- places their sections in four outputs, resolves their symbols and applies their relocations.
-- The runtime is the C library that compiled programs, and the compiler built by itself, are linked with.
--
-- Arena: src/common/arena.c and Arena, ArenaMark of src/cc64.h. The chain of blocks is a list, newest
--   first, a block is known by a serial number. Arena/Invariant, Alloc and Marks hold what holds of it.
-- Diagnostics: src/common/diagnostic.c, the sink.
-- Lexer: src/frontend/lexer.c and frontend.h. Splices, Space, Scan, Punctuators and Next are lexer_next and
--   what it calls, Tokens the lists and lex_source_marked. Reads says what a stretch of a source reads as;
--   Skipped, Gaps, Comments, Blank, Taken, Quoted, Munch, Longest, Finish and Emitted are the proofs for
--   the parts, with Gaps for what may stand between two tokens; Promise is for lexer_next, Whole for a
--   source, Starved for an arena without room, Keywords for the keywords.
-- Semantic: src/semantic/semantic.c and semantic.h. A type pointer is an index plus one into a store of
--   records, 0 is NULL. Kind is TypeKind and its switches, Store is type_alloc and the table of shared
--   types, Build the constructors, Predicates and Arithmetic the functions on types, Scopes the bindings.
--   Valid and Stored are the invariants; Basic, Promotion, Rule, Operands and Usual the proofs, against
--   the conversions of the C standard in Standard; Names is the comparison of names.
-- Abi: src/backend/abi.c and abi.h. Classify is the walk over members and abi_aggregate_pieces, Assign is
--   take_registers and abi_assign_arguments; Walks, Pieces, Places, Slots and Flat
--   are the proofs.
-- Object: src/backend/object.c and object.h. Strings is string_add, Build the builder, Order is
--   object_symbol_compare; their children are the proofs.
-- Numeric: src/frontend/numeric.c, its 128-bit words: Wide has the routines, Product and Quotient the proofs.
-- Linker: src/linker/linker.c. Bytes is the byte order shared with put_u64 of the writer, Ranges is
--   object_range_add and object_uncovered_bytes_are_zero; RoundTrip, Disjoint and Covered the proofs.
--   Objects has the records; Outputs the appending, aligning and placing of sections, with the proofs in
--   Align, Placed, Layout and Bases; Globals is resolve_symbols, with Stable; Relocate is
--   apply_relocations, with Signed, Word, Patched and Sorted; Image is the file that is written, with
--   Contents and Written; Drive is link_objects. Checksum, Read, SectionEntries and SymbolEntries are
--   read_object_file, from the bytes of the file on, with Validated and Loads. A function that returns
--   false gives the number of its diagnostic.
-- Runtime: src/runtime/target_stdlib.c, target_string.c and target_ctype.c. Sort is qsort, Memory and
--   Strings are the string routines, Convert the character classes, strtoul, strtol, atoi and rand.
-- Base has the shared numbers, lists, words and tests; Tests the runs at concrete inputs.
--
-- Numbers are natural numbers with the wrap of their width written out as % 2 ^ w. A text is the list of
-- its bytes; where a routine reads from a pointer on, the list goes on to the end of the object and none
-- is an access past it. cc64_xmalloc, cc64_xrealloc and cc64_xstrdup give a block or end the process, so
-- that no failure of theirs is modelled; a failure of calloc, of the slot of qsort and of the arena is.
--
-- Loops are recursions on lists and counts. A loop of the lexer is Base/Loop.loop over one turn, with the
-- length of the source plus one as its fuel; none is fuel that ran out, and the theorems on the lexer prove
-- that it does not. Fuel is also used where a pointer is followed: walk_members and the loops over enclosing
-- scopes, for which the theorems prove that fuel above the rank or the pointer is enough, type_compatible,
-- whose one round suffices for the kinds it is used at, and the doubling of capacities, where 64 rounds
-- reach every size.
--
-- Not modelled: the preprocessor and the parser, the lowering, the encoder, the rounding of decimal
-- constants, the writing of object files, the heap, the streams and the formatted output of the runtime.
-- Files, terminals, mappings and process exits are services of the system.
pub mod Base
pub mod Arena
pub mod Diagnostics
pub mod Lexer
pub mod Semantic
mod Tests
pub mod Runtime
pub mod Abi
pub mod Numeric
pub mod Object
pub mod Linker
