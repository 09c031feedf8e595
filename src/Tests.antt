-- ===== src/Tests.antt =====
-- Runs on concrete inputs, and the theorems at inputs that meet their hypotheses.
mod Arenas
mod Types
mod Runtime
mod Abi
mod Objects
mod Names
mod Decimals
mod Links
mod Lexing
mod Linking
mod Images
mod Programs
mod Loading
