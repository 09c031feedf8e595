-- ===== src/Tests/Runtime.antt =====
-- The routines of src/runtime at concrete inputs.
mod Sorting
mod Copying
mod Texts
mod Numbers
