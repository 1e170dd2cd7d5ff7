-- ===== src/Format.antt =====
-- pockettitan/package/format.py: the byte layout of a package. Each child is one part of that
-- file, and the modules below a part hold its proofs.
pub mod Align
pub mod Groups
pub mod Spans
pub mod Record
pub mod Bank
pub mod PleRow
pub mod PleIndex
pub mod Dense
