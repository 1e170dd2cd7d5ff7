-- ===== src/Package.antt =====
-- pockettitan/package: the planner of a package, the writer that executes a plan, the decoder and the
-- validator.
pub mod PlePlan
pub mod Encode
pub mod Decode
pub mod Journal
pub mod Effects
pub mod Writer
pub mod Validator
pub mod DensePlan
