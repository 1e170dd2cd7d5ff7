-- ===== src/Runtime.antt =====
-- pockettitan/runtime: the stateful parts of the out-of-core runtime.
pub mod ExpertCache
pub mod PleHasher
pub mod PleStore
pub mod ExpertManager
