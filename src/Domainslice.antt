-- ===== src/Domainslice.antt =====
-- pockettitan/domainslice: the slots of the expert pool on the GPU.
pub mod Arena
