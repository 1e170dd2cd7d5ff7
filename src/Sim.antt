-- ===== src/Sim.antt =====
-- pockettitan/sim/cache.py: the replacement policies that the simulator compares.
pub mod Lru
pub mod Slru
pub mod TinyLfu
pub mod Oracle
