-- ===== src/Scheduler.antt =====
-- pockettitan/scheduler: how much memory a matrix needs, and the tiles that it is cut into.
pub mod Budget
pub mod Tiler
