-- ===== src/Streaming.antt =====
-- pockettitan/metadata and pockettitan/streaming: exact byte ranges from a remote shard.
pub mod Transfer
pub mod Reader
