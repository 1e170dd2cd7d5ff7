-- ===== src/Tests.antt =====
-- Runs of the modelled code on concrete inputs, and the theorems at inputs that meet their hypotheses.
mod Format
mod ExpertCache
mod Ple
mod Rtn
mod Sim
mod Streaming
mod Scheduler
mod Package
mod ExpertManager
mod Domainslice
mod Writer
mod Decode
mod Validator
