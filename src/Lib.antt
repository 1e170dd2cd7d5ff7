-- ===== src/Lib.antt =====
-- Verification of PocketTitan's core: the binary package format, the planner of its n-gram
-- table, the writer that builds a package and can be resumed, the packing of codes and the
-- decoder that reads them back, the caches of the runtime, the replacement policies of the
-- simulator, exact range transfers, and memory-bounded tiling.
--
-- Prelude holds what all parts share: lists measured by native numbers, Boolean tests on them,
-- ceiling division, signed integers (Prelude.Int), Python's OrderedDict as the list of its
-- entries (Prelude.Dict), and exceptions as values (Prelude.Results).
--
-- Format follows pockettitan/package/format.py. Align, Groups and Spans are the module's
-- functions; Record is ExpertRecordLayout, Bank is ExpertLayout, PleRow is PleRowLayout, Dense
-- is DenseTensorEntry and PackageTotals, and PleIndex is PleIndex with build_ple_index of
-- pockettitan/package/plan.py. A layout that build returns is what the package writer places
-- and what the runtime reads. Bit widths are natural numbers, and the integer division of a
-- float quotient is the true quotient, which holds below 2 ^ 53.
--
-- Runtime has ExpertCache (pockettitan/runtime/expert/cache.py, BoundedSLRUCache), PleHasher
-- (pockettitan/runtime/ple/hash.py) and PleStore (pockettitan/runtime/ple/store.py). The state
-- of each is a record, and an operation returns its result or the exception beside the new
-- state. PleStore calls PleHasher, which calls PleIndex. The bytes of the memory map are a
-- list, and decode_row, which hands bytes to torch, is a parameter.
--
-- ExpertManager (pockettitan/runtime/expert/manager.py) puts the RAM cache and a hot tier in
-- front of the expert bank that Format.Bank lays out; decode_expert_payload and the copy to
-- the GPU are parameters.
--
-- Quantizers has Rtn (_pack_tensor and _unpack_tensor of pockettitan/quantizers/rtn.py: codes
-- of a tensor are the list of its elements, and a stride is a walk over the list) and
-- Dequantize (dequantize, over parameters for the arithmetic of floats).
--
-- Package has PlePlan (_plan_ple of pockettitan/package/plan.py, which gives the source
-- tensors of the n-gram table their rows), DensePlan (the placement of the dense entries in
-- plan_package), Encode, Journal and Writer (pockettitan/package/writer.py), Decode
-- (pockettitan/package/decode.py) and Validator (the overlap check and the dense layout of
-- pockettitan/package/validator.py).
--
-- Encode turns a quantized tensor into the bytes of its record, and Decode reads them back
-- through Quantizers. Journal is BuildJournal with _load_journal and resume_status; the
-- fingerprint of the plan is an argument. Writer is PackageWriter.build: the model of a run
-- (Effects) is the list of its effects on the disk (preallocation, writes, flushes and
-- replacements of the journal) beside its result or exception. Writer.Disk says what these do
-- to a disk, which holds for each region the flushed bytes and the changes since; a build may
-- also stop in between, by an OSError; a crash keeps any of those changes, in part or garbled,
-- and the journal that was replaced last, since durable_replace is taken to be atomic and
-- durable. Reading a tensor, quantizing and crc32c are parameters; the check of the free
-- space, the n-gram index and the metadata files are results that build is given.
-- Writer.Planned holds the assumptions on a plan: its items have distinct names and places
-- that do not overlap. The batches of a region are cut by recursion on the number of its
-- items, which is enough since each batch takes at least one.
--
-- Domainslice has Arena: ExpertVRAMArena of pockettitan/domainslice/fast_cache.py, whose free
-- slots are a list with the next slot first.
--
-- Sim follows pockettitan/sim/cache.py: Lru, Slru, TinyLfu and Oracle. The key of an expert is
-- any type with decidable equality, and a trace is the list of its keys.
--
-- Streaming has Transfer (stream_remote_bytes and fetch_remote_bytes of
-- pockettitan/metadata/safetensors_header.py) and Reader (RemoteTensorSliceReader of
-- pockettitan/streaming/reader.py; the conversion of eight-bit floats to float16 is a
-- parameter). The network is a parameter: each attempt says how a request is answered, as a
-- function of its first byte. The hypothesis on it is that an answer with status 206 and the
-- range that was asked for holds bytes of that part of the file; it may be cut short, and
-- other answers may hold anything. The loop over attempts is recursion on their list, so it
-- ends after max_attempts rounds.
--
-- Scheduler has Budget (compute_work_unit_bounds of pockettitan/scheduler/budget.py) and Tiler
-- (quantize_matrix, and the two-dimensional path of quantize_address, of
-- pockettitan/scheduler/tiler.py). A quantizer is a parameter, of which the theorems assume
-- that it acts on a concatenation of rows as on its parts; what the budget computes with
-- floats is an argument, by the dtype and the dimensions of a matrix.
--
-- No other recursion here runs on a bound. Not modelled: torch and numpy arithmetic, JSON and
-- the opening of files, timing, threads, the rest of the validator, quantization itself, the
-- grouping of expert tensors (pockettitan/package/slicing.py), the prefetcher, the store of
-- DomainSlice, and the exporters.
mod Prelude
pub mod Format
pub mod Runtime
pub mod Sim
pub mod Streaming
pub mod Scheduler
pub mod Quantizers
pub mod Package
pub mod Domainslice
mod Tests
