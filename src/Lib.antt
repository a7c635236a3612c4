-- ===== src/Lib.antt =====
-- A verification library for INDW, the data workflow of this repository (src/indw).
--
-- The program turns raw documents into a deduplicated, filtered corpus. Ingestion writes each source
-- to a file of lines (Sink) whose number is recorded beside it (Jsonl). The sources are read in turn,
-- by weight, and their lines numbered (Sources). Fast workers preprocess lines in any order (Stages);
-- the lines that survive go on as payloads, and wait in lanes by size (Lanes); the runner (Graph)
-- submits them to heavy workers, which clean them (Stages again); the apply coordinator (Coordinator)
-- puts the lines back in the order of their numbers and hands each to the merge step (Merge), which
-- asks the exact deduplicator (Dedup) and the quality gate about each chunk, writes what is kept, and
-- counts in the checkpoint (Checkpoint). One run at a time holds the work directory (Lock); messages
-- between stages may go through files (Spool). The packer (Packer) cuts the corpus into training rows.
--
-- Coordinator  src/indw/schedule/apply/coordinator.py. `step` is one call by another thread or one
--              region of `run_loop` under its lock; `run` is any interleaving of them.
-- Lanes        src/indw/schedule/dispatch/lanes.py and `lane_worker_slots` of
--              src/indw/schedule/config/tune.py. The buffers are in Lanes.Buffers.
-- Graph        the submission and collection of batches in src/indw/schedule/graph/runner.py;
--              `submit_heavy_lanes` is `_submit_heavy_lanes`.
-- Dedup        src/indw/dedup/exact.py, src/indw/ingest/hash.py and `BoundedLRU` of
--              src/indw/store/io/cache.py. `HashIndex` is `PersistentHashIndex`; `ExactHashDedup` is in
--              Dedup.Seen, the invariant in Dedup.Known, the specification in Dedup.Answers, and
--              src/indw/dedup/service/exact_shard.py in Dedup.Shards.
-- Checkpoint   `MergeCheckpoint` and `reconcile_checkpoint_output` of
--              src/indw/schedule/state/checkpoint.py and `validate_merge_accounting` of
--              src/indw/schedule/monitor/invariants.py.
-- Merge        src/indw/schedule/apply/merge.py: the loop over the chunks here, the line in Merge.Lines.
-- Spool        `FilesystemSpoolQueue` of src/indw/schedule/graph/queues.py: the specification in Spool.Fifo,
--              the opening over old files in Spool.Restart.
-- Lock         src/indw/schedule/state/lock.py; `merge_run_locks` is a run of several processes, in which
--              the reading and the writing of `acquire_merge_run_lock` are separate steps.
-- Packer       src/indw/store/export/packing/binpack.py: feeding in Packer.Feed, rows in Packer.Pack.
-- Sink         src/indw/ingest/sink.py: `Writer` is `BufferedJsonlWriter`, and `stream_rows` the loop of
--              `stream_hf_to_jsonl`.
-- Jsonl        src/indw/store/io/jsonl.py: counting, parsing and the record of a source's lines.
-- Sources      src/indw/schedule/core.py, where `iterate` is `__iter__` of `_InterleavedSources`, and
--              `load_mix_weights` of src/indw/schedule/read/sources.py; `_reader_thread` of
--              src/indw/schedule/dispatch/parallel.py is in Sources.Reader.
-- Stages       the document context and its payload (src/indw/schedule/state/context.py; the store of
--              texts, src/indw/schedule/state/survivor.py, is in Stages.Survivor), the stages of
--              src/indw/schedule/stages/engine.py and src/indw/schedule/admission/tier01.py in
--              Stages.Engine and Stages.Cleaning, and the pools of the workers of
--              src/indw/schedule/stages/pools and src/indw/schedule/intel/pools in Stages.Pools and
--              Stages.HeavyPools. The engine does in one call what the pools do in turn.
-- Prelude      shared names, Python's dict, lists and tests on native numbers.
--
-- Fuel: `count_ready` has the length of the buffer, `bisect` the length of the list and `lane_loop`
-- the length of the lane, from which each of its rounds takes a payload. `iterate` has one round of
-- the schedule for each line and each end of a file, `Sources.Files.enough`. A loop that takes one
-- element off a finite list or dict in each round is recursion on it. The coordinator's loop does not
-- end by itself; its turns are the actions of a run.
--
-- Parameters: callbacks, the quality gate, the filters, the text measures, the cleaning pipeline and
-- the merge step's sink act on an abstract world, or are functions; each returns, except where the
-- file that uses it says that it may raise. Orjson is a pair of functions, with the round trip of its
-- documentation where a theorem needs it. The SQLite table and the LRU cache of cachetools are records
-- of operations with the laws that their documentation states. Clock readings and random choices are
-- arguments.
--
-- Not modelled: text cleaning, extraction and scoring (heuristics on text), embeddings, files and
-- processes, metrics and reports. Integers are natural numbers, as in Python without a bound; the
-- division of floats in `reconcile_checkpoint_output` is that of integers, with which it agrees below
-- 2 ^ 53.
pub mod Prelude
pub mod Coordinator
pub mod Checkpoint
pub mod Dedup
pub mod Graph
pub mod Jsonl
pub mod Lanes
pub mod Lock
pub mod Merge
pub mod Packer
pub mod Sink
pub mod Spool
pub mod Sources
pub mod Stages
