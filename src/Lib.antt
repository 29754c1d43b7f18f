-- ===== src/Lib.antt =====
-- herbert-rs: a model of the inference server's core state, and theorems about it.
--
-- herbert-rs runs language models on CPUs and GPUs. A request's tokens are prefilled into a KV cache, or
-- their longest cached prefix is restored from the shared prefix cache; then tokens are decoded one by one,
-- each chosen by the sampler under the think budget, appended to the KV cache (which H2O eviction keeps
-- below its budget), watched for repetition, and sent to the client as a stream of events. Speculative
-- decoding proposes several tokens with a small model, verifies them with the large one and rolls both
-- caches back to what was accepted.
--
-- Kv (crates/backends/backend_common/src/kv_cache.rs): the data of a KV cache in its four formats, `KvStore`
--   with `append`, `truncate_to`, `snapshot`, `restore_from_snapshot`; in Kv.Quant the quantizers and the
--   conversions of crates/core/src/tensor.rs.
-- SharedCache (crates/backends/backend_common/src/shared_prefix_cache.rs): the in-memory prefix cache over snapshots of Kv,
--   `lookup`, `insert`, `evict_lru`, one call after the other as the mutex orders them.
-- H2o (crates/backends/backend_common/src/h2o.rs): `select_kept`, `compact` and `h2o_evict` on a `KvStore`.
-- Sampler (crates/core/src/sampler.rs): `Sampler::sample`, `argmax`, `ThinkBudget`; `choose` is how the
--   decode loops use them.
-- Repetition (crates/core/src/decode_utils.rs): `detect_repetition_loop`.
-- Speculative (crates/backends/backend_common/src/speculative.rs): `SpeculativeDecoder::step` against two backends given
--   by their operations.
-- Stream (crates/server/src/handlers.rs, crates/server/src/sse.rs and
--   crates/server/src/prompt.rs): `run_inference` from the first token to the end of
--   the message, with `Stream.Protocol` the automaton that the events must pass.
-- DiskCache (crates/backends/backend_common/src/prefix_cache.rs): the file format, `lookup`, `load_kv_data`, `save` and
--   `evict_if_needed` over a directory as state, on a `KvStore`.
-- Positions (crates/backends/backend_common/src/position_ids.rs): `build_vl_position_ids`.
-- Tools (crates/cli/src/tools/parsing.rs): the extractors of tool calls.
-- ThreadPool.Dispatcher (crates/backends/backend_common/src/thread_pool.rs): `PriorityDispatcher`: `acquire`, its loop
--   (`wake`) and `release` on `DispatchState`; Queue is the line it stands for, Threads any number of threads at it.
-- ThreadPool.Job (the same file, and execution_phase.rs beside it): `parallel_for_with_max_workers` and `worker_loop` on
--   `SharedState`, with System the caller and the workers that take the mutex in any order.
-- Topology (crates/backends/backend_common/src/topology.rs): `parse_cpu_list`, `physical_core_ids`, `detect_topology`, on the
--   names of a directory and the contents of files.
-- Admission (crates/server/src/metrics.rs and crates/server/src/handlers.rs): the semaphore, the queue and the counters, with
--   requests side by side, one atomic operation at a time.
-- Chat (crates/cli/src/chat.rs): `run_decode_loop` and what it prints.
-- Experts (crates/backends/backend_common/src/expert_pool.rs and generic_moe.rs beside it): `top_k_indices` and
--   `record_and_sort_by_frequency`.
-- Floats: the operations of `f32` that the code uses, as a record, so that no arithmetic is fixed.
-- Prelude: tests into Bool, lists measured by native numbers, slices and copies that can panic, loops.
--
-- Conventions. A panic is `none`. A machine integer keeps its wrap-around where the code can reach it;
-- `usize` positions and lengths are numbers. Logging and timing are left out. Threads and requests are
-- moves of a step relation, each move what its code does between two other threads' turns; a wait on a
-- condition variable may end at any time. The loop of `evict_lru` has fuel for one round more than there
-- are entries, of which each round takes out one; the loop of the text fallback has fuel for the length of
-- the text, of which each round takes off at least the 23 bytes of its two tags; the loops of Positions and
-- Tools have a round for each token, image or byte.
--
-- Parameters: the hash of the tokens; the files that topology.rs reads; the standard library's sorts, of
-- which only that they permute what their comparison is defined on is used; the tokenizer, the JSON parser
-- and `trim`; the backends of speculative decoding.
--
-- Not modelled: tensor arithmetic, kernels, vision encoders and GPU backends, which are floating-point code,
-- assembly and driver calls; model loading, configuration and the HTTP layer, which are glue around files and
-- serde; the binary formats of the weight cache; EAGLE-3 drafting; the commands of the chat and the desktop
-- application; statistics that are only printed.
pub mod Admission
pub mod Chat
pub mod DiskCache
pub mod Experts
pub mod Floats
pub mod H2o
pub mod Kv
pub mod Positions
pub mod Prelude
pub mod Repetition
pub mod Sampler
pub mod SharedCache
pub mod Speculative
pub mod Stream
pub mod ThreadPool
pub mod Tools
pub mod Topology
