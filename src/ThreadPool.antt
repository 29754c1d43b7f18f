-- ===== src/ThreadPool.antt =====
-- crates/backends/backend_common/src/thread_pool.rs: the dispatcher that serialises the callers of
-- `parallel_for`, and the job that the workers share.
pub mod Dispatcher
pub mod Job
mod Tests
