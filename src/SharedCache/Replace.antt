-- ===== src/SharedCache/Replace.antt =====
-- `insert` of crates/backends/backend_common/src/shared_prefix_cache.rs, of tokens that the cache holds.
