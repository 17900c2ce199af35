-- ===== src/Config.antt =====
-- src/config.rs: the sizes and limits that the modelled code reads.
use edfs.Prelude.{ℕ, ◌*◌}

abbrev pub fastcdc_min_chunk_size : ℕ
fastcdc_min_chunk_size = 1024

abbrev pub fastcdc_avg_chunk_size : ℕ
fastcdc_avg_chunk_size = 512 * 1024

abbrev pub fastcdc_max_chunk_size : ℕ
fastcdc_max_chunk_size = 1024 * 1024

abbrev pub fuse_block_size_bytes : ℕ
fuse_block_size_bytes = 512

abbrev pub fuse_max_name_length : ℕ
fuse_max_name_length = 255

-- Durations are in milliseconds.
abbrev pub max_fetch_targets : ℕ
max_fetch_targets = 3

abbrev pub chunk_fetch_backoff : ℕ
chunk_fetch_backoff = 5_000

abbrev pub replication_rebalance_interval : ℕ
replication_rebalance_interval = 5_000

abbrev pub replication_eviction_interval : ℕ
replication_eviction_interval = 30_000

abbrev pub max_hashes_per_probe : ℕ
max_hashes_per_probe = 256

abbrev pub max_fetches_per_rebalance : ℕ
max_fetches_per_rebalance = 64
