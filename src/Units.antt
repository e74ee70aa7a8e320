-- ===== src/Units.antt =====
-- Bytes and clusters, the conversions of include/ocfs2/ocfs2.h. A cluster has 2 ^ `s_clustersize_bits`
-- bytes.
pub mod Rounding
mod Examples
use debian_ocfs2_tools.Base.{ℕ, ◌+◌, ◌-◌, ◌*◌, ◌/◌, ◌%◌, ◌^◌, ltb, if◌then◌else◌}

-- `ocfs2_clusters_to_bytes`
unfoldable pub clusters_to_bytes : ℕ → ℕ → ℕ
clusters_to_bytes s_clustersize_bits clusters =
    let ret = clusters * 2 ^ s_clustersize_bits % 2 ^ 64 in
    if ltb ret clusters then 2 ^ 64 - 1 else ret

-- `ocfs2_bytes_to_clusters`
unfoldable pub bytes_to_clusters : ℕ → ℕ → ℕ
bytes_to_clusters s_clustersize_bits bytes =
    let ret = bytes / 2 ^ s_clustersize_bits in if ltb (2 ^ 32 - 1) ret then 2 ^ 32 - 1 else ret

-- `ocfs2_clusters_in_bytes`
unfoldable pub clusters_in_bytes : ℕ → ℕ → ℕ
clusters_in_bytes s_clustersize_bits bytes =
    let sum = (bytes + 2 ^ s_clustersize_bits - 1) % 2 ^ 64 in
    let ret = (if ltb sum bytes then 2 ^ 64 - 1 else sum) / 2 ^ s_clustersize_bits in
    if ltb (2 ^ 32 - 1) ret then 2 ^ 32 - 1 else ret
