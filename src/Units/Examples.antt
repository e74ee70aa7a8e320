-- ===== src/Units/Examples.antt =====
-- Clusters of 4096 bytes.
use debian_ocfs2_tools.Base.{◌≤◌, ◌≡◌, ◌↔◌, refl, arith, ◌^◌, ◌-◌}
use debian_ocfs2_tools.Units.{clusters_to_bytes, bytes_to_clusters, clusters_in_bytes}
use debian_ocfs2_tools.Units.Rounding.{clusters_to_bytes-adjoint}

clusters_to_bytes-adjoint_example :
    ((2 ≤ bytes_to_clusters 12 10000) ↔ (clusters_to_bytes 12 2 ≤ 10000))
    × ((clusters_in_bytes 12 10000 ≤ 2) ↔ (10000 ≤ clusters_to_bytes 12 2))
clusters_to_bytes-adjoint_example =
    clusters_to_bytes-adjoint 12 10000 2 (omega arith) (omega arith) (omega arith)

rounds_up : clusters_in_bytes 12 10000 ≡ 3
unfolding clusters_in_bytes
rounds_up = refl

rounds_down : bytes_to_clusters 12 10000 ≡ 2
unfolding bytes_to_clusters
rounds_down = refl

-- The sum wraps around, and the result is bounded.
bounded : clusters_in_bytes 12 (2 ^ 64 - 1) ≡ 2 ^ 32 - 1
unfolding clusters_in_bytes
bounded = refl
