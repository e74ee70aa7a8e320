-- ===== src/SlotMap/Size/Format.antt =====
-- A formatted slot map has room for all slots, and they are empty.
use debian_ocfs2_tools.Base.{ℕ, ◌+◌, ◌*◌, ◌≡◌, ok}
use debian_ocfs2_tools.SlotMap.{SlotData}
use debian_ocfs2_tools.SlotMap.Size.{SlotInode, Resize}

abbrev pub empty_slot : SlotData
empty_slot = record { sd_valid = 0; sd_node_num = 0 }

-- What `ocfs2_extend_allocation` and `ocfs2_truncate` promise of the number of clusters.
abbrev pub IsExtend : Resize → Type 0
IsExtend extend_allocation =
    (n : ℕ) (di di' : SlotInode)
    → extend_allocation n di ≡ ok di'
    → di'.i_clusters ≡ di.i_clusters + n

abbrev pub IsTruncate : ℕ → Resize → Type 0
IsTruncate clustersize truncate =
    (n : ℕ) (di di' : SlotInode) → truncate (n * clustersize) di ≡ ok di' → di'.i_clusters ≡ n
