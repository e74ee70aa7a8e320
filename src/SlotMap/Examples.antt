-- ===== src/SlotMap/Examples.antt =====
-- A file system that writes all it is asked to, and the theorems of the slot map on it.
use debian_ocfs2_tools.Base.{
  ℕ, ◌+◌, ◌/◌, ◌≡◌, ◌∙◌, refl, ap, false, List, [], ◌∷◌, ◌++◌, length, take, drop, map, ok, arith,
  ok_injective, sym,
}
use debian_ocfs2_tools.SlotMap.{
  SlotData, map_size, map_bytes, slot_bytes, slot_data_to_map, data_to_slot, FileWrite,
  store_slot_map, write_slot_map, write_buffer, load_slot_map,
}
use debian_ocfs2_tools.SlotMap.Bytes.{kept}
use debian_ocfs2_tools.SlotMap.Store.{IsFileWrite, load-store}
use debian_ocfs2_tools.SlotMap.Size.{SlotInode, Resize}

take_all : (xs : List ℕ) → take (length xs) xs ≡ xs
take_all [] = refl
take_all (x ∷ xs) = ap (λ l. x ∷ l) (take_all xs)

abbrev write_all : FileWrite
write_all buf file = ok (length buf, buf ++ drop (length buf) file)

write_all-IsFileWrite : IsFileWrite write_all
write_all-IsFileWrite buf file wrote file' h =
    let e : (length buf, buf ++ drop (length buf) file) ≡ (wrote, file') = ok_injective h in
    (
      drop (length buf) file,
      sym (ap (λ p. p.1) e)
          ∙ ap (λ l. l ++ drop (length buf) file) (sym (take_all buf))
          ∙ ap (λ n. take n buf ++ drop (length buf) file) (ap (λ p. p.0) e),
    )

-- Clusters of 8 bytes
abbrev grow : Resize
grow n di = ok (record di { i_clusters = di.i_clusters + n })

abbrev shrink : Resize
shrink size di = ok (record di { i_clusters = size / 8 })

-- A node number that does not fit in 16 bits.
abbrev slots : List SlotData
slots = record { sd_valid = 1; sd_node_num = 65538 } ∷ record { sd_valid = 0; sd_node_num = 7 } ∷ []

slots-stored :
    store_slot_map write_all 8 false slots [] ≡ ok (2 ∷ 0 ∷ 255 ∷ 255 ∷ 0 ∷ 0 ∷ 0 ∷ 0 ∷ [])
unfolding store_slot_map write_slot_map write_buffer map_size map_bytes slot_bytes slot_data_to_map
    data_to_slot
slots-stored = refl

load-store_example :
    load_slot_map false 2 (2 ∷ 0 ∷ 255 ∷ 255 ∷ 0 ∷ 0 ∷ 0 ∷ 0 ∷ []) ≡ ok (map (kept false) slots)
load-store_example =
    load-store write_all write_all-IsFileWrite 8 (omega arith) false slots []
      (2 ∷ 0 ∷ 255 ∷ 255 ∷ 0 ∷ 0 ∷ 0 ∷ 0 ∷ []) (omega arith, (omega arith, tt)) slots-stored

abbrev no_clusters : SlotInode
no_clusters = record { i_clusters = 0; i_size = 0; bytes = [] }

abbrev formatted : SlotInode
formatted = record {
  i_clusters = 1;
  i_size = 8;
  bytes = 255 ∷ 255 ∷ 255 ∷ 255 ∷ 255 ∷ 255 ∷ 255 ∷ 255 ∷ [];
}
