-- ===== src/SlotMap.antt =====
-- The slot map, libocfs2/slot_map.c: which node holds which slot of the file system. The system file
-- is a list of bytes; memory is always available.
pub mod Bytes
pub mod Store
pub mod Size
mod Examples
use debian_ocfs2_tools.Base.{
  ℕ, zero, suc, ◌+◌, ◌-◌, ◌*◌, ◌/◌, ◌%◌, Bool, true, false, ◌==◌, ◌&&◌, ◌||◌, not, ltb, leb, List,
  [], ◌∷◌, ◌++◌, if◌then◌else◌, map, take, replicate, length, Result, ok, err, ◌>>=◌, ◌>>◌, require,
  short_read, short_write, internal_failure, too_many_slots,
}

-- `struct ocfs2_extended_slot`, without the reserved bytes
pub record ExtendedSlot : Type 0 where
  pub es_valid : ℕ
  pub es_node_num : ℕ

-- `union ocfs2_slot_map_wrapper`
pub data SlotMapWrapper : Type 0 where
  mw_map : List ℕ → SlotMapWrapper
  mw_map_extended : List ExtendedSlot → SlotMapWrapper

-- `struct ocfs2_slot_data`; `struct ocfs2_slot_map_data` is a list of these.
pub record SlotData : Type 0 where
  pub sd_valid : ℕ
  pub sd_node_num : ℕ

-- The number of bytes of a map.
unfoldable pub map_size : Bool → ℕ → ℕ
map_size extended num_slots = if extended then num_slots * 8 else num_slots * 2

-- The little-endian numbers of the file, `ocfs2_swap_slot_map` and `ocfs2_swap_slot_map_extended`:
-- the first `n` slots.
unfoldable pub swap_slot_map : ℕ → List ℕ → List ℕ
swap_slot_map (suc n) (a ∷ b ∷ bytes) = (a + 256 * b) ∷ swap_slot_map n bytes
swap_slot_map _ _ = []

unfoldable pub swap_slot_map_extended : ℕ → List ℕ → List ExtendedSlot
swap_slot_map_extended (suc n) (v ∷ _ ∷ _ ∷ _ ∷ a ∷ b ∷ c ∷ d ∷ bytes) =
    record { es_valid = v; es_node_num = a + 256 * b + 65536 * c + 16777216 * d }
    ∷ swap_slot_map_extended n bytes
swap_slot_map_extended _ _ = []

-- The bytes of a map.
unfoldable pub slot_bytes : List ℕ → List ℕ
slot_bytes [] = []
slot_bytes (s ∷ ss) = s % 256 ∷ s / 256 % 256 ∷ slot_bytes ss

unfoldable pub extended_slot_bytes : List ExtendedSlot → List ℕ
extended_slot_bytes [] = []
extended_slot_bytes (s ∷ ss) =
    s.es_valid % 256
    ∷ 0
    ∷ 0
    ∷ 0
    ∷ s.es_node_num % 256
    ∷ s.es_node_num / 256 % 256
    ∷ s.es_node_num / 65536 % 256
    ∷ s.es_node_num / 16777216 % 256
    ∷ extended_slot_bytes ss

unfoldable pub map_bytes : SlotMapWrapper → List ℕ
unfolding slot_bytes extended_slot_bytes
map_bytes (mw_map ss) = slot_bytes ss
map_bytes (mw_map_extended ss) = extended_slot_bytes ss

-- `__ocfs2_read_slot_map`, on what the system file holds
unfoldable pub read_slot_map : Bool → ℕ → List ℕ → Result SlotMapWrapper
unfolding map_size swap_slot_map swap_slot_map_extended
read_slot_map extended num_slots file =
    require (leb (map_size extended num_slots) (length file)) short_read
    >> ok (
        if extended
        then mw_map_extended (swap_slot_map_extended num_slots file)
        else mw_map (swap_slot_map num_slots file))

-- `OCFS2_INVALID_SLOT` in 16 bits
abbrev pub invalid_slot : ℕ
invalid_slot = 65535

-- One round of `ocfs2_slot_map_to_data`, on data that are zero before
unfoldable pub slot_to_data : ℕ → SlotData
slot_to_data s =
    if not (s == invalid_slot)
    then record { sd_valid = 1; sd_node_num = s }
    else record { sd_valid = 0; sd_node_num = 0 }

unfoldable pub extended_slot_to_data : ExtendedSlot → SlotData
extended_slot_to_data s =
    if not (s.es_valid == 0)
    then record { sd_valid = 1; sd_node_num = s.es_node_num }
    else record { sd_valid = 0; sd_node_num = 0 }

-- `ocfs2_slot_map_to_data`
unfoldable pub slot_map_to_data : SlotMapWrapper → List SlotData
unfolding slot_to_data extended_slot_to_data
slot_map_to_data (mw_map ss) = map slot_to_data ss
slot_map_to_data (mw_map_extended ss) = map extended_slot_to_data ss

-- One round of `ocfs2_slot_data_to_map`, on a map that is zero before
unfoldable pub data_to_slot : SlotData → ℕ
data_to_slot d = if not (d.sd_valid == 0) then d.sd_node_num % 65536 else invalid_slot

unfoldable pub data_to_extended_slot : SlotData → ExtendedSlot
data_to_extended_slot d =
    if not (d.sd_valid == 0)
    then record { es_valid = 1; es_node_num = d.sd_node_num }
    else record { es_valid = 0; es_node_num = 0 }

-- `ocfs2_slot_data_to_map`
unfoldable pub slot_data_to_map : Bool → List SlotData → SlotMapWrapper
unfolding data_to_slot data_to_extended_slot
slot_data_to_map extended md =
    if extended
    then mw_map_extended (map data_to_extended_slot md)
    else mw_map (map data_to_slot md)

-- `ocfs2_load_slot_map`
unfoldable pub load_slot_map : Bool → ℕ → List ℕ → Result (List SlotData)
unfolding read_slot_map slot_map_to_data
load_slot_map extended num_slots file =
    read_slot_map extended num_slots file >>= λ wrap. ok (slot_map_to_data wrap)

-- `ocfs2_file_write` at offset 0, on what the file holds: how many bytes it wrote, and what the
-- file holds then.
abbrev pub FileWrite : Type 0
FileWrite = List ℕ → List ℕ → Result (ℕ × List ℕ)

module _ (file_write : FileWrite) (blocksize : ℕ) (extended : Bool) where
  -- The buffer that is written: the map, and zeros up to the end of a block.
  unfoldable pub write_buffer : ℕ → SlotMapWrapper → List ℕ
  unfolding map_size map_bytes
  write_buffer num_slots wrap =
      let size = map_size extended num_slots in
      let bytes = (size + blocksize - 1) / blocksize * blocksize in
      map_bytes wrap ++ replicate (bytes - size) 0

  -- `__ocfs2_write_slot_map`: what the system file holds then
  unfoldable pub write_slot_map : ℕ → SlotMapWrapper → List ℕ → Result (List ℕ)
  unfolding map_size map_bytes write_buffer
  write_slot_map num_slots wrap file =
      let size = map_size extended num_slots in
      let bytes = (size + blocksize - 1) / blocksize * blocksize in
      file_write (write_buffer num_slots wrap) file >>= λ r.
      require (r.0 == bytes || r.0 == size) short_write >> ok r.1

  -- `ocfs2_store_slot_map`
  unfoldable pub store_slot_map : List SlotData → List ℕ → Result (List ℕ)
  unfolding write_slot_map slot_data_to_map
  store_slot_map md file = write_slot_map (length md) (slot_data_to_map extended md) file
