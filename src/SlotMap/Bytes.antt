-- ===== src/SlotMap/Bytes.antt =====
-- A slot map reads back as it was written.
use debian_ocfs2_tools.Base.{
  ℕ, ◌+◌, ◌*◌, ◌/◌, ◌%◌, ◌<◌, ◌≡◌, ◌∙◌, refl, ap, ap₂, Bool, true, false, ◌==◌, List, [], ◌∷◌, ◌++◌,
  if◌then◌else◌, map, length, arith, All,
}
use debian_ocfs2_tools.SlotMap.{
  SlotMapWrapper, mw_map, mw_map_extended, SlotData, swap_slot_map, swap_slot_map_extended,
  slot_bytes, extended_slot_bytes, slot_to_data, extended_slot_to_data, data_to_slot,
  data_to_extended_slot, map_bytes, map_size, slot_data_to_map, slot_map_to_data,
}

-- What is left of a slot in the map: a node number is cut to 16 bits in the old format, where 65535
-- means that no node holds the slot.
unfoldable pub kept : Bool → SlotData → SlotData
kept true d =
    if d.sd_valid == 0
    then record { sd_valid = 0; sd_node_num = 0 }
    else record { sd_valid = 1; sd_node_num = d.sd_node_num }
kept false d =
    if d.sd_valid == 0
    then record { sd_valid = 0; sd_node_num = 0 }
    else if d.sd_node_num % 65536 == 65535
    then record { sd_valid = 0; sd_node_num = 0 }
    else record { sd_valid = 1; sd_node_num = d.sd_node_num % 65536 }

-- A node number is a `unsigned int`.
abbrev pub IsNode : SlotData → Type 0
IsNode d = d.sd_node_num < 4294967296

slot-kept : (d : SlotData) → slot_to_data (data_to_slot d) ≡ kept false d
unfolding slot_to_data data_to_slot kept
slot-kept d = ground arith

extended_slot-kept : (d : SlotData) → extended_slot_to_data (data_to_extended_slot d) ≡ kept true d
unfolding extended_slot_to_data data_to_extended_slot kept
extended_slot-kept d = ground arith

two_bytes : (n : ℕ) → n < 65536 → n % 256 + 256 * (n / 256 % 256) ≡ n
two_bytes n h = omega arith

four_bytes :
    (n : ℕ)
    → n < 4294967296
    → n % 256 + 256 * (n / 256 % 256) + 65536 * (n / 65536 % 256) + 16777216 * (n / 16777216 % 256)
      ≡ n
four_bytes n h = omega arith

data_to_slot-lt : (d : SlotData) → data_to_slot d < 65536
unfolding data_to_slot
data_to_slot-lt d = ground arith

swap-slot_bytes :
    (md : List SlotData) (rest : List ℕ)
    → swap_slot_map (length md) (slot_bytes (map data_to_slot md) ++ rest) ≡ map data_to_slot md
unfolding swap_slot_map slot_bytes
swap-slot_bytes [] rest = refl
swap-slot_bytes (d ∷ md) rest =
    ap₂ ◌∷◌ (two_bytes (data_to_slot d) (data_to_slot-lt d)) (swap-slot_bytes md rest)

extended_slot_bytes-back :
    (d : SlotData)
    → IsNode d
    → (let s = data_to_extended_slot d in
        record {
          es_valid = s.es_valid % 256;
          es_node_num =
              s.es_node_num % 256
              + 256 * (s.es_node_num / 256 % 256)
              + 65536 * (s.es_node_num / 65536 % 256)
              + 16777216 * (s.es_node_num / 16777216 % 256);
        })
      ≡ data_to_extended_slot d
unfolding data_to_extended_slot
extended_slot_bytes-back d h = ground (arith, four_bytes d.sd_node_num h)

swap-extended_slot_bytes :
    (md : List SlotData) (rest : List ℕ)
    → All IsNode md
    → swap_slot_map_extended
        (length md)
        (extended_slot_bytes (map data_to_extended_slot md) ++ rest)
      ≡ map data_to_extended_slot md
unfolding swap_slot_map_extended extended_slot_bytes
swap-extended_slot_bytes [] rest h = refl
swap-extended_slot_bytes (d ∷ md) rest h =
    ap₂ ◌∷◌ (extended_slot_bytes-back d h.0) (swap-extended_slot_bytes md rest h.1)

pub length-map_bytes :
    (extended : Bool) (md : List SlotData)
    → length (map_bytes (slot_data_to_map extended md)) ≡ map_size extended (length md)
unfolding map_bytes slot_data_to_map slot_bytes extended_slot_bytes map_size
length-map_bytes true [] = refl
length-map_bytes false [] = refl
length-map_bytes true (d ∷ md) = omega (arith, length-map_bytes true md)
length-map_bytes false (d ∷ md) = omega (arith, length-map_bytes false md)

-- The loops over the slots, one after the other.
slots-kept : (md : List SlotData) → map slot_to_data (map data_to_slot md) ≡ map (kept false) md
slots-kept [] = refl
slots-kept (d ∷ md) = ap₂ ◌∷◌ (slot-kept d) (slots-kept md)

extended_slots-kept :
    (md : List SlotData)
    → map extended_slot_to_data (map data_to_extended_slot md) ≡ map (kept true) md
extended_slots-kept [] = refl
extended_slots-kept (d ∷ md) = ap₂ ◌∷◌ (extended_slot-kept d) (extended_slots-kept md)

-- The map that is read off a file that begins with the bytes of a map.
unfoldable pub read_back : Bool → ℕ → List ℕ → SlotMapWrapper
read_back extended n file =
    if extended
    then mw_map_extended (swap_slot_map_extended n file)
    else mw_map (swap_slot_map n file)

pub read_back-map_bytes :
    (extended : Bool) (md : List SlotData) (rest : List ℕ)
    → All IsNode md
    → slot_map_to_data
        (read_back extended (length md) (map_bytes (slot_data_to_map extended md) ++ rest))
      ≡ map (kept extended) md
unfolding read_back map_bytes slot_data_to_map slot_map_to_data
read_back-map_bytes true md rest h =
    ap (map extended_slot_to_data) (swap-extended_slot_bytes md rest h) ∙ extended_slots-kept md
read_back-map_bytes false md rest h =
    ap (map slot_to_data) (swap-slot_bytes md rest) ∙ slots-kept md
