-- ===== src/SlotMap/Store.antt =====
-- `ocfs2_load_slot_map` reads what `ocfs2_store_slot_map` wrote.
use debian_ocfs2_tools.Base.{
  ℕ, ◌+◌, ◌-◌, ◌*◌, ◌/◌, ◌≤◌, ◌<◌, ◌≡◌, ◌∙◌, sym, ap, Bool, true, ◌==◌, ◌||◌, List, ◌++◌, leb, map,
  take, replicate, length, length-append, arith, All, ok, bind_ok, require_ok, ok_injective,
  short_write,
}
use debian_ocfs2_tools.Base.Round.{round_up-le, take-append, append_assoc}
use debian_ocfs2_tools.SlotMap.{
  SlotData, map_size, map_bytes, read_slot_map, slot_data_to_map, load_slot_map, FileWrite,
  write_buffer, write_slot_map, store_slot_map,
}
use debian_ocfs2_tools.SlotMap.Bytes.{
  kept, IsNode, read_back, read_back-map_bytes, length-map_bytes,
}

-- What `ocfs2_file_write` promises: behind a call that succeeds, the file begins with the bytes that
-- the call says were written.
abbrev pub IsFileWrite : FileWrite → Type 0
IsFileWrite file_write =
    (buf file : List ℕ) (wrote : ℕ) (file' : List ℕ)
    → file_write buf file ≡ ok (wrote, file')
    → (rest : List ℕ) × (file' ≡ take wrote buf ++ rest)

-- Loading a file that begins with the bytes of a map.
pub load-prefix :
    (extended : Bool) (md : List SlotData) (rest : List ℕ)
    → All IsNode md
    → load_slot_map extended (length md) (map_bytes (slot_data_to_map extended md) ++ rest)
      ≡ ok (map (kept extended) md)
unfolding load_slot_map read_slot_map read_back
load-prefix extended md rest h =
    let file = map_bytes (slot_data_to_map extended md) ++ rest in
    let long : leb (map_size extended (length md)) (length file) ≡ true = ground (
      arith,
      length-append (map_bytes (slot_data_to_map extended md)) rest,
      length-map_bytes extended md,
    ) in
    rw long (ap ok (read_back-map_bytes extended md rest h))

module _ (file_write : FileWrite) (writes : IsFileWrite file_write) (blocksize : ℕ)
    (some_bytes : 0 < blocksize) (extended : Bool) where
  -- The file begins with the bytes of the map.
  pub write-prefix :
      (md : List SlotData) (file file' : List ℕ)
      → store_slot_map file_write blocksize extended md file ≡ ok file'
      → (rest : List ℕ) × (file' ≡ map_bytes (slot_data_to_map extended md) ++ rest)
  unfolding store_slot_map write_slot_map write_buffer
  write-prefix md file file' stored =
      let wrap = slot_data_to_map extended md in
      let size = map_size extended (length md) in
      let bytes = (size + blocksize - 1) / blocksize * blocksize in
      let buf = map_bytes wrap ++ replicate (bytes - size) 0 in
      let ((wrote, written), wrote_ok, after) = bind_ok (file_write buf file) _ file' stored in
      let (enough, same) = require_ok (wrote == bytes || wrote == size) short_write _ file' after in
      let (rest, begins) = writes buf file wrote written wrote_ok in
      let long : length (map_bytes wrap) ≤ wrote =
        ground (arith, length-map_bytes extended md, round_up-le size blocksize some_bytes) in
      (
        take (wrote - length (map_bytes wrap)) (replicate (bytes - size) 0) ++ rest,
        sym (ok_injective same)
            ∙ begins
            ∙ ap (λ l. l ++ rest)
                (take-append wrote (map_bytes wrap) (replicate (bytes - size) 0) long)
            ∙ append_assoc (map_bytes wrap)
                (take (wrote - length (map_bytes wrap)) (replicate (bytes - size) 0)) rest,
      )

  -- If `ocfs2_store_slot_map` succeeds, `ocfs2_load_slot_map` finds the slots that were stored: in
  -- the extended format every one as it was, in the old format with the node numbers cut to 16
  -- bits, and 65535 read as an empty slot.
  pub load-store :
      (md : List SlotData) (file file' : List ℕ)
      → All IsNode md
      → store_slot_map file_write blocksize extended md file ≡ ok file'
      → load_slot_map extended (length md) file' ≡ ok (map (kept extended) md)
  load-store md file file' h stored =
      let (rest, begins) = write-prefix md file file' stored in
      rw begins (load-prefix extended md rest h)
