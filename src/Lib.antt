-- ===== src/Lib.antt =====
-- Models of the core of ocfs2-tools, the user space tools of the OCFS2 cluster file system, and what holds
-- of them. The tools (mkfs.ocfs2, fsck.ocfs2, tunefs.ocfs2, debugfs.ocfs2 and others) share the library
-- libocfs2, which reads and changes a volume; what is modelled is the library's logic on data in memory,
-- and the check of extent lists and the link counts of fsck.ocfs2.
--
-- Base      shared helpers: Boolean tests, lists, error codes and fallible results (Errors), C strings
--           (Text), the bits of native numbers (Bits, Bits.Words, Bits.Xor), rounding (Round).
-- Feature   libocfs2/feature_string.c. The three flag words are a record; the tables are the source's.
--           ocfs2_parse_feature is `parse_feature` (split at commas, then `parse_tokens`),
--           ocfs2_merge_feature_flags_with_level is `merge_feature_flags_with_level`, the closure of the
--           features to clear is `feature_clear_deps`; Print has the two printing functions.
-- Dir       libocfs2/dir_iterate.c with the callbacks of link.c, unlink.c and lookup.c. A block is the entry
--           that stands at each byte offset; the blocks that are walked are those whose entries do not overlap,
--           as ocfs2_read_dir_block demands. `process_dir_entry` is the loop, a callback gets the buffer and
--           its private data and returns them with its two flags. Chain says which entries a block lists;
--           Link, LinkWalk and LinkBlock follow link_proc, First the walks that stop at the first entry that
--           matches, Unlink and Lookup apply it. The loop has fuel, two more than the size of the block,
--           and each round goes at least 8 bytes on.
-- Directory ocfs2_process_dir_block and ocfs2_dir_iterate of libocfs2/dir_iterate.c, ocfs2_read_dir_block and
--           ocfs2_write_dir_block of libocfs2/dirblock.c with their check of the entries, the loop over blocks of
--           libocfs2/extents.c, ocfs2_expand_dir, ocfs2_link, ocfs2_unlink and ocfs2_lookup, on top of Dir. A
--           directory is the list of its blocks; `Io` holds the errors of the device and the allocator.
--           Sound says that well-formed blocks pass the check; Blocks has the entries that a directory lists;
--           Stored says that a block that a callback changed is written. Link, Expand,
--           Grow and Linked follow ocfs2_link, Find and Unlinked the others, Session has one call after the
--           other.
-- SlotMap   libocfs2/slot_map.c, on the bytes of the system file. ocfs2_file_write, ocfs2_extend_allocation
--           and ocfs2_truncate are parameters, with what the code relies on as hypotheses.
-- Bitops    libocfs2/bitops.c, on a list of bytes. The loop over whole bytes has the size as fuel.
-- Crc       crc32_le of libocfs2/blockcheck.c with its table, as on a machine that stores the low byte first;
--           the address of the buffer is an argument, since the code aligns its pointer.
-- BlockCheck  the rest of libocfs2/blockcheck.c. `abort` is `none`. The check information lies in the
--           block, at an offset. calc_code_bit has 32 rounds as fuel, one for each power of two of a word;
--           the loop of ocfs2_hamming_encode has one round for each bit; the `while` loop of
--           ocfs2_hamming_fix takes at most one step, since no two parity bits above 2 are neighbours.
-- BackupSuper  libocfs2/backup_super.c: where the backups are, and which block is read for one.
-- Extents   fsck.ocfs2/extent.c. The answers to the questions are a parameter. `check_eb` has fuel for the
--           nesting of extent blocks; where it ends, the block is taken for valid, which it does not come to
--           (Depth) if a list of another depth than expected is corrected.
-- Icount    fsck.ocfs2/icount.c. The bitmap of libocfs2/bitmap.c is the interface `BlockBitmap`, and Bitmap
--           fills it with the operations of Bitops on one buffer; rb_insert_color and rb_erase are parameters.
--           An end of the program and a loop that does not end are `none`. Sorted and Search read the tree as
--           a sorted list, Write and Nodes follow the writes into it, Set and Update the calls, NextNode and
--           Next the search for the next count, Session has one call after the other.
-- Units     the conversions between bytes and clusters in include/ocfs2/ocfs2.h, with the bounds of their words.
--
-- Not modelled: memory allocation and its failure, reading and writing devices, messages, byte swaps on
-- big-endian machines (numbers are read from the disk format directly), directories with
-- inline data, the search of an extent tree for a block, and the other tools.
pub mod Base
pub mod Feature
pub mod Dir
pub mod SlotMap
pub mod Bitops
pub mod BackupSuper
pub mod Extents
pub mod BlockCheck
pub mod Crc
pub mod Directory
pub mod Icount
pub mod Units
