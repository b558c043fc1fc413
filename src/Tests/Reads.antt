-- ===== src/Tests/Reads.antt =====
-- The theorems on disks, directory blocks and the address of a block, at the sample's image.
use ext2p.Prelude.{false, ℕ, ◌+◌, ◌≡◌, refl, arith, [], inl, true, ◌==◌, if◌then◌else◌}
use ext2p.Machine.{State, ok, fatal, out_of_fuel, set_pos, ◌>>◌}
use ext2p.Util.{util_read16, util_read32, util_read64}
use ext2p.Util.Words.{util_read_lem}
use ext2p.Disk.{
  disk_read8, disk_read16, disk_read32, disk_read64, disk_write16, disk_write32, disk_write64,
  disk_rewind, bytes_at, disk_clone, disk_get_pos,
}
use ext2p.Disk.Bounds.{disk_read_lem}
use ext2p.Disk.Words.{written, disk_read-disk_write}
use ext2p.Superblock.{superblock_of_bytes}
use ext2p.Dir.{dir_read_linked_list}
use ext2p.Dir.Listing.{Reads, dir_read_linked_list-Listing}
use ext2p.Dir.Loop.{Explained, dir_read_linked_list-Explained, dir_read_linked_list-stuck}
use ext2p.Bg.{BlockGroup, Tables, group_of, block_size, bg_offset_block, descriptor_of_bytes}
use ext2p.Bg.Address.{bg_offset_block-group_of}
use ext2p.Tests.Samples.{image, at_dir_block, entries, sample_sb}

-- a valid disk that stands seven bytes from the image's end
abbrev near_end : State
near_end = set_pos 8185 at_dir_block

disk_read_lem_example :
    (disk_read8 near_end ≡ fatal)
    × (disk_read16 near_end ≡ fatal)
    × (disk_read32 near_end ≡ fatal)
    × (disk_read64 near_end ≡ fatal)
disk_read_lem_example = disk_read_lem near_end (omega arith)

disk_read-disk_write_example :
    ((disk_write16 70000 >> disk_rewind 2 >> disk_read16) at_dir_block
      ≡ ok (4464, written 2 70000 at_dir_block))
    × ((disk_write32 70000 >> disk_rewind 4 >> disk_read32) at_dir_block
        ≡ ok (70000, written 4 70000 at_dir_block))
    × ((disk_write64 70000 >> disk_rewind 8 >> disk_read64) at_dir_block
        ≡ ok (70000, written 8 70000 at_dir_block))
disk_read-disk_write_example = disk_read-disk_write 70000 at_dir_block (omega arith) (omega arith)

dir_read_linked_list-Listing_example :
    Reads 2048 1024 at_dir_block entries (dir_read_linked_list 4 1024 at_dir_block)
unfolding bytes_at
dir_read_linked_list-Listing_example =
    dir_read_linked_list-Listing 2048 1024 4 entries at_dir_block (omega arith) (omega arith)
      (omega arith) tt
      (
        omega arith,
        refl,
        (λ e. absurd (omega arith)),
        omega arith,
        omega arith,
        (
          omega arith,
          refl,
          (λ e. absurd (omega arith)),
          omega arith,
          omega arith,
          (
            omega arith,
            refl,
            (λ e. absurd (omega arith)),
            omega arith,
            omega arith,
            inl (omega arith),
          ),
        ),
      )

dir_read_linked_list-Explained_example :
    Explained at_dir_block 3072 true (dir_read_linked_list 1025 1024 at_dir_block)
dir_read_linked_list-Explained_example =
    dir_read_linked_list-Explained 1025 1024 at_dir_block (omega arith) (omega arith) (omega arith)
      (omega arith)

-- an entry in use whose record length is zero
abbrev empty_record : State
empty_record = record {
  mem = record { size = 8193; byte = λ q. if q == 2048 then 2 else 0 };
  fp = record { start = 2048; pos = 2048; size = 6144 };
}

dir_read_linked_list-stuck_example : dir_read_linked_list 1000 1024 empty_record ≡ out_of_fuel
dir_read_linked_list-stuck_example =
    dir_read_linked_list-stuck 1000 1024 empty_record (omega arith) (omega arith) (omega arith)
      (omega arith) (λ e. absurd (omega arith)) refl

abbrev tables : Tables
tables = record { desc = descriptor_of_bytes []; block_bitmap = []; inode_bitmap = []; inodes = [] }

-- behind an inode table that ends inside block 2
abbrev behind_table : State
behind_table = record { mem = image; fp = record { start = 0; pos = 2148; size = 8192 } }

abbrev built : BlockGroup
built = record {
  sb = sample_sb;
  desc = descriptor_of_bytes [];
  block_bitmap = [];
  inode_bitmap = [];
  inodes = [];
  data_disk = record { start = 2148; pos = 2148; size = 6044 };
  blocks_read = 2;
}

bg_offset_block-group_of_example :
    (pos : ℕ) × (bg_offset_block built 3 ≡ ok pos) × (2148 + pos ≡ 3072 + 100)
unfolding group_of block_size disk_clone disk_get_pos superblock_of_bytes
bg_offset_block-group_of_example =
    bg_offset_block-group_of sample_sb 1024 3 tables behind_table behind_table built (omega arith)
      refl refl (omega arith) (omega arith) (omega arith) (omega arith) (omega arith) refl

-- the first entry's bytes, read from the most significant on
util_read_lem_example :
    (util_read16 false at_dir_block ≡ ok (0x0200, set_pos 2050 at_dir_block))
    × (util_read32 false at_dir_block ≡ ok (0x02000000, set_pos 2052 at_dir_block))
    × (util_read64 false at_dir_block ≡ ok (0x020000000c000102, set_pos 2056 at_dir_block))
util_read_lem_example = util_read_lem false at_dir_block (omega arith)
