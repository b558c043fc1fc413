-- ===== src/Tests/Loads.antt =====
-- The theorem on `bgRead`, at the image that is mounted in the tests.
use ext2p.Prelude.{ℕ, ◌+◌, ◌*◌, ◌/◌, ◌%◌, ◌<◌, ◌≡◌, refl, arith, some, get_elem?}
use ext2p.Machine.{State, ok, set_pos, u32}
use ext2p.Disk.{bytes_at, disk_clone, offset}
use ext2p.Inode.{inode_of_bytes}
use ext2p.Superblock.{superblock_of_bytes}
use ext2p.Bg.{BlockGroup, block_size, bg_read, descriptor_of_bytes}
use ext2p.Bg.Read.{GroupAt, sb_at, desc_at, block_pos, bg_read_lem}
use ext2p.Ext2.Open.{loaded}
use ext2p.Tests.Mount.{tiny}

abbrev image : State
image = loaded tiny

tiny_group : GroupAt image 1024 0 1024
unfolding block_size superblock_of_bytes descriptor_of_bytes bytes_at
tiny_group = record {
  magic = refl;
  at_size = refl;
  valid = omega arith;
  started = omega arith;
  room = omega arith;
  size_room = omega arith;
  desc_room = omega arith;
  block_room = omega arith;
  inode_room = omega arith;
  table_room = omega arith;
  large = omega arith;
  small = omega arith;
}

two_inodes : 1 < (sb_at image 1024).inodes_per_group
unfolding superblock_of_bytes bytes_at
two_inodes = omega arith

-- behind the two inodes of the table
abbrev behind : ℕ
behind =
    block_pos image 1024 (desc_at image 1024 0 1024).inode_table
    + (sb_at image 1024).inodes_per_group * (sb_at image 1024).inode_size

bg_read_lem_example :
    (bg : BlockGroup) × (bg_read 0 (set_pos 1024 image) ≡ ok (some bg, set_pos behind image))
    × (bg.sb ≡ sb_at image 1024)
    × (bg.desc ≡ desc_at image 1024 0 1024)
    × (bg.block_bitmap ≡ bytes_at image.mem (block_pos image 1024 bg.desc.block_bitmap) 1024)
    × (bg.inode_bitmap ≡ bytes_at image.mem (block_pos image 1024 bg.desc.inode_bitmap) 1024)
    × (get_elem? bg.inodes 1
        ≡ some (
            inode_of_bytes (
              bytes_at image.mem
                (block_pos image 1024 bg.desc.inode_table + 1 * bg.sb.inode_size)
                128)))
    × (bg.data_disk ≡ disk_clone (set_pos behind image).fp)
    × (bg.blocks_read ≡ offset (set_pos behind image).fp / 1024 % u32)
bg_read_lem_example = bg_read_lem tiny_group 1 two_inodes
