-- ===== src/Bg/Read/Kept.antt =====
-- A block group in an image of which other parts have changed.
use ext2p.Prelude.{ℕ, ◌≡◌, refl, arith, ap}
use ext2p.Machine.{Mem, State}
use ext2p.Disk.{bytes_at}
use ext2p.Superblock.{superblock_of_bytes}
use ext2p.Bg.{descriptor_of_bytes}
use ext2p.Bg.Read.{GroupAt, sb_at, desc_at, desc_pos, table_end}

-- the state with another image
abbrev pub with_mem : State → Mem → State
with_mem s m = record { mem = m; fp = s.fp }

module _ {s : State} {base num size : ℕ} (at : GroupAt s base num size) (m : Mem)
    (as_large : m.size ≡ s.mem.size) (same_sb : bytes_at m base 264 ≡ bytes_at s.mem base 264)
    (same_desc : bytes_at m (desc_pos s base num size) 32
      ≡ bytes_at s.mem (desc_pos s base num size) 32) where
  pub sb-kept : sb_at (with_mem s m) base ≡ sb_at s base
  sb-kept = ap superblock_of_bytes same_sb

  pub desc-kept : desc_at (with_mem s m) base num size ≡ desc_at s base num size
  desc-kept = ap descriptor_of_bytes same_desc

  -- The group is there as long as its superblock and its descriptor are.
  pub GroupAt-kept : GroupAt (with_mem s m) base num size
  GroupAt-kept = record {
    magic = rw same_sb at.magic;
    at_size = rw same_sb at.at_size;
    valid = omega (arith, at.valid, as_large);
    started = at.started;
    room = at.room;
    size_room = at.size_room;
    desc_room = at.desc_room;
    block_room = rw same_desc at.block_room;
    inode_room = rw same_desc at.inode_room;
    table_room = rw (same_sb, same_desc) at.table_room;
    large = rw same_sb at.large;
    small = rw same_sb at.small;
  }

  pub table_end-kept : table_end GroupAt-kept ≡ table_end at
  table_end-kept = rw (same_sb, same_desc) refl
