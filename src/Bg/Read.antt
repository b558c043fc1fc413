-- ===== src/Bg/Read.antt =====
-- What `bgRead` delivers of an image.
pub mod Steps
pub mod Kept
use ext2p.Prelude.{
  if_true, ℕ, zero, suc, ◌+◌, ◌*◌, ◌-◌, ◌/◌, ◌%◌, ◌≤◌, ◌<◌, ◌≡◌, refl, arith, ◌∙◌, ap, List, [],
  ◌∷◌, true, Bool, ◌==◌, if◌then◌else◌, some, get_elem?, lt→ltb, Bool-cases, inl, inr,
}
use ext2p.Machine.{State, ok, and_then-ok, Cmd, pure, u32, u64, set_pos}
use ext2p.Disk.{bytes_at, disk_copy, disk_skip, disk_seek, disk_get_pos, disk_clone, offset}
use ext2p.Disk.Bounds.{IsValid, disk_copy_lem, disk_skip_lem, disk_seek_lem}
use ext2p.Inode.{Inode, inode_of_bytes, inode_read}
use ext2p.Superblock.{
  Superblock, superblock_of_bytes, ext2_super_magic, sb_read, sb_warnings, Warning,
}
use ext2p.Bg.{
  BlockGroup, BlockGroupDescriptor, descriptor_of_bytes, Tables, block_size, read_inodes,
  read_bg_table, group_of, bg_read,
}
use ext2p.Bg.Read.Steps.{
  inodes_from, get_elem?-inodes_from, copy-ok, skip-ok, seek-ok, read_inodes-ok,
}

-- the superblock at `base`; where the descriptor of group `num` stands behind it, and the descriptor
abbrev pub sb_at : State → (base : ℕ) → Superblock
sb_at s base = superblock_of_bytes (bytes_at s.mem base 264)

abbrev pub table_start : State → (base size : ℕ) → ℕ
table_start s base size = if size == 1024 then base + 1024 else s.fp.start + size

abbrev pub desc_pos : State → (base num size : ℕ) → ℕ
desc_pos s base num size = table_start s base size + num * (size / 32) % u32

abbrev pub desc_at : State → (base num size : ℕ) → BlockGroupDescriptor
desc_at s base num size = descriptor_of_bytes (bytes_at s.mem (desc_pos s base num size) 32)

-- where a block lies, in the 32 bits of its distance
abbrev pub block_pos : State → (size block : ℕ) → ℕ
block_pos s size block = s.fp.start + size * block % u32

-- A superblock with the right magic and blocks of `size` bytes stands at `base`; it, the descriptor of
-- group `num` and the tables that the descriptor names lie in the image; an inode has 128 bytes at
-- least.
pub record GroupAt (s : State) (base num size : ℕ) : Type 0 where
  pub magic : ((sb_at s base).magic == ext2_super_magic) ≡ true
  pub at_size : block_size (sb_at s base) ≡ ok size
  pub valid : IsValid s
  pub started : s.fp.start ≤ base
  pub room : base + 1024 < s.fp.start + s.fp.size
  pub size_room : size < s.fp.size
  pub desc_room : desc_pos s base num size + 32 < s.fp.start + s.fp.size
  pub block_room : size * (desc_at s base num size).block_bitmap % u32 + size < s.fp.size
  pub inode_room : size * (desc_at s base num size).inode_bitmap % u32 + size < s.fp.size
  pub table_room :
      size * (desc_at s base num size).inode_table % u32
        + (sb_at s base).inodes_per_group * (sb_at s base).inode_size
      < s.fp.size
  pub large : 128 ≤ (sb_at s base).inode_size
  pub small : (sb_at s base).inode_size < u32

module _ {s : State} {base num size : ℕ} (at : GroupAt s base num size) where
  abbrev sb : Superblock
  sb = sb_at s base

  abbrev desc : BlockGroupDescriptor
  desc = desc_at s base num size

  abbrev table_at : ℕ
  table_at = block_pos s size desc.inode_table

  abbrev pub table_end : ℕ
  table_end = table_at + sb.inodes_per_group * sb.inode_size

  abbrev pub tables : Tables
  tables = record {
    desc = desc;
    block_bitmap = bytes_at s.mem (block_pos s size desc.block_bitmap) size;
    inode_bitmap = bytes_at s.mem (block_pos s size desc.inode_bitmap) size;
    inodes = inodes_from s sb.inode_size sb.inodes_per_group table_at;
  }

  pub sb_read-ok :
      sb_read (set_pos base s) ≡ ok ((true, sb, sb_warnings sb), set_pos (base + 1024) s)
  unfolding sb_read
  sb_read-ok =
      and_then-ok _ (copy-ok s at.valid base 264 at.started (omega (arith, at.room)))
      ∙ ap (λ (c : Cmd (Bool × Superblock × List Warning)). c (set_pos (base + 264) s))
          (if_true _ at.magic)
      ∙ and_then-ok _
          (skip-ok s at.valid (base + 264) 760 (omega (arith, at.started)) (omega (arith, at.room)))
      ∙ ap (λ q. ok ((true, sb, sb_warnings sb), set_pos q s)) (omega arith)

  started : s.fp.start ≤ table_start s base size
  started = ground (arith, at.started)

  tables-ok :
      read_bg_table sb size (set_pos (desc_pos s base num size) s)
      ≡ ok (tables, set_pos table_end s)
  unfolding read_bg_table
  tables-ok =
      and_then-ok _
        (copy-ok s at.valid (desc_pos s base num size) 32 (omega (arith, started)) at.desc_room)
      ∙ and_then-ok _ (
          seek-ok s at.valid (desc_pos s base num size + 32) (size * desc.block_bitmap % u32)
            (omega (arith, started)) at.desc_room (omega (arith, at.block_room)))
      ∙ and_then-ok _ (
          copy-ok s at.valid (block_pos s size desc.block_bitmap) size (omega arith)
            (omega (arith, at.block_room)))
      ∙ and_then-ok _ (
          seek-ok s at.valid (block_pos s size desc.block_bitmap + size)
            (size * desc.inode_bitmap % u32) (omega arith) (omega (arith, at.block_room))
            (omega (arith, at.inode_room)))
      ∙ and_then-ok _ (
          copy-ok s at.valid (block_pos s size desc.inode_bitmap) size (omega arith)
            (omega (arith, at.inode_room)))
      ∙ and_then-ok _ (
          seek-ok s at.valid (block_pos s size desc.inode_bitmap + size)
            (size * desc.inode_table % u32) (omega arith) (omega (arith, at.inode_room))
            (omega (arith, at.table_room)))
      ∙ and_then-ok _ (
          read_inodes-ok s at.valid sb.inode_size sb.inodes_per_group table_at at.large at.small
            (omega arith) (omega (arith, at.table_room)))

  moved-ok :
      (if size == 1024 then pure tt else disk_seek size) (set_pos (base + 1024) s)
      ≡ ok (tt, set_pos (table_start s base size) s)
  moved-ok = elim (Bool-cases (size == 1024)) [
    | inl kib ↦ rw kib refl
    | inr other ↦
        rw other
          (seek-ok s at.valid (base + 1024) size (omega (arith, at.started)) at.room at.size_room)
  ]

  abbrev pub group : BlockGroup
  group = record {
    sb = sb;
    desc = desc;
    block_bitmap = tables.block_bitmap;
    inode_bitmap = tables.inode_bitmap;
    inodes = tables.inodes;
    data_disk = disk_clone (set_pos table_end s).fp;
    blocks_read = offset (set_pos table_end s).fp / size % u32;
  }

  pub group_of-ok : group_of sb size tables (set_pos table_end s) ≡ ok (group, set_pos table_end s)
  unfolding group_of disk_get_pos
  group_of-ok = refl

  pub read-ok : bg_read num (set_pos base s) ≡ ok (some group, set_pos table_end s)
  unfolding bg_read
  read-ok =
      and_then-ok _ sb_read-ok
      ∙ and_then-ok _ (and_then-ok _ at.at_size)
      ∙ and_then-ok _ moved-ok
      ∙ and_then-ok _ (
          skip-ok s at.valid (table_start s base size) (num * (size / 32) % u32) started
            (omega (arith, at.desc_room)))
      ∙ and_then-ok _ tables-ok
      ∙ and_then-ok _ group_of-ok

  -- Where a block group lies in the image, `bgRead` of group `num` returns `true`. It has read the
  -- superblock at the disk's position, and as the descriptor the 32 bytes at `num` times a 32nd of the
  -- block size, in 32 bits, behind the start of the descriptors; with 32 bytes for each descriptor this is
  -- the one of the group in blocks of 1024 bytes. The descriptors start behind the superblock's
  -- 1024 bytes, or in larger blocks with the disk's second block. It has read the two bitmaps that this
  -- descriptor names, a block each, and inode `i` of the group as the 128 bytes at `i` times the inode
  -- size in the inode table that it names. The disk stands behind the table, and the group's own disk and
  -- its count of blocks start there.
  pub bg_read_lem :
      (i : ℕ)
      → i < (sb_at s base).inodes_per_group
      → (bg : BlockGroup) × (bg_read num (set_pos base s) ≡ ok (some bg, set_pos table_end s))
        × (bg.sb ≡ sb_at s base)
        × (bg.desc ≡ desc_at s base num size)
        × (bg.block_bitmap ≡ bytes_at s.mem (block_pos s size bg.desc.block_bitmap) size)
        × (bg.inode_bitmap ≡ bytes_at s.mem (block_pos s size bg.desc.inode_bitmap) size)
        × (get_elem? bg.inodes i
            ≡ some (
                inode_of_bytes (
                  bytes_at s.mem
                    (block_pos s size bg.desc.inode_table + i * bg.sb.inode_size)
                    128)))
        × (bg.data_disk ≡ disk_clone (set_pos table_end s).fp)
        × (bg.blocks_read ≡ offset (set_pos table_end s).fp / size % u32)
  bg_read_lem i h = (
    group,
    read-ok,
    refl,
    refl,
    refl,
    refl,
    get_elem?-inodes_from s sb.inode_size sb.inodes_per_group table_at i h,
    refl,
    refl,
  )
