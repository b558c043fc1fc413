-- ===== src/Inode.antt =====
-- src/inode.c and inc/inode.h. The signed fields (`size_lo`, the times) are kept as their 32 bits.
pub mod Masks
use ext2p.Prelude.{ℕ, ◌^◌, ◌+◌, ◌-◌, List, ltb, if◌then◌else◌, replicate}
use ext2p.Machine.{Cmd, pure, ◌>>=◌}
use ext2p.Struct.{u8s, u16, u32, u32s}
use ext2p.Disk.{disk_copy}

pub record Inode : Type 0 where
  pub mode : ℕ
  pub uid : ℕ
  pub size_lo : ℕ
  pub access_time : ℕ
  pub create_time : ℕ
  pub modify_time : ℕ
  pub delete_time : ℕ
  pub gid : ℕ
  pub link_count : ℕ
  pub blocks : ℕ
  pub flags : ℕ
  pub osd1 : ℕ
  pub block : List ℕ
  pub generation : ℕ
  pub file_acl : ℕ
  pub size_hi : ℕ
  pub faddr : ℕ
  pub osd2 : List ℕ

-- the layout of the 128 bytes
unfoldable pub inode_of_bytes : List ℕ → Inode
inode_of_bytes bs = record {
  mode = u16 bs 0;
  uid = u16 bs 2;
  size_lo = u32 bs 4;
  access_time = u32 bs 8;
  create_time = u32 bs 12;
  modify_time = u32 bs 16;
  delete_time = u32 bs 20;
  gid = u16 bs 24;
  link_count = u16 bs 26;
  blocks = u32 bs 28;
  flags = u32 bs 32;
  osd1 = u32 bs 36;
  block = u32s bs 40 15;
  generation = u32 bs 100;
  file_acl = u32 bs 104;
  size_hi = u32 bs 108;
  faddr = u32 bs 112;
  osd2 = u8s bs 116 12;
}

-- `memset(inode, 0, 128)`
unfoldable pub zero_inode : Inode
unfolding inode_of_bytes
zero_inode = inode_of_bytes (replicate 128 0)

unfoldable pub inode_read : Cmd Inode
unfolding disk_copy
inode_read = do bytes ← disk_copy 128; pure (inode_of_bytes bytes)

-- INODE_FM_FILE, INODE_FM_DIR, INODE_RES_ROOT_DIR
abbrev pub fm_file : ℕ
fm_file = 0x8000

abbrev pub fm_dir : ℕ
fm_dir = 0x4000

-- INODE_FL_INDEX_DIR
abbrev pub fl_index_dir : ℕ
fl_index_dir = 0x1000

abbrev pub res_root_dir : ℕ
res_root_dir = 2

-- an `int32_t` converted to `uint64_t`: the sign is copied into the upper half
abbrev pub sext64 : ℕ → ℕ
sext64 w = if ltb w (2 ^ 31) then w else w + (2 ^ 64 - 2 ^ 32)
