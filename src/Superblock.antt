-- ===== src/Superblock.antt =====
-- src/superblock.c and inc/superblock.h. Signed fields are kept as their bits.
pub mod Masks
use ext2p.Prelude.{ℕ, List, [], ◌∷◌, ◌++◌, ltb, ◌==◌, ◌||◌, if◌then◌else◌, Bool, true, false}
use ext2p.Output.{Out, lit, dec, hex4, warning, report}
use ext2p.Machine.{Cmd, pure, ◌>>=◌, ◌>>◌}
use ext2p.Struct.{u8, u8s, u16, u32, u32s}
use ext2p.Disk.{disk_copy, disk_skip}

pub record Superblock : Type 0 where
  pub inode_count : ℕ
  pub block_count : ℕ
  pub reserved_blocks_count : ℕ
  pub free_blocks_count : ℕ
  pub free_inodes_count : ℕ
  pub first_data_block : ℕ
  pub log_block_size : ℕ
  pub log_frag_size : ℕ
  pub blocks_per_group : ℕ
  pub frags_per_group : ℕ
  pub inodes_per_group : ℕ
  pub mount_time : ℕ
  pub write_time : ℕ
  pub mount_count : ℕ
  pub max_mount_count : ℕ
  pub magic : ℕ
  pub state : ℕ
  pub errors : ℕ
  pub minor_rev_level : ℕ
  pub last_check : ℕ
  pub check_interval : ℕ
  pub creator_os : ℕ
  pub rev_level : ℕ
  pub default_user_id : ℕ
  pub default_group_id : ℕ
  pub first_inode : ℕ
  pub inode_size : ℕ
  pub sb_block_group : ℕ
  pub features_compat : ℕ
  pub features_incompat : ℕ
  pub features_read_only : ℕ
  pub uuid : List ℕ
  pub volume_name : List ℕ
  pub mount_path : List ℕ
  pub compression_bitmap : ℕ
  pub pre_alloc_blocks_f : ℕ
  pub pre_alloc_blocks_d : ℕ
  pub reserved_gdt : ℕ
  pub journal_uuid : List ℕ
  pub journal_inode : ℕ
  pub journal_device : ℕ
  pub last_orphan : ℕ
  pub dir_hash_seeds : List ℕ
  pub default_hash_version : ℕ
  pub padding : List ℕ
  pub default_mount_options : ℕ
  pub first_meta_block_group : ℕ

-- the layout of the SB_SIZE bytes
unfoldable pub superblock_of_bytes : List ℕ → Superblock
superblock_of_bytes bs = record {
  inode_count = u32 bs 0;
  block_count = u32 bs 4;
  reserved_blocks_count = u32 bs 8;
  free_blocks_count = u32 bs 12;
  free_inodes_count = u32 bs 16;
  first_data_block = u32 bs 20;
  log_block_size = u32 bs 24;
  log_frag_size = u32 bs 28;
  blocks_per_group = u32 bs 32;
  frags_per_group = u32 bs 36;
  inodes_per_group = u32 bs 40;
  mount_time = u32 bs 44;
  write_time = u32 bs 48;
  mount_count = u16 bs 52;
  max_mount_count = u16 bs 54;
  magic = u16 bs 56;
  state = u16 bs 58;
  errors = u16 bs 60;
  minor_rev_level = u16 bs 62;
  last_check = u32 bs 64;
  check_interval = u32 bs 68;
  creator_os = u32 bs 72;
  rev_level = u32 bs 76;
  default_user_id = u16 bs 80;
  default_group_id = u16 bs 82;
  first_inode = u32 bs 84;
  inode_size = u16 bs 88;
  sb_block_group = u16 bs 90;
  features_compat = u32 bs 92;
  features_incompat = u32 bs 96;
  features_read_only = u32 bs 100;
  uuid = u8s bs 104 16;
  volume_name = u8s bs 120 16;
  mount_path = u8s bs 136 64;
  compression_bitmap = u32 bs 200;
  pre_alloc_blocks_f = u8 bs 204;
  pre_alloc_blocks_d = u8 bs 205;
  reserved_gdt = u16 bs 206;
  journal_uuid = u8s bs 208 16;
  journal_inode = u32 bs 224;
  journal_device = u32 bs 228;
  last_orphan = u32 bs 232;
  dir_hash_seeds = u32s bs 236 4;
  default_hash_version = u8 bs 252;
  padding = u8s bs 253 3;
  default_mount_options = u32 bs 256;
  first_meta_block_group = u32 bs 260;
}

-- EXT2_SUPER_MAGIC, SB_SIZE, SB_REV_DYNAMIC
abbrev pub ext2_super_magic : ℕ
ext2_super_magic = 0xEF53

abbrev pub sb_size : ℕ
sb_size = 264

abbrev pub rev_dynamic : ℕ
rev_dynamic = 1

pub data Warning : Type 0 where
  bad_state bad_errors bad_os bad_rev : Warning

abbrev pub warn : Bool → Warning → List Warning
warn true w = w ∷ []
warn false w = []

-- the WARN lines of `sbRead`, in order
unfoldable pub sb_warnings : Superblock → List Warning
sb_warnings sb =
    warn (sb.state == 0 || ltb 2 sb.state) bad_state
    ++ (warn (sb.errors == 0 || ltb 3 sb.errors) bad_errors
        ++ (warn (ltb 4 sb.creator_os) bad_os ++ warn (ltb 1 sb.rev_level) bad_rev))

-- The structure is filled before the magic is looked at. On a bad magic the function returns
-- `false` and the disk stays behind the 264 bytes.
unfoldable pub sb_read : Cmd (Bool × Superblock × List Warning)
unfolding disk_copy disk_skip sb_warnings
sb_read = do
  bytes ← disk_copy sb_size
  let sb = superblock_of_bytes bytes
  if sb.magic == ext2_super_magic
      then (do disk_skip 760; pure (true, sb, sb_warnings sb))
      else pure (false, sb, [])

abbrev warning_out : Superblock → Warning → Out
warning_out sb bad_state =
    warning ∷ lit "Superblock has bad state '" ∷ dec sb.state ∷ lit "', ignoring" ∷ []
warning_out sb bad_errors =
    warning ∷ lit "Superblock has bad errors '" ∷ dec sb.errors ∷ lit "', ignoring" ∷ []
warning_out sb bad_os =
    warning ∷ lit "Superblock has bad OS '" ∷ dec sb.creator_os ∷ lit "', ignoring" ∷ []
warning_out sb bad_rev =
    warning ∷ lit "Superblock has bad rev. '" ∷ dec sb.rev_level ∷ lit "', ignoring" ∷ []

abbrev pub warnings_out : Superblock → List Warning → Out
warnings_out sb [] = []
warnings_out sb (w ∷ ws) = warning_out sb w ++ warnings_out sb ws

-- what `sbRead` prints, by what it returns
unfoldable pub sb_read_out : Bool × Superblock × List Warning → Out
sb_read_out (true, sb, warnings) = warnings_out sb warnings
sb_read_out (false, sb, warnings) =
    report (lit "Superblock has bad magic " ∷ hex4 sb.magic ∷ lit " (should be EF53)" ∷ [])
