-- ===== src/Tests/Mount.antt =====
-- The theorems on a mounted file system, at an image that `ext2Open` accepts.
use ext2p.Prelude.{
  ltb, ◌⊎◌, ◌&&◌, ℕ, ◌≡◌, refl, arith, List, [], ◌∷◌, ◌++◌, Bool, true, false, Option, none, some,
  length, replicate,
}
use ext2p.Machine.{Run, ok, fatal, fault, out_of_fuel}
use ext2p.Util.{OpenFile, absent, present, util_read_file}
use ext2p.Disk.{
  disk_open, disk_skip, disk_copy, fetch, bytes_at, require, disk_check_bounds, disk_seek,
  disk_seek_start, disk_get_pos,
}
use ext2p.Superblock.{sb_read, superblock_of_bytes}
use ext2p.Inode.{inode_read}
use ext2p.Bg.{
  BlockGroup, bg_read, read_bg_table, descriptor_of_bytes, block_size, read_inodes, group_of,
}
use ext2p.Ext2.{
  Ext2, ext2_open, ext2_get_inode, ext2_get_dir, ext2_read_file, ext2_delete_file,
  ext2_save_to_file, inode_to_bg, group_at, group_count,
}
use ext2p.Ext2.Open.{Bytes, ext2_save_to_file-ext2_open, ext2_open-one_group}
use ext2p.Ext2.Blocks.{Block, Heap, ext2_open_blocks, ext2_free_blocks}
use ext2p.Ext2.Blocks.Freed.{full, ext2_open_blocks-mounted}
use ext2p.Ext2.Blocks.Counted.{ext2_free_blocks-counted}
use ext2p.Output.{Out}
use ext2p.Shell.{Shell, Host}
use ext2p.Shell.Fsdump.{shell_fsdump, fsdump_flag}
use ext2p.Shell.Fsdump.Dumped.{is_dumpable, shell_fsdump_lem}
use ext2p.Shell.Commands.Remove.{with_fs}
use ext2p.Tests.Samples.{dot, entry_a}

-- the superblock: 5 blocks in groups of 4, 2 inodes of 128 bytes in each, and the magic
abbrev pub sb_bytes : List ℕ
sb_bytes =
    replicate 4 0
    ++ (5
        ∷ (replicate 27 0
            ++ (4
                ∷ (replicate 7 0
                    ++ (2
                        ∷ (replicate 15 0 ++ (0x53 ∷ (0xef ∷ (replicate 30 0 ++ (128 ∷ []))))))))))

abbrev pub tiny : List ℕ
tiny = replicate 1024 0 ++ (sb_bytes ++ replicate 1000 0)

abbrev pub all_bytes : List ℕ → Bool
all_bytes [] = true
all_bytes (b ∷ bs) = ltb b 256 && all_bytes bs

pub Bytes-all : (bs : List ℕ) → all_bytes bs ≡ true → Bytes bs
Bytes-all [] h = tt
Bytes-all (b ∷ bs) h = (ground arith, Bytes-all bs (ground arith))

tiny-Bytes : Bytes tiny
tiny-Bytes = Bytes-all tiny refl

abbrev empty_group : BlockGroup
empty_group = record {
  sb = superblock_of_bytes [];
  desc = descriptor_of_bytes [];
  block_bitmap = [];
  inode_bitmap = [];
  inodes = [];
  data_disk = record { start = 0; pos = 0; size = 0 };
  blocks_read = 0;
}

abbrev host : Host
host = record { file = λ path. absent; can_write = λ path. true; now = 7; fuel = 1025 }

abbrev shell : Shell
shell = record { cd = 2; path = []; run = true; err = 0; fs = none }

abbrev unmounted : Ext2
unmounted = record {
  mem = record { size = 0; byte = λ p. 0 };
  disk = record { start = 0; pos = 0; size = 0 };
  bgs = [];
}

abbrev mounted_of : Run (Option Ext2) → Ext2
mounted_of (ok (some e)) = e
mounted_of (ok none) = unmounted
mounted_of fatal = unmounted
mounted_of fault = unmounted
mounted_of out_of_fuel = unmounted

abbrev mounts : Run (Option Ext2) → Bool
mounts (ok (some e)) = true
mounts (ok none) = false
mounts fatal = false
mounts fault = false
mounts out_of_fuel = false

mounts_lem : (r : Run (Option Ext2)) → mounts r ≡ true → r ≡ ok (some (mounted_of r))
mounts_lem (ok (some e)) h = refl
mounts_lem (ok none) h = cc
mounts_lem fatal h = cc
mounts_lem fault h = cc
mounts_lem out_of_fuel h = cc

abbrev pub mounted : Ext2
mounted = mounted_of (ext2_open (present (length tiny) true tiny))

tiny-mounts : mounts (ext2_open (present (length tiny) true tiny)) ≡ true
unfolding ext2_open bg_read group_count disk_open disk_skip util_read_file sb_read disk_copy fetch
    bytes_at require disk_check_bounds read_bg_table superblock_of_bytes descriptor_of_bytes
    block_size disk_seek disk_seek_start read_inodes inode_read group_of disk_get_pos
tiny-mounts = refl

abbrev pub file : OpenFile
file = present (length tiny) true tiny

pub mounted-lem : ext2_open file ≡ ok (some mounted)
mounted-lem = mounts_lem (ext2_open file) tiny-mounts

ext2_save_to_file-ext2_open_example : ext2_save_to_file true mounted ≡ ok (tiny, mounted)
ext2_save_to_file-ext2_open_example =
    ext2_save_to_file-ext2_open tiny mounted tiny-Bytes (omega arith) mounted-lem

group_of_3 : inode_to_bg mounted 3 ≡ ok 1
unfolding inode_to_bg group_at ext2_open bg_read group_count disk_open disk_skip util_read_file
    sb_read disk_copy fetch bytes_at require disk_check_bounds read_bg_table superblock_of_bytes
    descriptor_of_bytes block_size disk_seek disk_seek_start read_inodes inode_read group_of
    disk_get_pos
group_of_3 = refl

ext2_open-one_group_example :
    (ext2_get_inode 3 mounted ≡ fault)
    × (ext2_get_dir 9 3 mounted ≡ fault)
    × (ext2_read_file 3 mounted ≡ fault)
    × (ext2_delete_file 7 dot entry_a [] mounted ≡ fault)
ext2_open-one_group_example =
    ext2_open-one_group tiny mounted 3 1 9 7 dot entry_a [] (omega arith) mounted-lem group_of_3
      (omega arith) refl refl

abbrev no_blocks : Heap
no_blocks b = false

blocks_opened : ext2_open_blocks file no_blocks ≡ ok (some mounted, full no_blocks)
blocks_opened = ext2_open_blocks-mounted tiny no_blocks mounted mounted-lem

-- two block groups
ext2_free_blocks-counted_example :
    (h2 : Heap) × (ext2_free_blocks mounted (full no_blocks) ≡ fault) × ((b : Block) → h2 b ≡ false)
unfolding ext2_open bg_read group_count disk_open disk_skip util_read_file sb_read disk_copy fetch
    bytes_at require disk_check_bounds read_bg_table superblock_of_bytes descriptor_of_bytes
    block_size disk_seek disk_seek_start read_inodes inode_read group_of disk_get_pos
ext2_free_blocks-counted_example =
    ext2_free_blocks-counted tiny no_blocks (omega arith) (λ b. refl) blocks_opened

abbrev read_group : Run BlockGroup → BlockGroup
read_group (ok bg) = bg
read_group fatal = empty_group
read_group fault = empty_group
read_group out_of_fuel = empty_group

abbrev is_ok : Run BlockGroup → Bool
is_ok (ok bg) = true
is_ok fatal = false
is_ok fault = false
is_ok out_of_fuel = false

is_ok_lem : (r : Run BlockGroup) → is_ok r ≡ true → r ≡ ok (read_group r)
is_ok_lem (ok bg) h = refl
is_ok_lem fatal h = cc
is_ok_lem fault h = cc
is_ok_lem out_of_fuel h = cc

abbrev first_group : BlockGroup
first_group = read_group (group_at mounted.bgs 0)

first_group-read : is_ok (group_at mounted.bgs 0) ≡ true
unfolding group_at ext2_open bg_read group_count disk_open disk_skip util_read_file sb_read
    disk_copy fetch bytes_at require disk_check_bounds read_bg_table superblock_of_bytes
    descriptor_of_bytes block_size disk_seek disk_seek_start read_inodes inode_read group_of
    disk_get_pos
first_group-read = refl

-- `fsdump sr`: the superblock and the root's inode
shell_fsdump_lem_example :
    ((is_dumpable 7 first_group 33 ≡ true)
      × ((out : Out) × (shell_fsdump host
              ((102 ∷ []) ∷ ((115 ∷ 114 ∷ []) ∷ []))
              (with_fs shell mounted)
            ≡ ok ((0, out), with_fs shell mounted))))
    ⊎ ((is_dumpable 7 first_group 33 ≡ false)
        × (shell_fsdump host ((102 ∷ []) ∷ ((115 ∷ 114 ∷ []) ∷ [])) (with_fs shell mounted)
            ≡ fault))
unfolding fsdump_flag
shell_fsdump_lem_example =
    shell_fsdump_lem host shell tiny mounted first_group (102 ∷ []) (115 ∷ 114 ∷ []) 33
      (omega arith) mounted-lem (is_ok_lem (group_at mounted.bgs 0) first_group-read) refl
