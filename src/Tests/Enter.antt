-- ===== src/Tests/Enter.antt =====
-- The commands on directories at the shell, in an image of two directories.
use ext2p.Prelude.{
  ℕ, List, [], ◌∷◌, ◌≡◌, ◌-◌, leb, if◌then◌else◌, get_or, refl, arith, inl, true, some,
}
use ext2p.Machine.{Mem, ok}
use ext2p.Util.{absent}
use ext2p.Disk.{bytes_at}
use ext2p.Inode.{inode_of_bytes}
use ext2p.Superblock.{superblock_of_bytes}
use ext2p.Dir.{Dir}
use ext2p.Dir.Listing.{Listing}
use ext2p.Bg.{Group, descriptor_of_bytes, inode_to_index, bg_get_inode, bg_offset_block, block_size}
use ext2p.Bg.Lookup.{DirAt}
use ext2p.Ext2.{Ext2, inode_to_bg, group_at}
use ext2p.Shell.{Shell, Host, shell_rmdir}
use ext2p.Shell.Stat.{shell_stat, stat_out}
use ext2p.Shell.Commands.Status.{shell_stat_lem}
use ext2p.Shell.Commands.Rmdir.{shell_ls-shell_rmdir}
use ext2p.Shell.Directory.{shell_cd, shell_ls, ls_entries}
use ext2p.Shell.Commands.Remove.{with_fs}
use ext2p.Shell.Commands.Enter.{entered, shell_cd-back}
use ext2p.Tests.Samples.{node_of, sample_sb}

-- `..` and `s` in block 2, and `..` in block 3
abbrev root_bytes : List ℕ
root_bytes =
    2 ∷ 0 ∷ 0 ∷ 0 ∷ 12 ∷ 0 ∷ 2 ∷ 2 ∷ 46 ∷ 46 ∷ 0 ∷ 0 ∷ 3 ∷ 0 ∷ 0 ∷ 0 ∷ 244 ∷ 3 ∷ 1 ∷ 2 ∷ 115 ∷ []

abbrev sub_bytes : List ℕ
sub_bytes = 2 ∷ 0 ∷ 0 ∷ 0 ∷ 0 ∷ 4 ∷ 2 ∷ 2 ∷ 46 ∷ 46 ∷ []

abbrev image : Mem
image = record {
  size = 8193;
  byte = λ q.
      if leb 3072 q
      then get_or sub_bytes (q - 3072) 0
      else if leb 2048 q
      then get_or root_bytes (q - 2048) 0
      else 0;
}

abbrev up_of : (next_entry : ℕ) → Dir
up_of next_entry = record {
  offset = 0;
  inode = 2;
  next_entry = next_entry;
  name_len = 2;
  filetype = 2;
  filename = 46 ∷ 46 ∷ [];
}

abbrev entry_s : Dir
entry_s = record {
  offset = 12;
  inode = 3;
  next_entry = 1012;
  name_len = 1;
  filetype = 2;
  filename = 115 ∷ [];
}

abbrev group : Group
group = record {
  mem = image;
  bg = record {
    sb = sample_sb;
    desc = descriptor_of_bytes [];
    block_bitmap = [];
    inode_bitmap = 7 ∷ [];
    inodes =
        node_of 0 0 0 [] ∷ node_of 0x41ed 1024 2 (2 ∷ []) ∷ node_of 0x41ed 1024 2 (3 ∷ []) ∷ [];
    data_disk = record { start = 2048; pos = 2048; size = 6144 };
    blocks_read = 2;
  };
}

abbrev system : Ext2
system = record {
  mem = image;
  disk = record { start = 0; pos = 2048; size = 8192 };
  bgs = some group.bg ∷ [];
}

abbrev host : Host
host = record { file = λ path. absent; can_write = λ path. true; now = 7; fuel = 1025 }

abbrev in_root : Shell
in_root = record { cd = 2; path = []; run = true; err = 0; fs = some system }

root_lists : Listing image 2048 1024 0 (up_of 12 ∷ (entry_s ∷ []))
unfolding bytes_at
root_lists = (
  omega arith,
  refl,
  (λ e. absurd (omega arith)),
  omega arith,
  omega arith,
  (omega arith, refl, (λ e. absurd (omega arith)), omega arith, omega arith, inl (omega arith)),
)

sub_lists : Listing image 3072 1024 0 (up_of 1024 ∷ [])
unfolding bytes_at
sub_lists =
    (omega arith, refl, (λ e. absurd (omega arith)), omega arith, omega arith, inl (omega arith))

root_dir : DirAt group 2 2048 1024 (up_of 12 ∷ (entry_s ∷ []))
unfolding inode_to_index bg_offset_block block_size superblock_of_bytes inode_of_bytes
root_dir = record {
  index = 1;
  node = node_of 0x41ed 1024 2 (2 ∷ []);
  block = 2;
  pos = 0;
  at_index = refl;
  at_node = refl;
  is_dir = refl;
  at_block = refl;
  at_size = refl;
  at_pos = refl;
  at_base = refl;
  valid = omega arith;
  room = omega arith;
  positive = omega arith;
  small = omega arith;
  some_entry = tt;
  lists = root_lists;
}

sub_dir : DirAt group 3 3072 1024 (up_of 1024 ∷ [])
unfolding inode_to_index bg_offset_block block_size superblock_of_bytes inode_of_bytes
sub_dir = record {
  index = 2;
  node = node_of 0x41ed 1024 2 (3 ∷ []);
  block = 3;
  pos = 1024;
  at_index = refl;
  at_node = refl;
  is_dir = refl;
  at_block = refl;
  at_size = refl;
  at_pos = refl;
  at_base = refl;
  valid = omega arith;
  room = omega arith;
  positive = omega arith;
  small = omega arith;
  some_entry = tt;
  lists = sub_lists;
}

abbrev in_sub : Ext2 → Shell
in_sub = entered in_root 3 (record { name = 115 ∷ []; inode = 3 } ∷ [])

-- `cd s`, `ls` and `cd ..`
shell_cd-back_example :
    (e0 : Ext2) × (e1 : Ext2) × (e2 : Ext2) × (shell_cd host ((99 ∷ []) ∷ ((115 ∷ []) ∷ [])) in_root
      ≡ ok ((0, []), in_sub e0))
    × (shell_ls host (in_sub e0) ≡ ok ((0, ls_entries (up_of 1024 ∷ [])), in_sub e1))
    × (shell_cd host ((99 ∷ []) ∷ ((46 ∷ 46 ∷ []) ∷ [])) (in_sub e1)
        ≡ ok ((0, []), with_fs in_root e2))
    × (e2.mem ≡ image)
unfolding root_dir sub_dir inode_to_bg group_at superblock_of_bytes inode_of_bytes
shell_cd-back_example =
    shell_cd-back host in_root system group.bg refl (up_of 12) (up_of 1024) entry_s (up_of 1024)
      (up_of 12 ∷ (entry_s ∷ [])) (up_of 1024 ∷ []) [] [] root_dir sub_dir (99 ∷ []) (115 ∷ []) refl
      refl refl refl refl refl (omega arith) (omega arith) refl refl refl (omega arith)
      (omega arith)

-- `rmdir s`, which `ls` lists then
shell_ls-shell_rmdir_example :
    (e0 : Ext2) × (e1 : Ext2) × (shell_rmdir host ((114 ∷ []) ∷ ((115 ∷ []) ∷ [])) in_root
      ≡ ok ((0, []), with_fs in_root e0))
    × (shell_ls host (with_fs in_root e0)
        ≡ ok ((0, ls_entries (up_of 12 ∷ (entry_s ∷ []))), with_fs in_root e1))
    × (e1.mem ≡ image)
unfolding root_dir inode_to_bg group_at superblock_of_bytes inode_of_bytes
shell_ls-shell_rmdir_example =
    shell_ls-shell_rmdir host in_root system group.bg refl (up_of 12 ∷ (entry_s ∷ [])) root_dir
      (114 ∷ []) (115 ∷ []) (up_of 12) entry_s [] refl refl refl (omega arith)

-- `stat s`: a directory of 1024 bytes and two sectors, in one block
shell_stat_lem_example :
    (e1 : Ext2) × (shell_stat host ((115 ∷ []) ∷ ((115 ∷ []) ∷ [])) in_root
      ≡ ok ((0, stat_out entry_s (node_of 0x41ed 1024 2 (3 ∷ [])) (1, 1) 1), with_fs in_root e1))
    × (e1.mem ≡ image)
unfolding root_dir inode_to_bg group_at superblock_of_bytes inode_of_bytes inode_to_index
    bg_get_inode
shell_stat_lem_example =
    shell_stat_lem host in_root system group.bg refl (up_of 12 ∷ (entry_s ∷ [])) root_dir (115 ∷ [])
      (115 ∷ []) (up_of 12) entry_s [] (node_of 0x41ed 1024 2 (3 ∷ [])) 2 refl refl refl refl
      (omega arith) (omega arith) refl (omega arith)
