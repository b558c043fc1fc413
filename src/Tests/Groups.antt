-- ===== src/Tests/Groups.antt =====
-- The theorems on a block group, at the sample.
use ext2p.Prelude.{
  true, ℕ, ◌≡◌, refl, arith, List, [], ◌∷◌, length, inl, inr, some, get_elem?, take,
}
use ext2p.Machine.{ok, fault}
use ext2p.Disk.{bytes_at}
use ext2p.Inode.{inode_of_bytes}
use ext2p.Superblock.{superblock_of_bytes}
use ext2p.Dir.{Dir}
use ext2p.Dir.Listing.{Listing}
use ext2p.Dir.Shift.{moved}
use ext2p.Bg.{
  index_warning, Group, block_size, bg_get_inode, inode_to_index, bg_offset_block, bg_get_dir,
  bg_get_inode_size, bg_read_file,
}
use ext2p.Bg.Deletion.{bg_delete_file}
use ext2p.Bg.Lookup.{DirAt, moved_to}
use ext2p.Bg.Delete.{FileOf}
use ext2p.Bg.Content.{whole}
use ext2p.Bg.ReadFile.{FileAt, bg_read_file_lem, bg_read_file-overflow}
use ext2p.Bg.Remove.{bg_delete_file_frame, bg_delete_file_tables, bg_get_dir-bg_delete_file}
use ext2p.Ext2.{ext2_get_dir_out, Ext2, group_at, inode_to_bg, ext2_delete_file, ext2_get_dir}
use ext2p.Ext2.Delete.{ext2_get_dir-ext2_delete_file}
use ext2p.Tests.Samples.{image, dot, entry_a, entry_b, entries, sample, node_of}

pub sample_lists : Listing image 2048 1024 0 entries
unfolding bytes_at
sample_lists = (
  omega arith,
  refl,
  (λ e. absurd (omega arith)),
  omega arith,
  omega arith,
  (
    omega arith,
    refl,
    (λ e. absurd (omega arith)),
    omega arith,
    omega arith,
    (omega arith, refl, (λ e. absurd (omega arith)), omega arith, omega arith, inl (omega arith)),
  ),
)

unfoldable pub sample_dir : DirAt sample 2 2048 1024 entries
unfolding inode_to_index bg_offset_block block_size superblock_of_bytes inode_of_bytes
sample_dir = record {
  index = 1;
  node = node_of 0x41ed 1024 2 (2 ∷ []);
  block = 2;
  pos = 0;
  at_index = refl;
  at_node = refl;
  is_dir = refl;
  at_block = refl;
  at_size = refl;
  at_pos = refl;
  at_base = refl;
  valid = omega arith;
  room = omega arith;
  positive = omega arith;
  small = omega arith;
  some_entry = tt;
  lists = sample_lists;
}

unfoldable pub sample_file : FileOf sample 1 entry_a
unfolding inode_to_index superblock_of_bytes inode_of_bytes
sample_file = record {
  index = 2;
  bits = 15;
  at_index = refl;
  other = λ e. absurd (omega arith);
  node = node_of 0x81a4 3 2 (3 ∷ []);
  at_node = refl;
  at_bits = refl;
}

-- `.`, and the entry `b` moved down
abbrev left : List Dir
left = dot ∷ moved 12 (entry_b ∷ [])

bg_get_dir-bg_delete_file_example :
    (g' : Group) × (p : ℕ) × (bg_delete_file 7 dot entry_a (entry_b ∷ []) sample ≡ ok (tt, g'))
    × (bg_get_dir 3 2 g' ≡ ok (some left, moved_to p g'))
unfolding sample_dir moved
bg_get_dir-bg_delete_file_example =
    bg_get_dir-bg_delete_file dot entry_a (dot ∷ []) (entry_b ∷ []) sample_dir sample_file tt refl 7
      3 (omega arith)

bg_delete_file_frame_example :
    (g' : Group) × (bg_delete_file 7 dot entry_a (entry_b ∷ []) sample ≡ ok (tt, g'))
    × (g'.mem.size ≡ 8193)
    × (bytes_at g'.mem 3072 3 ≡ bytes_at sample.mem 3072 3)
unfolding sample_dir
bg_delete_file_frame_example =
    bg_delete_file_frame dot entry_a (dot ∷ []) (entry_b ∷ []) sample_dir sample_file tt refl 7 3072
      3 (inr (omega arith))

bg_delete_file_tables_example :
    (g' : Group) × (bg_delete_file 7 dot entry_a (entry_b ∷ []) sample ≡ ok (tt, g'))
    × (get_elem? g'.bg.inodes 3 ≡ some (node_of 0x81a4 0 2 (4 ∷ [])))
    × (g'.bg.inode_bitmap ≡ 11 ∷ [])
unfolding sample_dir sample_file
bg_delete_file_tables_example =
    bg_delete_file_tables dot entry_a (dot ∷ []) (entry_b ∷ []) sample_dir sample_file tt refl 7 3

unfoldable pub sample_node : FileAt sample 3 3 1024 (3072 ∷ [])
unfolding inode_to_index bg_get_inode bg_get_inode_size bg_offset_block block_size
    superblock_of_bytes inode_of_bytes
sample_node = record {
  node = node_of 0x81a4 3 2 (3 ∷ []);
  sectors = 2;
  at_node = refl;
  is_file = refl;
  at_file = refl;
  at_size = refl;
  positive = omega arith;
  at_sectors = refl;
  count = refl;
  valid = omega arith;
  placed = (
    record {
      block = 3;
      pos = 1024;
      at_block = refl;
      at_pos = refl;
      at_base = refl;
      room = omega arith;
    },
    tt,
  );
}

bg_read_file_lem_example :
    (p : ℕ) × (bg_read_file 3 sample
      ≡ ok (
        some (record { capacity = 3; filled = take 3 (whole image 1024 (3072 ∷ [])) }),
        moved_to p sample,
      ))
    × (length (take 3 (whole image 1024 (3072 ∷ []))) ≡ 3)
bg_read_file_lem_example = bg_read_file_lem sample_node (omega arith)

abbrev empty_node : FileAt sample 4 0 1024 (4096 ∷ [])
unfolding inode_to_index bg_get_inode bg_get_inode_size bg_offset_block block_size
    superblock_of_bytes inode_of_bytes
empty_node = record {
  node = node_of 0x81a4 0 2 (4 ∷ []);
  sectors = 2;
  at_node = refl;
  is_file = refl;
  at_file = refl;
  at_size = refl;
  positive = omega arith;
  at_sectors = refl;
  count = refl;
  valid = omega arith;
  placed = (
    record {
      block = 4;
      pos = 2048;
      at_block = refl;
      at_pos = refl;
      at_base = refl;
      room = omega arith;
    },
    tt,
  );
}

bg_read_file-overflow_example : bg_read_file 4 sample ≡ fault
bg_read_file-overflow_example = bg_read_file-overflow empty_node 4096 [] refl (omega arith)

abbrev pub system : Ext2
system = record {
  mem = image;
  disk = record { start = 0; pos = 2048; size = 8192 };
  bgs = some sample.bg ∷ [];
}

ext2_get_dir-ext2_delete_file_example :
    (e1 : Ext2) × (e2 : Ext2) × (ext2_delete_file 7 dot entry_a (entry_b ∷ []) system
      ≡ ok (true, e1))
    × (ext2_get_dir 3 2 e1 ≡ ok (some left, e2))
    × (e2.mem ≡ e1.mem)
    × (ext2_get_dir_out 2 e1 ≡ index_warning sample_dir.node)
unfolding sample_dir moved inode_to_bg group_at superblock_of_bytes
ext2_get_dir-ext2_delete_file_example =
    ext2_get_dir-ext2_delete_file system sample.bg refl dot entry_a (dot ∷ []) (entry_b ∷ [])
      sample_dir sample_file 7 3 tt refl refl refl refl (omega arith)
