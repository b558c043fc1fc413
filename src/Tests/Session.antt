-- ===== src/Tests/Session.antt =====
-- The theorems on the program from the mount on, at an image of one block group with the file `a` in its root.
use ext2p.Prelude.{
  ℕ, ◌≡◌, refl, arith, List, [], ◌∷◌, ◌++◌, length, replicate, inl, true, false, take, some,
  get_elem?,
}
use ext2p.Machine.{ok}
use ext2p.Output.{Out, str, lines, lit, dec, warning}
use ext2p.Util.{present}
use ext2p.Disk.{bytes_at}
use ext2p.Inode.{inode_of_bytes, res_root_dir}
use ext2p.Superblock.{superblock_of_bytes, sb_warnings}
use ext2p.Dir.Listing.{Listing}
use ext2p.Bg.{block_size, descriptor_of_bytes}
use ext2p.Bg.Read.{GroupAt}
use ext2p.Ext2.Open.{loaded, Bytes}
use ext2p.Dir.Shift.{moved}
use ext2p.Ext2.{Ext2, ext2_open, ext2_save_to_file}
use ext2p.Ext2.Mounted.{ImageAt, mounted, bg}
use ext2p.Ext2.Mounted.Directory.{HasDir}
use ext2p.Ext2.Mounted.Saved.{IsBehind}
use ext2p.Shell.{shell_rm}
use ext2p.Shell.Directory.{shell_ls}
use ext2p.Shell.Commands.Stored.{ext2_open-shell_rm}
use ext2p.Ext2.Mounted.Files.{HasFile, blocks_bytes}
use ext2p.Shell.{Host, exit_success}
use ext2p.Shell.Directory.{ls_entries}
use ext2p.Main.{main}
use ext2p.Main.Rounds.{root_prompt, banner, ls_cat_exit, at_root}
use ext2p.Main.Session.{main_session}
use ext2p.Ext2.Mounted.Single.{mounted-IsSingle}
use ext2p.Ext2.Blocks.{Heap, Block, ext2_free_blocks}
use ext2p.Ext2.Blocks.Freed.{full, ext2_open_blocks-ImageAt, ext2_free_blocks-ext2_open_blocks}
use ext2p.Shell.{exit_failure, already_mounted, shell_mount, shell_umount}
use ext2p.Superblock.{warnings_out}
use ext2p.Shell.Commands.Mounts.{shut, shell_umount-shell_mount}
use ext2p.Tests.Samples.{dir_bytes, file_bytes, dot, entry_a, entry_b, entries}
use ext2p.Tests.Mount.{Bytes-all}

-- eight inodes of 128 bytes in block 0: the second an indexed directory in block 3, the third a file in block 4
abbrev table : List ℕ
table =
    replicate 128 0
    ++ (0xed
        ∷ 0x41
        ∷ (replicate 31 0
            ++ (0x10
                ∷ (replicate 6 0
                    ++ (3
                        ∷ (replicate 87 0
                            ++ (0xa4
                                ∷ 0x81
                                ∷ 0
                                ∷ 0
                                ∷ 3
                                ∷ (replicate 23 0
                                    ++ (2 ∷ (replicate 11 0 ++ (4 ∷ replicate 727 0)))))))))))

-- six blocks in a group of eight, with eight inodes
abbrev super : List ℕ
super =
    replicate 4 0
    ++ (6
        ∷ (replicate 27 0
            ++ (8
                ∷ (replicate 7 0
                    ++ (8
                        ∷ (replicate 15 0
                            ++ (0x53 ∷ (0xef ∷ (replicate 30 0 ++ (128 ∷ replicate 1959 0))))))))))

abbrev content : List ℕ
content = dir_bytes ++ (replicate 991 0 ++ (file_bytes ++ replicate 1037 0))

abbrev picture : List ℕ
picture = table ++ (super ++ content)

picture_group : GroupAt (loaded picture) 1024 0 1024
unfolding block_size superblock_of_bytes descriptor_of_bytes bytes_at
picture_group = record {
  magic = refl;
  at_size = refl;
  valid = omega arith;
  started = omega arith;
  room = omega arith;
  size_room = omega arith;
  desc_room = omega arith;
  block_room = omega arith;
  inode_room = omega arith;
  table_room = omega arith;
  large = omega arith;
  small = omega arith;
}

abbrev pictured : ImageAt picture 1024
unfolding superblock_of_bytes descriptor_of_bytes bytes_at
pictured = record {
  at_group = picture_group;
  positive = omega arith;
  some_block = omega arith;
  some_group = omega arith;
  aligned = refl;
  small = omega arith;
}

picture_lists : Listing (loaded picture).mem 3072 1024 0 entries
unfolding bytes_at
picture_lists = (
  omega arith,
  refl,
  (λ e. absurd (omega arith)),
  omega arith,
  omega arith,
  (
    omega arith,
    refl,
    (λ e. absurd (omega arith)),
    omega arith,
    omega arith,
    (omega arith, refl, (λ e. absurd (omega arith)), omega arith, omega arith, inl (omega arith)),
  ),
)

picture_dir : HasDir pictured res_root_dir entries
unfolding superblock_of_bytes descriptor_of_bytes inode_of_bytes bytes_at
picture_dir = record {
  block = 3;
  one = omega arith;
  last = omega arith;
  is_dir = refl;
  at_block = refl;
  behind = omega arith;
  room = omega arith;
  some_entry = tt;
  lists = picture_lists;
}

picture_file : HasFile pictured 3 (4 ∷ [])
unfolding superblock_of_bytes descriptor_of_bytes inode_of_bytes bytes_at
picture_file = record {
  sectors = 2;
  one = omega arith;
  last = omega arith;
  is_file = refl;
  low = omega arith;
  no_high = refl;
  at_sectors = refl;
  count = refl;
  placed = (refl, omega arith, omega arith, tt);
}

picture-Bytes : Bytes picture
picture-Bytes = Bytes-all picture refl

abbrev host : Host
host = record {
  file = λ path. present (length picture) true picture;
  can_write = λ path. true;
  now = 7;
  fuel = 1025;
}

picture-IsBehind : IsBehind picture 1024 3072
unfolding superblock_of_bytes descriptor_of_bytes bytes_at
picture-IsBehind = record {
  superblock = omega arith;
  descriptor = omega arith;
  bitmap = omega arith;
}

abbrev indexed : Out
indexed = warning ∷ lit "dir indexing not implemented, falling back to linked list\n" ∷ []

-- `ext2p i`, then `ls`, `cat a` and `exit`
main_session_example :
    main host ((101 ∷ []) ∷ ((105 ∷ []) ∷ [])) (ls_cat_exit (97 ∷ []))
    ≡ ok (
      lines (
          (warning
            ∷ lit "Superblock has bad state '"
            ∷ dec 0
            ∷ lit "', ignoring"
            ∷ warning
            ∷ lit "Superblock has bad errors '"
            ∷ dec 0
            ∷ lit "', ignoring"
            ∷ [])
          ∷ banner
          ∷ root_prompt
          ∷ (indexed ++ ls_entries entries)
          ∷ root_prompt
          ∷ (indexed ++ (str (take 3 (blocks_bytes picture 1024 (4 ∷ []))) ∷ []))
          ∷ root_prompt
          ∷ []),
      exit_success,
    )
unfolding superblock_of_bytes descriptor_of_bytes inode_of_bytes bytes_at sb_warnings
main_session_example =
    main_session host (105 ∷ []) (97 ∷ []) pictured entries dot entry_a (entry_b ∷ []) (4 ∷ [])
      picture_dir picture_file (101 ∷ []) refl picture-Bytes (omega arith) (omega arith)
      (omega arith) refl refl (omega arith) (omega arith) (omega arith)

-- `rm a` in the root directory of the image
ext2_open-shell_rm_example :
    (e1 : Ext2) × (got' : List ℕ) × (image' : ImageAt got' 1024) × (e2 : Ext2) × (shell_rm host
        ((114 ∷ 109 ∷ []) ∷ ((97 ∷ []) ∷ []))
        (at_root (mounted pictured))
      ≡ ok ((0, indexed), at_root e1))
    × (ext2_save_to_file true e1 ≡ ok (got', e1))
    × (ext2_open (present (length got') true got') ≡ ok (some (mounted image')))
    × (shell_ls host (at_root (mounted image'))
        ≡ ok ((0, indexed ++ (ls_entries (dot ∷ []) ++ ls_entries (entry_b ∷ []))), at_root e2))
    × ((bg image').inode_bitmap ≡ (bg pictured).inode_bitmap)
    × (get_elem? (bg image').inodes 2 ≡ get_elem? (bg pictured).inodes 2)
unfolding superblock_of_bytes descriptor_of_bytes inode_of_bytes bytes_at moved picture_dir
ext2_open-shell_rm_example =
    ext2_open-shell_rm pictured dot entry_a (dot ∷ []) (entry_b ∷ []) picture_dir (omega arith)
      (omega arith) (λ e. absurd (omega arith)) (omega arith) host (at_root (mounted pictured))
      (114 ∷ 109 ∷ []) (97 ∷ []) refl tt refl refl refl (omega arith) picture-Bytes picture-IsBehind
      (omega arith)

abbrev no_blocks : Heap
no_blocks b = false

ext2_free_blocks-ext2_open_blocks_example :
    (h2 : Heap) × (ext2_free_blocks (mounted pictured) (full no_blocks) ≡ ok h2)
    × ((b : Block) → h2 b ≡ false)
unfolding superblock_of_bytes bytes_at
ext2_free_blocks-ext2_open_blocks_example =
    ext2_free_blocks-ext2_open_blocks (present (length picture) true picture) no_blocks (λ b. refl)
      (ext2_open_blocks-ImageAt pictured no_blocks) (mounted-IsSingle pictured (omega arith))

shell_umount-shell_mount_example :
    (shell_mount host ((109 ∷ []) ∷ ((105 ∷ []) ∷ [])) (shut true 0)
      ≡ ok (
        (exit_success, warnings_out (bg pictured).sb (sb_warnings (bg pictured).sb)),
        record (shut true 0) { fs = some (mounted pictured) },
      ))
    × (shell_mount host ((109 ∷ []) ∷ ((106 ∷ []) ∷ [])) (at_root (mounted pictured))
        ≡ ok ((exit_failure, already_mounted), at_root (mounted pictured)))
    × (shell_umount (at_root (mounted pictured)) ≡ ok ((exit_success, []), shut true 0))
unfolding superblock_of_bytes bytes_at
shell_umount-shell_mount_example =
    shell_umount-shell_mount pictured host (109 ∷ []) (105 ∷ []) (106 ∷ []) true 0 res_root_dir []
      refl (mounted-IsSingle pictured (omega arith))
