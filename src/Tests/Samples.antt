-- ===== src/Tests/Samples.antt =====
-- A small file system with blocks of 1024 bytes: a directory in block 2 and a file in block 3.
use ext2p.Prelude.{ℕ, ◌-◌, List, [], ◌∷◌, leb, if◌then◌else◌, get_or}
use ext2p.Machine.{Mem, State}
use ext2p.Inode.{Inode, inode_of_bytes}
use ext2p.Superblock.{Superblock, superblock_of_bytes}
use ext2p.Dir.{Dir}
use ext2p.Bg.{Group, descriptor_of_bytes}

-- the entries `.`, `a` and `b` with the record lengths 12, 12 and 1000
abbrev pub dir_bytes : List ℕ
dir_bytes =
    2 ∷ 0 ∷ 0 ∷ 0 ∷ 12 ∷ 0 ∷ 1 ∷ 2 ∷ 46 ∷ 0 ∷ 0 ∷ 0 ∷ 3 ∷ 0 ∷ 0 ∷ 0 ∷ 12 ∷ 0 ∷ 1 ∷ 1 ∷ 97 ∷ 0 ∷ 0
    ∷ 0 ∷ 4 ∷ 0 ∷ 0 ∷ 0 ∷ 232 ∷ 3 ∷ 1 ∷ 1 ∷ 98 ∷ []

abbrev pub file_bytes : List ℕ
file_bytes = 104 ∷ 105 ∷ 33 ∷ []

abbrev pub image : Mem
image = record {
  size = 8193;
  byte = λ q.
      if leb 3072 q
      then get_or file_bytes (q - 3072) 0
      else if leb 2048 q
      then get_or dir_bytes (q - 2048) 0
      else 0;
}

-- `base` of a disk that stands at the directory's block
abbrev pub at_dir_block : State
at_dir_block = record { mem = image; fp = record { start = 2048; pos = 2048; size = 6144 } }

abbrev pub dot : Dir
dot = record {
  offset = 0;
  inode = 2;
  next_entry = 12;
  name_len = 1;
  filetype = 2;
  filename = 46 ∷ [];
}

abbrev pub entry_a : Dir
entry_a = record {
  offset = 12;
  inode = 3;
  next_entry = 12;
  name_len = 1;
  filetype = 1;
  filename = 97 ∷ [];
}

abbrev pub entry_b : Dir
entry_b = record {
  offset = 24;
  inode = 4;
  next_entry = 1000;
  name_len = 1;
  filetype = 1;
  filename = 98 ∷ [];
}

abbrev pub entries : List Dir
entries = dot ∷ (entry_a ∷ (entry_b ∷ []))

abbrev pub sample_sb : Superblock
sample_sb = record (superblock_of_bytes []) {
  inodes_per_group = 8;
  rev_level = 1;
  log_block_size = 0;
}

abbrev pub node_of : ℕ → ℕ → ℕ → List ℕ → Inode
node_of mode size_lo blocks block = record (inode_of_bytes []) {
  mode = mode;
  size_lo = size_lo;
  blocks = blocks;
  block = block;
}

-- numbers 1 to 4: unused, the directory, the file `a` in block 3, and the empty file `b` with a block
abbrev pub nodes : List Inode
nodes =
    node_of 0 0 0 []
    ∷ node_of 0x41ed 1024 2 (2 ∷ [])
    ∷ node_of 0x81a4 3 2 (3 ∷ [])
    ∷ node_of 0x81a4 0 2 (4 ∷ [])
    ∷ []

abbrev pub sample : Group
sample = record {
  mem = image;
  bg = record {
    sb = sample_sb;
    desc = descriptor_of_bytes [];
    block_bitmap = [];
    inode_bitmap = 15 ∷ [];
    inodes = nodes;
    data_disk = record { start = 2048; pos = 2048; size = 6144 };
    blocks_read = 2;
  };
}
