-- ===== src/Ext2/Blocks.antt =====
-- What a mount allocates, and that it is freed: the calls of `malloc` and `free` of src/ext2.c, src/bg.c,
-- src/disk.c and src/util.c below `ext2Open` and `ext2Free`.
pub mod Freed
pub mod Counted
use ext2p.Prelude.{
  ℕ, List, [], ◌∷◌, length, ltb, ◌==◌, not, ◌||◌, if◌then◌else◌, Bool, true, false, Option, none,
  some,
}
use ext2p.Machine.{Run, ok, fault, and_then}
use ext2p.Util.{OpenFile, absent, present}
use ext2p.Bg.{BlockGroup}
use ext2p.Ext2.{Ext2, ext2_open}

-- A block is named by the call that allocates it: each runs once at most in a mount, which reads one
-- block group. The clone of the disk has the path and the image of the disk that it is made of.
pub data Block : Type 0 where
  file_system disk contents filepath groups : Block
  block_bitmap inode_bitmap inodes clone : Block

abbrev number : Block → ℕ
number file_system = 0
number disk = 1
number contents = 2
number filepath = 3
number groups = 4
number block_bitmap = 5
number inode_bitmap = 6
number inodes = 7
number clone = 8

-- the blocks that are allocated
abbrev pub Heap : Type 0
Heap = Block → Bool

abbrev pub malloc : Block → Heap → Heap
malloc b h c = if number c == number b then true else h c

abbrev pub released : Block → Heap → Heap
released b h c = if number c == number b then false else h c

-- a second `free` of a block is a fault
abbrev pub free : Block → Heap → Run Heap
free b h = if h b then ok (released b h) else fault

-- `utilReadFile` with what it returns: the buffer of a short read stays.
unfoldable pub util_read_file_blocks : OpenFile → Heap → Bool × Heap
util_read_file_blocks absent h = (false, h)
util_read_file_blocks (present n allocated got) h =
    if allocated then (not (ltb (length got) n), malloc contents h) else (false, h)

unfoldable pub util_free_file : Heap → Run Heap
util_free_file h = free contents h

unfoldable pub disk_open_blocks : OpenFile → Heap → Run (Bool × Heap)
unfolding util_read_file_blocks
disk_open_blocks file h =
    let (read, h1) = util_read_file_blocks file (malloc disk h) in
    if read then ok (true, malloc filepath h1) else and_then (free disk h1) λ h2. ok (false, h2)

unfoldable pub disk_close : Heap → Run Heap
unfolding util_free_file
disk_close h = and_then (free filepath h) λ h1. and_then (util_free_file h1) λ h2. free disk h2

unfoldable pub read_bg_table_blocks : Heap → Heap
read_bg_table_blocks h = malloc inodes (malloc inode_bitmap (malloc block_bitmap h))

-- `bgRead`: nothing is allocated for a superblock that is refused.
unfoldable pub bg_read_blocks : (valid : Bool) → Heap → Heap
unfolding read_bg_table_blocks
bg_read_blocks valid h = if valid then malloc clone (read_bg_table_blocks h) else h

unfoldable pub bg_free : Heap → Run Heap
bg_free h =
    and_then (free block_bitmap h)
      λ h1. and_then (free inode_bitmap h1) λ h2. and_then (free inodes h2) λ h3. free clone h3

-- The pointers of a group that has not been read are wild.
unfoldable pub bg_free_all_blocks : List (Option BlockGroup) → Heap → Run Heap
unfolding bg_free
bg_free_all_blocks [] h = free groups h
bg_free_all_blocks (none ∷ bgs) h = fault
bg_free_all_blocks (some bg ∷ bgs) h = and_then (bg_free h) λ h1. bg_free_all_blocks bgs h1

abbrev pub is_read : Option Ext2 → Bool
is_read none = false
is_read (some e) = true

-- `ext2Open` with what it returns. `realloc` gives the array back as one block, also for no
-- groups: a C library that frees it then returns a null pointer, and `bgFreeAll` frees nothing instead.
unfoldable pub ext2_open_blocks : OpenFile → Heap → Run (Option Ext2 × Heap)
unfolding disk_open_blocks bg_read_blocks
ext2_open_blocks file h = and_then (ext2_open file) λ r.
    and_then (disk_open_blocks file (malloc file_system h))
      λ (opened, h1). ok (r, if opened then bg_read_blocks (is_read r) (malloc groups h1) else h1)

unfoldable pub ext2_free_blocks : Ext2 → Heap → Run Heap
unfolding disk_close bg_free_all_blocks
ext2_free_blocks e h =
    and_then (disk_close h) λ h1. and_then (bg_free_all_blocks e.bgs h1) λ h2. free file_system h2
