-- ===== src/Bg.antt =====
-- src/bg.c with inc/bg.h and inc/bgdescriptor.h: one block group. The descriptor, the bitmaps and
-- the inodes are copies out of the image; `data_disk`, its `data`, is a second disk over the image itself.
-- `bgReadAll` does nothing; `bgDeleteFile` is in Bg/Deletion, `bgFree` in Ext2/Blocks.
pub mod Deletion
pub mod Delete
pub mod ReadFile
pub mod Size
pub mod Address
pub mod Content
pub mod After
pub mod Remove
pub mod Written
pub mod Lookup
pub mod Read
pub mod Shift
use ext2p.Prelude.{
  ℕ, zero, suc, ◌+◌, ◌-◌, ◌*◌, ◌/◌, ◌%◌, ◌^◌, bit_and, bit_or, List, [], ◌∷◌, ◌++◌, leb, ◌==◌,
  if◌then◌else◌, Option, none, some, get_elem?, set, length,
}
use ext2p.Machine.{
  Mem, Fp, Run, ok, fault, and_then, Exec, Cmd, pure, lift, ◌>>=◌, ◌>>◌, u32, u64, shl,
}
use ext2p.Struct.{u8s, u16}
use ext2p.Struct.{u32 as u32_field}
use ext2p.Disk.{
  disk_clone, disk_read8, disk_write8, disk_write16, disk_write32, disk_skip, disk_copy,
  disk_rewind, disk_seek, disk_get_pos,
}
use ext2p.Output.{Out, lit, warning, report, printed}
use ext2p.Inode.{fl_index_dir, Inode, zero_inode, inode_read, fm_file, fm_dir, sext64}
use ext2p.Superblock.{Superblock, sb_read, rev_dynamic}
use ext2p.Dir.{Dir, dir_read_linked_list}

pub record BlockGroupDescriptor : Type 0 where
  pub block_bitmap : ℕ
  pub inode_bitmap : ℕ
  pub inode_table : ℕ
  pub free_blocks : ℕ
  pub free_inodes : ℕ
  pub dir_inodes : ℕ
  pub padding : ℕ
  pub reserved : List ℕ

unfoldable pub descriptor_of_bytes : List ℕ → BlockGroupDescriptor
descriptor_of_bytes bs = record {
  block_bitmap = u32_field bs 0;
  inode_bitmap = u32_field bs 4;
  inode_table = u32_field bs 8;
  free_blocks = u16 bs 12;
  free_inodes = u16 bs 14;
  dir_inodes = u16 bs 16;
  padding = u16 bs 18;
  reserved = u8s bs 20 12;
}

pub record BlockGroup : Type 0 where
  pub sb : Superblock
  pub desc : BlockGroupDescriptor
  pub block_bitmap : List ℕ
  pub inode_bitmap : List ℕ
  pub inodes : List Inode
  pub data_disk : Fp
  pub blocks_read : ℕ

-- `1024 << logBlockSize`, an `int`
unfoldable pub block_size : Superblock → Run ℕ
block_size sb = shl 21 1024 sb.log_block_size

-- the loop over the inode table; `inodeSize - 128` is an `int` converted to `size_t`
unfoldable pub read_inodes : ℕ → ℕ → Cmd (List Inode)
read_inodes zero inode_size = pure []
read_inodes (suc n) inode_size = do
  inode ← inode_read
  disk_skip ((inode_size + u64 - 128) % u64)
  rest ← read_inodes n inode_size
  pure (inode ∷ rest)

pub record Tables : Type 0 where
  pub desc : BlockGroupDescriptor
  pub block_bitmap : List ℕ
  pub inode_bitmap : List ℕ
  pub inodes : List Inode

unfoldable pub read_bg_table : Superblock → ℕ → Cmd Tables
read_bg_table sb size = do
  bytes ← disk_copy 32
  let desc = descriptor_of_bytes bytes
  disk_seek (size * desc.block_bitmap % u32)
  block_bitmap ← disk_copy size
  disk_seek (size * desc.inode_bitmap % u32)
  inode_bitmap ← disk_copy size
  disk_seek (size * desc.inode_table % u32)
  inodes ← read_inodes sb.inodes_per_group sb.inode_size
  pure (record {
    desc = desc;
    block_bitmap = block_bitmap;
    inode_bitmap = inode_bitmap;
    inodes = inodes;
  })

-- `bg->data = diskClone(disk); bg->blocksRead = diskGetPos(disk) / BLOCK_SIZE`
unfoldable pub group_of : Superblock → ℕ → Tables → Cmd BlockGroup
group_of sb size t = do
  data' ← (λ s. ok (disk_clone s.fp, s))
  pos ← disk_get_pos
  pure (record {
    sb = sb;
    desc = t.desc;
    block_bitmap = t.block_bitmap;
    inode_bitmap = t.inode_bitmap;
    inodes = t.inodes;
    data_disk = data';
    blocks_read = pos / size % u32;
  })

-- `none` is a return of `false`.
unfoldable pub bg_read : ℕ → Cmd (Option BlockGroup)
bg_read num = do
  (valid, sb, _) ← sb_read
  if valid
      then (do
        size ← lift (block_size sb)
        (if size == 1024 then pure tt else disk_seek size)
        disk_skip (num * (size / 32) % u32)
        t ← read_bg_table sb size
        bg ← group_of sb size t
        pure (some bg))
      else pure none

-- What the functions on a `BlockGroup *` see: the group and the image below its disk.
pub record Group : Type 0 where
  pub mem : Mem
  pub bg : BlockGroup

-- a call on `bg->data`
abbrev pub on_data : {A : Type 0} → Cmd A → Exec Group A
on_data c g =
    and_then (c (record { mem = g.mem; fp = g.bg.data_disk }))
      λ (a, s). ok (a, record { mem = s.mem; bg = record (g.bg) { data_disk = s.fp } })

-- the remainder by zero is undefined
unfoldable pub inode_to_index : BlockGroup → ℕ → Run ℕ
inode_to_index bg inodenum =
    if bg.sb.inodes_per_group == 0
    then fault
    else ok ((inodenum + u32 - 1) % u32 % bg.sb.inodes_per_group)

abbrev pub at : {A : Type 0} → List A → ℕ → Run A
at xs i = elim (get_elem? xs i) [ none ↦ fault | some x ↦ ok x ]

unfoldable pub bg_get_inode : BlockGroup → ℕ → Run Inode
bg_get_inode bg inodenum = and_then (inode_to_index bg inodenum) λ i. at bg.inodes i

-- Both results pass through a conversion of the signed `size_lo` to `uint64_t`.
unfoldable pub bg_get_inode_size : BlockGroup → Inode → ℕ
bg_get_inode_size bg inode =
    if bg.sb.rev_level == rev_dynamic
    then bit_or (inode.size_hi * 2 ^ 32) (sext64 inode.size_lo)
    else sext64 inode.size_lo

-- `(block - blocksRead) * (1024 << logBlockSize)`, in 32 bits
unfoldable pub bg_offset_block : BlockGroup → ℕ → Run ℕ
bg_offset_block bg block =
    and_then (block_size bg.sb) λ size. ok ((block + u32 - bg.blocks_read) % u32 * size % u32)

-- `none` is a return of `false`. The fuel is the directory loop's.
unfoldable pub bg_get_dir : ℕ → ℕ → Exec Group (Option (List Dir))
bg_get_dir fuel inodenum g =
    (do
      inode ← lift (bg_get_inode g.bg inodenum)
      if bit_and inode.mode fm_dir == 0 then pure none else do
        block ← lift (at inode.block 0)
        pos ← lift (bg_offset_block g.bg block)
        on_data (disk_seek pos)
        size ← lift (block_size g.bg.sb)
        dirs ← on_data (dir_read_linked_list fuel size)
        pure (some dirs))
      g

-- the warning of `bgGetDir` on an indexed directory
abbrev pub index_warning : Inode → Out
index_warning inode =
    if bit_and inode.flags fl_index_dir == 0
    then []
    else (warning ∷ lit "dir indexing not implemented, falling back to linked list\n" ∷ [])

-- what `bgGetDir` prints of the inode that it has found
abbrev pub get_dir_out : Inode → Out
get_dir_out inode =
    if bit_and inode.mode fm_dir == 0
    then report (lit "tried to get contents of non-directory inode\n" ∷ [])
    else index_warning inode

-- what `bgGetDir` prints
unfoldable pub bg_get_dir_out : BlockGroup → ℕ → Out
bg_get_dir_out bg inodenum =
    printed (and_then (bg_get_inode bg inodenum) λ inode. ok (get_dir_out inode))

-- The buffer that a file is read into: its capacity, and the bytes written from its start on.
pub record FileBuffer : Type 0 where
  pub capacity : ℕ
  pub filled : List ℕ

-- The inner loop: `fp->data[bytesRead++] = diskRead8(…)` for each byte of a block, until the file's
-- size is reached. A store behind the buffer is a fault.
unfoldable pub copy_block : (rounds size bytes_read : ℕ) → Cmd (List ℕ)
copy_block zero size bytes_read = pure []
copy_block (suc k) size bytes_read = do
  b ← disk_read8
  if leb size bytes_read
      then (λ _. fault)
      else if leb size (bytes_read + 1)
      then pure (b ∷ [])
      else do rest ← copy_block k size (bytes_read + 1); pure (b ∷ rest)

-- The outer loop, over `block[i]`. The `break` above leaves the inner loop alone.
unfoldable pub copy_blocks : (rounds i : ℕ) → Inode → (size bytes_read : ℕ) → Exec Group (List ℕ)
copy_blocks zero i inode size bytes_read g = ok ([], g)
copy_blocks (suc k) i inode size bytes_read g =
    (do
      block ← lift (at inode.block i)
      pos ← lift (bg_offset_block g.bg block)
      on_data (disk_seek pos)
      rounds ← lift (block_size g.bg.sb)
      bytes ← on_data (copy_block rounds size bytes_read)
      rest ← copy_blocks k (i + 1) inode size (bytes_read + length bytes)
      pure (bytes ++ rest))
      g

-- `none` is a return of `false`, before the caller's `FP` is set. `malloc` is taken to succeed.
unfoldable pub bg_read_file : ℕ → Exec Group (Option FileBuffer)
bg_read_file inodenum g =
    (do
      inode ← lift (bg_get_inode g.bg inodenum)
      if bit_and inode.mode fm_file == 0 then pure none else do
        let size = bg_get_inode_size g.bg inode
        sectors ← lift (shl 30 2 g.bg.sb.log_block_size)
        bytes ← copy_blocks (inode.blocks / sectors) 0 inode size 0
        pure (some (record { capacity = size; filled = bytes })))
      g
