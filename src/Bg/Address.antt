-- ===== src/Bg/Address.antt =====
-- Where `bgOffsetBlock` leads: the group's disk starts behind the inode table, and counts blocks from
-- the block that it starts in.
use native.Mathlib.Nat.{div-add-mod'}
use ext2p.Prelude.{ℕ, ◌+◌, ◌-◌, ◌*◌, ◌/◌, ◌%◌, ◌^◌, ◌≤◌, ◌<◌, ◌≡◌, arith, ap, sym, ◌∙◌}
use ext2p.Machine.{State, ok, u32, u64, ok_injective}
use ext2p.Disk.Bounds.{IsValid}
use ext2p.Superblock.{Superblock}
use ext2p.Disk.{disk_clone, disk_get_pos}
use ext2p.Bg.{BlockGroup, Tables, group_of, block_size, bg_offset_block}

group_of-fields :
    (sb : Superblock) (size : ℕ) (t : Tables) (s s' : State) (bg : BlockGroup)
    → IsValid s
    → s.fp.start ≡ 0
    → s.fp.pos / size < 2 ^ 32
    → group_of sb size t s ≡ ok (bg, s')
    → (bg.sb ≡ sb) × (bg.data_disk.start ≡ s.fp.pos) × (bg.blocks_read ≡ s.fp.pos / size)
unfolding group_of disk_clone disk_get_pos
group_of-fields sb size t s s' bg v start low built =
    let whole : (s.fp.pos + u64 - s.fp.start) % u64 ≡ s.fp.pos = omega arith in
    let count : (s.fp.pos + u64 - s.fp.start) % u64 / size % u32 ≡ s.fp.pos / size =
      rw whole (omega arith) in
    let same = ok_injective built in
    (
      ap (λ (r : BlockGroup × State). r.0.sb) (sym same),
      ap (λ (r : BlockGroup × State). r.0.data_disk.start) (sym same),
      ap (λ (r : BlockGroup × State). r.0.blocks_read) (sym same) ∙ count,
    )

offset_in_range :
    (block first size : ℕ)
    → first ≤ block
    → block < 2 ^ 32
    → (block - first) * size < 2 ^ 32
    → (block + u32 - first) % u32 * size % u32 ≡ (block - first) * size
offset_in_range block first size from fits near =
    let e : (block + u32 - first) % u32 ≡ block - first = omega arith in rw e (omega arith)

aligned :
    (block size pos : ℕ)
    → 0 < size
    → pos / size ≤ block
    → pos + (block - pos / size) * size ≡ block * size + pos % size
aligned block size pos positive from =
    let d = block - pos / size in
    let split : block ≡ pos / size + d = omega arith in
    omega (arith, div-add-mod' pos size, ap (λ n. n * size) split)

-- A group is built over a disk that stands at `pos`, in a file read from its start. A block from the
-- one that `pos` lies in on, less than 4 GiB away, is then sought at its own place in the image,
-- moved up by the distance of `pos` from the start of its block: at its place exactly if the inode
-- table ends with a block.
pub bg_offset_block-group_of :
    (sb : Superblock) (size block : ℕ) (t : Tables) (s s' : State) (bg : BlockGroup)
    → IsValid s
    → s.fp.start ≡ 0
    → block_size sb ≡ ok size
    → 0 < size
    → s.fp.pos / size < 2 ^ 32
    → block < 2 ^ 32
    → s.fp.pos / size ≤ block
    → (block - s.fp.pos / size) * size < 2 ^ 32
    → group_of sb size t s ≡ ok (bg, s')
    → (pos : ℕ) × (bg_offset_block bg block ≡ ok pos)
      × (bg.data_disk.start + pos ≡ block * size + s.fp.pos % size)
unfolding bg_offset_block
bg_offset_block-group_of sb size block t s s' bg v start at_size positive low fits from near built =
    let (same_sb, begin, first) = group_of-fields sb size t s s' bg v start low built in
    (
      (block - s.fp.pos / size) * size,
      rw (same_sb, at_size, first)
          (ap ok (offset_in_range block (s.fp.pos / size) size from fits near)),
      rw begin (aligned block size s.fp.pos positive from),
    )
