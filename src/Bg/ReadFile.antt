-- ===== src/Bg/ReadFile.antt =====
-- `bgReadFile` as a whole: what a file's buffer holds, and when a store runs behind it.
use mathlib.Core.Path.{subst}
use native.Mathlib.Decide.{dec_lt}
use ext2p.Prelude.{
  ℕ, zero, suc, ◌+◌, ◌-◌, ◌*◌, ◌/◌, ◌≤◌, ◌<◌, ◌≡◌, arith, List, [], ◌∷◌, length, ap, ◌∙◌, false,
  ◌==◌, bit_and, some, take, min, length-append, length-take,
}
use ext2p.Machine.{Mem, State, ok, fault, shl}
use ext2p.Disk.{bytes_at}
use ext2p.Disk.Bounds.{IsValid, disk_seek_lem, disk_read8_lem, length-bytes_at}
use ext2p.Inode.{Inode, fm_file}
use ext2p.Bg.{
  Group, inode_to_index, bg_get_inode, bg_get_inode_size, block_size, copy_block, copy_blocks,
  bg_read_file,
}
use ext2p.Bg.Lookup.{disk_of, moved_to}
use ext2p.Bg.Content.{
  whole, BlockAt, Placed, Needed, copy_block_lem, copy_blocks_lem, Placed-moved_to,
}

-- The inode `inodenum` is a file of `file` bytes; by its count of sectors it has as many blocks of
-- `size` bytes as `bases` has members, and they start there.
pub record FileAt (g : Group) (inodenum file size : ℕ) (bases : List ℕ) : Type 0 where
  pub node : Inode
  pub sectors : ℕ
  pub at_node : bg_get_inode g.bg inodenum ≡ ok node
  pub is_file : (bit_and node.mode fm_file == 0) ≡ false
  pub at_file : bg_get_inode_size g.bg node ≡ file
  pub at_size : block_size g.bg.sb ≡ ok size
  pub positive : 0 < size
  pub at_sectors : shl 30 2 g.bg.sb.log_block_size ≡ ok sectors
  pub count : node.blocks / sectors ≡ length bases
  pub valid : IsValid (disk_of g)
  pub placed : Placed g node size 0 bases

pub FileAt-moved_to :
    {g : Group} {inodenum file size : ℕ} {bases : List ℕ} (p : ℕ)
    → IsValid (disk_of (moved_to p g))
    → FileAt g inodenum file size bases
    → FileAt (moved_to p g) inodenum file size bases
unfolding bg_get_inode inode_to_index bg_get_inode_size
FileAt-moved_to {g = g} {size = size} {bases = bases} p v f = record {
  node = f.node;
  sectors = f.sectors;
  at_node = f.at_node;
  is_file = f.is_file;
  at_file = f.at_file;
  at_size = f.at_size;
  positive = f.positive;
  at_sectors = f.at_sectors;
  count = f.count;
  valid = v;
  placed = Placed-moved_to g f.node size 0 p bases f.placed;
}

Needed-of :
    (file size got : ℕ) (bases : List ℕ)
    → got + length bases * size < file + size
    → Needed file size got bases
Needed-of file size got [] h = tt
Needed-of file size got (b ∷ []) h = (omega arith, tt)
Needed-of file size got (b ∷ (c ∷ bases)) h =
    (omega arith, Needed-of file size (got + min size (file - got)) (c ∷ bases) (omega arith))

length-whole :
    (m : Mem) (size : ℕ) (bases : List ℕ) → length (whole m size bases) ≡ length bases * size
unfolding whole
length-whole m size [] = omega arith
length-whole m size (b ∷ bases) = omega (
  arith,
  length-append (bytes_at m b size) (whole m size bases),
  length-bytes_at m b size,
  length-whole m size bases,
)

-- A block that starts where the file has ended: its first byte goes behind the buffer.
copy_block-over :
    (rounds file got : ℕ) (s : State)
    → IsValid s
    → 0 < rounds
    → file ≤ got
    → s.fp.pos + rounds + 8 ≤ s.fp.start + s.fp.size
    → copy_block rounds file got s ≡ fault
unfolding copy_block
copy_block-over zero file got s v some_round full room = absurd (omega arith)
copy_block-over (suc k) file got s v some_round full room = ground (arith, disk_read8_lem s v)

module _ (inode : Inode) (file size : ℕ) (positive : 0 < size) where
  first_over :
      (n i got b : ℕ) (g : Group)
      → IsValid (disk_of g)
      → block_size g.bg.sb ≡ ok size
      → BlockAt g inode size i b
      → file ≤ got
      → copy_blocks (suc n) i inode file got g ≡ fault
  unfolding copy_blocks
  first_over n i got b g v at_size at_block full =
      let v0 : IsValid (disk_of (moved_to b g)) = omega (arith, v, at_block) in
      ground (
        arith,
        at_block.at_block,
        at_block.at_pos,
        at_block.at_base,
        at_block.room,
        disk_seek_lem at_block.pos (disk_of g) v,
        at_size,
        copy_block-over size file got (disk_of (moved_to b g)) v0 positive full,
      )

  first_needed :
      (n i got b : ℕ) (g : Group)
      → IsValid (disk_of g)
      → block_size g.bg.sb ≡ ok size
      → BlockAt g inode size i b
      → got < file
      → copy_blocks n
          (i + 1)
          inode
          file
          (got + min size (file - got))
          (moved_to (b + min size (file - got)) g)
        ≡ fault
      → copy_blocks (suc n) i inode file got g ≡ fault
  unfolding copy_blocks
  first_needed n i got b g v at_size at_block more rest =
      let v0 : IsValid (disk_of (moved_to b g)) = omega (arith, v, at_block) in
      ground (
        arith,
        at_block.at_block,
        at_block.at_pos,
        at_block.at_base,
        at_block.room,
        disk_seek_lem at_block.pos (disk_of g) v,
        at_size,
        copy_block_lem size file got (disk_of (moved_to b g)) v0 more,
        length-bytes_at g.mem b (min size (file - got)),
        rest,
      )

  copy_blocks-over :
      (i got b : ℕ) (bases : List ℕ) (g : Group)
      → IsValid (disk_of g)
      → block_size g.bg.sb ≡ ok size
      → Placed g inode size i (b ∷ bases)
      → file ≤ got + length bases * size
      → copy_blocks (suc (length bases)) i inode file got g ≡ fault
  copy_blocks-over i got b [] g v at_size placed full =
      first_over 0 i got b g v at_size placed.0 (omega arith)
  copy_blocks-over i got b (c ∷ bases) g v at_size placed full = elim (dec_lt got file) [
    | no done ↦ first_over (suc (length bases)) i got b g v at_size placed.0 (omega arith)
    | yes more ↦
        let n = min size (file - got) in
        let g1 = moved_to (b + n) g in
        first_needed (suc (length bases)) i got b g v at_size placed.0 more (
          copy_blocks-over (i + 1) (got + n) c bases g1 (omega (arith, v, placed.0)) at_size
            (Placed-moved_to g inode size (i + 1) (b + n) (c ∷ bases) placed.1) (omega arith))
  ]

module _ {g : Group} {inodenum file size : ℕ} {bases : List ℕ}
    (f : FileAt g inodenum file size bases) where
  -- When the file ends in its last block, `bgReadFile` delivers the bytes of its blocks in order,
  -- cut to its size, and changes nothing but the position of the group's disk.
  pub bg_read_file_lem :
      length bases * size < file + size
      → (p : ℕ) × (bg_read_file inodenum g
          ≡ ok (
            some (record { capacity = file; filled = take file (whole g.mem size bases) }),
            moved_to p g,
          ))
        × (length (take file (whole g.mem size bases)) ≡ min file (length bases * size))
  unfolding bg_read_file
  bg_read_file_lem h =
      let same : file - 0 ≡ file = omega arith in
      let (p, e, _) =
        copy_blocks_lem f.node file size 0 0 bases g f.valid f.at_size f.placed
          (Needed-of file size 0 bases (omega arith)) in
      (
        p,
        rw (
          f.at_node,
          f.is_file,
          f.at_file,
          f.at_sectors,
          f.count,
          e ∙ ap (λ n. ok (take n (whole g.mem size bases), moved_to p g)) same,
        ),
        length-take file (whole g.mem size bases)
            ∙ ap (λ n. min file n) (length-whole g.mem size bases),
      )

  -- When the file ends before its last block, or has no bytes and a block, `bgReadFile` stores a
  -- byte behind its buffer.
  pub bg_read_file-overflow :
      (b : ℕ) (rest : List ℕ)
      → bases ≡ b ∷ rest
      → file ≤ length rest * size
      → bg_read_file inodenum g ≡ fault
  unfolding bg_read_file
  bg_read_file-overflow b rest e full =
      let placed : Placed g f.node size 0 (b ∷ rest) =
        subst (λ (x : List ℕ). Placed g f.node size 0 x) e f.placed in
      let count : f.node.blocks / f.sectors ≡ suc (length rest) =
        f.count ∙ ap (λ (x : List ℕ). length x) e in
      rw (
        f.at_node,
        f.is_file,
        f.at_file,
        f.at_sectors,
        count,
        copy_blocks-over f.node file size f.positive 0 0 b rest g f.valid f.at_size placed
            (omega arith),
      )
