-- ===== src/Bg/Lookup.antt =====
-- A directory of a group: where its block lies and what it lists, and that `bgGetDir` returns that.
use ext2p.Prelude.{
  sym, ◌∙◌, ℕ, ◌+◌, ◌^◌, ◌≤◌, ◌<◌, ◌≡◌, refl, arith, List, length, false, ◌==◌, bit_and, some,
  get_elem?,
}
use ext2p.Machine.{State, ok}
use ext2p.Disk.{disk_seek}
use ext2p.Disk.Bounds.{IsValid, disk_seek_lem}
use ext2p.Inode.{Inode, fm_dir}
use ext2p.Dir.{Dir}
use ext2p.Dir.Listing.{Listing, Nonempty, dir_read_linked_list-Listing}
use ext2p.Bg.{
  BlockGroup, bg_get_dir_out, index_warning, Group, inode_to_index, bg_get_inode, block_size,
  bg_offset_block, bg_get_dir, at,
}

abbrev pub disk_of : Group → State
disk_of g = record { mem = g.mem; fp = g.bg.data_disk }

-- the group with the position of its disk moved
abbrev pub moved_to : ℕ → Group → Group
moved_to p g = record {
  mem = g.mem;
  bg = record (g.bg) {
    data_disk = record { start = g.bg.data_disk.start; pos = p; size = g.bg.data_disk.size };
  };
}

-- The inode `inodenum` is a directory whose first block is the `size` bytes at `base` of the image,
-- 40 bytes from its end at most, and that block lists `ds`.
pub record DirAt (g : Group) (inodenum base size : ℕ) (ds : List Dir) : Type 0 where
  pub index : ℕ
  pub node : Inode
  pub block : ℕ
  pub pos : ℕ
  pub at_index : inode_to_index g.bg inodenum ≡ ok index
  pub at_node : get_elem? g.bg.inodes index ≡ some node
  pub is_dir : (bit_and node.mode fm_dir == 0) ≡ false
  pub at_block : get_elem? node.block 0 ≡ some block
  pub at_size : block_size g.bg.sb ≡ ok size
  pub at_pos : bg_offset_block g.bg block ≡ ok pos
  pub at_base : base ≡ g.bg.data_disk.start + pos
  pub valid : IsValid (disk_of g)
  pub room : base + size + 40 ≤ g.bg.data_disk.start + g.bg.data_disk.size
  pub positive : 0 < size
  pub small : size ≤ 2 ^ 31
  pub some_entry : Nonempty ds
  pub lists : Listing g.mem base size 0 ds

pub bg_get_dir_out-node :
    (bg : BlockGroup) (inodenum : ℕ) {node : Inode}
    → bg_get_inode bg inodenum ≡ ok node
    → (bit_and node.mode fm_dir == 0) ≡ false
    → bg_get_dir_out bg inodenum ≡ index_warning node
unfolding bg_get_dir_out
bg_get_dir_out-node bg inodenum got is_dir = rw (got, is_dir) refl

module _ {g : Group} {inodenum base size : ℕ} {ds : List Dir}
    (at_dir : DirAt g inodenum base size ds) where
  open at_dir use {index, node, block, pos}

  pub get_inode : bg_get_inode g.bg inodenum ≡ ok node
  unfolding bg_get_inode
  get_inode = ground (arith, at_dir.at_index, at_dir.at_node)

  -- what `bgGetDir` prints
  pub bg_get_dir_out-DirAt : bg_get_dir_out g.bg inodenum ≡ index_warning node
  bg_get_dir_out-DirAt = bg_get_dir_out-node g.bg inodenum get_inode at_dir.is_dir

  pub at_first : at node.block 0 ≡ ok block
  at_first = ground (arith, at_dir.at_block)

  pub seek_block : disk_seek pos (disk_of g) ≡ ok (tt, disk_of (moved_to base g))
  seek_block = ground (arith, disk_seek_lem pos (disk_of g) at_dir.valid)

  bg_get_dir_run :
      (fuel : ℕ)
      → length ds < fuel
      → (p : ℕ) × (bg_get_dir fuel inodenum g ≡ ok (some ds, moved_to p g))
        × IsValid (disk_of (moved_to p g))
  unfolding bg_get_dir
  bg_get_dir_run fuel h =
      let s = disk_of (moved_to base g) in
      let v : IsValid s = omega (arith, at_dir.valid) in
      let (p, e, low, high) =
        dir_read_linked_list-Listing base size fuel ds s (omega (arith, at_dir)) at_dir.positive h
          at_dir.some_entry at_dir.lists in
      (
        p,
        ground (
          arith, get_inode, at_dir.is_dir, at_first, at_dir.at_pos, seek_block, at_dir.at_size, e,
        ),
        omega (arith, at_dir, at_dir.valid, low, high),
      )

  -- With fuel for more rounds than there are entries, `bgGetDir` returns what the block lists, and
  -- changes nothing but the position of the group's disk.
  pub bg_get_dir_lem :
      (fuel : ℕ)
      → length ds < fuel
      → (p : ℕ) × (bg_get_dir fuel inodenum g ≡ ok (some ds, moved_to p g))
  bg_get_dir_lem fuel h = let (p, run, v) = bg_get_dir_run fuel h in (p, run)

  pub DirAt-moved_to :
      (p : ℕ)
      → IsValid (disk_of (moved_to p g))
      → (moved_dir : DirAt (moved_to p g) inodenum base size ds) × (moved_dir.index ≡ index)
  unfolding inode_to_index bg_offset_block
  DirAt-moved_to p v = (
    record {
      index = index;
      node = node;
      block = block;
      pos = pos;
      at_index = at_dir.at_index;
      at_node = at_dir.at_node;
      is_dir = at_dir.is_dir;
      at_block = at_dir.at_block;
      at_size = at_dir.at_size;
      at_pos = at_dir.at_pos;
      at_base = at_dir.at_base;
      valid = v;
      room = at_dir.room;
      positive = at_dir.positive;
      small = at_dir.small;
      some_entry = at_dir.some_entry;
      lists = at_dir.lists;
    },
    refl,
  )

  -- the same with the directory as it stands after the call
  pub bg_get_dir-DirAt :
      (fuel : ℕ)
      → length ds < fuel
      → (p : ℕ) × (bg_get_dir fuel inodenum g ≡ ok (some ds, moved_to p g))
        × (moved_dir : DirAt (moved_to p g) inodenum base size ds) × (moved_dir.index ≡ index)
  bg_get_dir-DirAt fuel h =
      let (p, run, v) = bg_get_dir_run fuel h in
      let (moved_dir, same) = DirAt-moved_to p v in (p, run, moved_dir, same)

-- the warning does not depend on where the disk stands
pub index_warning-moved_to :
    {g : Group} {inodenum base size : ℕ} {ds : List Dir} (p : ℕ)
    (at_dir' : DirAt (moved_to p g) inodenum base size ds) (at_dir : DirAt g inodenum base size ds)
    → index_warning at_dir'.node ≡ index_warning at_dir.node
unfolding bg_get_dir_out bg_get_inode inode_to_index
index_warning-moved_to {g} {inodenum} p at_dir' at_dir =
    let same : bg_get_dir_out (moved_to p g).bg inodenum ≡ bg_get_dir_out g.bg inodenum = refl in
    sym (bg_get_dir_out-DirAt at_dir') ∙ (same ∙ bg_get_dir_out-DirAt at_dir)
