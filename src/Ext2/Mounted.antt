-- ===== src/Ext2/Mounted.antt =====
-- The file system that `ext2Open` makes of an image, stated on the bytes of the image.
pub mod Directory
pub mod Files
pub mod Single
pub mod Saved
use native.Mathlib.Nat.{le-mul_of_pos_right, div-eq_of_lt, mod-eq_of_lt}
use native.Mathlib.Nat.{
  div-le_of_le-mul, le-div_iff_mul-le, le_of_mul-le-mul_right, le_trans, div-le_self, mul_comm,
  mul-le-mul_right,
}
use ext2p.Prelude.{
  ℕ, zero, suc, ◌+◌, ◌-◌, ◌*◌, ◌/◌, ◌%◌, ◌^◌, ◌≤◌, ◌<◌, ◌≡◌, true, refl, arith, List, [], ◌∷◌,
  length, false, true, ◌==◌, bit_and, Option, some, none, get_elem?, map, take, replicate, ◌∙◌, ap,
  sym,
}
use ext2p.Machine.{State, ok, shl, set_pos, u32, and_then, and_then-ok, ◌>>◌}
use ext2p.Util.{present}
use ext2p.Util.{util_clone_file}
use ext2p.Disk.{bytes_at, disk_clone, disk_skip}
use ext2p.Disk.Bounds.{IsValid}
use ext2p.Inode.{Inode, inode_of_bytes, fm_dir, fm_file}
use ext2p.Dir.{Dir}
use ext2p.Dir.Listing.{Listing, Nonempty}
use ext2p.Bg.{BlockGroup, block_size, bg_offset_block, inode_to_index}
use ext2p.Bg.Read.{
  GroupAt, sb_at, desc_at, block_pos, table_end, tables, group, group_of-ok, read-ok, sb_read-ok,
}
use ext2p.Bg.Read.Steps.{skip-ok, get_elem?-inodes_from}
use ext2p.Bg.Address.{bg_offset_block-group_of}
use ext2p.Bg.Lookup.{moved_to, bg_get_dir-DirAt, DirAt, disk_of}
use ext2p.Superblock.{sb_read, sb_read_out, sb_warnings, warnings_out}
use ext2p.Ext2.{
  ext2_open_out, Ext2, ext2_get_dir, on_group, ext2_open, group_count, group_at, inode_to_bg,
}
use ext2p.Ext2.Delete.{with_group, first_group}
use ext2p.Ext2.Open.{loaded, finish, first_read, ext2_open_lem, disk_open_lem}

-- The image is a file of `got` with a first block group of blocks of `size` bytes behind its boot block,
-- whose inode table ends with a block, and of 2 GiB at most.
pub record ImageAt (got : List ℕ) (size : ℕ) : Type 0 where
  pub at_group : GroupAt (loaded got) 1024 0 size
  pub positive : 0 < size
  pub some_block : 0 < (sb_at (loaded got) 1024).block_count
  pub some_group : 0 < (sb_at (loaded got) 1024).blocks_per_group
  pub aligned : table_end at_group % size ≡ 0
  pub small : length got ≤ 2 ^ 31

-- inode `i` of the group, counted from 0
abbrev pub node_at : List ℕ → (size i : ℕ) → Inode
node_at got size i =
    let s = loaded got in
    inode_of_bytes (
      bytes_at s.mem
        (block_pos s size (desc_at s 1024 0 size).inode_table + i * (sb_at s 1024).inode_size) 128)

at_first :
    (n : ℕ) {bg : BlockGroup} (bgs : List (Option BlockGroup))
    → 0 < n
    → group_at (take n (some bg ∷ bgs)) 0 ≡ ok bg
unfolding group_at
at_first zero bgs h = absurd (omega arith)
at_first (suc n) bgs h = refl

-- A clone of a disk that reads an image from its start ends where the image does.
clone_end :
    (p size : ℕ)
    → p ≤ size
    → size ≤ 2 ^ 31
    → let fp = disk_clone (record { start = 0; pos = p; size = size }) in
      (fp.start ≡ p) × (fp.pos ≡ p) × (p + fp.size ≡ size)
unfolding disk_clone
clone_end p size inside small = omega arith

module _ {got : List ℕ} {size : ℕ} (image : ImageAt got size) where
  abbrev s : State
  s = loaded got

  abbrev pub bg : BlockGroup
  bg = group image.at_group

  abbrev pub count : ℕ
  count = (bg.sb.block_count + bg.sb.blocks_per_group - 1) / bg.sb.blocks_per_group

  -- the file system that the image is mounted as
  abbrev pub mounted : Ext2
  mounted = record {
    mem = s.mem;
    disk = (set_pos (table_end image.at_group) s).fp;
    bgs = take count (some bg ∷ replicate count none);
  }

  count_pos : 0 < count
  count_pos =
      (le-div_iff_mul-le {k = bg.sb.blocks_per_group} image.some_group).1
        (omega (arith, image.some_block))

  first_read-ok : first_read s ≡ ok (some bg, set_pos (table_end image.at_group) s)
  first_read-ok =
      and_then-ok _
        (skip-ok s image.at_group.valid 0 1024 (omega arith) (omega (arith, image.at_group.room)))
      ∙ read-ok image.at_group

  counted : group_count bg.sb ≡ ok count
  unfolding group_count
  counted = ground (arith, image.some_group)

  -- what is printed meanwhile: the warnings about the superblock
  pub ext2_open_out-ImageAt :
      (path : List ℕ)
      → ext2_open_out path (present (length got) true got) ≡ warnings_out bg.sb (sb_warnings bg.sb)
  unfolding ext2_open_out sb_read_out
  ext2_open_out-ImageAt path =
      let run : (disk_skip 1024 >> sb_read) s
          ≡ ok ((true, bg.sb, sb_warnings bg.sb), set_pos 2048 s) =
        and_then-ok _
          (skip-ok s image.at_group.valid 0 1024 (omega arith) (omega (arith, image.at_group.room)))
        ∙ sb_read-ok image.at_group in
      rw (ext2_open_out, disk_open_lem got, run) refl

  pub ext2_open-ImageAt : ext2_open (present (length got) true got) ≡ ok (some mounted)
  ext2_open-ImageAt = ext2_open_lem got ∙ (and_then-ok finish first_read-ok ∙ and_then-ok _ counted)

  pub first : group_at mounted.bgs 0 ≡ ok bg
  unfolding group_at
  first = at_first count _ count_pos

  end-IsValid : IsValid (set_pos (table_end image.at_group) s)
  end-IsValid = omega (arith, image.at_group.valid, image.at_group.table_room)

  -- Block `b` of the image, behind the inode table, is sought where it lies.
  pub at_own_place :
      (b : ℕ)
      → table_end image.at_group ≤ b * size
      → b * size < length got
      → (pos : ℕ) × (bg_offset_block bg b ≡ ok pos) × (b * size ≡ bg.data_disk.start + pos)
  at_own_place b behind inside =
      let e = table_end image.at_group in
      let from : e / size ≤ b = div-le_of_le-mul size (rw (mul_comm size b) behind) in
      let near : (b - e / size) * size ≤ b * size = mul-le-mul_right size (omega arith) in
      let fits : b ≤ b * size = le-mul_of_pos_right b image.positive in
      let low : e / size ≤ e = div-le_self e size in
      let (pos, sought, at_pos) =
        bg_offset_block-group_of bg.sb size b (tables image.at_group) (set_pos e s) (set_pos e s) bg
          end-IsValid refl image.at_group.at_size image.positive (omega (arith, image.small))
          (omega (arith, image.small)) from (omega (arith, image.small))
          (group_of-ok image.at_group) in
      (pos, sought, sym (at_pos ∙ omega (arith, image.aligned)))

  pub at_end :
      (bg.data_disk.start ≡ table_end image.at_group)
      × (bg.data_disk.pos ≡ table_end image.at_group)
      × (table_end image.at_group + bg.data_disk.size ≡ length got)
  at_end =
      clone_end (table_end image.at_group) (length got) (omega (arith, image.at_group.table_room))
        image.small

  pub data_disk-IsValid : IsValid (disk_of (first_group mounted bg))
  data_disk-IsValid = omega (arith, at_end, image.at_group.table_room, image.small)

  table_size : bg.sb.inodes_per_group ≤ bg.sb.inodes_per_group * bg.sb.inode_size
  table_size = le-mul_of_pos_right bg.sb.inodes_per_group (omega (arith, image.at_group.large))

  module _ (inodenum : ℕ) (one : 0 < inodenum) (last : inodenum ≤ bg.sb.inodes_per_group) where
    number : (inodenum + u32 - 1) % u32 ≡ inodenum - 1
    number = omega (arith, table_size, image.at_group.table_room, image.small)

    pub at_index : inode_to_index bg inodenum ≡ ok (inodenum - 1)
    unfolding inode_to_index
    at_index =
        let low : (inodenum - 1) % bg.sb.inodes_per_group ≡ inodenum - 1 =
          mod-eq_of_lt (omega arith) in
        ground (arith, number, low)

    pub inode_to_bg-ImageAt : inode_to_bg mounted inodenum ≡ ok 0
    unfolding inode_to_bg
    inode_to_bg-ImageAt =
        let none_before : (inodenum - 1) / bg.sb.inodes_per_group ≡ 0 =
          div-eq_of_lt (omega arith) in
        rw (first, number, none_before) (ground arith)

    pub at_node : get_elem? bg.inodes (inodenum - 1) ≡ some (node_at got size (inodenum - 1))
    at_node =
        get_elem?-inodes_from s bg.sb.inode_size bg.sb.inodes_per_group
          (block_pos s size (desc_at s 1024 0 size).inode_table) (inodenum - 1) (omega arith)
