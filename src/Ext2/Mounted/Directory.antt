-- ===== src/Ext2/Mounted/Directory.antt =====
-- Where a directory of a mounted image lies.
use ext2p.Prelude.{
  sym, ◌∙◌, ℕ, ◌+◌, ◌-◌, ◌*◌, ◌≤◌, ◌<◌, ◌≡◌, refl, arith, List, length, false, ◌==◌, bit_and, some,
  get_elem?,
}
use ext2p.Machine.{ok}
use ext2p.Inode.{fm_dir}
use ext2p.Dir.{Dir}
use ext2p.Dir.Listing.{Listing, Nonempty}
use ext2p.Bg.Read.{sb_at, table_end}
use ext2p.Bg.Lookup.{bg_get_dir_out-node, bg_get_dir_out-DirAt, moved_to, bg_get_dir-DirAt, DirAt}
use ext2p.Ext2.{ext2_get_dir_out, ext2_get_dir, on_group}
use ext2p.Ext2.Delete.{ext2_get_dir_out-first, with_group, first_group}
use ext2p.Ext2.Open.{loaded}
use ext2p.Bg.{bg_get_inode, bg_get_dir_out, index_warning, at}
use ext2p.Ext2.Mounted.{
  ImageAt, mounted, bg, first, node_at, at_own_place, at_end, data_disk-IsValid, at_index,
  inode_to_bg-ImageAt, at_node,
}

-- The inode `inodenum` is a directory of the group, its first block lies behind the inode table and 40
-- bytes from the end of the image at most, and that block lists `ds`.
pub record HasDir {got : List ℕ} {size : ℕ} (image : ImageAt got size) (inodenum : ℕ)
    (ds : List Dir) : Type 0 where
  pub block : ℕ
  pub one : 0 < inodenum
  pub last : inodenum ≤ (sb_at (loaded got) 1024).inodes_per_group
  pub is_dir : (bit_and (node_at got size (inodenum - 1)).mode fm_dir == 0) ≡ false
  pub at_block : get_elem? (node_at got size (inodenum - 1)).block 0 ≡ some block
  pub behind : table_end image.at_group ≤ block * size
  pub room : block * size + size + 40 ≤ length got
  pub some_entry : Nonempty ds
  pub lists : Listing (loaded got).mem (block * size) size 0 ds

module _ {got : List ℕ} {size : ℕ} (image : ImageAt got size) where
  pub HasDir-DirAt :
      {inodenum : ℕ} {ds : List Dir} (d : HasDir image inodenum ds)
      → DirAt (first_group (mounted image) (bg image)) inodenum (d.block * size) size ds
  HasDir-DirAt {inodenum} d =
      let (pos, sought, at_pos) = at_own_place image d.block d.behind (omega (arith, d.room)) in
      record {
        index = inodenum - 1;
        node = node_at got size (inodenum - 1);
        block = d.block;
        pos = pos;
        at_index = at_index image inodenum d.one d.last;
        at_node = at_node image inodenum d.one d.last;
        is_dir = d.is_dir;
        at_block = d.at_block;
        at_size = image.at_group.at_size;
        at_pos = sought;
        at_base = at_pos;
        valid = data_disk-IsValid image;
        room = omega (arith, at_end image, d.room);
        positive = image.positive;
        small = omega (arith, image.at_group.size_room, image.small);
        some_entry = d.some_entry;
        lists = d.lists;
      }

  -- what is printed meanwhile
  pub bg_get_dir_out-HasDir :
      (inodenum : ℕ) {ds : List Dir}
      → HasDir image inodenum ds
      → bg_get_dir_out (bg image) inodenum ≡ index_warning (node_at got size (inodenum - 1))
  unfolding bg_get_inode
  bg_get_dir_out-HasDir inodenum d =
      bg_get_dir_out-node (bg image) inodenum {node = node_at got size (inodenum - 1)}
        (rw (at_index image inodenum d.one d.last, at, at_node image inodenum d.one d.last) refl)
        d.is_dir

  pub ext2_get_dir_out-HasDir :
      (inodenum : ℕ) {ds : List Dir}
      → HasDir image inodenum ds
      → ext2_get_dir_out inodenum (mounted image) ≡ index_warning (node_at got size (inodenum - 1))
  ext2_get_dir_out-HasDir inodenum d =
      ext2_get_dir_out-first (mounted image) (bg image) (first image) inodenum
        (inode_to_bg-ImageAt image inodenum d.one d.last)
      ∙ bg_get_dir_out-HasDir inodenum d

  pub index_warning-HasDir :
      {inodenum : ℕ} {ds : List Dir} (d : HasDir image inodenum ds)
      → index_warning (HasDir-DirAt d).node ≡ index_warning (node_at got size (inodenum - 1))
  index_warning-HasDir {inodenum} d =
      sym (bg_get_dir_out-DirAt (HasDir-DirAt d)) ∙ bg_get_dir_out-HasDir inodenum d

  -- the listing of a directory right after the mount
  pub ext2_get_dir-HasDir :
      (fuel : ℕ) {inodenum : ℕ} {ds : List Dir} (d : HasDir image inodenum ds)
      → length ds < fuel
      → (p : ℕ) × (let g0 = moved_to p (first_group (mounted image) (bg image)) in
          (ext2_get_dir fuel inodenum (mounted image) ≡ ok (some ds, with_group (mounted image) g0))
          × DirAt g0 inodenum (d.block * size) size ds)
  unfolding ext2_get_dir on_group
  ext2_get_dir-HasDir fuel {inodenum} d enough =
      let (p, listed, at_dir0, _) = bg_get_dir-DirAt (HasDir-DirAt d) fuel enough in
      (p, (rw (inode_to_bg-ImageAt image inodenum d.one d.last, first image, listed) refl, at_dir0))
