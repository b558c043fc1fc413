-- ===== src/Ext2/Delete.antt =====
-- `ext2DeleteFile` and `ext2GetDir` on the block group that `ext2Open` has read.
use ext2p.Prelude.{
  ℕ, ◌+◌, ◌<◌, ◌≡◌, refl, List, [], ◌∷◌, ◌++◌, length, ◌∙◌, true, Option, some, set,
}
use ext2p.Machine.{ok}
use ext2p.Dir.{Dir}
use ext2p.Dir.Listing.{Nonempty}
use ext2p.Dir.Shift.{moved, total}
use ext2p.Bg.{BlockGroup, Group, bg_get_dir_out, index_warning}
use ext2p.Bg.Deletion.{bg_delete_file}
use ext2p.Bg.Lookup.{DirAt, moved_to, bg_get_dir_lem}
use ext2p.Bg.Delete.{FileOf}
use ext2p.Bg.Remove.{bg_delete_file-DirAt}
use ext2p.Bg.After.{EndsInZero}
use ext2p.Dir.Filetype.{ft_file}
use ext2p.Ext2.{
  Ext2, group_at, on_group, inode_to_bg, ext2_get_dir, ext2_get_dir_out, ext2_delete_file,
}

-- the file system with its first group and its image replaced
abbrev pub with_group : Ext2 → Group → Ext2
with_group e g = record e { mem = g.mem; bgs = set e.bgs 0 (some g.bg) }

pub group_at-with_group :
    (e : Ext2) (bg : BlockGroup) (g : Group)
    → group_at e.bgs 0 ≡ ok bg
    → group_at (with_group e g).bgs 0 ≡ ok g.bg
unfolding group_at
group_at-with_group e bg g h = at_set e.bgs h
  where
    at_set :
        (bgs : List (Option BlockGroup))
        → group_at bgs 0 ≡ ok bg
        → group_at (set bgs 0 (some g.bg)) 0 ≡ ok g.bg
    at_set [] k = cc
    at_set (b ∷ bgs) k = refl

abbrev pub first_group : Ext2 → BlockGroup → Group
first_group e bg = record { mem = e.mem; bg = bg }

module _ (e : Ext2) (bg : BlockGroup) (first : group_at e.bgs 0 ≡ ok bg) where
  pub inode_to_bg-with_group :
      (g : Group) (inodenum : ℕ)
      → g.bg.sb ≡ bg.sb
      → inode_to_bg (with_group e g) inodenum ≡ inode_to_bg e inodenum
  unfolding inode_to_bg
  inode_to_bg-with_group g inodenum same = rw (group_at-with_group e bg g first, first, same) refl

  pub ext2_get_dir_out-first :
      (inodenum : ℕ)
      → inode_to_bg e inodenum ≡ ok 0
      → ext2_get_dir_out inodenum e ≡ bg_get_dir_out bg inodenum
  unfolding ext2_get_dir_out
  ext2_get_dir_out-first inodenum there = rw (there, first) refl

  pub delete_in_group :
      (now : ℕ) (root dir : Dir) (rest : List Dir) (g' : Group)
      → inode_to_bg e dir.inode ≡ ok 0
      → dir.filetype ≡ ft_file
      → bg_delete_file now root dir rest (first_group e bg) ≡ ok (tt, g')
      → ext2_delete_file now root dir rest e ≡ ok (true, with_group e g')
  unfolding ext2_delete_file on_group bg_delete_file
  delete_in_group now root dir rest g' dir_group is_file run =
      rw (is_file, dir_group, first, run) refl

module _ (e : Ext2) (bg : BlockGroup) {base size : ℕ} (first : group_at e.bgs 0 ≡ ok bg)
    (root dir : Dir) (pre rest : List Dir)
    (at_dir : DirAt (first_group e bg) root.inode base size (pre ++ (dir ∷ rest)))
    (file : FileOf (first_group e bg) at_dir.index dir) where
  -- In the block group that `ext2Open` has read, `ext2DeleteFile` of a file that a directory of the
  -- group lists behind another entry returns `true`, and `ext2GetDir` then lists the entries before
  -- the file and those behind it moved into its place, provided that it was the last or that the
  -- block holds a zero where the moved ones end. It prints the
  -- warning that it printed before the deletion, on an indexed directory. The fuel is for more rounds
  -- than there are entries.
  pub ext2_get_dir-ext2_delete_file :
      (now fuel : ℕ)
      → Nonempty pre
      → EndsInZero e.mem (base + (total pre + total rest)) rest
      → inode_to_bg e root.inode ≡ ok 0
      → inode_to_bg e dir.inode ≡ ok 0
      → dir.filetype ≡ ft_file
      → length (pre ++ moved dir.offset rest) < fuel
      → (e1 : Ext2) × (e2 : Ext2) × (ext2_delete_file now root dir rest e ≡ ok (true, e1))
        × (ext2_get_dir fuel root.inode e1 ≡ ok (some (pre ++ moved dir.offset rest), e2))
        × (e2.mem ≡ e1.mem)
        × (ext2_get_dir_out root.inode e1 ≡ index_warning at_dir.node)
  unfolding ext2_delete_file ext2_get_dir on_group
  ext2_get_dir-ext2_delete_file now fuel before end root_group dir_group is_file enough =
      let (g', run, at', same_sb, told) =
        bg_delete_file-DirAt root dir pre rest at_dir file before end now in
      let e1 = with_group e g' in
      let (p, list) = bg_get_dir_lem at' fuel enough in
      let there : inode_to_bg e1 root.inode ≡ ok 0 =
        inode_to_bg-with_group e bg first g' root.inode same_sb ∙ root_group in
      (
        e1,
        with_group e1 (moved_to p g'),
        delete_in_group e bg first now root dir rest g' dir_group is_file run,
        rw (there, group_at-with_group e bg g' first, list) refl,
        refl,
        ext2_get_dir_out-first e1 g'.bg (group_at-with_group e bg g' first) root.inode there ∙ told,
      )
