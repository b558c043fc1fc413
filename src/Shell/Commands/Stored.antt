-- ===== src/Shell/Commands/Stored.antt =====
-- `rm` in a mounted image that is then saved and mounted again.
use mathlib.Core.Path.{subst, ap₂}
use ext2p.Output.{Out}
use ext2p.Prelude.{
  ℕ, zero, suc, ◌+◌, ◌-◌, ◌*◌, ◌/◌, ◌%◌, ◌≤◌, ◌<◌, ◌≡◌, ◌≢◌, ◌⊎◌, refl, arith, List, [], ◌∷◌, ◌++◌,
  length, ap, ◌∙◌, sym, true, some, get_elem?,
}
use ext2p.Machine.{Mem, State, ok, ok_injective}
use ext2p.Util.{present}
use ext2p.Disk.{bytes_at}
use ext2p.Dir.{Dir}
use ext2p.Dir.Filetype.{ft_file}
use ext2p.Dir.Listing.{Listing, Nonempty}
use ext2p.Dir.Shift.{moved, total}
use ext2p.Bg.{index_warning, inode_to_index}
use ext2p.Bg.Read.{sb_at, block_pos, desc_at}
use ext2p.Bg.Lookup.{DirAt, moved_to}
use ext2p.Bg.Delete.{FileOf, image_after}
use ext2p.Bg.Remove.{bg_delete_file_image}
use ext2p.Bg.After.{Nonempty-append, EndsInZero}
use ext2p.Bg.Written.{OfBytes, image_after-OfBytes}
use ext2p.Ext2.{
  Ext2, ext2_open, ext2_get_dir, ext2_get_dir_out, ext2_save_to_file, group_at, inode_to_bg,
}
use ext2p.Ext2.Keeps.{IsInside}
use ext2p.Ext2.Open.{loaded, Bytes, ext2_save_to_file_lem}
use ext2p.Ext2.Delete.{
  with_group, first_group, group_at-with_group, inode_to_bg-with_group, delete_in_group,
}
use ext2p.Ext2.Mounted.{
  ImageAt, mounted, bg, first, at_index, at_node, node_at, inode_to_bg-ImageAt, ext2_open-ImageAt,
}
use ext2p.Ext2.Mounted.Directory.{HasDir, ext2_get_dir-HasDir, ext2_get_dir_out-HasDir}
use ext2p.Ext2.Mounted.Files.{get_or-Bytes}
use ext2p.Ext2.Mounted.Saved.{IsBehind, saved-ImageAt, saved-HasDir, saved-tables}
use ext2p.Shell.{Shell, Host, shell_rm, found_in}
use ext2p.Shell.Directory.{shell_ls, ls_entries}
use ext2p.Shell.Commands.Remove.{with_fs, shell_ls-ok, shell_rm-ok, ls_entries-moved, ls_entries-++}

loaded-OfBytes : (got : List ℕ) → Bytes got → OfBytes (loaded got).mem
loaded-OfBytes got small q = ground (arith, get_or-Bytes q got small)

get_elem?-bytes_at :
    (m : Mem) (p n i : ℕ) → i < n → get_elem? (bytes_at m p n) i ≡ some (m.byte (p + i) % 256)
unfolding bytes_at
get_elem?-bytes_at m p zero i h = absurd (omega arith)
get_elem?-bytes_at m p (suc n) zero h = ap (λ q. some (m.byte q % 256)) (omega arith)
get_elem?-bytes_at m p (suc n) (suc i) h =
    get_elem?-bytes_at m (p + 1) n i (omega arith) ∙ ap (λ q. some (m.byte q % 256)) (omega arith)

-- the warning about an inode that two images have alike
same_node :
    {got got' : List ℕ} {size inodenum : ℕ} (image' : ImageAt got' size) (image : ImageAt got size)
    → 0 < inodenum
    → inodenum ≤ (sb_at (loaded got') 1024).inodes_per_group
    → inodenum ≤ (sb_at (loaded got) 1024).inodes_per_group
    → get_elem? (bg image').inodes (inodenum - 1) ≡ get_elem? (bg image).inodes (inodenum - 1)
    → index_warning (node_at got' size (inodenum - 1))
      ≡ index_warning (node_at got size (inodenum - 1))
same_node {got} {got'} {size} {inodenum} image' image one last' last same =
    let nodes : node_at got' size (inodenum - 1) ≡ node_at got size (inodenum - 1) =
      cc (at_node image' inodenum one last', at_node image inodenum one last) in
    ap index_warning nodes

module _ {got : List ℕ} {size : ℕ} (image : ImageAt got size) (root dir : Dir) (pre rest : List Dir)
    (directory : HasDir image root.inode (pre ++ (dir ∷ rest))) where
  abbrev base : ℕ
  base = directory.block * size

  -- the warning that is printed first, where the directory is an indexed one
  abbrev told : Out
  told = index_warning (node_at got size (root.inode - 1))

  module _ (one : 0 < dir.inode) (last : dir.inode ≤ (sb_at (loaded got) 1024).inodes_per_group)
      (other : dir.inode ≢ root.inode) (in_bitmap : (dir.inode - 1) / 8 < size) where
    -- the file's inode and its bit
    file_of :
        (p : ℕ)
        (at_dir : DirAt
          (moved_to p (first_group (mounted image) (bg image)))
          root.inode
          base
          size
          (pre ++ (dir ∷ rest)))
        → FileOf (moved_to p (first_group (mounted image) (bg image))) at_dir.index dir
    unfolding inode_to_index
    file_of p at_dir =
        let same : at_dir.index ≡ root.inode - 1 =
          ok_injective
            (sym at_dir.at_index ∙ at_index image root.inode directory.one directory.last) in
        record {
          index = dir.inode - 1;
          bits = _;
          at_index = at_index image dir.inode one last;
          other = λ e. other (omega (arith, e, same, directory.one));
          node = node_at got size (dir.inode - 1);
          at_node = at_node image dir.inode one last;
          at_bits =
              get_elem?-bytes_at (loaded got).mem
                (block_pos (loaded got) size (desc_at (loaded got) 1024 0 size).inode_bitmap) size
                ((dir.inode - 1) / 8) in_bitmap;
        }

    module _ (host : Host) (sh : Shell) (cmd filename : List ℕ) (here : sh.cd ≡ root.inode)
        (before : Nonempty pre)
        (end : EndsInZero (loaded got).mem (base + (total pre + total rest)) rest)
        (is_file : dir.filetype ≡ ft_file)
        (found : found_in (pre ++ (dir ∷ rest)) filename ≡ some (root, dir, rest))
        (enough : length (pre ++ (dir ∷ rest)) < host.fuel) where
      -- `rm`, and the image that it leaves
      rm_run :
          (e1 : Ext2) × (shell_rm host (cmd ∷ (filename ∷ [])) (with_fs sh (mounted image))
            ≡ ok ((0, told), with_fs sh e1))
          × (e1.disk ≡ (mounted image).disk)
          × (e1.mem ≡ image_after (loaded got).mem (base + dir.offset) rest)
          × (e1.mem.size ≡ (loaded got).mem.size)
          × Listing e1.mem base size 0 (pre ++ moved dir.offset rest)
          × ((q : ℕ) → (q < base) ⊎ (base + size ≤ q) → e1.mem.byte q ≡ (loaded got).mem.byte q)
      rm_run =
          let e = mounted image in
          let (p, (listed, at_dir0)) = ext2_get_dir-HasDir image host.fuel directory enough in
          let g0 = moved_to p (first_group e (bg image)) in
          let e0 = with_group e g0 in
          let first0 : group_at e0.bgs 0 ≡ ok g0.bg =
            group_at-with_group e (bg image) g0 (first image) in
          let (g', run, mem, large, lists, kept) =
            bg_delete_file_image root dir pre rest at_dir0 (file_of p at_dir0) before end
              host.now in
          let at_file : inode_to_bg e0 dir.inode ≡ ok 0 =
            inode_to_bg-with_group e (bg image) (first image) g0 dir.inode refl
            ∙ inode_to_bg-ImageAt image dir.inode one last in
          (
            with_group e0 g',
            shell_rm-ok host cmd filename sh e e0 (with_group e0 g') (pre ++ (dir ∷ rest)) root dir
                  rest (ap (λ n. ext2_get_dir host.fuel n e) here ∙ listed) found is_file
                  (delete_in_group e0 g0.bg first0 host.now root dir rest g' at_file is_file run)
                ∙ ap (λ out. ok ((0, out), with_fs sh (with_group e0 g')))
                    (ap (λ n. ext2_get_dir_out n e) here
                      ∙ ext2_get_dir_out-HasDir image root.inode directory),
            refl,
            mem,
            large,
            lists,
            kept,
          )

      -- `rm` of a file in a directory of a mounted image, saved and mounted again: the written file is
      -- mounted, and `ls` prints the directory without the file's line, but the file's inode and the
      -- inode bitmap are read as they were before the removal. Each command
      -- prints the warning on an indexed directory first, where the directory is one. The directory and the file lie in the
      -- first block group, the file stands behind another entry, is the first of its name, was the
      -- last or the block holds a zero where the moved entries end; the directory's block lies behind
      -- the group's tables, and the fuel is for more rounds than there are entries.
      pub ext2_open-shell_rm :
          Bytes got
          → IsBehind got size base
          → length (pre ++ moved dir.offset rest) < host.fuel
          → (e1 : Ext2) × (got' : List ℕ) × (image' : ImageAt got' size) × (e2 : Ext2) × (shell_rm
                host
                (cmd ∷ (filename ∷ []))
                (with_fs sh (mounted image))
              ≡ ok ((0, told), with_fs sh e1))
            × (ext2_save_to_file true e1 ≡ ok (got', e1))
            × (ext2_open (present (length got') true got') ≡ ok (some (mounted image')))
            × (shell_ls host (with_fs sh (mounted image'))
                ≡ ok ((0, told ++ (ls_entries pre ++ ls_entries rest)), with_fs sh e2))
            × ((bg image').inode_bitmap ≡ (bg image).inode_bitmap)
            × (get_elem? (bg image').inodes (dir.inode - 1)
                ≡ get_elem? (bg image).inodes (dir.inode - 1))
      ext2_open-shell_rm bytes behind fewer =
          let (e1, run, disk, mem, large, lists, kept) = rm_run in
          let ds' = pre ++ moved dir.offset rest in
          let of_bytes : OfBytes e1.mem = subst OfBytes (sym mem) (
            image_after-OfBytes (loaded got).mem (base + dir.offset) rest
              (loaded-OfBytes got bytes)) in
          let inside : base < length got = omega (arith, directory.room) in
          let image' = saved-ImageAt image e1.mem base behind of_bytes inside kept in
          let directory' =
            saved-HasDir image e1.mem base behind of_bytes inside kept directory ds' refl
              (Nonempty-append pre (moved dir.offset rest) before) lists in
          let (bitmap, inode) =
            saved-tables image e1.mem base behind of_bytes inside kept directory.behind
              (dir.inode - 1) (omega arith) in
          let (_, root_inode) =
            saved-tables image e1.mem base behind of_bytes inside kept directory.behind
              (root.inode - 1) (omega (arith, directory.one, directory.last)) in
          let same_warning : index_warning
                (node_at (bytes_at e1.mem 0 (length got)) size (root.inode - 1))
              ≡ told =
            same_node image' image directory.one directory'.last directory.last root_inode in
          let (p, (listed, _)) = ext2_get_dir-HasDir image' host.fuel directory' fewer in
          let e2 =
            with_group (mounted image') (moved_to p (first_group (mounted image') (bg image'))) in
          let s : State = record { mem = e1.mem; fp = (mounted image).disk } in
          let s_inside : IsInside s =
            omega (arith, large, image.at_group.table_room, image.small) in
          (
            e1,
            bytes_at e1.mem 0 (length got),
            image',
            e2,
            run,
            ext2_save_to_file_lem e1 s s_inside refl disk,
            ext2_open-ImageAt image',
            shell_ls-ok host sh (mounted image') e2 ds'
                  (ap (λ n. ext2_get_dir host.fuel n (mounted image')) here ∙ listed)
                ∙ ap₂ (λ out ls. ok ((0, out ++ ls), with_fs sh e2))
                    (ap (λ n. ext2_get_dir_out n (mounted image')) here
                      ∙ (ext2_get_dir_out-HasDir image' root.inode directory' ∙ same_warning))
                    (ls_entries-++ pre (moved dir.offset rest)
                      ∙ ap (λ out. ls_entries pre ++ out) (ls_entries-moved dir.offset rest)),
            bitmap,
            inode,
          )
