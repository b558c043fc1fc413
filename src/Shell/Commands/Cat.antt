-- ===== src/Shell/Commands/Cat.antt =====
-- `cat` in a mounted directory.
use ext2p.Prelude.{
  ℕ, ◌*◌, ◌+◌, ◌<◌, ◌≤◌, ◌≡◌, refl, arith, List, [], ◌∷◌, ◌++◌, ap, length, take, ◌∙◌, true, some,
  ◌==◌, ==_iff,
}
use ext2p.Machine.{ok}
use ext2p.Output.{str}
use ext2p.Dir.{Dir}
use ext2p.Dir.Filetype.{ft_file}
use ext2p.Bg.{index_warning, BlockGroup, FileBuffer}
use ext2p.Bg.Lookup.{bg_get_dir_out-DirAt, DirAt, moved_to, bg_get_dir-DirAt}
use ext2p.Bg.Content.{whole}
use ext2p.Bg.ReadFile.{FileAt, FileAt-moved_to, bg_read_file_lem}
use ext2p.Ext2.{
  Ext2, group_at, on_group, inode_to_bg, ext2_get_dir, ext2_get_dir_out, ext2_read_file,
}
use ext2p.Ext2.Delete.{
  ext2_get_dir_out-first, with_group, first_group, group_at-with_group, inode_to_bg-with_group,
}
use ext2p.Shell.{Shell, Host, found_in, shell_cat}
use ext2p.Shell.Commands.Remove.{with_fs, on_fs-ok, get_file-ok}

shell_cat-ok :
    (host : Host) (cmd filename : List ℕ) (sh : Shell) (e e0 e1 : Ext2) (ds : List Dir)
    (root dir : Dir) (rest : List Dir) (buffer : FileBuffer)
    → ext2_get_dir host.fuel sh.cd e ≡ ok (some ds, e0)
    → found_in ds filename ≡ some (root, dir, rest)
    → dir.filetype ≡ ft_file
    → ext2_read_file dir.inode e0 ≡ ok (some buffer, e1)
    → length buffer.filled ≡ buffer.capacity
    → shell_cat host (cmd ∷ (filename ∷ [])) (with_fs sh e)
      ≡ ok ((0, ext2_get_dir_out sh.cd e ++ (str buffer.filled ∷ [])), with_fs sh e1)
unfolding shell_cat
shell_cat-ok host cmd filename sh e e0 e1 ds root dir rest buffer listed found is_file got full =
    let yes_file : (dir.filetype == ft_file) ≡ true = rw is_file refl in
    let yes_full : (length buffer.filled == buffer.capacity) ≡ true =
      (==_iff (length buffer.filled) buffer.capacity).1 full in
    rw
      (
        get_file-ok host filename sh e e0 ds listed,
        found,
        yes_file,
        on_fs-ok (ext2_read_file dir.inode) sh e0 e1 (some buffer) got,
        yes_full,
      )
      refl

module _ (host : Host) (sh : Shell) (e : Ext2) (bg : BlockGroup) {base block file size : ℕ}
    (first : group_at e.bgs 0 ≡ ok bg) (ds : List Dir) (bases : List ℕ)
    (at_dir : DirAt (first_group e bg) sh.cd base block ds) where
  module _ (cmd filename : List ℕ) (root dir : Dir) (rest : List Dir)
      (f : FileAt (first_group e bg) dir.inode file size bases) (long : file ≤ length bases * size)
      (short : length bases * size < file + size) (cd_group : inode_to_bg e sh.cd ≡ ok 0)
      (file_group : inode_to_bg e dir.inode ≡ ok 0) (is_file : dir.filetype ≡ ft_file)
      (found : found_in ds filename ≡ some (root, dir, rest)) (enough : length ds < host.fuel) where
    -- `cat` of the file, with the file system that it leaves
    pub shell_cat_run :
        (p : ℕ) × (q : ℕ) × (let g0 = moved_to p (first_group e bg) in
          shell_cat host (cmd ∷ (filename ∷ [])) (with_fs sh e)
          ≡ ok (
            (0, index_warning at_dir.node ++ (str (take file (whole e.mem size bases)) ∷ [])),
            with_fs sh (with_group (with_group e g0) (moved_to q g0)),
          ))
    unfolding ext2_get_dir ext2_read_file on_group
    shell_cat_run =
        let (p, listed, at_dir0, _) = bg_get_dir-DirAt at_dir host.fuel enough in
        let g0 = moved_to p (first_group e bg) in
        let e0 = with_group e g0 in
        let first0 : group_at e0.bgs 0 ≡ ok g0.bg = group_at-with_group e bg g0 first in
        let (q, got, size_got) = bg_read_file_lem (FileAt-moved_to p at_dir0.valid f) short in
        let file_group0 : inode_to_bg e0 dir.inode ≡ ok 0 =
          inode_to_bg-with_group e bg first g0 dir.inode refl ∙ file_group in
        (
          p,
          q,
          shell_cat-ok host cmd filename sh e e0 (with_group e0 (moved_to q g0)) ds root dir rest
                (record { capacity = file; filled = take file (whole e.mem size bases) })
                (rw (cd_group, first, listed) refl) found is_file
                (rw (file_group0, first0, got) refl) (size_got ∙ omega arith)
              ∙ ap
                  (λ told. ok (
                    (0, told ++ (str (take file (whole e.mem size bases)) ∷ [])),
                    with_fs sh (with_group e0 (moved_to q g0)),
                  ))
                  (ext2_get_dir_out-first e bg first sh.cd cd_group ∙ bg_get_dir_out-DirAt at_dir),
        )

  -- `cat` of a file of the current directory prints, behind the warning on an indexed directory where
  -- the directory is one, the bytes of the file's blocks in order, cut to its size, and ends with the status of a success; it leaves the image as it was. The directory and the
  -- file lie in the first block group, the file is the first entry of its name, its size reaches into
  -- the last of its blocks, and the fuel is for more rounds than the directory has entries.
  pub shell_cat_lem :
      (cmd filename : List ℕ) (root dir : Dir) (rest : List Dir)
      → FileAt (first_group e bg) dir.inode file size bases
      → file ≤ length bases * size
      → length bases * size < file + size
      → inode_to_bg e sh.cd ≡ ok 0
      → inode_to_bg e dir.inode ≡ ok 0
      → dir.filetype ≡ ft_file
      → found_in ds filename ≡ some (root, dir, rest)
      → length ds < host.fuel
      → (e1 : Ext2) × (shell_cat host (cmd ∷ (filename ∷ [])) (with_fs sh e)
          ≡ ok (
            (0, index_warning at_dir.node ++ (str (take file (whole e.mem size bases)) ∷ [])),
            with_fs sh e1,
          ))
        × (e1.mem ≡ e.mem)
  shell_cat_lem cmd filename root dir rest f long short cd_group file_group is_file found enough =
      let (p, q, run) =
        shell_cat_run cmd filename root dir rest f long short cd_group file_group is_file found
          enough in
      let g0 = moved_to p (first_group e bg) in
      (with_group (with_group e g0) (moved_to q g0), run, refl)
