-- ===== src/Shell/Commands/Rmdir.antt =====
-- `rmdir` in a mounted directory.
use mathlib.Core.List.{append-nil}
use ext2p.Prelude.{ℕ, ◌<◌, ◌≡◌, refl, List, [], ◌∷◌, ◌++◌, length, ap, ◌∙◌, true, some, ◌==◌}
use ext2p.Machine.{ok}
use ext2p.Output.{Out}
use ext2p.Dir.{Dir}
use ext2p.Dir.Filetype.{ft_dir}
use ext2p.Bg.{index_warning, BlockGroup}
use ext2p.Bg.Lookup.{DirAt, DirAt-moved_to, index_warning-moved_to, moved_to}
use ext2p.Ext2.{Ext2, group_at, inode_to_bg, ext2_get_dir, ext2_get_dir_out, ext2_delete_dir}
use ext2p.Ext2.Delete.{with_group, first_group}
use ext2p.Shell.{Shell, Host, found_in, shell_rmdir}
use ext2p.Shell.Directory.{shell_ls, ls_entries}
use ext2p.Shell.Commands.Remove.{with_fs, on_fs-ok, get_file-ok, shell_ls-ok}
use ext2p.Shell.Commands.Enter.{listed_step}

delete_nothing : (d : Dir) (e : Ext2) → d.filetype ≡ ft_dir → ext2_delete_dir d e ≡ ok (true, e)
unfolding ext2_delete_dir
delete_nothing d e is_dir = rw is_dir refl

shell_rmdir-ok :
    (host : Host) (cmd filename : List ℕ) (sh : Shell) (e e0 : Ext2) (ds : List Dir) (root d : Dir)
    (rest : List Dir)
    → ext2_get_dir host.fuel sh.cd e ≡ ok (some ds, e0)
    → found_in ds filename ≡ some (root, d, rest)
    → d.filetype ≡ ft_dir
    → shell_rmdir host (cmd ∷ (filename ∷ [])) (with_fs sh e)
      ≡ ok ((0, ext2_get_dir_out sh.cd e), with_fs sh e0)
unfolding shell_rmdir
shell_rmdir-ok host cmd filename sh e e0 ds root d rest listed found is_dir =
    let yes_dir : (d.filetype == ft_dir) ≡ true = rw is_dir refl in
    rw
      (
        get_file-ok host filename sh e e0 ds listed,
        found,
        yes_dir,
        on_fs-ok (ext2_delete_dir d) sh e0 e0 true (delete_nothing d e0 is_dir),
      )
      (ap (λ out. ok ((0, out), with_fs sh e0)) (append-nil (ext2_get_dir_out sh.cd e)))

module _ (host : Host) (sh : Shell) (e : Ext2) (bg : BlockGroup) {base size : ℕ}
    (first : group_at e.bgs 0 ≡ ok bg) (ds : List Dir)
    (at_dir : DirAt (first_group e bg) sh.cd base size ds) where
  -- `rmdir` of a directory that the current one lists ends with the status of a success and removes
  -- nothing: `ls` then prints the directory still, and the image is as it was. Each prints the warning
  -- on an indexed directory first, where the current directory is one. The current directory lies
  -- in the first block group, the removed one is the first entry of its name, and the fuel is for more
  -- rounds than the current directory has entries.
  pub shell_ls-shell_rmdir :
      (cmd filename : List ℕ) (root d : Dir) (rest : List Dir)
      → inode_to_bg e sh.cd ≡ ok 0
      → found_in ds filename ≡ some (root, d, rest)
      → d.filetype ≡ ft_dir
      → length ds < host.fuel
      → (e0 : Ext2) × (e1 : Ext2) × (shell_rmdir host (cmd ∷ (filename ∷ [])) (with_fs sh e)
          ≡ ok ((0, index_warning at_dir.node), with_fs sh e0))
        × (shell_ls host (with_fs sh e0)
            ≡ ok ((0, index_warning at_dir.node ++ ls_entries ds), with_fs sh e1))
        × (e1.mem ≡ e.mem)
  shell_ls-shell_rmdir cmd filename root d rest here found is_dir enough =
      let (p0, (listed0, told0, first0, same0, valid0)) =
        listed_step host.fuel sh.cd e bg first at_dir here enough in
      let g0 = moved_to p0 (first_group e bg) in
      let e0 = with_group e g0 in
      let (at_dir0, _) = DirAt-moved_to at_dir p0 valid0 in
      let (p1, (listed1, told1, _, _, _)) =
        listed_step host.fuel sh.cd e0 g0.bg first0 at_dir0 (same0 sh.cd ∙ here) enough in
      let e1 = with_group e0 (moved_to p1 g0) in
      (
        e0,
        e1,
        shell_rmdir-ok host cmd filename sh e e0 ds root d rest listed0 found is_dir
            ∙ ap (λ (out : Out). ok ((0, out), with_fs sh e0)) told0,
        shell_ls-ok host sh e0 e1 ds listed1
            ∙ ap (λ (out : Out). ok ((0, out ++ ls_entries ds), with_fs sh e1))
                (told1 ∙ index_warning-moved_to p0 at_dir0 at_dir),
        refl,
      )
