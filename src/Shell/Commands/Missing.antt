-- ===== src/Shell/Commands/Missing.antt =====
-- The commands that look a name up, on a name that the directory does not list.
use ext2p.Prelude.{ℕ, ◌<◌, ◌≡◌, refl, List, [], ◌∷◌, ◌++◌, ap, ◌∙◌, length, false, none, some}
use ext2p.Machine.{Run, ok}
use ext2p.Output.{Out}
use ext2p.Util.Levenshtein.{str_eq}
use ext2p.Dir.{Dir}
use ext2p.Bg.{index_warning, BlockGroup}
use ext2p.Bg.Lookup.{bg_get_dir_out-DirAt, DirAt, moved_to, bg_get_dir-DirAt}
use ext2p.Ext2.{Ext2, group_at, on_group, inode_to_bg, ext2_get_dir, ext2_get_dir_out}
use ext2p.Ext2.Delete.{ext2_get_dir_out-first, with_group, first_group}
use ext2p.Shell.{Shell, Host, found_in, exit_failure, not_found, shell_cat, shell_rm, shell_rmdir}
use ext2p.Shell.Directory.{cd_into, shell_cd}
use ext2p.Shell.Stat.{shell_stat}
use ext2p.Shell.Commands.Remove.{with_fs, get_file-ok}

module _ (host : Host) (sh : Shell) (e : Ext2) (bg : BlockGroup) {base block : ℕ}
    (first : group_at e.bgs 0 ≡ ok bg) (ds : List Dir)
    (at_dir : DirAt (first_group e bg) sh.cd base block ds) where
  -- For a name that the current directory does not list, each of `cat`, `cd`, `rm`, `rmdir` and `stat`
  -- ends with the status of a failure, having printed on `stderr` that the name was not found,
  -- behind the warning on an indexed directory where the directory is one, and leaves the shell and the image as they were. The directory lies in the first block group, the name
  -- is not `.`, and the fuel is for more rounds than there are entries.
  pub shell_missing :
      (cmd filename : List ℕ)
      → inode_to_bg e sh.cd ≡ ok 0
      → found_in ds filename ≡ none
      → str_eq filename (46 ∷ []) ≡ false
      → length ds < host.fuel
      → (e0 : Ext2) × (let missing : Run ((ℕ × Out) × Shell) =
            ok ((exit_failure, index_warning at_dir.node ++ not_found filename), with_fs sh e0) in
          let argv = cmd ∷ (filename ∷ []) in
          (shell_cat host argv (with_fs sh e) ≡ missing)
          × (shell_cd host argv (with_fs sh e) ≡ missing)
          × (shell_rm host argv (with_fs sh e) ≡ missing)
          × (shell_rmdir host argv (with_fs sh e) ≡ missing)
          × (shell_stat host argv (with_fs sh e) ≡ missing)
          × (e0.mem ≡ e.mem))
  unfolding shell_cat shell_cd cd_into shell_rm shell_rmdir shell_stat ext2_get_dir on_group
  shell_missing cmd filename cd_group absent away enough =
      let (p, listed, _, _) = bg_get_dir-DirAt at_dir host.fuel enough in
      let e0 = with_group e (moved_to p (first_group e bg)) in
      let there : ext2_get_dir host.fuel sh.cd e ≡ ok (some ds, e0) =
        rw (cd_group, first, listed) refl in
      let told : ◌≡◌ {A = Run ((ℕ × Out) × Shell)}
          (ok ((exit_failure, ext2_get_dir_out sh.cd e ++ not_found filename), with_fs sh e0))
          (ok ((exit_failure, index_warning at_dir.node ++ not_found filename), with_fs sh e0)) =
        ap (λ (out : Out). ok ((exit_failure, out ++ not_found filename), with_fs sh e0))
          (ext2_get_dir_out-first e bg first sh.cd cd_group ∙ bg_get_dir_out-DirAt at_dir) in
      let looked_up = get_file-ok host filename sh e e0 ds there in
      (
        e0,
        (
          rw (looked_up, absent) told,
          rw (cd_into, away, looked_up, absent) told,
          rw (looked_up, absent) told,
          rw (looked_up, absent) told,
          rw (looked_up, absent) told,
          refl,
        ),
      )
