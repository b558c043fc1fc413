-- ===== src/Shell/Commands/Unfit.antt =====
-- The commands that look a name up, on an entry of a type that they do not take.
use ext2p.Prelude.{
  ℕ, ◌<◌, ◌≡◌, ◌≢◌, refl, List, [], ◌∷◌, ◌++◌, ap, length, false, some, ◌==◌, ==-ne,
}
use ext2p.Machine.{Run, ok}
use ext2p.Output.{Out}
use ext2p.Util.Levenshtein.{str_eq}
use ext2p.Dir.{Dir}
use ext2p.Dir.Filetype.{ft_file, ft_dir}
use ext2p.Bg.{index_warning, BlockGroup}
use ext2p.Bg.Lookup.{DirAt, moved_to}
use ext2p.Ext2.{Ext2, group_at, inode_to_bg}
use ext2p.Ext2.Delete.{with_group, first_group}
use ext2p.Shell.{
  Shell, Host, found_in, exit_failure, not_a_file, not_a_dir, shell_cat, shell_rm, shell_rmdir,
}
use ext2p.Shell.Directory.{cd_into, shell_cd}
use ext2p.Shell.Commands.Remove.{with_fs, get_file-ok}
use ext2p.Shell.Commands.Enter.{listed_step}

module _ (host : Host) (sh : Shell) (e : Ext2) (bg : BlockGroup) {base block : ℕ}
    (first : group_at e.bgs 0 ≡ ok bg) (ds : List Dir)
    (at_dir : DirAt (first_group e bg) sh.cd base block ds) where
  -- `cat` and `rm` of a name that the current directory lists as something else than a file, and `cd`
  -- and `rmdir` of one that it lists as something else than a directory, end with the status of a
  -- failure, having printed on `stderr` of which type the entry is, behind the warning on an
  -- indexed directory where the directory is one, and leave the shell and the image as they were. The
  -- current directory lies in the first block group, each entry is the first of its name, the name
  -- for `cd` is not `.`, and the fuel is for more rounds than there are entries.
  pub shell_unfit :
      (cmd filename dirname : List ℕ) (root d root' d' : Dir) (rest rest' : List Dir)
      → inode_to_bg e sh.cd ≡ ok 0
      → found_in ds filename ≡ some (root, d, rest)
      → d.filetype ≢ ft_file
      → found_in ds dirname ≡ some (root', d', rest')
      → d'.filetype ≢ ft_dir
      → str_eq dirname (46 ∷ []) ≡ false
      → length ds < host.fuel
      → (e0 : Ext2) × (let refused : Out → Run ((ℕ × Out) × Shell) =
            λ out. ok ((exit_failure, index_warning at_dir.node ++ out), with_fs sh e0) in
          (shell_cat host (cmd ∷ (filename ∷ [])) (with_fs sh e) ≡ refused (not_a_file filename d))
          × (shell_rm host (cmd ∷ (filename ∷ [])) (with_fs sh e) ≡ refused (not_a_file filename d))
          × (shell_cd host (cmd ∷ (dirname ∷ [])) (with_fs sh e) ≡ refused (not_a_dir dirname d'))
          × (shell_rmdir host (cmd ∷ (dirname ∷ [])) (with_fs sh e)
              ≡ refused (not_a_dir dirname d'))
          × (e0.mem ≡ e.mem))
  unfolding shell_cat shell_cd cd_into shell_rm shell_rmdir
  shell_unfit cmd filename dirname root d root' d' rest rest' here found no_file found' no_dir away
        enough =
      let (p, (listed, told, _, _, _)) =
        listed_step host.fuel sh.cd e bg first at_dir here enough in
      let e0 = with_group e (moved_to p (first_group e bg)) in
      let refuse = λ (out : Out).
        ap {B = Run ((ℕ × Out) × Shell)}
          (λ (warned : Out). ok ((exit_failure, warned ++ out), with_fs sh e0)) told in
      let file = get_file-ok host filename sh e e0 ds listed in
      let dir = get_file-ok host dirname sh e e0 ds listed in
      let unlike : (d.filetype == ft_file) ≡ false = ==-ne no_file in
      let unlike' : (d'.filetype == ft_dir) ≡ false = ==-ne no_dir in
      (
        e0,
        (
          rw (file, found, unlike) (refuse (not_a_file filename d)),
          rw (file, found, unlike) (refuse (not_a_file filename d)),
          rw (cd_into, away, dir, found', unlike') (refuse (not_a_dir dirname d')),
          rw (dir, found', unlike') (refuse (not_a_dir dirname d')),
          refl,
        ),
      )
