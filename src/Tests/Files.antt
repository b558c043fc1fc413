-- ===== src/Tests/Files.antt =====
-- The commands on a file at the shell, in the sample.
use ext2p.Prelude.{ℕ, List, ◌≡◌, refl, arith, [], ◌∷◌, ◌++◌, true, some, take}
use ext2p.Machine.{Run, ok}
use ext2p.Output.{Out, str}
use ext2p.Util.{absent}
use ext2p.Bg.Content.{whole}
use ext2p.Superblock.{superblock_of_bytes}
use ext2p.Dir.Shift.{moved}
use ext2p.Ext2.{Ext2, group_at, inode_to_bg}
use ext2p.Shell.{
  Shell, Host, exit_failure, not_found, not_a_file, not_a_dir, shell_rm, shell_cat, shell_rmdir,
}
use ext2p.Shell.Stat.{shell_stat}
use ext2p.Shell.Directory.{shell_cd, shell_ls, ls_entries, ls_entry}
use ext2p.Shell.Commands.Remove.{with_fs, shell_ls-shell_rm}
use ext2p.Shell.Commands.Unfit.{shell_unfit}
use ext2p.Shell.Commands.Missing.{shell_missing}
use ext2p.Shell.Commands.Cat.{shell_cat_lem}
use ext2p.Tests.Samples.{image, entries, dot, entry_a, entry_b, sample}
use ext2p.Tests.Groups.{sample_dir, sample_file, sample_node, system}

abbrev host : Host
host = record { file = λ path. absent; can_write = λ path. true; now = 7; fuel = 1025 }

abbrev in_root : Shell
in_root = record { cd = 2; path = []; run = true; err = 0; fs = some system }

-- `rm a`
shell_ls-shell_rm_example :
    (e0 : Ext2) × (e1 : Ext2) × (e2 : Ext2) × (shell_ls host in_root
      ≡ ok (
        (0, ls_entries (dot ∷ []) ++ (ls_entry entry_a ++ ls_entries (entry_b ∷ []))),
        with_fs in_root e0,
      ))
    × (shell_rm host ((114 ∷ 109 ∷ []) ∷ ((97 ∷ []) ∷ [])) in_root
        ≡ ok ((0, []), with_fs in_root e1))
    × (shell_ls host (with_fs in_root e1)
        ≡ ok ((0, ls_entries (dot ∷ []) ++ ls_entries (entry_b ∷ [])), with_fs in_root e2))
unfolding sample_dir moved inode_to_bg group_at superblock_of_bytes
shell_ls-shell_rm_example =
    shell_ls-shell_rm host in_root system sample.bg refl dot entry_a (dot ∷ []) (entry_b ∷ [])
      sample_dir sample_file (114 ∷ 109 ∷ []) (97 ∷ []) refl tt refl refl refl refl refl
      (omega arith) (omega arith)

-- `cat a`
shell_cat_lem_example :
    (e1 : Ext2) × (shell_cat host ((99 ∷ (97 ∷ (116 ∷ []))) ∷ ((97 ∷ []) ∷ [])) in_root
      ≡ ok ((0, str (take 3 (whole image 1024 (3072 ∷ []))) ∷ []), with_fs in_root e1))
    × (e1.mem ≡ image)
unfolding sample_dir inode_to_bg group_at superblock_of_bytes
shell_cat_lem_example =
    shell_cat_lem host in_root system sample.bg refl entries (3072 ∷ []) sample_dir
      (99 ∷ (97 ∷ (116 ∷ []))) (97 ∷ []) dot entry_a (entry_b ∷ []) sample_node (omega arith)
      (omega arith) refl refl refl refl (omega arith)

-- `cat c`, `cd c`, `rm c`, `rmdir c` and `stat c`, called by one name
shell_missing_example :
    (e0 : Ext2) × (let missing : Run ((ℕ × Out) × Shell) =
        ok ((exit_failure, not_found (99 ∷ [])), with_fs in_root e0) in
      let argv : List (List ℕ) = (120 ∷ []) ∷ ((99 ∷ []) ∷ []) in
      (shell_cat host argv in_root ≡ missing)
      × (shell_cd host argv in_root ≡ missing)
      × (shell_rm host argv in_root ≡ missing)
      × (shell_rmdir host argv in_root ≡ missing)
      × (shell_stat host argv in_root ≡ missing)
      × (e0.mem ≡ image))
unfolding sample_dir inode_to_bg group_at superblock_of_bytes
shell_missing_example =
    shell_missing host in_root system sample.bg refl entries sample_dir (120 ∷ []) (99 ∷ []) refl
      refl refl (omega arith)

-- `cat .`, `rm .`, `cd a` and `rmdir a`
shell_unfit_example :
    (e0 : Ext2) × (let refused : Out → Run ((ℕ × Out) × Shell) =
        λ out. ok ((exit_failure, out), with_fs in_root e0) in
      let on_dir : List (List ℕ) = (120 ∷ []) ∷ ((46 ∷ []) ∷ []) in
      let on_file : List (List ℕ) = (120 ∷ []) ∷ ((97 ∷ []) ∷ []) in
      (shell_cat host on_dir in_root ≡ refused (not_a_file (46 ∷ []) dot))
      × (shell_rm host on_dir in_root ≡ refused (not_a_file (46 ∷ []) dot))
      × (shell_cd host on_file in_root ≡ refused (not_a_dir (97 ∷ []) entry_a))
      × (shell_rmdir host on_file in_root ≡ refused (not_a_dir (97 ∷ []) entry_a))
      × (e0.mem ≡ image))
unfolding sample_dir inode_to_bg group_at superblock_of_bytes
shell_unfit_example =
    shell_unfit host in_root system sample.bg refl entries sample_dir (120 ∷ []) (46 ∷ []) (97 ∷ [])
      dot dot dot entry_a (entry_a ∷ (entry_b ∷ [])) (entry_b ∷ []) refl refl
      (λ e. absurd (omega arith)) refl (λ e. absurd (omega arith)) refl (omega arith)
