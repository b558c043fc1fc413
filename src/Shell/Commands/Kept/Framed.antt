-- ===== src/Shell/Commands/Kept/Framed.antt =====
-- What the commands on a mounted file system keep, one by one.
use ext2p.Prelude.{ℕ, List, [], ◌∷◌, length, Option, none, some, ◌==◌, ◌/◌}
use ext2p.Machine.{Run, ok, fatal, fault, out_of_fuel, and_then, pure, lift, shl}
use ext2p.Dir.Filetype.{ft_file, ft_dir}
use ext2p.Ext2.{Ext2, group_at}
use ext2p.Ext2.Groups.{
  GroupsAfter, KeepsGroups-lift, get_dir-KeepsGroups, get_inode-KeepsGroups,
  get_inode_size-KeepsGroups, read_file-KeepsGroups, delete_file-KeepsGroups,
  delete_dir-KeepsGroups, save-KeepsGroups,
}
use ext2p.Ext2.Dump.{ext2_dump}
use ext2p.Output.{Out, say}
use ext2p.Shell.Fsdump.{shell_fsdump, fsdump_flags, fsdump_usage, dump_asked}
use ext2p.Shell.Stat.{shell_stat, stat_out}
use ext2p.Shell.{Host, on_fs, get_file, shell_cat, shell_rm, shell_rmdir, shell_save, one_arg}
use ext2p.Shell.Directory.{shell_ls}
use ext2p.Shell.Commands.Kept.{
  Frame-refl, Frames, Frames-bind, Frames-if, Frames-lift, on_fs-Frames, Frames-option,
  get_file-Frames, Frames-listing, Frames-arg,
}

pub shell_rm-Frames : (host : Host) (argv : List (List ℕ)) → Frames (shell_rm host argv)
unfolding shell_rm
shell_rm-Frames host argv sh =
    Frames-arg (one_arg argv) (1, say "usage: rm [file]") _
      (λ filename. Frames-listing _ (
        Frames-bind (get_file host filename) _ (get_file-Frames host filename) λ r.
          Frames-option r _ _ Frame-refl λ (root, d, rest).
            Frames-if (d.filetype == ft_file) _ _
              (Frames-bind (on_fs _) _ (on_fs-Frames _ (delete_file-KeepsGroups _ _ _ _))
                λ deleted. Frame-refl)
              Frame-refl))
      sh

pub shell_cat-Frames : (host : Host) (argv : List (List ℕ)) → Frames (shell_cat host argv)
unfolding shell_cat
shell_cat-Frames host argv sh =
    Frames-arg (one_arg argv) (1, say "usage: cat [file]") _
      (λ filename. Frames-listing _ (
        Frames-bind (get_file host filename) _ (get_file-Frames host filename) λ r.
          Frames-option r _ _ Frame-refl λ (root, d, rest).
            Frames-if (d.filetype == ft_file) _ _
              (Frames-bind (on_fs _) _ (on_fs-Frames _ (read_file-KeepsGroups _)) λ data'.
                Frames-option data' _ _ (λ sh'. tt)
                  λ buffer.
                    Frames-if (length buffer.filled == buffer.capacity) _ _ Frame-refl (λ sh'. tt))
              Frame-refl))
      sh

pub shell_rmdir-Frames : (host : Host) (argv : List (List ℕ)) → Frames (shell_rmdir host argv)
unfolding shell_rmdir
shell_rmdir-Frames host [] sh =
    Frames-bind (on_fs _) _ (on_fs-Frames _ (get_dir-KeepsGroups host.fuel _)) (λ _ sh'. tt) sh
shell_rmdir-Frames host (cmd ∷ []) sh =
    Frames-bind (on_fs _) _ (on_fs-Frames _ (get_dir-KeepsGroups host.fuel _)) (λ _ sh'. tt) sh
shell_rmdir-Frames host (cmd ∷ (filename ∷ more)) sh =
    Frames-listing _
      (Frames-bind (get_file host filename) _ (get_file-Frames host filename) (λ r.
        Frames-option r _ _ Frame-refl λ (root, d, rest).
          Frames-if (d.filetype == ft_dir) _ _
            (Frames-bind (on_fs _) _ (on_fs-Frames _ (delete_dir-KeepsGroups _))
              λ deleted. Frame-refl)
            Frame-refl))
      sh

pub shell_ls-Frames : (host : Host) → Frames (shell_ls host)
unfolding shell_ls
shell_ls-Frames host sh =
    Frames-listing _
      (Frames-bind (on_fs _) _ (on_fs-Frames _ (get_dir-KeepsGroups host.fuel _))
        (λ r. Frames-option r _ _ (λ sh'. tt) (λ ds. Frame-refl)))
      sh

pub shell_save-Frames : (host : Host) (argv : List (List ℕ)) → Frames (shell_save host argv)
unfolding shell_save
shell_save-Frames host argv sh =
    Frames-arg (one_arg argv) (1, say "usage: save [filename]") _
      (λ filename. Frames-bind (on_fs _) _ (on_fs-Frames _ (save-KeepsGroups _)) λ _. Frame-refl) sh

pub shell_stat-Frames : (host : Host) (argv : List (List ℕ)) → Frames (shell_stat host argv)
unfolding shell_stat
shell_stat-Frames host argv sh =
    Frames-arg (one_arg argv) (1, say "usage: stat [file]") _
      (λ filename. Frames-listing _ (
        Frames-bind (get_file host filename) _ (get_file-Frames host filename) λ r.
          Frames-option r _ _ Frame-refl λ (root, d, rest).
            Frames-bind (on_fs _) _ (on_fs-Frames _ (get_inode-KeepsGroups _)) λ inode.
              Frames-bind (on_fs _) _ (on_fs-Frames _ (get_inode_size-KeepsGroups _ _)) λ size.
                Frames-bind (lift _) _ (Frames-lift _) λ human_size.
                  Frames-bind (on_fs _) _
                    (on_fs-Frames _ (λ e. KeepsGroups-lift (group_at e.bgs 0) e))
                    λ bg.
                      Frames-bind (lift (shl 30 2 bg.sb.log_block_size))
                        (λ block. pure (0, stat_out d inode human_size (inode.blocks / block)))
                        (Frames-lift _) λ _. Frame-refl))
      sh

dumped : (e : Ext2) (r : Run Out) → GroupsAfter e (and_then r λ out. ok (out, e))
dumped e (ok out) = λ one. one
dumped e fatal = tt
dumped e fault = tt
dumped e out_of_fuel = tt

dump_asked-Frames :
    (host : Host) (fmt : List ℕ) (flags : Option ℕ) → Frames (dump_asked host fmt flags)
dump_asked-Frames host fmt none sh = Frame-refl sh
dump_asked-Frames host fmt (some flags) sh =
    Frames-bind (on_fs _) _ (on_fs-Frames _ (λ e. dumped e (ext2_dump host.now e flags)))
      (λ out. Frame-refl) sh

pub shell_fsdump-Frames : (host : Host) (argv : List (List ℕ)) → Frames (shell_fsdump host argv)
unfolding shell_fsdump
shell_fsdump-Frames host argv sh =
    Frames-arg (one_arg argv) (1, fsdump_usage) _
      (λ fmt. dump_asked-Frames host fmt (fsdump_flags fmt 0)) sh
