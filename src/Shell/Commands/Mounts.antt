-- ===== src/Shell/Commands/Mounts.antt =====
-- `mount` and `umount` of an image.
use ext2p.Prelude.{ℕ, ◌≡◌, refl, ap, ◌∙◌, List, [], ◌∷◌, length, Bool, true, none, some}
use ext2p.Machine.{ok}
use ext2p.Util.{present}
use ext2p.Inode.{res_root_dir}
use ext2p.Superblock.{sb_warnings, warnings_out}
use ext2p.Output.{Out}
use ext2p.Ext2.{Ext2, ext2_open, ext2_open_out}
use ext2p.Ext2.Mounted.{ImageAt, mounted, bg, ext2_open-ImageAt, ext2_open_out-ImageAt}
use ext2p.Ext2.Mounted.Single.{IsSingle, ext2_free-IsSingle}
use ext2p.Shell.{
  Shell, Host, PathEntry, exit_success, exit_failure, already_mounted, shell_mount, shell_umount,
}

-- a shell without a file system, in the root directory
abbrev pub shut : (run : Bool) (err : ℕ) → Shell
shut run err = record { cd = res_root_dir; path = []; run = run; err = err; fs = none }

-- a shell in a directory of a file system
abbrev pub within : (cd : ℕ) (path : List PathEntry) (run : Bool) (err : ℕ) → Ext2 → Shell
within cd path run err e = record { cd = cd; path = path; run = run; err = err; fs = some e }

-- `mount` of an image mounts it as its bytes say and prints the warnings about its superblock; with a file
-- system mounted, wherever the shell stands in it, a further `mount` fails and changes nothing, and
-- `umount`, where the file system has one block group, which has been read, leaves the shell as it was
-- before the first `mount`.
pub shell_umount-shell_mount :
    {got : List ℕ} {size : ℕ} (image : ImageAt got size) (host : Host) (cmd img other : List ℕ)
    (run : Bool) (err cd : ℕ) (path : List PathEntry) {e : Ext2}
    → host.file img ≡ present (length got) true got
    → IsSingle e
    → (shell_mount host (cmd ∷ (img ∷ [])) (shut run err)
        ≡ ok (
          (exit_success, warnings_out (bg image).sb (sb_warnings (bg image).sb)),
          record (shut run err) { fs = some (mounted image) },
        ))
      × (shell_mount host (cmd ∷ (other ∷ [])) (within cd path run err e)
          ≡ ok ((exit_failure, already_mounted), within cd path run err e))
      × (shell_umount (within cd path run err e) ≡ ok ((exit_success, []), shut run err))
unfolding shell_mount shell_umount
shell_umount-shell_mount image host cmd img other run err cd path at_file single = (
  rw (ap ext2_open at_file ∙ ext2_open-ImageAt image) (
      ap
        (λ (out : Out).
          ok ((exit_success, out), record (shut run err) { fs = some (mounted image) }))
        (ap (ext2_open_out img) at_file ∙ ext2_open_out-ImageAt image img)),
  refl,
  rw (ext2_free-IsSingle single) refl,
)
