-- ===== src/Shell/Commands/Calls.antt =====
-- Every command of the table ends in a well-formed shell, if it ends.
use ext2p.Prelude.{ℕ, refl, arith, List, [], ◌∷◌, ◌++◌, Option, none, some, Bool-cases, inl, inr}
use ext2p.Machine.{Run, ok, fatal, fault, out_of_fuel, and_then}
use ext2p.Inode.{res_root_dir}
use ext2p.Util.Levenshtein.{str_eq}
use ext2p.Ext2.{Ext2, ext2_open, ext2_open_out, ext2_free}
use ext2p.Ext2.Groups.{OpensOne, ext2_open-OpensOne}
use ext2p.Output.{Out, say}
use ext2p.Shell.{
  listing_out, Shell, Host, Action, get_file, shell_exit, shell_mount, shell_umount, one_arg,
  silent, fails, not_mounted, already_mounted,
}
use ext2p.Shell.Directory.{cd_into, shell_cd}
use ext2p.Shell.Help.{shell_clear, shell_help, shell_man}
use ext2p.Shell.Commands.{Command, call}
use ext2p.Shell.Commands.Kept.{IsWellFormed}
use ext2p.Shell.Commands.Kept.Framed.{
  shell_cat-Frames, shell_rm-Frames, shell_rmdir-Frames, shell_ls-Frames, shell_save-Frames,
  shell_stat-Frames, shell_fsdump-Frames,
}
use ext2p.Shell.Commands.Cd.{Ends, told-Ends, FrameAfter-Ends, cd_found, get_file_ran}

arg-Ends :
    (r : Option (List ℕ)) (usage : Out) (k : List ℕ → Action) (sh : Shell)
    → IsWellFormed sh
    → ((arg : List ℕ) → Ends (k arg sh))
    → Ends (elim r as (λ _. Run ((ℕ × Out) × Shell)) [
      | none ↦ ok ((1, usage), sh)
      | some arg ↦ k arg sh
    ])
arg-Ends none usage k sh w kept = w
arg-Ends (some arg) usage k sh w kept = kept arg

cd_into-Ends :
    (host : Host) (into : List ℕ) (sh : Shell) → IsWellFormed sh → Ends (cd_into host into sh)
unfolding cd_into
cd_into-Ends host into sh w = elim (Bool-cases (str_eq into (46 ∷ []))) [
  | inl here ↦ rw (cd_into, here) w
  | inr away ↦
      rw (cd_into, away)
        (told-Ends (listing_out sh) _
          (cd_found into sh (get_file host into sh) w (get_file_ran host into sh)))
]

shell_cd-Ends :
    (host : Host) (argv : List (List ℕ)) (sh : Shell)
    → IsWellFormed sh
    → Ends (shell_cd host argv sh)
unfolding shell_cd
shell_cd-Ends host argv sh w =
    arg-Ends (one_arg argv) (say "usage: cd [dir]") (λ into. cd_into host into) sh w
      (λ into. cd_into-Ends host into sh w)

opened-Ends :
    (sh : Shell) (r : Run (Option Ext2)) (failed mounted : Out)
    → IsWellFormed (record sh { fs = none })
    → OpensOne r
    → Ends {A = ℕ × Out} (
        and_then r λ fs. elim fs as (λ _. Run ((ℕ × Out) × Shell)) [
          | none ↦ fails failed (record sh { fs = none })
          | some e ↦ ok ((0, mounted), record sh { fs = some e })
        ])
opened-Ends sh (ok none) failed mounted w one = w
opened-Ends sh (ok (some e)) failed mounted w one = (w.0, tt, one)
opened-Ends sh fatal failed mounted w one = tt
opened-Ends sh fault failed mounted w one = tt
opened-Ends sh out_of_fuel failed mounted w one = tt

shell_mount_at :
    (host : Host) (argv : List (List ℕ)) (sh : Shell) (fs : Option Ext2)
    → IsWellFormed (record sh { fs = fs })
    → Ends (shell_mount host argv (record sh { fs = fs }))
unfolding shell_mount
shell_mount_at host argv sh none w =
    arg-Ends (one_arg argv) (say "usage: mount [image]")
      (λ img sh'. and_then (ext2_open (host.file img)) λ fs.
        elim fs as (λ _. Run ((ℕ × Out) × Shell)) [
          | none ↦
              fails (ext2_open_out img (host.file img) ++ not_mounted img)
                (record sh' { fs = none })
          | some e ↦ ok ((0, ext2_open_out img (host.file img)), record sh' { fs = some e })
        ])
      (record sh { fs = none }) w
      λ img. opened-Ends sh (ext2_open (host.file img)) _ _ w (ext2_open-OpensOne (host.file img))
shell_mount_at host argv sh (some e) w =
    arg-Ends (one_arg argv) (say "usage: mount [image]") (λ img. fails already_mounted)
      (record sh { fs = some e }) w λ img. w

freed-Ends :
    (sh : Shell) (r : Run (Unit {0}))
    → Ends {A = ℕ × Out}
        (and_then r λ _. silent 0 (record sh { cd = res_root_dir; path = []; fs = none }))
freed-Ends sh (ok u) = (omega arith, (refl, refl), tt)
freed-Ends sh fatal = tt
freed-Ends sh fault = tt
freed-Ends sh out_of_fuel = tt

shell_umount_at :
    (sh : Shell) (fs : Option Ext2)
    → IsWellFormed (record sh { fs = fs })
    → Ends (shell_umount (record sh { fs = fs }))
unfolding shell_umount
shell_umount_at sh none w = w
shell_umount_at sh (some e) w = freed-Ends sh (ext2_free e)

pub call-Ends :
    (host : Host) (cmd : Command) (argv : List (List ℕ)) (sh : Shell)
    → IsWellFormed sh
    → Ends (call host cmd argv sh)
unfolding call shell_exit shell_clear shell_help shell_man
call-Ends host Command.cat argv sh w = FrameAfter-Ends sh _ w (shell_cat-Frames host argv sh)
call-Ends host Command.cd argv sh w = shell_cd-Ends host argv sh w
call-Ends host Command.clear argv sh w = w
call-Ends host Command.exit argv sh w = w
call-Ends host Command.fsdump argv sh w = FrameAfter-Ends sh _ w (shell_fsdump-Frames host argv sh)
call-Ends host Command.help argv sh w = w
call-Ends host Command.ls argv sh w = FrameAfter-Ends sh _ w (shell_ls-Frames host sh)
call-Ends host Command.man argv sh w = w
call-Ends host Command.mount argv sh w = shell_mount_at host argv sh sh.fs w
call-Ends host Command.rm argv sh w = FrameAfter-Ends sh _ w (shell_rm-Frames host argv sh)
call-Ends host Command.rmdir argv sh w = FrameAfter-Ends sh _ w (shell_rmdir-Frames host argv sh)
call-Ends host Command.save argv sh w = FrameAfter-Ends sh _ w (shell_save-Frames host argv sh)
call-Ends host Command.stat argv sh w = FrameAfter-Ends sh _ w (shell_stat-Frames host argv sh)
call-Ends host Command.umount argv sh w = shell_umount_at sh sh.fs w
