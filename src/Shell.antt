-- ===== src/Shell.antt =====
-- src/shell.c and inc/shell.h: the state of the shell and its commands, with what they print;
-- frees of lists are left out. When `ext2GetDir` or `ext2ReadFile` fails, its callers read memory that
-- nothing has set.
pub mod Args
pub mod Size
pub mod Directory
pub mod Fsdump
pub mod Stat
pub mod Help
pub mod Commands
pub mod Loop
pub mod Refused
use ext2p.Prelude.{
  ℕ, zero, suc, ◌+◌, ◌-◌, ◌<◌, List, [], ◌∷◌, ◌++◌, ltb, ◌==◌, if◌then◌else◌, Bool, true, false,
  Option, none, some, length, take, ◌&&◌, ◌||◌,
}
use ext2p.Machine.{Run, ok, fault, and_then, Exec, pure, lift, ◌>>=◌, ◌>>◌, u32, shl}
use Prim.Native.String.{String}
use ext2p.Output.{report, Out, Piece, lit, str, padded, say, c_str, warning}
use ext2p.Util.{OpenFile}
use ext2p.Util.Levenshtein.{str_eq, util_levenshtein}
use ext2p.Inode.{res_root_dir}
use ext2p.Dir.{Dir}
use ext2p.Dir.Filetype.{ft_file, ft_dir, dir_get_filetype}
use ext2p.Bg.{FileBuffer}
use ext2p.Ext2.{
  Ext2, ext2_open, ext2_open_out, ext2_free, ext2_get_dir, ext2_get_dir_out, ext2_read_file,
  ext2_delete_file, ext2_delete_dir, ext2_save_to_file,
}

pub record PathEntry : Type 0 where
  pub name : List ℕ
  pub inode : ℕ

-- `path` holds the entries below `pathLevel`, the last one first. `none` is a null `fs`.
pub record Shell : Type 0 where
  pub cd : ℕ
  pub path : List PathEntry
  pub run : Bool
  pub err : ℕ
  pub fs : Option Ext2

-- What the commands ask the host, and the fuel of the directory loop.
pub record Host : Type 0 where
  pub file : List ℕ → OpenFile
  pub can_write : List ℕ → Bool
  pub now : ℕ
  pub fuel : ℕ

-- EXIT_SUCCESS and EXIT_FAILURE
abbrev pub exit_success : ℕ
exit_success = 0

abbrev pub exit_failure : ℕ
exit_failure = 1

-- `none` stands for a null `IMGPATH`.
unfoldable pub shell_open : Host → Option (List ℕ) → Run (Out × Shell)
shell_open host none =
    ok ([], record { cd = res_root_dir; path = []; run = true; err = exit_success; fs = none })
shell_open host (some img) = and_then (ext2_open (host.file img)) λ fs. ok (
  ext2_open_out img (host.file img) ++ (elim fs [
    | none ↦
        warning ∷ lit "'" ∷ str img ∷ lit "' is not a valid image; starting shell unmounted" ∷ []
    | some e ↦ []
  ]),
  record { cd = res_root_dir; path = []; run = true; err = exit_success; fs = fs },
)

-- `shellFree`; the free of the shell itself is left out.
unfoldable pub shell_free : Shell → Run (Unit {0})
shell_free sh = elim sh.fs [ none ↦ ok tt | some e ↦ ext2_free e ]

-- a call on `shell->fs`
unfoldable pub on_fs : {A : Type 0} → Exec Ext2 A → Exec Shell A
on_fs c sh = elim sh.fs [
  | none ↦ fault
  | some e ↦ and_then (c e) λ (a, e'). ok (a, record sh { fs = some e' })
]

-- the first entry of a name, and the entries behind it
abbrev pub find_inode : List Dir → List ℕ → Option (Dir × List Dir)
find_inode [] filename = none
find_inode (d ∷ ds) filename =
    if str_eq (c_str d.filename) filename then some (d, ds) else find_inode ds filename

-- the first entry, the entry of the name, and those behind it
abbrev pub found_in : List Dir → List ℕ → Option (Dir × Dir × List Dir)
found_in [] filename = none
found_in (root ∷ ds) filename = elim (find_inode (root ∷ ds) filename) [
  | none ↦ none
  | some (d, rest) ↦ some (root, d, rest)
]

-- When `ext2GetDir` fails, the caller's node is freed, which nothing has set.
unfoldable pub get_file : Host → List ℕ → Exec Shell (Option (Dir × Dir × List Dir))
get_file host filename sh =
    (do
      r ← on_fs (ext2_get_dir host.fuel sh.cd)
      elim r [ none ↦ λ _. fault | some ds ↦ pure (found_in ds filename) ])
      sh

-- `argv[1]` where `argc` is 2
abbrev pub one_arg : List (List ℕ) → Option (List ℕ)
one_arg (cmd ∷ (x ∷ [])) = some x
one_arg argv = none

-- The commands return their exit status and what they print.
abbrev pub Action : Type 0
Action = Exec Shell (ℕ × Out)

-- a return without a word
abbrev pub silent : (status : ℕ) → Action
silent status sh = ok ((status, []), sh)

-- a failure with what is printed
abbrev pub fails : Out → Action
fails out sh = ok ((exit_failure, out), sh)

-- what is printed of the listing of the current directory
abbrev pub listing_out : Shell → Out
listing_out sh = elim sh.fs [ none ↦ [] | some e ↦ ext2_get_dir_out sh.cd e ]

-- a command that lists the current directory first: what that prints comes before all else
abbrev pub listing : Action → Action
listing command sh =
    and_then (command sh) λ ((status, out), sh'). ok ((status, listing_out sh ++ out), sh')

-- the error of `_findInode`, for the commands that look a name up
abbrev pub not_found : List ℕ → Out
not_found filename = report (lit "'" ∷ str filename ∷ lit "' not found\n" ∷ [])

abbrev pub not_a : String → List ℕ → Dir → Out
not_a what filename d =
    report (lit "'" ∷ str filename ∷ lit what ∷ lit (dir_get_filetype d.filetype) ∷ lit ")\n" ∷ [])

abbrev pub not_a_file : List ℕ → Dir → Out
not_a_file = not_a "' is not a file (is a "

abbrev pub not_a_dir : List ℕ → Dir → Out
not_a_dir = not_a "' is not a dir (is a "

-- Without a buffer `cat` reads an `FP` that nothing has set.
unfoldable pub shell_cat : Host → List (List ℕ) → Action
shell_cat host argv sh = elim (one_arg argv) [
  | none ↦ ok ((exit_failure, say "usage: cat [file]"), sh)
  | some filename ↦
      listing
        (do
          r ← get_file host filename
          elim r [
            | none ↦ fails (not_found filename)
            | some (root, d, rest) ↦
                if d.filetype == ft_file
                then (do
                  data' ← on_fs (ext2_read_file d.inode)
                  elim data' [
                    | none ↦ λ _. fault
                    | some buffer ↦
                        if length buffer.filled == buffer.capacity
                        then pure (exit_success, str buffer.filled ∷ [])
                        else λ _. fault
                  ])
                else fails (not_a_file filename d)
          ])
        sh
]

unfoldable pub shell_exit : Action
shell_exit sh = silent exit_success (record sh { run = false })

abbrev pub already_mounted : Out
already_mounted =
    report
      (lit "a filesystem is already mounted; unmount it first before mounting another one\n" ∷ [])

abbrev pub not_mounted : List ℕ → Out
not_mounted img = report (lit "couldn't mount image at '" ∷ str img ∷ lit "'" ∷ [])

unfoldable pub shell_mount : Host → List (List ℕ) → Action
shell_mount host argv sh = elim (one_arg argv) [
  | none ↦ ok ((exit_failure, say "usage: mount [image]"), sh)
  | some img ↦ elim sh.fs [
    | some e ↦ fails already_mounted sh
    | none ↦ and_then (ext2_open (host.file img)) λ fs. elim fs [
      | none ↦
          fails (ext2_open_out img (host.file img) ++ not_mounted img) (record sh { fs = none })
      | some e ↦ ok ((exit_success, ext2_open_out img (host.file img)), record sh { fs = some e })
    ]
  ]
]

unfoldable pub shell_rm : Host → List (List ℕ) → Action
shell_rm host argv sh = elim (one_arg argv) [
  | none ↦ ok ((exit_failure, say "usage: rm [file]"), sh)
  | some filename ↦
      listing
        (do
          r ← get_file host filename
          elim r [
            | none ↦ fails (not_found filename)
            | some (root, d, rest) ↦
                if d.filetype == ft_file
                then (do
                  deleted ← on_fs (ext2_delete_file host.now root d rest)
                  silent (if deleted then exit_success else exit_failure))
                else fails (not_a_file filename d)
          ])
        sh
]

-- There is no test of `argc`: without an argument a null pointer is compared to the first name.
unfoldable pub shell_rmdir : Host → List (List ℕ) → Action
shell_rmdir host (cmd ∷ (filename ∷ more)) sh =
    listing
      (do
        r ← get_file host filename
        elim r [
          | none ↦ fails (not_found filename)
          | some (root, d, rest) ↦
              if d.filetype == ft_dir
              then (do
                deleted ← on_fs (ext2_delete_dir d)
                silent (if deleted then exit_success else exit_failure))
              else fails (not_a_dir filename d)
        ])
      sh
shell_rmdir host argv sh = (do _ ← on_fs (ext2_get_dir host.fuel sh.cd); (λ _. fault)) sh

unfoldable pub shell_save : Host → List (List ℕ) → Action
shell_save host argv sh = elim (one_arg argv) [
  | none ↦ ok ((exit_failure, say "usage: save [filename]"), sh)
  | some filename ↦
      (do _ ← on_fs (ext2_save_to_file (host.can_write filename)); silent exit_success) sh
]

unfoldable pub shell_umount : Action
shell_umount sh = elim sh.fs [
  | none ↦ ok ((exit_success, say "no filesystem is mounted, ignoring"), sh)
  | some e ↦
      and_then (ext2_free e)
        λ _. silent exit_success (record sh { cd = res_root_dir; path = []; fs = none })
]
