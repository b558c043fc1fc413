-- ===== src/Shell/Directory.antt =====
-- `cd` and `ls` of src/shell.c.
use ext2p.Prelude.{ℕ, List, [], ◌∷◌, ◌++◌, ltb, ◌==◌, if◌then◌else◌, none, some, length, ◌||◌}
use ext2p.Machine.{Run, ok, fault, and_then, pure, ◌>>=◌}
use ext2p.Output.{Out, lit, str, padded, say, c_str}
use ext2p.Util.Levenshtein.{str_eq}
use ext2p.Dir.{Dir}
use ext2p.Dir.Filetype.{ft_dir, dir_get_filetype}
use ext2p.Ext2.{ext2_get_dir}
use ext2p.Shell.{
  listing, Host, PathEntry, Action, on_fs, get_file, one_arg, silent, fails, not_found, not_a_dir,
  exit_success, exit_failure,
}

-- the path after a change to the directory `d` by the name `into`; the name takes 255 bytes
abbrev pub changed_path : List ℕ → Dir → List PathEntry → Run (List PathEntry)
changed_path into d path =
    if str_eq into (46 ∷ (46 ∷ []))
    then ok (elim path [ [] ↦ [] | entry ∷ up ↦ up ])
    else if ltb (length path) 127
    then (if ltb d.name_len 255
        then ok (record { name = c_str d.filename; inode = d.inode } ∷ path)
        else fault)
    else ok path

-- `cd` with its argument
unfoldable pub cd_into : Host → List ℕ → Action
cd_into host into sh =
    if str_eq into (46 ∷ [])
    then silent exit_success sh
    else listing
        (do
          r ← get_file host into
          elim r [
            | none ↦ fails (not_found into)
            | some (root, d, rest) ↦
                if d.filetype == ft_dir
                then (λ sh'.
                    and_then (changed_path into d sh'.path)
                      λ path. silent exit_success (record sh' { cd = d.inode; path = path }))
                else fails (not_a_dir into d)
          ])
        sh

unfoldable pub shell_cd : Host → List (List ℕ) → Action
shell_cd host argv sh = elim (one_arg argv) [
  | none ↦ ok ((exit_failure, say "usage: cd [dir]"), sh)
  | some into ↦ cd_into host into sh
]

-- a line for every entry but `.` and `..`
abbrev pub ls_entry : Dir → Out
ls_entry d =
    if str_eq (c_str d.filename) (46 ∷ []) || str_eq (c_str d.filename) (46 ∷ (46 ∷ []))
    then []
    else (lit "  "
        ∷ padded 7 (lit (dir_get_filetype d.filetype))
        ∷ lit " "
        ∷ str (c_str d.filename)
        ∷ lit "\n"
        ∷ [])

abbrev pub ls_entries : List Dir → Out
ls_entries [] = []
ls_entries (d ∷ ds) = ls_entry d ++ ls_entries ds

-- A listing that fails frees a node that nothing has set.
unfoldable pub shell_ls : Host → Action
shell_ls host sh =
    listing
      (do
        r ← on_fs (ext2_get_dir host.fuel sh.cd)
        elim r [ none ↦ λ _. fault | some ds ↦ pure (exit_success, ls_entries ds) ])
      sh
