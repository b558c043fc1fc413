-- ===== src/Shell/Stat.antt =====
-- `stat` of src/shell.c.
use Prim.Native.String.{String}
use ext2p.Prelude.{ℕ, ◌/◌, List, [], ◌∷◌, ◌==◌, if◌then◌else◌, none, some}
use ext2p.Machine.{ok, pure, lift, ◌>>=◌, shl}
use ext2p.Output.{Out, Piece, sized, lit, dec, str, date, row, say, padded, c_str, lines}
use ext2p.Inode.{Inode}
use ext2p.Dir.{Dir}
use ext2p.Dir.Filetype.{dir_get_filetype}
use ext2p.Ext2.{group_at, ext2_get_inode, ext2_get_inode_size}
use ext2p.Shell.{
  listing, Host, Action, on_fs, get_file, one_arg, fails, not_found, exit_success, exit_failure,
}
use ext2p.Shell.Size.{humanize_size}

-- `SUFFIX`
abbrev pub suffix : ℕ → String
suffix i =
    if i == 0
    then "B"
    else if i == 1
    then "KiB"
    else if i == 2
    then "MiB"
    else if i == 3
    then "GiB"
    else "TiB"

-- `humansize`: a suffix and the number in front of it, filled up to 8 characters together
abbrev pub human : ℕ × ℕ → Piece
human (i, bytes) = padded 8 (sized bytes (suffix i))

unfoldable pub stat_out : Dir → Inode → (size : ℕ × ℕ) → (maxblock : ℕ) → Out
stat_out d inode size maxblock = lines (
    say "data:"
    ∷ row "  name.... " (str (c_str d.filename))
    ∷ row "  type.... " (lit (dir_get_filetype d.filetype))
    ∷ (lit "  size.... " ∷ human size ∷ lit " blocks... " ∷ padded 6 (dec inode.blocks) ∷ [])
    ∷ row " fs blocks... " (dec maxblock)
    ∷ (lit "  inode... " ∷ padded 8 (dec d.inode) ∷ lit " links.... " ∷ [])
    ∷ (dec inode.link_count ∷ lit "\n\n" ∷ [])
    ∷ say "times:"
    ∷ row "  access... " (date inode.access_time)
    ∷ row "  modify... " (date inode.modify_time)
    ∷ row "  create... " (date inode.create_time)
    ∷ row "  delete... " (date inode.delete_time)
    ∷ [])

unfoldable pub shell_stat : Host → List (List ℕ) → Action
shell_stat host argv sh = elim (one_arg argv) [
  | none ↦ ok ((exit_failure, say "usage: stat [file]"), sh)
  | some filename ↦
      listing
        (do
          r ← get_file host filename
          elim r [
            | none ↦ fails (not_found filename)
            | some (root, d, rest) ↦ do
              inode ← on_fs (ext2_get_inode d.inode)
              size ← on_fs (ext2_get_inode_size d.inode inode)
              human_size ← lift (humanize_size size)
              bg ← on_fs (λ e. lift (group_at e.bgs 0) e)
              block ← lift (shl 30 2 bg.sb.log_block_size)
              pure (exit_success, stat_out d inode human_size (inode.blocks / block))
          ])
        sh
]
