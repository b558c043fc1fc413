-- ===== src/Shell/Help.antt =====
-- The commands of src/shell.c that only print.
use ext2p.Prelude.{[], ◌∷◌}
use ext2p.Machine.{ok}
use ext2p.Output.{Out, lit, say, lines}
use ext2p.Shell.{Action, exit_success}

-- `clrscr`
unfoldable pub shell_clear : Action
shell_clear sh = ok ((exit_success, lit "\u{1b}[1;1H\u{1b}[2J" ∷ []), sh)

abbrev pub help_text : Out
help_text = lines (
    say "== ext2 shell =="
    ∷ say ""
    ∷ say "about:"
    ∷ say "  this is a small shell for interfacing with the ext2 emulator"
    ∷ say ""
    ∷ say "commands:"
    ∷ say "  cat              displays the contents of a file"
    ∷ say "  cd               changes the current directory"
    ∷ say "  clear            clears the screen"
    ∷ say "  cls              'clear' alias -- clears the screen"
    ∷ say "  dir              'ls' alias -- lists the contents of a directory"
    ∷ say "  exit             exits the shell"
    ∷ say "  fsdump           dumps information about the filesystem"
    ∷ say "  help             display this help text"
    ∷ say "  ls               lists the contents of a directory"
    ∷ say "  man              displays the documentation for a command"
    ∷ say "  mnt              'mount' alias -- mounts a filesystem"
    ∷ say "  mount            mounts a filesystem"
    ∷ say "  save             saves the filesystem state"
    ∷ say "  stat             displays information about a file"
    ∷ say "  umnt             'umount' alias -- unmounts a filesystem"
    ∷ say "  umount           unmounts a filesystem"
    ∷ say ""
    ∷ say "faq:"
    ∷ say "  how do i exit?   ctrl+c or type 'exit'"
    ∷ [])

unfoldable pub shell_help : Action
shell_help sh = ok ((exit_success, help_text), sh)

unfoldable pub shell_man : Action
shell_man sh = ok ((exit_success, say "TODO: implement"), sh)
