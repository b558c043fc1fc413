-- ===== src/Shell/Commands.antt =====
-- The table of commands of src/shell.c, `_checkCommands`, `_tryLevenshtein` and a round of `shellRun`.
pub mod Kept
pub mod Cd
pub mod Calls
pub mod Reach
pub mod Suggest
pub mod Remove
pub mod Cat
pub mod Typed
pub mod Stored
pub mod Missing
pub mod Mounts
pub mod Enter
pub mod Status
pub mod Rmdir
pub mod Unfit
use ext2p.Prelude.{
  ◌≡◌, ℕ, zero, suc, ◌+◌, ◌<◌, List, [], ◌∷◌, ltb, ◌==◌, ◌&&◌, if◌then◌else◌, Bool, true, false,
  Option, none, some, get_elem?, ◌++◌, ◌||◌,
}
use ext2p.Machine.{Run, ok, fault, and_then}
use ext2p.Output.{Out, Piece, lit, str, say, warning, report}
use ext2p.Util.Levenshtein.{str_eq, util_levenshtein}
use ext2p.Shell.{
  Shell, Host, Action, exit_success, shell_cat, shell_exit, shell_mount, shell_rm, shell_rmdir,
  shell_save, shell_umount,
}
use ext2p.Shell.Directory.{shell_cd, shell_ls}
use ext2p.Shell.Fsdump.{shell_fsdump}
use ext2p.Shell.Stat.{shell_stat}
use ext2p.Shell.Help.{shell_clear, shell_help, shell_man}
use ext2p.Shell.Args.{get_args, space}

pub data Command : Type 0 where
  cat : Command
  cd : Command
  clear : Command
  exit : Command
  fsdump : Command
  help : Command
  ls : Command
  man : Command
  mount : Command
  rm : Command
  rmdir : Command
  save : Command
  stat : Command
  umount : Command

pub record ShellCommand : Type 0 where
  pub name : List ℕ
  pub fn : Command
  pub needs_mount : Bool

abbrev command : List ℕ → Command → Bool → ShellCommand
command name fn needs_mount = record { name = name; fn = fn; needs_mount = needs_mount }

-- `cat`, `cd`, `clear`, `cls`, `dir`, `exit`, `fsdump`, `help`, `ls`, `man`, `mnt`, `mount`, `rm`,
-- `rmdir`, `save`, `stat`, `umnt`, `umount`
unfoldable pub shell_commands : List ShellCommand
shell_commands =
    command (99 ∷ 97 ∷ 116 ∷ []) cat true
    ∷ command (99 ∷ 100 ∷ []) cd true
    ∷ command (99 ∷ 108 ∷ 101 ∷ 97 ∷ 114 ∷ []) clear false
    ∷ command (99 ∷ 108 ∷ 115 ∷ []) clear false
    ∷ command (100 ∷ 105 ∷ 114 ∷ []) ls true
    ∷ command (101 ∷ 120 ∷ 105 ∷ 116 ∷ []) exit false
    ∷ command (102 ∷ 115 ∷ 100 ∷ 117 ∷ 109 ∷ 112 ∷ []) fsdump true
    ∷ command (104 ∷ 101 ∷ 108 ∷ 112 ∷ []) help false
    ∷ command (108 ∷ 115 ∷ []) ls true
    ∷ command (109 ∷ 97 ∷ 110 ∷ []) man false
    ∷ command (109 ∷ 110 ∷ 116 ∷ []) mount false
    ∷ command (109 ∷ 111 ∷ 117 ∷ 110 ∷ 116 ∷ []) mount false
    ∷ command (114 ∷ 109 ∷ []) rm true
    ∷ command (114 ∷ 109 ∷ 100 ∷ 105 ∷ 114 ∷ []) rmdir true
    ∷ command (115 ∷ 97 ∷ 118 ∷ 101 ∷ []) save true
    ∷ command (115 ∷ 116 ∷ 97 ∷ 116 ∷ []) stat true
    ∷ command (117 ∷ 109 ∷ 110 ∷ 116 ∷ []) umount true
    ∷ command (117 ∷ 109 ∷ 111 ∷ 117 ∷ 110 ∷ 116 ∷ []) umount true
    ∷ []

-- `cmd->fn(shell, argc, argv)`
unfoldable pub call : Host → Command → List (List ℕ) → Action
call host cat argv sh = shell_cat host argv sh
call host cd argv sh = shell_cd host argv sh
call host clear argv sh = shell_clear sh
call host exit argv sh = shell_exit sh
call host fsdump argv sh = shell_fsdump host argv sh
call host help argv sh = shell_help sh
call host ls argv sh = shell_ls host sh
call host man argv sh = shell_man sh
call host mount argv sh = shell_mount host argv sh
call host rm argv sh = shell_rm host argv sh
call host rmdir argv sh = shell_rmdir host argv sh
call host save argv sh = shell_save host argv sh
call host stat argv sh = shell_stat host argv sh
call host umount argv sh = shell_umount sh

-- the status of a command goes to `err`
abbrev pub finish : Run ((ℕ × Out) × Shell) → Run ((Bool × Out) × Shell)
finish r = and_then r λ ((status, out), sh'). ok ((true, out), record sh' { err = status })

abbrev pub needs_fs : Out
needs_fs = report (lit "a filesystem needs to be mounted\n" ∷ [])

-- A command that is found and needs a mount leaves everything as it was, `err` included.
unfoldable pub dispatch : Host → List (List ℕ) → ShellCommand → Shell → Run ((Bool × Out) × Shell)
dispatch host argv cmd sh =
    if cmd.needs_mount
    then (elim sh.fs [
      | none ↦ ok ((true, needs_fs), sh)
      | some e ↦ finish (call host cmd.fn argv sh)
    ])
    else finish (call host cmd.fn argv sh)

-- the loop over the table
abbrev pub lookup : List ShellCommand → List ℕ → Option ShellCommand
lookup [] name = none
lookup (cmd ∷ cmds) name = if str_eq name cmd.name then some cmd else lookup cmds name

-- the warning of `_getArgs` about the word 64
abbrev pub full_argv : List (List ℕ) → Out
full_argv argv = elim (get_elem? argv 63) [
  | none ↦ []
  | some last ↦
      warning
      ∷ lit "only up to 64 arguments can be passed to a shell command "
      ∷ lit "(command will be truncated at arg '"
      ∷ str last
      ∷ lit "')\n"
      ∷ []
]

-- A line of spaces has no word: `argv[0]` is a null pointer, which is compared to a name. The name
-- goes through the table; whether it is there, what the command prints, and the shell after it.
unfoldable pub check_commands : Host → List ℕ → Shell → Run ((Bool × Out) × Shell)
check_commands host buf sh = elim (get_args buf) [
  | [] ↦ fault
  | name ∷ args ↦
      let warned = full_argv (name ∷ args) in
      elim (lookup shell_commands name) [
        | none ↦ ok ((false, warned), sh)
        | some cmd ↦
            and_then (dispatch host (name ∷ args) cmd sh)
              λ ((found, out), sh'). ok ((found, warned ++ out), sh')
      ]
]

-- `_tryLevenshtein` over a list of names: the best distance and the first name that has it
abbrev pub best_of :
    List ℕ → List ShellCommand → (best_dist : ℕ) → Option (List ℕ) → ℕ × Option (List ℕ)
best_of buf [] best_dist best_cmd = (best_dist, best_cmd)
best_of buf (cmd ∷ cmds) best_dist best_cmd =
    let dist = util_levenshtein buf cmd.name in
    let better = best_of buf cmds dist (some cmd.name) in
    let same = best_of buf cmds best_dist best_cmd in if ltb dist best_dist then better else same

abbrev pub int_max : ℕ
int_max = 2147483647

-- the name that the user is asked about
unfoldable pub try_levenshtein : List ℕ → Option (List ℕ)
try_levenshtein buf =
    let r = best_of buf shell_commands int_max none in if ltb 2 r.0 then none else r.1

-- what `strtok` leaves of the line as the text at its start: the spaces and the first word
abbrev pub first_word : List ℕ → List ℕ
first_word [] = []
first_word (c ∷ cs) = if c == space then [] else c ∷ first_word cs

abbrev pub cut_line : List ℕ → List ℕ
cut_line [] = []
cut_line (c ∷ cs) = if c == space then space ∷ cut_line cs else first_word (c ∷ cs)

abbrev pub suggestion : List ℕ → Out
suggestion buf = elim (try_levenshtein buf) [
  | none ↦ say ""
  | some name ↦ lit " (did you mean '" ∷ str name ∷ lit "'?)\n" ∷ []
]

abbrev pub no_command : List ℕ → Out
no_command name = report (lit "no such command '" ∷ str name ∷ lit "'" ∷ [])

abbrev pub newline : ℕ
newline = 10

-- the line up to its newline or a NUL
abbrev pub text_of : List ℕ → List ℕ
text_of [] = []
text_of (c ∷ cs) = if c == newline || c == 0 then [] else c ∷ text_of cs

-- a command, or a suggestion
abbrev pub answer : Host → List ℕ → Shell → Run (Out × Shell)
answer host buf sh = and_then (check_commands host buf sh) λ ((found, out), sh').
    ok (if found then out else out ++ (no_command (cut_line buf) ++ suggestion (cut_line buf)), sh')

-- One round of `shellRun` with what `fgets` has read; an empty line is passed over.
unfoldable pub run_line : Host → List ℕ → Shell → Run (Out × Shell)
run_line host [] sh = ok ([], sh)
run_line host (c ∷ line) sh =
    if c == newline then ok ([], sh) else answer host (text_of (c ∷ line)) sh

-- The states that a started shell can reach, line by line.
pub data Reachable (host : Host) (start : Shell) : Shell → Type 0 where
  started : Reachable host start start
  line_run :
      {sh sh' : Shell} (line : List ℕ) (out : Out)
      → Reachable host start sh
      → sh.run ≡ true
      → run_line host line sh ≡ ok (out, sh')
      → Reachable host start sh'
