-- ===== src/Shell/Loop.antt =====
-- `shellRun` of src/shell.c.
pub mod Ended
pub mod Lines
pub mod Cut
use ext2p.Prelude.{ℕ, zero, suc, List, [], ◌∷◌, ◌++◌, ◌==◌, if◌then◌else◌, length}
use ext2p.Machine.{Run, ok, out_of_fuel, and_then}
use ext2p.Output.{Out, lit, str, say, lines}
use ext2p.Shell.{Shell, Host, PathEntry, exit_success, shell_free}
use ext2p.Shell.Commands.{run_line, newline}

-- `fgets` with room for `n` characters: what it reads, up to a newline, and what is left
unfoldable pub fgets : (n : ℕ) → List ℕ → List ℕ × List ℕ
fgets zero input = ([], input)
fgets (suc n) [] = ([], [])
fgets (suc n) (c ∷ input) =
    let rest = fgets n input in if c == newline then (c ∷ [], input) else (c ∷ rest.0, rest.1)

-- the names of the path; the last entry comes first
abbrev pub path_out : List PathEntry → Out
path_out [] = []
path_out (entry ∷ up) = path_out up ++ (str entry.name ∷ lit "/" ∷ [])

-- what stands in front of the user's line, in red after a command that failed
unfoldable pub prompt : Shell → Out
prompt sh =
    lit "\n/"
    ∷ (path_out sh.path
        ++ ((if sh.err == exit_success then lit "\n> " else lit "\n\u{1b}[31m> \u{1b}[0m") ∷ []))

-- what is printed, in front of what the rest of the loop prints
abbrev pub after_out : Out → Run (Out × Shell) → Run (Out × Shell)
after_out out r = and_then r λ (rest, sh'). ok (out ++ rest, sh')

-- The loop, a round for each unit of fuel, on what the user types: the end of the input ends it too.
unfoldable pub shell_loop : Host → ℕ → (input : List ℕ) → Shell → Run (Out × Shell)
shell_loop host zero input sh = out_of_fuel
shell_loop host (suc n) [] sh = ok (if sh.run then prompt sh else [], sh)
shell_loop host (suc n) (c ∷ input) sh =
    if sh.run
    then (let line = fgets 1023 (c ∷ input) in
        and_then (run_line host line.0 sh)
          λ (out, sh'). after_out (prompt sh ++ out) (shell_loop host n line.1 sh'))
    else ok ([], sh)

-- `shellRun` of a shell: what is printed. A round takes a character at least.
unfoldable pub shell_run : Host → (input : List ℕ) → Shell → Run Out
shell_run host input sh = and_then (shell_loop host (suc (length input)) input sh) λ (out, sh').
    and_then (shell_free sh')
      λ _. ok (lines (say "== ext2 shell ==" ∷ say "type 'help' for help" ∷ out ∷ []))
