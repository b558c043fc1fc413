-- ===== src/Main.antt =====
-- src/main.c.
pub mod Rounds
pub mod Session
use ext2p.Prelude.{ℕ, List, [], ◌∷◌, ◌++◌, Option, none, some}
use ext2p.Machine.{Run, ok, and_then}
use ext2p.Output.{Out, say}
use ext2p.Shell.{Host, shell_open, exit_success, exit_failure}
use ext2p.Shell.Loop.{shell_run}

-- `shellOpen` and `shellRun`, and the exit status
abbrev pub start_shell : Host → Option (List ℕ) → (input : List ℕ) → Run (Out × ℕ)
start_shell host img input =
    and_then (shell_open host img)
      λ (told, sh). and_then (shell_run host input sh) λ out. ok (told ++ out, exit_success)

-- what the program prints and its exit status, for its arguments and what the user types
unfoldable pub main : Host → (argv : List (List ℕ)) → (input : List ℕ) → Run (Out × ℕ)
main host [] input = start_shell host none input
main host (program ∷ []) input = start_shell host none input
main host (program ∷ (img ∷ [])) input = start_shell host (some img) input
main host (program ∷ (img ∷ (more ∷ argv))) input = ok (say "usage: ext2p [IMAGE]", exit_failure)
