-- ===== src/Tests/Shells.antt =====
-- The theorems on the shell, at concrete lines and states.
use ext2p.Prelude.{
  ◌<◌, ◌≢◌, inl, inr, ◌≤◌, ◌≡◌, refl, arith, [], ◌∷◌, true, false, none, some, ℕ, List, ◌++◌,
}
use ext2p.Machine.{ok}
use ext2p.Util.{absent}
use ext2p.Util.Levenshtein.{util_levenshtein, levenshtein}
use ext2p.Shell.{Shell, Host, shell_open, shell_exit}
use ext2p.Shell.Loop.{shell_loop, prompt}
use ext2p.Shell.Loop.Ended.{exit_line, shell_loop-exit}
use ext2p.Shell.Loop.Cut.{IsTaken, joined, IsCut, run_lines, shell_loop-IsCut, shell_loop-run_lines}
use ext2p.Shell.Fsdump.{fsdump_flag}
use ext2p.Shell.Fsdump.Flags.{is_consistent, fsdump_flags-consistent}
use ext2p.Shell.Args.{get_args}
use ext2p.Shell.Args.Spread.{get_args-spread}
use ext2p.Shell.Commands.{
  run_line, check_commands, shell_commands, dispatch, call, Reachable, started, line_run,
  try_levenshtein,
}
use ext2p.Ext2.{ext2_open_out}
use ext2p.Tests.Mount.{file, mounted, mounted-lem}
use ext2p.Shell.Commands.Kept.{IsWellFormed}
use ext2p.Shell.Commands.Reach.{Reachable-IsWellFormed}
use ext2p.Shell.Commands.Suggest.{Listed, here, try_levenshtein_lem}

-- `  rm  a `
get_args-spread_example :
    get_args (32 ∷ 32 ∷ 114 ∷ 109 ∷ 32 ∷ 32 ∷ 97 ∷ 32 ∷ []) ≡ (114 ∷ 109 ∷ []) ∷ (97 ∷ []) ∷ []
get_args-spread_example =
    get_args-spread 2 1 (114 ∷ 109 ∷ []) ((1, 97 ∷ []) ∷ []) (omega arith) (omega arith)
      (omega arith)

abbrev host : Host
host = record { file = λ path. absent; can_write = λ path. true; now = 7; fuel = 1025 }

abbrev fresh : Shell
fresh = record { cd = 2; path = []; run = true; err = 0; fs = none }

abbrev left_shell : Shell
left_shell = record { cd = 2; path = []; run = false; err = 0; fs = none }

-- the shell that starts on the image of the tests on mounting
abbrev with_image : Host
with_image = record host { file = λ path. file }

abbrev on_image : Shell
on_image = record { cd = 2; path = []; run = true; err = 0; fs = some mounted }

starts :
    shell_open with_image (some (105 ∷ [])) ≡ ok (ext2_open_out (105 ∷ []) file ++ [], on_image)
unfolding shell_open
starts = rw mounted-lem refl

-- the line `exit`
exit_reached : Reachable with_image on_image (record on_image { run = false })
unfolding run_line check_commands get_args shell_commands dispatch call shell_exit
exit_reached = line_run (101 ∷ 120 ∷ 105 ∷ 116 ∷ []) [] started refl refl

Reachable-IsWellFormed_example : IsWellFormed (record on_image { run = false })
Reachable-IsWellFormed_example =
    Reachable-IsWellFormed with_image (some (105 ∷ [])) (ext2_open_out (105 ∷ []) file ++ [])
      on_image (record on_image { run = false }) starts exit_reached

-- `sl` is taken for `cd`, the first of the names at a distance of 2
try_levenshtein_lem_example :
    Listed (99 ∷ 100 ∷ []) shell_commands
    × (util_levenshtein (115 ∷ 108 ∷ []) (99 ∷ 100 ∷ []) ≤ 2)
    × (util_levenshtein (115 ∷ 108 ∷ []) (99 ∷ 100 ∷ [])
        ≤ util_levenshtein (115 ∷ 108 ∷ []) (99 ∷ 97 ∷ 116 ∷ []))
unfolding try_levenshtein shell_commands util_levenshtein levenshtein
try_levenshtein_lem_example =
    try_levenshtein_lem (115 ∷ 108 ∷ []) (99 ∷ 100 ∷ []) (99 ∷ 97 ∷ 116 ∷ []) refl (here refl)

-- what is typed: an empty line
abbrev typed : List ℕ
typed = 10 ∷ []

shell_loop-IsCut_example :
    (ls : List (List ℕ)) × (joined ls ≡ typed)
    × IsCut ls
    × (shell_loop host 2 typed fresh ≡ run_lines host ls fresh)
shell_loop-IsCut_example = shell_loop-IsCut host 2 typed fresh (omega arith)

-- `exit`, and `rm` behind it without a newline
abbrev two_lines : List (List ℕ)
two_lines = (101 ∷ 120 ∷ 105 ∷ 116 ∷ 10 ∷ []) ∷ ((114 ∷ 109 ∷ []) ∷ [])

shell_loop-run_lines_example :
    shell_loop host 3 (101 ∷ 120 ∷ 105 ∷ 116 ∷ 10 ∷ 114 ∷ 109 ∷ []) fresh
    ≡ run_lines host two_lines fresh
shell_loop-run_lines_example =
    let other : (c : ℕ) → 10 < c → c ≢ 10 = λ c h e. absurd (omega arith) in
    let exit_taken : IsTaken (101 ∷ 120 ∷ 105 ∷ 116 ∷ 10 ∷ []) ((114 ∷ 109 ∷ []) ∷ []) = inl (
      101 ∷ 120 ∷ 105 ∷ 116 ∷ [],
      refl,
      (
        other 101 (omega arith),
        (other 120 (omega arith), (other 105 (omega arith), (other 116 (omega arith), tt))),
      ),
      omega arith,
    ) in
    let rm_taken : IsTaken (114 ∷ 109 ∷ []) [] = inr (
      inr (
        (other 114 (omega arith), (other 109 (omega arith), tt)),
        omega arith,
        omega arith,
        refl,
      )) in
    shell_loop-run_lines host 3 two_lines fresh (exit_taken, (rm_taken, tt)) (omega arith)

shell_loop-exit_example :
    shell_loop host 2 (exit_line ++ (114 ∷ (109 ∷ []))) fresh
    ≡ ok ((prompt fresh ++ []) ++ [], left_shell)
shell_loop-exit_example = shell_loop-exit host 0 (114 ∷ (109 ∷ [])) fresh refl

-- the format `ab`
fsdump_flags-consistent_example : is_consistent 11 ≡ true
unfolding fsdump_flag
fsdump_flags-consistent_example = fsdump_flags-consistent (97 ∷ (98 ∷ [])) 0 11 refl refl
