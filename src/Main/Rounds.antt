-- ===== src/Main/Rounds.antt =====
-- The rounds of `shellRun` in the root directory of a mounted image: `ls`, `cat` of a name, and `exit`.
use mathlib.Core.List.{append_assoc}
use ext2p.Prelude.{
  length-append, ℕ, suc, ◌<◌, ◌≡◌, refl, arith, List, [], ◌∷◌, ◌++◌, length, ap, ◌∙◌, true, false,
  Bool, some,
}
use ext2p.Machine.{ok}
use ext2p.Output.{Out, say, lit, lines}
use ext2p.Inode.{res_root_dir}
use ext2p.Dir.{Dir}
use ext2p.Ext2.{Ext2, ext2_get_dir, ext2_get_dir_out}
use ext2p.Shell.{shell_cat, Shell, Host, shell_exit, exit_success}
use ext2p.Shell.Directory.{ls_entries}
use ext2p.Shell.Commands.{dispatch, call, shell_commands, run_line, ShellCommand, Command}
use ext2p.Shell.Commands.Remove.{shell_ls-ok}
use ext2p.Shell.Commands.Typed.{IsTyped, entered, run_line-dispatch}
use ext2p.Shell.Loop.{prompt, shell_loop, after_out}
use ext2p.Shell.Loop.Lines.{shell_loop-entered}

-- `ls`, `cat` and `exit`
abbrev pub ls_name : List ℕ
ls_name = 108 ∷ 115 ∷ []

abbrev pub cat_name : List ℕ
cat_name = 99 ∷ 97 ∷ 116 ∷ []

abbrev pub exit_name : List ℕ
exit_name = 101 ∷ 120 ∷ 105 ∷ 116 ∷ []

-- the shell in the root directory of a file system, after a success
abbrev pub at_root : Ext2 → Shell
at_root e = record { cd = res_root_dir; path = []; run = true; err = exit_success; fs = some e }

-- the prompt there
abbrev pub root_prompt : Out
root_prompt = lit "\n/" ∷ lit "\n> " ∷ []

prompt-at_root : (e : Ext2) → prompt (at_root e) ≡ root_prompt
unfolding prompt
prompt-at_root e = refl

-- the commands of the table
abbrev listed_as : List ℕ → Command → Bool → ShellCommand
listed_as name fn needs_mount = record { name = name; fn = fn; needs_mount = needs_mount }

ls_line :
    (host : Host) (e e0 : Ext2) (ds : List Dir) (told : Out)
    → ext2_get_dir host.fuel res_root_dir e ≡ ok (some ds, e0)
    → ext2_get_dir_out res_root_dir e ≡ told
    → run_line host (entered ls_name [] []) (at_root e) ≡ ok (told ++ ls_entries ds, at_root e0)
unfolding dispatch call shell_commands
ls_line host e e0 ds told listed printed =
    run_line-dispatch host ls_name [] (omega arith) tt (omega arith)
      (listed_as ls_name Command.ls true) (told ++ ls_entries ds) (at_root e) (at_root e0) refl
      (rw (shell_ls-ok host (at_root e) e e0 ds listed)
        (ap (λ (out : Out). ok ((true, out ++ ls_entries ds), at_root e0)) printed))

cat_line :
    (host : Host) (e e1 : Ext2) (filename : List ℕ) (out : Out)
    → IsTyped filename
    → shell_cat host (cat_name ∷ (filename ∷ [])) (at_root e) ≡ ok ((exit_success, out), at_root e1)
    → run_line host (entered cat_name (filename ∷ []) []) (at_root e) ≡ ok (out, at_root e1)
unfolding dispatch call shell_commands
cat_line host e e1 filename out word printed =
    run_line-dispatch host cat_name (filename ∷ []) (omega arith) (word, tt) (omega arith)
      (listed_as cat_name Command.cat true) out (at_root e) (at_root e1) refl (rw printed refl)

exit_line :
    (host : Host) (e : Ext2)
    → run_line host (entered exit_name [] []) (at_root e)
      ≡ ok ([], record (at_root e) { run = false })
unfolding dispatch call shell_commands shell_exit
exit_line host e =
    run_line-dispatch host exit_name [] (omega arith) tt (omega arith)
      (listed_as exit_name Command.exit false) [] (at_root e) (record (at_root e) { run = false })
      refl refl

-- `ls`, `cat` of a name and `exit`, typed
abbrev pub ls_cat_exit : (filename : List ℕ) → List ℕ
ls_cat_exit filename =
    entered ls_name [] (entered cat_name (filename ∷ []) (entered exit_name [] []))

abbrev pub banner : Out
banner = say "== ext2 shell ==" ++ say "type 'help' for help"

flat :
    (listed out : Out)
    → (root_prompt ++ listed) ++ ((root_prompt ++ out) ++ ((root_prompt ++ []) ++ []))
      ≡ lines (root_prompt ∷ listed ∷ root_prompt ∷ out ∷ root_prompt ∷ [])
flat listed out = simp append_assoc

-- the three rounds
pub loop_of :
    (host : Host) (n : ℕ) (filename : List ℕ) (e e0 e1 : Ext2) (ds : List Dir) (told out : Out)
    → IsTyped filename
    → length filename < 1000
    → ext2_get_dir host.fuel res_root_dir e ≡ ok (some ds, e0)
    → ext2_get_dir_out res_root_dir e ≡ told
    → shell_cat host (cat_name ∷ (filename ∷ [])) (at_root e0)
      ≡ ok ((exit_success, out), at_root e1)
    → shell_loop host (suc (suc (suc (suc n)))) (ls_cat_exit filename) (at_root e)
      ≡ ok (
        lines (root_prompt ∷ (told ++ ls_entries ds) ∷ root_prompt ∷ out ∷ root_prompt ∷ []),
        record (at_root e1) { run = false },
      )
unfolding shell_loop prompt
loop_of host n filename e e0 e1 ds told out word short listed told_of printed =
    shell_loop-entered host (suc (suc (suc n))) ls_name [] _ (at_root e) (at_root e0)
      (told ++ ls_entries ds) refl (omega arith) tt (omega arith)
      (ls_line host e e0 ds told listed told_of)
    ∙ (ap (after_out (prompt (at_root e) ++ (told ++ ls_entries ds))) (
          shell_loop-entered host (suc (suc n)) cat_name (filename ∷ []) _ (at_root e0) (at_root e1)
            out refl (omega arith) (word, tt) (omega (arith, length-append filename []))
            (cat_line host e0 e1 filename out word printed)
          ∙ ap (after_out (prompt (at_root e0) ++ out)) (
              shell_loop-entered host (suc n) exit_name [] [] (at_root e1) _ [] refl (omega arith)
                tt (omega arith) (exit_line host e1)))
        ∙ ap (λ (o : Out). ok (o, record (at_root e1) { run = false }))
            (flat (told ++ ls_entries ds) out))
