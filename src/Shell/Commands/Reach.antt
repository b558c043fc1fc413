-- ===== src/Shell/Commands/Reach.antt =====
-- The states that the shell can reach.
use mathlib.Core.Path.{subst}
use ext2p.Prelude.{
  ℕ, ◌≡◌, refl, arith, List, [], ◌∷◌, length, ap, Bool, true, false, Option, none, some, ◌++◌,
  if◌then◌else◌, ◌==◌,
}
use ext2p.Machine.{Run, ok, fatal, fault, out_of_fuel, and_then}
use ext2p.Output.{Out}
use ext2p.Inode.{res_root_dir}
use ext2p.Ext2.{Ext2, ext2_open}
use ext2p.Ext2.Groups.{OpensOne, ext2_open-OpensOne}
use ext2p.Shell.{Shell, Host, PathEntry, shell_open}
use ext2p.Shell.Args.{get_args}
use ext2p.Shell.Commands.{
  Command, ShellCommand, call, dispatch, check_commands, run_line, Reachable, lookup,
  shell_commands, started, line_run, finish, full_argv, answer, suggestion, no_command, cut_line,
  text_of, newline,
}
use ext2p.Shell.Commands.Kept.{AtRoot, IsWellFormed}
use ext2p.Shell.Commands.Cd.{Ends}
use ext2p.Shell.Commands.Calls.{call-Ends}

finish-Ends : (r : Run ((ℕ × Out) × Shell)) → Ends r → Ends (finish r)
finish-Ends (ok x) h = h
finish-Ends fatal h = h
finish-Ends fault h = h
finish-Ends out_of_fuel h = h

dispatch_at :
    (host : Host) (argv : List (List ℕ)) (fn : Command) (needs : Bool) (name : List ℕ) (sh : Shell)
    (fs : Option Ext2)
    → IsWellFormed (record sh { fs = fs })
    → Ends (
        dispatch host argv
          (record { name = name; fn = fn; needs_mount = needs })
          (record sh { fs = fs }))
unfolding dispatch
dispatch_at host argv fn true name sh none w = w
dispatch_at host argv fn true name sh (some e) w =
    finish-Ends (call host fn argv (record sh { fs = some e }))
      (call-Ends host fn argv (record sh { fs = some e }) w)
dispatch_at host argv fn false name sh fs w =
    finish-Ends (call host fn argv (record sh { fs = fs }))
      (call-Ends host fn argv (record sh { fs = fs }) w)

told-Ends :
    (warned : Out) (r : Run ((Bool × Out) × Shell))
    → Ends r
    → Ends {A = Bool × Out} (and_then r λ ((found, out), sh'). ok ((found, warned ++ out), sh'))
told-Ends warned (ok x) h = h
told-Ends warned fatal h = h
told-Ends warned fault h = h
told-Ends warned out_of_fuel h = h

looked_up-Ends :
    (host : Host) (argv : List (List ℕ)) (warned : Out) (r : Option ShellCommand) (sh : Shell)
    → IsWellFormed sh
    → Ends (elim r as (λ _. Run ((Bool × Out) × Shell)) [
      | none ↦ ok ((false, warned), sh)
      | some cmd ↦
          and_then
            (dispatch host argv cmd sh)
            λ ((found, out), sh'). ok ((found, warned ++ out), sh')
    ])
looked_up-Ends host argv warned none sh w = w
looked_up-Ends host argv warned (some cmd) sh w =
    told-Ends warned (dispatch host argv cmd sh)
      (dispatch_at host argv cmd.fn cmd.needs_mount cmd.name sh sh.fs w)

words-Ends :
    (host : Host) (argv : List (List ℕ)) (sh : Shell)
    → IsWellFormed sh
    → Ends (elim argv as (λ _. Run ((Bool × Out) × Shell)) [
      | [] ↦ fault
      | name ∷ args ↦
          let warned = full_argv (name ∷ args) in
          elim (lookup shell_commands name) [
            | none ↦ ok ((false, warned), sh)
            | some cmd ↦
                and_then
                  (dispatch host (name ∷ args) cmd sh)
                  λ ((found, out), sh'). ok ((found, warned ++ out), sh')
          ]
    ])
words-Ends host [] sh w = tt
words-Ends host (name ∷ args) sh w =
    looked_up-Ends host (name ∷ args) (full_argv (name ∷ args)) (lookup shell_commands name) sh w

check_commands-Ends :
    (host : Host) (buf : List ℕ) (sh : Shell) → IsWellFormed sh → Ends (check_commands host buf sh)
unfolding check_commands
check_commands-Ends host buf sh w = words-Ends host (get_args buf) sh w

answer-Ends :
    (host : Host) (buf : List ℕ) (sh : Shell) → IsWellFormed sh → Ends (answer host buf sh)
answer-Ends host buf sh w =
    answered (check_commands host buf sh) (check_commands-Ends host buf sh w)
  where
    answered :
        (r : Run ((Bool × Out) × Shell))
        → Ends r
        → Ends {A = Out} (
            and_then r λ ((found, out), sh'). ok (
              if found
                  then out
                  else out ++ (no_command (cut_line buf) ++ suggestion (cut_line buf)),
              sh',
            ))
    answered (ok x) h = h
    answered fatal h = h
    answered fault h = h
    answered out_of_fuel h = h

if-Ends :
    {A : Type 0} (b : Bool) (r r' : Run (A × Shell)) → Ends r → Ends r' → Ends (if b then r else r')
if-Ends true r r' h h' = h
if-Ends false r r' h h' = h'

run_line-Ends :
    (host : Host) (line : List ℕ) (sh : Shell) → IsWellFormed sh → Ends (run_line host line sh)
unfolding run_line
run_line-Ends host [] sh w = w
run_line-Ends host (c ∷ line) sh w =
    if-Ends (c == newline) _ _ w (answer-Ends host (text_of (c ∷ line)) sh w)

ended :
    {A : Type 0} {r : Run (A × Shell)} {a : A} {sh : Shell}
    → r ≡ ok (a, sh)
    → Ends r
    → IsWellFormed sh
ended e h = subst Ends e h

AtRoot-root :
    (fs : Option Ext2) (cd : ℕ) (path : List PathEntry)
    → cd ≡ res_root_dir
    → path ≡ []
    → AtRoot fs cd path
AtRoot-root none cd path h k = (h, k)
AtRoot-root (some e) cd path h k = tt

opened-Ends :
    (sh : Shell) (r : Run (Option Ext2)) (told : Option Ext2 → Out)
    → (sh.cd ≡ res_root_dir) × (sh.path ≡ [])
    → OpensOne r
    → Ends (and_then r (λ fs. ok (told fs, record sh { fs = fs })))
opened-Ends sh (ok none) told at_root one =
    (omega (arith, ap length at_root.1), AtRoot-root none sh.cd sh.path at_root.0 at_root.1, tt)
opened-Ends sh (ok (some e)) told at_root one = (omega (arith, ap length at_root.1), tt, one)
opened-Ends sh fatal told at_root one = tt
opened-Ends sh fault told at_root one = tt
opened-Ends sh out_of_fuel told at_root one = tt

abbrev closed : Shell
closed = record { cd = res_root_dir; path = []; run = true; err = 0; fs = none }

shell_open-Ends : (host : Host) (img : Option (List ℕ)) → Ends (shell_open host img)
unfolding shell_open
shell_open-Ends host none = (omega arith, (refl, refl), tt)
shell_open-Ends host (some img) =
    opened-Ends closed (ext2_open (host.file img)) _ (refl, refl)
      (ext2_open-OpensOne (host.file img))

-- In every state that a shell reaches from its start, whatever lines are typed and whatever the
-- images hold, the path has 127 entries at most, while no file system is mounted the shell is in
-- the root directory with an empty path, and of a mounted one no block group but the first is set, so
-- that every access to another reads memory that nothing has set.
pub Reachable-IsWellFormed :
    (host : Host) (img : Option (List ℕ)) (out : Out) (start sh : Shell)
    → shell_open host img ≡ ok (out, start)
    → Reachable host start sh
    → IsWellFormed sh
Reachable-IsWellFormed host img out start sh opened started =
    ended opened (shell_open-Ends host img)
Reachable-IsWellFormed host img out start sh opened (line_run line told before running ran) =
    ended ran
      (run_line-Ends host line _ (Reachable-IsWellFormed host img out start _ opened before))
