-- ===== src/Shell/Commands/Cd.antt =====
-- What `cd` keeps, and what a command keeps that changes nothing but the file system.
use ext2p.Prelude.{
  ℕ, ◌≤◌, ◌≡◌, refl, arith, List, [], ◌∷◌, ◌++◌, length, ap, ◌∙◌, true, Option, none, some,
  if◌then◌else◌, ltb, ◌==◌, Bool-cases, inl, inr, ltb→lt,
}
use ext2p.Machine.{Run, ok, fatal, fault, out_of_fuel, and_then, Exec, pure}
use ext2p.Dir.{Dir}
use ext2p.Util.Levenshtein.{str_eq}
use ext2p.Dir.Filetype.{ft_dir}
use ext2p.Ext2.{Ext2}
use ext2p.Ext2.Groups.{GroupsAfter, KeepsGroups, get_dir-KeepsGroups}
use ext2p.Output.{Out}
use ext2p.Shell.{
  fails, not_found, not_a_dir, Shell, Host, PathEntry, on_fs, get_file, found_in, silent,
}
use ext2p.Shell.Directory.{changed_path}
use ext2p.Shell.Commands.Kept.{AtRoot, OneGroup, IsWellFormed, Frame, FrameAfter, is_some}

pub AtRoot-kept :
    (fs fs' : Option Ext2) (cd cd' : ℕ) (path path' : List PathEntry)
    → AtRoot fs cd path
    → cd' ≡ cd
    → path' ≡ path
    → is_some fs' ≡ is_some fs
    → AtRoot fs' cd' path'
AtRoot-kept none none cd cd' path path' h same_cd same_path same = (same_cd ∙ h.0, same_path ∙ h.1)
AtRoot-kept (some e) none cd cd' path path' h same_cd same_path same = cc
AtRoot-kept fs (some e') cd cd' path path' h same_cd same_path same = tt

Frame-IsWellFormed : (sh sh' : Shell) → IsWellFormed sh → Frame sh sh' → IsWellFormed sh'
Frame-IsWellFormed sh sh' w h =
    let n : length sh'.path ≡ length sh.path = ap length h.1 in
    (
      omega (arith, w.0, n),
      AtRoot-kept sh.fs sh'.fs sh.cd sh'.cd sh.path sh'.path w.1 h.0 h.1 h.2,
      h.3 w.2,
    )

-- on every return the shell is well formed
abbrev pub Ends : {A : Type 0} → Run (A × Shell) → Type 0
Ends (ok (a, sh')) = IsWellFormed sh'
Ends fatal = Unit
Ends fault = Unit
Ends out_of_fuel = Unit

pub FrameAfter-Ends :
    {A : Type 0} (sh : Shell) (r : Run (A × Shell)) → IsWellFormed sh → FrameAfter sh r → Ends r
FrameAfter-Ends sh (ok (a, sh')) w h = Frame-IsWellFormed sh sh' w h
FrameAfter-Ends sh fatal w h = tt
FrameAfter-Ends sh fault w h = tt
FrameAfter-Ends sh out_of_fuel w h = tt

-- what is printed first does not change how a command ends
pub told-Ends :
    (told : Out) (r : Run ((ℕ × Out) × Shell))
    → Ends r
    → Ends {A = ℕ × Out} (and_then r λ ((status, out), sh'). ok ((status, told ++ out), sh'))
told-Ends told (ok ((status, out), sh')) h = h
told-Ends told fatal h = tt
told-Ends told fault h = tt
told-Ends told out_of_fuel h = tt

-- on every return the path is the same, a file system is mounted, and no group is set that was not
abbrev RanAfter : {A : Type 0} → Shell → Run (A × Shell) → Type 0
RanAfter sh (ok (a, sh')) =
    (sh'.path ≡ sh.path) × (is_some sh'.fs ≡ true) × (OneGroup sh.fs → OneGroup sh'.fs)
RanAfter sh fatal = Unit
RanAfter sh fault = Unit
RanAfter sh out_of_fuel = Unit

on_fs_ran :
    {A : Type 0} (sh : Shell) (e : Ext2) (r : Run (A × Ext2))
    → GroupsAfter e r
    → RanAfter
        (record sh { fs = some e })
        (and_then r λ (a, e'). ok (a, record sh { fs = some e' }))
on_fs_ran sh e (ok (a, e')) kept = (refl, refl, kept)
on_fs_ran sh e fatal kept = tt
on_fs_ran sh e fault kept = tt
on_fs_ran sh e out_of_fuel kept = tt

on_fs_at :
    {A : Type 0} (c : Exec Ext2 A) (sh : Shell) (fs : Option Ext2)
    → KeepsGroups c
    → RanAfter (record sh { fs = fs }) (on_fs c (record sh { fs = fs }))
unfolding on_fs
on_fs_at c sh none kept = tt
on_fs_at c sh (some e) kept = on_fs_ran sh e (c e) (kept e)

listed_ran :
    (sh : Shell) (filename : List ℕ) (r : Run (Option (List Dir) × Shell))
    → RanAfter sh r
    → RanAfter sh (
        and_then r λ (a, sh').
          (elim a as (λ _. Exec Shell (Option (Dir × Dir × List Dir))) [
            | none ↦ λ _. fault
            | some ds ↦ pure (found_in ds filename)
          ])
            sh')
listed_ran sh filename (ok (none, sh')) h = tt
listed_ran sh filename (ok (some ds, sh')) h = h
listed_ran sh filename fatal h = tt
listed_ran sh filename fault h = tt
listed_ran sh filename out_of_fuel h = tt

pub get_file_ran :
    (host : Host) (filename : List ℕ) (sh : Shell) → RanAfter sh (get_file host filename sh)
unfolding get_file
get_file_ran host filename sh =
    listed_ran sh filename (on_fs _ sh) (on_fs_at _ sh sh.fs (get_dir-KeepsGroups host.fuel sh.cd))

AtRoot-mounted :
    (fs : Option Ext2) (cd : ℕ) (path : List PathEntry) → is_some fs ≡ true → AtRoot fs cd path
AtRoot-mounted none cd path h = cc
AtRoot-mounted (some e) cd path h = tt

abbrev Short : Run (List PathEntry) → Type 0
Short (ok path) = length path ≤ 127
Short fatal = Unit
Short fault = Unit
Short out_of_fuel = Unit

changed_path-Short :
    (into : List ℕ) (d : Dir) (path : List PathEntry)
    → length path ≤ 127
    → Short (changed_path into d path)
changed_path-Short into d path h = elim (Bool-cases (str_eq into (46 ∷ (46 ∷ [])))) [
  | inl up ↦ rw up (one_up path h)
  | inr down ↦ rw down (elim (Bool-cases (ltb (length path) 127)) [
    | inl more ↦ rw more (elim (Bool-cases (ltb d.name_len 255)) [
      | inl fits ↦ rw fits (omega (arith, ltb→lt (length path) 127 more))
      | inr long ↦ rw long tt
    ])
    | inr full ↦ rw full h
  ])
]
  where
    one_up :
        (path : List PathEntry)
        → length path ≤ 127
        → Short (ok (elim path [ [] ↦ [] | x ∷ up ↦ up ]))
    one_up [] h = h
    one_up (x ∷ up) h = omega arith

moved-Ends :
    (sh : Shell) (inode : ℕ) (r : Run (List PathEntry))
    → is_some sh.fs ≡ true
    → OneGroup sh.fs
    → Short r
    → Ends {A = ℕ × Out} (and_then r λ path. ok ((0, []), record sh { cd = inode; path = path }))
moved-Ends sh inode (ok path) there one h = (h, AtRoot-mounted sh.fs inode path there, one)
moved-Ends sh inode fatal there one h = tt
moved-Ends sh inode fault there one h = tt
moved-Ends sh inode out_of_fuel there one h = tt

pub cd_found :
    (into : List ℕ) (sh : Shell) (r : Run (Option (Dir × Dir × List Dir) × Shell))
    → IsWellFormed sh
    → RanAfter sh r
    → Ends (
        and_then r λ (a, sh').
          (elim a as (λ _. Exec Shell (ℕ × Out)) [
            | none ↦ fails (not_found into)
            | some (root, d, rest) ↦
                if d.filetype == ft_dir
                then (λ sh1.
                    and_then
                      (changed_path into d sh1.path)
                      λ path. silent 0 (record sh1 { cd = d.inode; path = path }))
                else fails (not_a_dir into d)
          ])
            sh')
cd_found into sh (ok (none, sh')) w h =
    (omega (arith, w.0, ap length h.0), AtRoot-mounted sh'.fs sh'.cd sh'.path h.1, h.2 w.2)
cd_found into sh (ok (some (root, d, rest), sh')) w h =
    let short : length sh'.path ≤ 127 = omega (arith, w.0, ap length h.0) in
    elim (Bool-cases (d.filetype == ft_dir)) [
      | inl yes_dir ↦ rw yes_dir (
          moved-Ends sh' d.inode (changed_path into d sh'.path) h.1 (h.2 w.2)
            (changed_path-Short into d sh'.path short))
      | inr no_dir ↦ rw no_dir (short, AtRoot-mounted sh'.fs sh'.cd sh'.path h.1, h.2 w.2)
    ]
cd_found into sh fatal w h = tt
cd_found into sh fault w h = tt
cd_found into sh out_of_fuel w h = tt
