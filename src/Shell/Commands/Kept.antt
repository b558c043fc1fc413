-- ===== src/Shell/Commands/Kept.antt =====
-- What every line typed at the shell keeps: the depth of the path, the root directory while nothing is
-- mounted, and which block groups are set.
pub mod Framed
use ext2p.Prelude.{
  ℕ, ◌≤◌, ◌≡◌, refl, List, [], ◌∷◌, ◌++◌, length, ◌∙◌, Bool, true, false, Option, none, some,
  if◌then◌else◌, ◌==◌, ◌/◌,
}
use ext2p.Machine.{Run, ok, fatal, fault, out_of_fuel, and_then, Exec, pure, lift, ◌>>=◌, shl}
use ext2p.Inode.{res_root_dir}
use ext2p.Dir.Filetype.{ft_file, ft_dir}
use ext2p.Ext2.{Ext2, group_at}
use ext2p.Ext2.Groups.{
  HasOneGroup, GroupsAfter, KeepsGroups, KeepsGroups-lift, get_dir-KeepsGroups,
  get_inode-KeepsGroups, get_inode_size-KeepsGroups, read_file-KeepsGroups, delete_file-KeepsGroups,
  delete_dir-KeepsGroups, save-KeepsGroups,
}
use ext2p.Ext2.Dump.{ext2_dump}
use ext2p.Output.{Out, say}
use ext2p.Shell.Fsdump.{shell_fsdump, fsdump_flags, fsdump_usage, dump_asked}
use ext2p.Shell.Stat.{shell_stat, stat_out}
use ext2p.Shell.{
  Action, listing, listing_out, Shell, Host, PathEntry, on_fs, get_file, shell_cat, shell_rm,
  shell_rmdir, shell_save, one_arg,
}
use ext2p.Shell.Directory.{shell_ls}

abbrev pub AtRoot : Option Ext2 → ℕ → List PathEntry → Type 0
AtRoot none cd path = (cd ≡ res_root_dir) × (path ≡ [])
AtRoot (some e) cd path = Unit

-- of the file system no group but the first is set
abbrev pub OneGroup : Option Ext2 → Type 0
OneGroup none = Unit
OneGroup (some e) = HasOneGroup e

-- The path has 127 entries at most, without a file system the shell is in the root directory, and a
-- file system has one group that is set at most.
abbrev pub IsWellFormed : Shell → Type 0
IsWellFormed sh = (length sh.path ≤ 127) × AtRoot sh.fs sh.cd sh.path × OneGroup sh.fs

abbrev pub is_some : Option Ext2 → Bool
is_some none = false
is_some (some e) = true

-- the directory and the path are the same, and so is whether something is mounted; no group is set that
-- was not
abbrev pub Frame : Shell → Shell → Type 0
Frame sh sh' =
    (sh'.cd ≡ sh.cd)
    × (sh'.path ≡ sh.path)
    × (is_some sh'.fs ≡ is_some sh.fs)
    × (OneGroup sh.fs → OneGroup sh'.fs)

pub Frame-refl : (sh : Shell) → Frame sh sh
Frame-refl sh = (refl, refl, refl, λ one. one)

abbrev pub FrameAfter : {A : Type 0} → Shell → Run (A × Shell) → Type 0
FrameAfter sh (ok (a, sh')) = Frame sh sh'
FrameAfter sh fatal = Unit
FrameAfter sh fault = Unit
FrameAfter sh out_of_fuel = Unit

abbrev pub Frames : {A : Type 0} → Exec Shell A → Type 0
Frames c = (sh : Shell) → FrameAfter sh (c sh)

FrameAfter-trans :
    {B : Type 0} (sh sh' : Shell) (r : Run (B × Shell))
    → Frame sh sh'
    → FrameAfter sh' r
    → FrameAfter sh r
FrameAfter-trans sh sh' (ok (b, sh'')) h h' =
    (h'.0 ∙ h.0, h'.1 ∙ h.1, h'.2 ∙ h.2, λ one. h'.3 (h.3 one))
FrameAfter-trans sh sh' fatal h h' = tt
FrameAfter-trans sh sh' fault h h' = tt
FrameAfter-trans sh sh' out_of_fuel h h' = tt

FrameAfter-and_then :
    {A B : Type 0} (sh : Shell) (r : Run (A × Shell)) (k : A → Exec Shell B)
    → FrameAfter sh r
    → ((a : A) → Frames (k a))
    → FrameAfter sh (and_then r λ (a, sh'). k a sh')
FrameAfter-and_then sh (ok (a, sh')) k h kept = FrameAfter-trans sh sh' (k a sh') h (kept a sh')
FrameAfter-and_then sh fatal k h kept = tt
FrameAfter-and_then sh fault k h kept = tt
FrameAfter-and_then sh out_of_fuel k h kept = tt

pub Frames-bind :
    {A B : Type 0} (c : Exec Shell A) (k : A → Exec Shell B)
    → Frames c
    → ((a : A) → Frames (k a))
    → Frames (c >>= k)
Frames-bind c k h kept sh = FrameAfter-and_then sh (c sh) k (h sh) kept

pub Frames-if :
    {A : Type 0} (b : Bool) (c c' : Exec Shell A)
    → Frames c
    → Frames c'
    → Frames (if b then c else c')
Frames-if true c c' h h' = h
Frames-if false c c' h h' = h'

pub Frames-lift : {A : Type 0} (r : Run A) → Frames (lift {S = Shell} r)
Frames-lift (ok a) sh = Frame-refl sh
Frames-lift fatal sh = tt
Frames-lift fault sh = tt
Frames-lift out_of_fuel sh = tt

on_fs_ran :
    {A : Type 0} (cd : ℕ) (path : List PathEntry) (run : Bool) (err : ℕ) (e : Ext2)
    (r : Run (A × Ext2))
    → GroupsAfter e r
    → let sh : Shell = record { cd = cd; path = path; run = run; err = err; fs = some e } in
      FrameAfter sh (and_then r λ (a, e'). ok (a, record sh { fs = some e' }))
on_fs_ran cd path run err e (ok (a, e')) kept = (refl, refl, refl, kept)
on_fs_ran cd path run err e fatal kept = tt
on_fs_ran cd path run err e fault kept = tt
on_fs_ran cd path run err e out_of_fuel kept = tt

on_fs_at :
    {A : Type 0} (c : Exec Ext2 A) (cd : ℕ) (path : List PathEntry) (run : Bool) (err : ℕ)
    (fs : Option Ext2)
    → KeepsGroups c
    → let sh : Shell = record { cd = cd; path = path; run = run; err = err; fs = fs } in
      FrameAfter sh (on_fs c sh)
unfolding on_fs
on_fs_at c cd path run err none kept = tt
on_fs_at c cd path run err (some e) kept = on_fs_ran cd path run err e (c e) (kept e)

pub on_fs-Frames : {A : Type 0} (c : Exec Ext2 A) → KeepsGroups c → Frames (on_fs c)
on_fs-Frames c kept sh = on_fs_at c sh.cd sh.path sh.run sh.err sh.fs kept

pub Frames-option :
    {A B : Type 0} (r : Option A) (c : Exec Shell B) (k : A → Exec Shell B)
    → Frames c
    → ((a : A) → Frames (k a))
    → Frames (elim r as (λ _. Exec Shell B) [ none ↦ c | some a ↦ k a ])
Frames-option none c k h kept = h
Frames-option (some a) c k h kept = kept a

pub get_file-Frames : (host : Host) (filename : List ℕ) → Frames (get_file host filename)
unfolding get_file
get_file-Frames host filename sh =
    Frames-bind (on_fs _) _ (on_fs-Frames _ (get_dir-KeepsGroups host.fuel _))
      (λ r. Frames-option r _ _ (λ sh'. tt) (λ ds. Frame-refl)) sh

pub Frames-listing : (c : Action) → Frames c → Frames (listing c)
Frames-listing c kept sh =
    FrameAfter-and_then sh (c sh) (λ (status, out) sh'. ok ((status, listing_out sh ++ out), sh'))
      (kept sh) (λ a. Frame-refl)

-- a command with one argument
pub Frames-arg :
    {B : Type 0} (r : Option (List ℕ)) (b : B) (k : List ℕ → Exec Shell B)
    → ((arg : List ℕ) → Frames (k arg))
    → (sh : Shell)
    → FrameAfter sh (elim r as (λ _. Run (B × Shell)) [ none ↦ ok (b, sh) | some arg ↦ k arg sh ])
Frames-arg none b k kept sh = Frame-refl sh
Frames-arg (some arg) b k kept sh = kept arg sh
