-- ===== src/Ext2/Groups.antt =====
-- Which block groups of a file system's array are set.
use native.Mathlib.Decide.{ℕ_discrete}
use ext2p.Prelude.{
  ℕ, ◌<◌, ◌≡◌, ◌≢◌, refl, List, ◌∷◌, ◌∙◌, ap, sym, Option, none, some, set, take, replicate, Bool,
  Bool-cases, inl, inr, ◌==◌, get_elem?-set_ne,
}
use ext2p.Machine.{Run, ok, fatal, fault, out_of_fuel, and_then, Exec, State, lift, ◌>>=◌}
use ext2p.Util.{OpenFile}
use ext2p.Disk.{disk_open, disk_save}
use ext2p.Inode.{Inode}
use ext2p.Dir.{Dir}
use ext2p.Dir.Filetype.{ft_file}
use ext2p.Bg.{BlockGroup, Group}
use ext2p.Ext2.{
  ext2_open, group_count, Ext2, group_at, on_group, inode_to_bg, ext2_get_inode,
  ext2_get_inode_size, ext2_get_dir, ext2_read_file, ext2_delete_file, ext2_delete_dir,
  ext2_save_to_file,
}
use ext2p.Ext2.Open.{finish, first_read, group_at-Opened}

-- no group but the first is set
abbrev pub HasOneGroup : Ext2 → Type 0
HasOneGroup e = (k : ℕ) → 0 < k → group_at e.bgs k ≡ fault

abbrev pub GroupsAfter : {A : Type 0} → Ext2 → Run (A × Ext2) → Type 0
GroupsAfter e (ok (a, e')) = HasOneGroup e → HasOneGroup e'
GroupsAfter e fatal = Unit
GroupsAfter e fault = Unit
GroupsAfter e out_of_fuel = Unit

-- on every return no group is set that was not
abbrev pub KeepsGroups : {A : Type 0} → Exec Ext2 A → Type 0
KeepsGroups c = (e : Ext2) → GroupsAfter e (c e)

group_at-set :
    (bgs : List (Option BlockGroup)) (i k : ℕ) (bg : BlockGroup)
    → i ≢ k
    → group_at (set bgs i (some bg)) k ≡ group_at bgs k
unfolding group_at
group_at-set bgs i k bg other = rw (group_at, get_elem?-set_ne bgs (some bg) other) refl

fault≢ok : {A : Type 0} {r : Run A} {a : A} → r ≡ fault → r ≡ ok a → ⊥
fault≢ok broken run = cc

module _ {A : Type 0} (e : Ext2) (k : ℕ) (c : Exec Group A) where
  ran :
      (bg : BlockGroup) (r : Run (A × Group))
      → group_at e.bgs k ≡ ok bg
      → GroupsAfter e
          (and_then r λ (a, g). ok (a, record e { mem = g.mem; bgs = set e.bgs k (some g.bg) }))
  ran bg (ok (a, g)) read = λ one j later. elim (ℕ_discrete k j) [
    | yes same ↦ absurd (fault≢ok (one j later) (ap (group_at e.bgs) (sym same) ∙ read))
    | no other ↦ group_at-set e.bgs k j g.bg other ∙ one j later
  ]
  ran bg fatal read = tt
  ran bg fault read = tt
  ran bg out_of_fuel read = tt

  found :
      (r : Run BlockGroup)
      → group_at e.bgs k ≡ r
      → GroupsAfter e (
          and_then r λ bg.
            and_then
              (c (record { mem = e.mem; bg = bg }))
              λ (a, g). ok (a, record e { mem = g.mem; bgs = set e.bgs k (some g.bg) }))
  found (ok bg) read = ran bg (c (record { mem = e.mem; bg = bg })) read
  found fatal read = tt
  found fault read = tt
  found out_of_fuel read = tt

  on_group-KeepsGroups : GroupsAfter e (on_group k c e)
  unfolding on_group
  on_group-KeepsGroups = found (group_at e.bgs k) refl

after_trans :
    {B : Type 0} (e e' : Ext2) (r : Run (B × Ext2))
    → (HasOneGroup e → HasOneGroup e')
    → GroupsAfter e' r
    → GroupsAfter e r
after_trans e e' (ok (b, e'')) h h' = λ one. h' (h one)
after_trans e e' fatal h h' = tt
after_trans e e' fault h h' = tt
after_trans e e' out_of_fuel h h' = tt

after_and_then :
    {A B : Type 0} (e : Ext2) (r : Run (A × Ext2)) (k : A → Exec Ext2 B)
    → GroupsAfter e r
    → ((a : A) → KeepsGroups (k a))
    → GroupsAfter e (and_then r λ (a, e'). k a e')
after_and_then e (ok (a, e')) k h kept = after_trans e e' (k a e') h (kept a e')
after_and_then e fatal k h kept = tt
after_and_then e fault k h kept = tt
after_and_then e out_of_fuel k h kept = tt

KeepsGroups-bind :
    {A B : Type 0} (c : Exec Ext2 A) (k : A → Exec Ext2 B)
    → KeepsGroups c
    → ((a : A) → KeepsGroups (k a))
    → KeepsGroups (c >>= k)
KeepsGroups-bind c k h kept e = after_and_then e (c e) k (h e) kept

pub KeepsGroups-lift : {A : Type 0} (r : Run A) → KeepsGroups (lift {S = Ext2} r)
KeepsGroups-lift (ok a) e = λ one. one
KeepsGroups-lift fatal e = tt
KeepsGroups-lift fault e = tt
KeepsGroups-lift out_of_fuel e = tt

-- a call on the group of an inode
of_inode :
    {A : Type 0} (r : Run ℕ) (c : ℕ → Exec Group A)
    → KeepsGroups (do k ← lift {S = Ext2} r; on_group k (c k))
of_inode r c =
    KeepsGroups-bind (lift r) (λ k. on_group k (c k)) (KeepsGroups-lift r)
      λ k e. on_group-KeepsGroups e k (c k)

pub get_dir-KeepsGroups : (fuel inodenum : ℕ) → KeepsGroups (ext2_get_dir fuel inodenum)
unfolding ext2_get_dir
get_dir-KeepsGroups fuel inodenum e = of_inode (inode_to_bg e inodenum) _ e

pub get_inode-KeepsGroups : (inodenum : ℕ) → KeepsGroups (ext2_get_inode inodenum)
unfolding ext2_get_inode
get_inode-KeepsGroups inodenum e = of_inode (inode_to_bg e inodenum) _ e

pub get_inode_size-KeepsGroups :
    (inodenum : ℕ) (inode : Inode) → KeepsGroups (ext2_get_inode_size inodenum inode)
unfolding ext2_get_inode_size
get_inode_size-KeepsGroups inodenum inode e = of_inode (inode_to_bg e inodenum) _ e

pub read_file-KeepsGroups : (inodenum : ℕ) → KeepsGroups (ext2_read_file inodenum)
unfolding ext2_read_file
read_file-KeepsGroups inodenum e = of_inode (inode_to_bg e inodenum) _ e

pub delete_file-KeepsGroups :
    (now : ℕ) (root file : Dir) (rest : List Dir)
    → KeepsGroups (ext2_delete_file now root file rest)
unfolding ext2_delete_file
delete_file-KeepsGroups now root file rest e = elim (Bool-cases (file.filetype == ft_file)) [
  | inl is_file ↦ rw is_file (
      KeepsGroups-bind (lift (inode_to_bg e file.inode)) _ (KeepsGroups-lift _)
        (λ k.
          KeepsGroups-bind (on_group k _) _ (λ e'. on_group-KeepsGroups e' k _) λ _ e'. λ one. one)
        e)
  | inr other ↦ rw other λ one. one
]

pub delete_dir-KeepsGroups : (dir : Dir) → KeepsGroups (ext2_delete_dir dir)
unfolding ext2_delete_dir
delete_dir-KeepsGroups dir e = λ one. one

pub save-KeepsGroups : (opened : Bool) → KeepsGroups (ext2_save_to_file opened)
unfolding ext2_save_to_file
save-KeepsGroups opened e = saved (disk_save opened (record { mem = e.mem; fp = e.disk }))
  where
    saved :
        (r : Run (List ℕ × State))
        → GroupsAfter e (and_then r λ (bytes, s). ok (bytes, record e { mem = s.mem; disk = s.fp }))
    saved (ok (bytes, s)) = λ one. one
    saved fatal = tt
    saved fault = tt
    saved out_of_fuel = tt

-- a file system that is mounted has one group that is set at most
abbrev pub OpensOne : Run (Option Ext2) → Type 0
OpensOne (ok none) = Unit
OpensOne (ok (some e)) = HasOneGroup e
OpensOne fatal = Unit
OpensOne fault = Unit
OpensOne out_of_fuel = Unit

counted :
    (bg : BlockGroup) (s : State) (r : Run ℕ)
    → OpensOne (
        and_then r λ n.
          ok
            (some (record { mem = s.mem; disk = s.fp; bgs = take n (some bg ∷ replicate n none) })))
counted bg s (ok n) = λ k later.
    group_at-Opened (record { mem = s.mem; disk = s.fp; bgs = take n (some bg ∷ replicate n none) })
      k (bg, n, refl) later
counted bg s fatal = tt
counted bg s fault = tt
counted bg s out_of_fuel = tt

finished : (r : Run (Option BlockGroup × State)) → OpensOne (and_then r finish)
finished (ok (none, s)) = tt
finished (ok (some bg, s)) = counted bg s (group_count bg.sb)
finished fatal = tt
finished fault = tt
finished out_of_fuel = tt

pub ext2_open-OpensOne : (file : OpenFile) → OpensOne (ext2_open file)
unfolding ext2_open
ext2_open-OpensOne file = loaded_one (disk_open file)
  where
    loaded_one :
        (r : Option State)
        → OpensOne (elim r as (λ _. Run (Option Ext2)) [
          | none ↦ ok none
          | some s ↦ and_then (first_read s) finish
        ])
    loaded_one none = tt
    loaded_one (some s) = finished (first_read s)
