-- ===== src/Shell/Commands/Remove.antt =====
-- `rm` and `ls` in a mounted directory.
use mathlib.Core.Path.{ap₂}
use mathlib.Core.List.{append_assoc, append-nil}
use ext2p.Prelude.{
  ℕ, ◌+◌, ◌<◌, ◌≡◌, refl, List, [], ◌∷◌, ◌++◌, length, ap, ◌∙◌, sym, true, some, ◌==◌,
}
use ext2p.Machine.{ok, Exec}
use ext2p.Dir.{Dir}
use ext2p.Dir.Filetype.{ft_file}
use ext2p.Dir.Listing.{Nonempty}
use ext2p.Dir.Shift.{moved, total}
use ext2p.Output.{Out}
use ext2p.Bg.{BlockGroup, index_warning}
use ext2p.Bg.Lookup.{
  index_warning-moved_to, bg_get_dir_out-DirAt, DirAt, moved_to, bg_get_dir-DirAt,
}
use ext2p.Bg.Delete.{FileOf, FileOf-moved_to}
use ext2p.Bg.After.{EndsInZero}
use ext2p.Ext2.{
  Ext2, group_at, on_group, inode_to_bg, ext2_get_dir, ext2_get_dir_out, ext2_delete_file,
}
use ext2p.Ext2.Delete.{
  with_group, first_group, group_at-with_group, inode_to_bg-with_group,
  ext2_get_dir-ext2_delete_file, ext2_get_dir_out-first,
}
use ext2p.Shell.{Shell, Host, on_fs, get_file, found_in, shell_rm}
use ext2p.Shell.Directory.{shell_ls, ls_entries, ls_entry}

-- the shell with a file system
abbrev pub with_fs : Shell → Ext2 → Shell
with_fs sh e = record sh { fs = some e }

pub on_fs-ok :
    {A : Type 0} (c : Exec Ext2 A) (sh : Shell) (e e' : Ext2) (a : A)
    → c e ≡ ok (a, e')
    → on_fs c (with_fs sh e) ≡ ok (a, with_fs sh e')
unfolding on_fs
on_fs-ok c sh e e' a run = rw run refl

pub get_file-ok :
    (host : Host) (filename : List ℕ) (sh : Shell) (e e' : Ext2) (ds : List Dir)
    → ext2_get_dir host.fuel sh.cd e ≡ ok (some ds, e')
    → get_file host filename (with_fs sh e) ≡ ok (found_in ds filename, with_fs sh e')
unfolding get_file
get_file-ok host filename sh e e' ds run =
    rw (on_fs-ok (ext2_get_dir host.fuel sh.cd) sh e e' (some ds) run) refl

pub shell_ls-ok :
    (host : Host) (sh : Shell) (e e' : Ext2) (ds : List Dir)
    → ext2_get_dir host.fuel sh.cd e ≡ ok (some ds, e')
    → shell_ls host (with_fs sh e)
      ≡ ok ((0, ext2_get_dir_out sh.cd e ++ ls_entries ds), with_fs sh e')
unfolding shell_ls
shell_ls-ok host sh e e' ds run =
    rw (on_fs-ok (ext2_get_dir host.fuel sh.cd) sh e e' (some ds) run) refl

pub shell_rm-ok :
    (host : Host) (cmd filename : List ℕ) (sh : Shell) (e e0 e1 : Ext2) (ds : List Dir)
    (root dir : Dir) (rest : List Dir)
    → ext2_get_dir host.fuel sh.cd e ≡ ok (some ds, e0)
    → found_in ds filename ≡ some (root, dir, rest)
    → dir.filetype ≡ ft_file
    → ext2_delete_file host.now root dir rest e0 ≡ ok (true, e1)
    → shell_rm host (cmd ∷ (filename ∷ [])) (with_fs sh e)
      ≡ ok ((0, ext2_get_dir_out sh.cd e), with_fs sh e1)
unfolding shell_rm
shell_rm-ok host cmd filename sh e e0 e1 ds root dir rest listed found is_file deleted =
    let yes_file : (dir.filetype == ft_file) ≡ true = rw is_file refl in
    rw
      (
        get_file-ok host filename sh e e0 ds listed,
        found,
        yes_file,
        on_fs-ok (ext2_delete_file host.now root dir rest) sh e0 e1 true deleted,
      )
      (ap (λ out. ok ((0, out), with_fs sh e1)) (append-nil (ext2_get_dir_out sh.cd e)))

-- what moves in the block is listed as before
pub ls_entries-moved : (off : ℕ) (ds : List Dir) → ls_entries (moved off ds) ≡ ls_entries ds
unfolding moved
ls_entries-moved off [] = refl
ls_entries-moved off (d ∷ ds) =
    ap (λ out. ls_entry d ++ out) (ls_entries-moved (off + d.next_entry) ds)

pub ls_entries-++ : (ds es : List Dir) → ls_entries (ds ++ es) ≡ ls_entries ds ++ ls_entries es
ls_entries-++ [] es = refl
ls_entries-++ (d ∷ ds) es =
    ap (λ out. ls_entry d ++ out) (ls_entries-++ ds es)
    ∙ sym (append_assoc (ls_entry d) (ls_entries ds) (ls_entries es))

module _ (host : Host) (sh : Shell) (e : Ext2) (bg : BlockGroup) {base size : ℕ}
    (first : group_at e.bgs 0 ≡ ok bg) (root dir : Dir) (pre rest : List Dir)
    (at_dir : DirAt (first_group e bg) root.inode base size (pre ++ (dir ∷ rest)))
    (file : FileOf (first_group e bg) at_dir.index dir) where
  -- the warning that each of the commands prints first, on an indexed directory
  abbrev told : Out
  told = index_warning at_dir.node

  -- Where `ls` prints a directory, `rm` of a file that stands in it behind another entry ends with the
  -- status of a success, and `ls` then prints the same without the file's line. Each prints
  -- first the warning on an indexed directory, where the directory is one. The conditions are
  -- those of a deletion in the first block group: the file is the first entry of its name, it was the
  -- last or the block holds a zero where the moved entries end, and the fuel is for more rounds than
  -- there are entries.
  pub shell_ls-shell_rm :
      (cmd filename : List ℕ)
      → sh.cd ≡ root.inode
      → Nonempty pre
      → EndsInZero e.mem (base + (total pre + total rest)) rest
      → inode_to_bg e root.inode ≡ ok 0
      → inode_to_bg e dir.inode ≡ ok 0
      → dir.filetype ≡ ft_file
      → found_in (pre ++ (dir ∷ rest)) filename ≡ some (root, dir, rest)
      → length (pre ++ (dir ∷ rest)) < host.fuel
      → length (pre ++ moved dir.offset rest) < host.fuel
      → (e0 : Ext2) × (e1 : Ext2) × (e2 : Ext2) × (shell_ls host (with_fs sh e)
          ≡ ok ((0, told ++ (ls_entries pre ++ (ls_entry dir ++ ls_entries rest))), with_fs sh e0))
        × (shell_rm host (cmd ∷ (filename ∷ [])) (with_fs sh e) ≡ ok ((0, told), with_fs sh e1))
        × (shell_ls host (with_fs sh e1)
            ≡ ok ((0, told ++ (ls_entries pre ++ ls_entries rest)), with_fs sh e2))
  unfolding ext2_get_dir on_group
  shell_ls-shell_rm cmd filename here before end root_group dir_group is_file found enough fewer =
      let (p, listed, at_dir0, same) = bg_get_dir-DirAt at_dir host.fuel enough in
      let g0 = moved_to p (first_group e bg) in
      let e0 = with_group e g0 in
      let first0 : group_at e0.bgs 0 ≡ ok g0.bg = group_at-with_group e bg g0 first in
      let (e1, e2, deleted, listed1, _, told1) =
        ext2_get_dir-ext2_delete_file e0 g0.bg first0 root dir pre rest at_dir0
          (FileOf-moved_to p same file) host.now host.fuel before end
          (inode_to_bg-with_group e bg first g0 root.inode refl ∙ root_group)
          (inode_to_bg-with_group e bg first g0 dir.inode refl ∙ dir_group) is_file fewer in
      let there : ext2_get_dir host.fuel root.inode e ≡ ok (some (pre ++ (dir ∷ rest)), e0) =
        rw (root_group, first, listed) refl in
      let at_cd : (x : Ext2)
          → ext2_get_dir host.fuel sh.cd x ≡ ext2_get_dir host.fuel root.inode x =
        λ x. ap (λ n. ext2_get_dir host.fuel n x) here in
      let told_at : (x : Ext2)
          → ext2_get_dir_out root.inode x ≡ told
          → ext2_get_dir_out sh.cd x ≡ told =
        λ x h. ap (λ n. ext2_get_dir_out n x) here ∙ h in
      let root_told : ext2_get_dir_out root.inode e ≡ told =
        ext2_get_dir_out-first e bg first root.inode root_group ∙ bg_get_dir_out-DirAt at_dir in
      (
        e0,
        e1,
        e2,
        shell_ls-ok host sh e e0 (pre ++ (dir ∷ rest)) (at_cd e ∙ there)
            ∙ ap₂ (λ out ls. ok ((0, out ++ ls), with_fs sh e0)) (told_at e root_told)
                (ls_entries-++ pre (dir ∷ rest)),
        shell_rm-ok host cmd filename sh e e0 e1 (pre ++ (dir ∷ rest)) root dir rest
              (at_cd e ∙ there) found is_file deleted
            ∙ ap (λ out. ok ((0, out), with_fs sh e1)) (told_at e root_told),
        shell_ls-ok host sh e1 e2 (pre ++ moved dir.offset rest) (at_cd e1 ∙ listed1)
            ∙ ap₂ (λ out ls. ok ((0, out ++ ls), with_fs sh e2))
                (told_at e1 (told1 ∙ index_warning-moved_to p at_dir0 at_dir))
                (ls_entries-++ pre (moved dir.offset rest)
                  ∙ ap (λ out. ls_entries pre ++ out) (ls_entries-moved dir.offset rest)),
      )
