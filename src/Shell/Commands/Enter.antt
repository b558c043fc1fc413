-- ===== src/Shell/Commands/Enter.antt =====
-- `cd` into a directory, `ls` there, and `cd ..`.
use mathlib.Core.List.{append-nil}
use mathlib.Core.Path.{ap₂}
use ext2p.Prelude.{
  ℕ, ◌<◌, ◌≡◌, refl, ap, ◌∙◌, List, [], ◌∷◌, ◌++◌, length, lt→ltb, ◌==◌, true, false, some,
}
use ext2p.Machine.{ok}
use ext2p.Output.{Out, c_str}
use ext2p.Util.Levenshtein.{str_eq}
use ext2p.Dir.{Dir}
use ext2p.Dir.Filetype.{ft_dir}
use ext2p.Bg.{BlockGroup, index_warning}
use ext2p.Disk.Bounds.{IsValid}
use ext2p.Bg.Lookup.{
  disk_of, DirAt-moved_to, index_warning-moved_to, DirAt, moved_to, bg_get_dir-DirAt,
  bg_get_dir_out-DirAt,
}
use ext2p.Ext2.{Ext2, group_at, on_group, inode_to_bg, ext2_get_dir, ext2_get_dir_out}
use ext2p.Ext2.Delete.{
  with_group, first_group, group_at-with_group, inode_to_bg-with_group, ext2_get_dir_out-first,
}
use ext2p.Shell.{Shell, Host, PathEntry, found_in}
use ext2p.Shell.Directory.{changed_path, cd_into, shell_cd, shell_ls, ls_entries}
use ext2p.Shell.Commands.Remove.{with_fs, get_file-ok, shell_ls-ok}

-- the shell in another directory
abbrev pub entered : Shell → ℕ → List PathEntry → Ext2 → Shell
entered sh cd path e = record sh { cd = cd; path = path; fs = some e }

shell_cd-ok :
    (host : Host) (cmd into : List ℕ) (sh : Shell) (e e0 : Ext2) (ds : List Dir) (root d : Dir)
    (rest : List Dir) (path : List PathEntry)
    → str_eq into (46 ∷ []) ≡ false
    → ext2_get_dir host.fuel sh.cd e ≡ ok (some ds, e0)
    → found_in ds into ≡ some (root, d, rest)
    → d.filetype ≡ ft_dir
    → changed_path into d sh.path ≡ ok path
    → shell_cd host (cmd ∷ (into ∷ [])) (with_fs sh e)
      ≡ ok ((0, ext2_get_dir_out sh.cd e), entered sh d.inode path e0)
unfolding shell_cd cd_into
shell_cd-ok host cmd into sh e e0 ds root d rest path away listed found is_dir changed =
    let yes_dir : (d.filetype == ft_dir) ≡ true = rw is_dir refl in
    rw (cd_into, away, get_file-ok host into sh e e0 ds listed, found, yes_dir, changed)
      (ap (λ out. ok ((0, out), entered sh d.inode path e0))
        (append-nil (ext2_get_dir_out sh.cd e)))

-- A listing in a file system whose first group is read: what it prints and the file system after it, in
-- which the other directories are as they were.
pub listed_step :
    (fuel n : ℕ) (e : Ext2) (bg : BlockGroup) {base size : ℕ} {ds : List Dir}
    → group_at e.bgs 0 ≡ ok bg
    → (at_dir : DirAt (first_group e bg) n base size ds) → inode_to_bg e n ≡ ok 0
    → length ds < fuel
    → (p : ℕ) × (let g0 = moved_to p (first_group e bg) in
        (ext2_get_dir fuel n e ≡ ok (some ds, with_group e g0))
        × (ext2_get_dir_out n e ≡ index_warning at_dir.node)
        × (group_at (with_group e g0).bgs 0 ≡ ok g0.bg)
        × ((m : ℕ) → inode_to_bg (with_group e g0) m ≡ inode_to_bg e m)
        × IsValid (disk_of g0))
unfolding ext2_get_dir on_group
listed_step fuel n e bg first at_dir here enough =
    let (p, listed, at_dir0, _) = bg_get_dir-DirAt at_dir fuel enough in
    let g0 = moved_to p (first_group e bg) in
    (
      p,
      (
        rw (here, first, listed) refl,
        ext2_get_dir_out-first e bg first n here ∙ bg_get_dir_out-DirAt at_dir,
        group_at-with_group e bg g0 first,
        (λ m. inode_to_bg-with_group e bg first g0 m refl),
        at_dir0.valid,
      ),
    )

module _ (host : Host) (sh : Shell) (e : Ext2) (bg : BlockGroup) {base base' size size' : ℕ}
    (first : group_at e.bgs 0 ≡ ok bg) (root root' d up : Dir) (ds ds' rest rest' : List Dir)
    (at_dir : DirAt (first_group e bg) sh.cd base size ds)
    (at_sub : DirAt (first_group e bg) d.inode base' size' ds') where
  -- the shell in the directory `d`
  abbrev inside : Ext2 → Shell
  inside = entered sh d.inode (record { name = c_str d.filename; inode = d.inode } ∷ sh.path)

  -- `cd` into a directory that the current one lists, `ls` there, and `cd ..`: the first moves the shell
  -- into the directory and puts its name on the path, the second prints what the directory lists, and
  -- the third brings the shell back to where it was, with the image as it was; each prints the warning on
  -- an indexed directory first, where the directory that it lists is one. Both directories lie in the
  -- first block group, each name is the first of its kind, `..` is the entry of the directory that the
  -- shell came from, the path and the name have room, and the fuel is for more rounds than either
  -- directory has entries.
  pub shell_cd-back :
      (cmd into : List ℕ)
      → inode_to_bg e sh.cd ≡ ok 0
      → inode_to_bg e d.inode ≡ ok 0
      → str_eq into (46 ∷ []) ≡ false
      → str_eq into (46 ∷ 46 ∷ []) ≡ false
      → found_in ds into ≡ some (root, d, rest)
      → d.filetype ≡ ft_dir
      → d.name_len < 255
      → length sh.path < 127
      → found_in ds' (46 ∷ 46 ∷ []) ≡ some (root', up, rest')
      → up.filetype ≡ ft_dir
      → up.inode ≡ sh.cd
      → length ds < host.fuel
      → length ds' < host.fuel
      → (e0 : Ext2) × (e1 : Ext2) × (e2 : Ext2) × (shell_cd host (cmd ∷ (into ∷ [])) (with_fs sh e)
          ≡ ok ((0, index_warning at_dir.node), inside e0))
        × (shell_ls host (inside e0)
            ≡ ok ((0, index_warning at_sub.node ++ ls_entries ds'), inside e1))
        × (shell_cd host (cmd ∷ ((46 ∷ 46 ∷ []) ∷ [])) (inside e1)
            ≡ ok ((0, index_warning at_sub.node), with_fs sh e2))
        × (e2.mem ≡ e.mem)
  shell_cd-back cmd into here there away down found is_dir short room back up_dir same enough
        enough' =
      let (p0, (listed0, told0, first0, same0, valid0)) =
        listed_step host.fuel sh.cd e bg first at_dir here enough in
      let g0 = moved_to p0 (first_group e bg) in
      let e0 = with_group e g0 in
      let (sub0, _) = DirAt-moved_to at_sub p0 valid0 in
      let (p1, (listed1, told1, first1, same1, valid1)) =
        listed_step host.fuel d.inode e0 g0.bg first0 sub0 (same0 d.inode ∙ there) enough' in
      let g1 = moved_to p1 g0 in
      let e1 = with_group e0 g1 in
      let (sub1, _) = DirAt-moved_to sub0 p1 valid1 in
      let (p2, (listed2, told2, _, _, _)) =
        listed_step host.fuel d.inode e1 g1.bg first1 sub1 (same1 d.inode ∙ (same0 d.inode ∙ there))
          enough' in
      let e2 = with_group e1 (moved_to p2 g1) in
      let path : List PathEntry = record { name = c_str d.filename; inode = d.inode } ∷ sh.path in
      let on_path : changed_path into d sh.path ≡ ok path =
        rw (down, lt→ltb (length sh.path) 127 room, lt→ltb d.name_len 255 short) refl in
      let warned1 = told1 ∙ index_warning-moved_to p0 sub0 at_sub in
      let warned2 =
        told2 ∙ (index_warning-moved_to p1 sub1 sub0 ∙ index_warning-moved_to p0 sub0 at_sub) in
      (
        e0,
        e1,
        e2,
        shell_cd-ok host cmd into sh e e0 ds root d rest path away listed0 found is_dir on_path
            ∙ ap (λ (out : Out). ok ((0, out), entered sh d.inode path e0)) told0,
        shell_ls-ok host (inside e) e0 e1 ds' listed1
            ∙ ap (λ (out : Out). ok ((0, out ++ ls_entries ds'), entered sh d.inode path e1))
                warned1,
        shell_cd-ok host cmd (46 ∷ 46 ∷ []) (inside e) e1 e2 ds' root' up rest' sh.path refl listed2
              back up_dir refl
            ∙ ap₂ (λ (out : Out) (n : ℕ). ok ((0, out), entered sh n sh.path e2)) warned2 same,
        refl,
      )
