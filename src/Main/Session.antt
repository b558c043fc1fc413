-- ===== src/Main/Session.antt =====
-- A run of the program on an image: what a user who lists the root directory and prints a file sees.
use mathlib.Core.List.{append-nil}
use mathlib.Core.Path.{ap₂}
use ext2p.Bg.{index_warning}
use ext2p.Prelude.{
  ℕ, suc, ◌+◌, ◌-◌, ◌*◌, ◌<◌, ◌≤◌, ◌≡◌, refl, arith, List, [], ◌∷◌, ◌++◌, length, take, ap, ◌∙◌,
  true, some,
}
use ext2p.Machine.{ok}
use ext2p.Output.{Out, str, lines}
use ext2p.Util.{present}
use ext2p.Inode.{res_root_dir}
use ext2p.Dir.{Dir}
use ext2p.Dir.Filetype.{ft_file}
use ext2p.Bg.Lookup.{index_warning-moved_to, moved_to, bg_get_dir-DirAt}
use ext2p.Bg.ReadFile.{FileAt-moved_to}
use ext2p.Bg.Read.{sb_at}
use ext2p.Ext2.{Ext2, ext2_get_dir, on_group, group_at}
use ext2p.Ext2.Delete.{with_group, first_group, group_at-with_group, inode_to_bg-with_group}
use ext2p.Ext2.Open.{loaded, Bytes}
use ext2p.Ext2.Mounted.{
  ImageAt, mounted, bg, first, ext2_open-ImageAt, ext2_open_out-ImageAt, inode_to_bg-ImageAt,
  node_at,
}
use ext2p.Ext2.Mounted.Directory.{
  HasDir, HasDir-DirAt, ext2_get_dir_out-HasDir, index_warning-HasDir,
}
use ext2p.Ext2.Mounted.Files.{
  HasFile, HasFile-FileAt, blocks_bytes, bases, whole-bases, length-bases,
}
use ext2p.Ext2.Mounted.Single.{IsSingle, IsSingle-with_group, ext2_free-IsSingle, mounted-IsSingle}
use ext2p.Superblock.{warnings_out, sb_warnings}
use ext2p.Shell.{shell_cat, Host, found_in, shell_open, shell_free, exit_success}
use ext2p.Shell.Directory.{ls_entries}
use ext2p.Shell.Commands.Cat.{shell_cat_run}
use ext2p.Shell.Commands.Typed.{IsTyped}
use ext2p.Shell.Loop.{shell_run}
use ext2p.Shell.Loop.Ended.{shell_loop_fuel}
use ext2p.Main.{main}
use ext2p.Main.Rounds.{cat_name, at_root, root_prompt, banner, ls_cat_exit, loop_of}

told :
    (warnings out : Out) → (warnings ++ []) ++ (banner ++ (out ++ [])) ≡ warnings ++ (banner ++ out)
told warnings out = rw (append-nil warnings, append-nil out) refl

module _ (host : Host) (img filename : List ℕ) {got : List ℕ} {size : ℕ} (image : ImageAt got size)
    (ds : List Dir) (root dir : Dir) (rest : List Dir) (blocks : List ℕ)
    (directory : HasDir image res_root_dir ds) (file : HasFile image dir.inode blocks) where
  abbrev long : ℕ
  long = (node_at got size (dir.inode - 1)).size_lo

  -- the warning that the listings print first, where the root directory is an indexed one
  abbrev warned : Out
  warned = index_warning (node_at got size (res_root_dir - 1))

  -- the listing and the file, one after the other
  commands :
      long ≤ length blocks * size
      → length blocks * size < long + size
      → dir.filetype ≡ ft_file
      → found_in ds filename ≡ some (root, dir, rest)
      → length ds < host.fuel
      → Bytes got
      → (e0 : Ext2) × (e1 : Ext2) × (ext2_get_dir host.fuel res_root_dir (mounted image)
          ≡ ok (some ds, e0))
        × (shell_cat host (cat_name ∷ (filename ∷ [])) (at_root e0)
            ≡ ok (
              (exit_success, warned ++ (str (take long (blocks_bytes got size blocks)) ∷ [])),
              at_root e1,
            ))
        × (IsSingle (mounted image) → IsSingle e1)
  unfolding ext2_get_dir on_group
  commands whole_blocks short is_file found enough bytes =
      let e = mounted image in
      let g = first_group e (bg image) in
      let (p, listed, at_dir0, _) =
        bg_get_dir-DirAt (HasDir-DirAt image directory) host.fuel enough in
      let g0 = moved_to p g in
      let e0 = with_group e g0 in
      let first0 : group_at e0.bgs 0 ≡ ok g0.bg =
        group_at-with_group e (bg image) g0 (first image) in
      let same = inode_to_bg-with_group e (bg image) (first image) g0 in
      let (q, r, printed) =
        shell_cat_run host (at_root e) e0 g0.bg first0 ds (bases size blocks) at_dir0 cat_name
          filename root dir rest (FileAt-moved_to p at_dir0.valid (HasFile-FileAt image file))
          (rw (length-bases size blocks) whole_blocks) (rw (length-bases size blocks) short)
          (same res_root_dir refl
            ∙ inode_to_bg-ImageAt image res_root_dir directory.one directory.last)
          (same dir.inode refl ∙ inode_to_bg-ImageAt image dir.inode file.one file.last) is_file
          found enough in
      let g1 = moved_to q g0 in
      let e1 = with_group (with_group e0 g1) (moved_to r g1) in
      (
        e0,
        e1,
        rw
            (
              inode_to_bg-ImageAt image res_root_dir directory.one directory.last,
              first image,
              listed,
            )
            refl,
        printed
            ∙ ap₂
                (λ (told : Out) (bs : List ℕ).
                  ok ((exit_success, told ++ (str (take long bs) ∷ [])), at_root e1))
                (index_warning-moved_to p at_dir0 (HasDir-DirAt image directory)
                  ∙ index_warning-HasDir image directory)
                (whole-bases image (node_at got size (dir.inode - 1)) bytes 0 blocks file.placed),
        λ one.
            IsSingle-with_group (moved_to r g1)
              (IsSingle-with_group g1 (IsSingle-with_group g0 one)),
      )

  -- Started on an image of one block group and 2 GiB at most, whose root directory lists a file with a
  -- typable name first of that name, the program prints for `ls`, `cat` of the name and `exit` the
  -- warnings about its superblock, the banner, the entries of the directory, and the bytes that stand in the image at the blocks of the
  -- file's inode, in order and cut to its size, with a prompt in front of each and, on an indexed directory, the warning, and ends with the
  -- status of a success. The inode table ends with a block, the blocks lie behind it and, as the
  -- superblock and the tables, away from the image's end as the checks want it; the size reaches into
  -- the last of the blocks, and the fuel is for more rounds than the directory has entries.
  pub main_session :
      (program : List ℕ)
      → host.file img ≡ present (length got) true got
      → Bytes got
      → (sb_at (loaded got) 1024).block_count ≤ (sb_at (loaded got) 1024).blocks_per_group
      → long ≤ length blocks * size
      → length blocks * size < long + size
      → dir.filetype ≡ ft_file
      → found_in ds filename ≡ some (root, dir, rest)
      → length ds < host.fuel
      → IsTyped filename
      → length filename < 1000
      → main host (program ∷ (img ∷ [])) (ls_cat_exit filename)
        ≡ ok (
          lines (
              warnings_out (sb_at (loaded got) 1024) (sb_warnings (sb_at (loaded got) 1024))
              ∷ banner
              ∷ root_prompt
              ∷ (warned ++ ls_entries ds)
              ∷ root_prompt
              ∷ (warned ++ (str (take long (blocks_bytes got size blocks)) ∷ []))
              ∷ root_prompt
              ∷ []),
          exit_success,
        )
  unfolding main shell_open shell_run shell_free
  main_session program opened bytes one_group whole_blocks short is_file found enough word fits =
      let (e0, e1, listed, printed, single) =
        commands whole_blocks short is_file found enough bytes in
      let sh = at_root (mounted image) in
      let n = length (ls_cat_exit filename) in
      let ran =
        shell_loop_fuel host (suc n) (suc (suc (suc (suc n)))) (ls_cat_exit filename) sh
          (omega arith) (omega arith)
        ∙ loop_of host n filename (mounted image) e0 e1 ds warned _ word fits listed
            (ext2_get_dir_out-HasDir image res_root_dir directory) printed in
      let freed = ext2_free-IsSingle (single (mounted-IsSingle image one_group)) in
      rw (opened, ext2_open-ImageAt image, ext2_open_out-ImageAt image img, ran, freed)
        (ap (λ (o : Out). ok (o, exit_success)) (told _ _))
