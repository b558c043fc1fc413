-- ===== src/Shell/Refused.antt =====
-- `shellOpen` of a file that is no image.
use ext2p.Prelude.{
  ℕ, ◌^◌, ◌<◌, ◌≡◌, refl, arith, List, [], ◌∷◌, ◌++◌, length, ltb, ◌==◌, ◌&&◌, if◌then◌else◌, true,
  false, Bool-cases, inl, inr, none, some,
}
use ext2p.Machine.{ok, fatal, set_pos, ◌>>◌}
use ext2p.Output.{Out, lit, str, hex4, warning, report}
use ext2p.Util.{util_read_file, present, util_read_file_out}
use ext2p.Disk.{bytes_at, disk_open, disk_skip, disk_copy, fetch, require, disk_check_bounds}
use ext2p.Inode.{res_root_dir}
use ext2p.Superblock.{ext2_super_magic, sb_read, sb_read_out}
use ext2p.Bg.{bg_read}
use ext2p.Bg.Read.{sb_at}
use ext2p.Ext2.{ext2_open, ext2_open_out}
use ext2p.Ext2.Open.{first_read, loaded, disk_open_lem, ext2_open_lem}
use ext2p.Shell.{Shell, Host, exit_success, shell_open}

-- the shell that starts without a file system, and what it says
abbrev pub unmounted : Shell
unmounted = record { cd = res_root_dir; path = []; run = true; err = exit_success; fs = none }

abbrev pub not_image : List ℕ → Out
not_image img =
    warning ∷ lit "'" ∷ str img ∷ lit "' is not a valid image; starting shell unmounted" ∷ []

-- the error about a superblock of a file
abbrev pub bad_magic : (got : List ℕ) → Out
bad_magic got = report (
    lit "Superblock has bad magic "
    ∷ hex4 (sb_at (loaded got) 1024).magic
    ∷ lit " (should be EF53)"
    ∷ [])

module _ (got : List ℕ) (small : length got < 2 ^ 62) where
  skipped :
      disk_skip 1024 (loaded got)
      ≡ (if ltb 1024 (length got) then ok (tt, set_pos 1024 (loaded got)) else fatal)
  unfolding disk_skip require disk_check_bounds
  skipped = ground arith

  copied : disk_copy 264 (set_pos 1024 (loaded got)) ≡ (
      if ltb 1288 (length got)
      then ok (bytes_at (loaded got).mem 1024 264, set_pos 1288 (loaded got))
      else fatal)
  unfolding disk_copy disk_skip require disk_check_bounds fetch
  copied = ground arith

  -- the superblock that the file would have
  module _
      (no_image : (ltb 1288 (length got) && ((sb_at (loaded got) 1024).magic == ext2_super_magic))
        ≡ false) where
    reads :
        ((disk_skip 1024 >> sb_read) (loaded got) ≡ (
          if ltb 1288 (length got)
          then ok ((false, sb_at (loaded got) 1024, []), set_pos 1288 (loaded got))
          else fatal))
        × (first_read (loaded got)
            ≡ (if ltb 1288 (length got) then ok (none, set_pos 1288 (loaded got)) else fatal))
    unfolding sb_read bg_read
    reads = elim (Bool-cases (ltb 1288 (length got))) [
      | inl long ↦
          let longer : ltb 1024 (length got) ≡ true = ground arith in
          let bad : ((sb_at (loaded got) 1024).magic == ext2_super_magic) ≡ false =
            rw long at no_image in
          (
            rw (skipped, longer, copied, long, bad) refl,
            rw (skipped, longer, copied, long, bad) refl,
          )
      | inr short ↦ rw short (elim (Bool-cases (ltb 1024 (length got))) [
        | inl longer ↦
            (rw (skipped, longer, copied, short) refl, rw (skipped, longer, copied, short) refl)
        | inr shorter ↦ (rw (skipped, shorter) refl, rw (skipped, shorter) refl)
      ])
    ]

    shell_open-bad :
        (host : Host) (img : List ℕ)
        → host.file img ≡ present (length got) true got
        → shell_open host (some img) ≡ (
            if ltb 1288 (length got) then ok (bad_magic got ++ not_image img, unmounted) else fatal)
    unfolding shell_open ext2_open_out sb_read_out
    shell_open-bad host img at_file =
        let (read, grouped) = reads in
        rw (at_file, ext2_open_lem got, grouped)
          (elim (Bool-cases (ltb 1288 (length got))) [
            | inl long ↦ rw (long, ext2_open_out, disk_open_lem got, read, long) refl
            | inr short ↦ rw short refl
          ])

-- A start of the shell on a file that is no image. A file that cannot be read, or not whole, is reported
-- so, and the shell starts without a file system in the root directory. A file that has been read
-- ends the program if it has no byte behind a superblock at 1024; if it has, and no magic there,
-- the magic that it has is reported, and the shell starts without a file system.
pub shell_open-no_image :
    (host : Host) (lost img got : List ℕ)
    → util_read_file (host.file lost) ≡ none
    → host.file img ≡ present (length got) true got
    → length got < 2 ^ 62
    → (ltb 1288 (length got) && ((sb_at (loaded got) 1024).magic == ext2_super_magic)) ≡ false
    → (shell_open host (some lost)
        ≡ ok (util_read_file_out lost (host.file lost) ++ not_image lost, unmounted))
      × (shell_open host (some img) ≡ (
          if ltb 1288 (length got) then ok (bad_magic got ++ not_image img, unmounted) else fatal))
unfolding shell_open ext2_open ext2_open_out disk_open
shell_open-no_image host lost img got unread at_file small no_image =
    (rw (unread, ext2_open, ext2_open_out) refl, shell_open-bad got small no_image host img at_file)
