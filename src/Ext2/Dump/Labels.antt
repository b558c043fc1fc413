-- ===== src/Ext2/Dump/Labels.antt =====
-- The labels and small texts of src/ext2dump.c.
pub mod Warned
pub mod Perms
pub mod Uuid
pub mod Checks
use Prim.Native.String.{String}
use ext2p.Prelude.{
  ℕ, zero, suc, ◌+◌, ◌-◌, ◌/◌, ◌%◌, ◌^◌, List, [], ◌∷◌, ◌++◌, ltb, leb, ◌==◌, if◌then◌else◌,
  bit_and, Option, none, some,
}
use ext2p.Machine.{Run, ok, fault}
use ext2p.Output.{Piece, lit, dec, sdec, Out}
use ext2p.Superblock.{rev_dynamic}
use ext2p.Superblock.Masks.{
  fc_dir_prealloc, fc_imagic_inodes, fc_has_journal, fc_ext_attr, fc_resized_inode, fc_dir_indexing,
  fi_compression, fi_filetype, fi_recover, fi_journal_dev, fi_meta_bg, fro_sparse_sb,
  fro_large_file, fro_btree_dir, comp_lzv1, comp_lzrw3_a, comp_gzip, comp_bzip2, comp_lzo, st_valid,
  st_error, err_continue, err_readonly, err_panic, os_linux, os_hurd, os_masix, os_freebsd,
  os_lites, rev_old,
}
use ext2p.Inode.Masks.{
  fm_sock, fm_symb, fm_block, fm_char, fm_fifo, fm_set_uid, fm_set_gid, fm_sticky, fm_user_r,
  fm_user_w, fm_user_x, fm_group_r, fm_group_w, fm_group_x, fm_other_r, fm_other_w, fm_other_x,
  fl_secure_rm, fl_record_unrm, fl_compress, fl_sync, fl_immutable, fl_append, fl_no_dump,
  fl_no_atime, fl_dirty, fl_compblks, fl_rawdata, fl_comperr, fl_btree_dir, fl_imagic_dir,
  fl_journal_data, fl_reserved,
}

unfoldable pub sb_os_dump : ℕ → String
sb_os_dump os =
    if os == os_linux
    then "Linux"
    else if os == os_hurd
    then "GNU Hurd"
    else if os == os_masix
    then "Masix"
    else if os == os_freebsd
    then "FreeBSD"
    else if os == os_lites
    then "Lites"
    else "unknown"

unfoldable pub sb_rev_dump : ℕ → String
sb_rev_dump rev =
    if rev == rev_old then "0 (old)" else if rev == rev_dynamic then "1 (dynamic)" else "unknown"

unfoldable pub sb_state_dump : ℕ → String
sb_state_dump state =
    if state == st_valid
    then "OK (unmounted cleanly)"
    else if state == st_error
    then "error(s) occurred"
    else "unknown"

unfoldable pub sb_error_dump : ℕ → String
sb_error_dump errors =
    if errors == err_continue
    then "ignore errors"
    else if errors == err_readonly
    then "remount read-only"
    else if errors == err_panic
    then "cause kernel panic"
    else "unknown"

-- What is written to the caller's buffer: at the maximum itself the text is assigned to the parameter,
-- and the buffer stays as it was, `none`.
unfoldable pub sb_mount_check_dump : (count max : ℕ) → Option Out
sb_mount_check_dump count max =
    if count == max
    then none
    else if ltb max count
    then some (lit "yes (" ∷ dec (count - max) ∷ lit " more than max)" ∷ [])
    else some (lit "no (" ∷ dec (max - count) ∷ lit " less than max)" ∷ [])

-- an `int32_t` from its bits, moved up by 2^31: an order of these numbers is that of the signed ones
abbrev pub biased : ℕ → ℕ
biased w = (w + 2 ^ 31) % 2 ^ 32

-- `DIFF` is `check - now`, whose conversion to `int32_t` is undefined below -2^31; `now` is the host's
-- clock.
unfoldable pub sb_time_check_dump : (now check interval : ℕ) → Run Out
sb_time_check_dump now check interval =
    if interval == 0
    then ok (lit "yes (set to check at boot)" ∷ [])
    else if ltb (biased check) now
    then fault
    else (let diff = biased check - now in
        ok (
          (if leb (biased interval) diff then lit "yes" else lit "no")
          ∷ lit " (check every "
          ∷ sdec (biased diff) 32
          ∷ lit " seconds)"
          ∷ []))

abbrev pub hex_digit : ℕ → ℕ
hex_digit d = if ltb d 10 then d + 48 else d + 87

-- `%02x` of each of the 16 bytes
unfoldable pub sb_uuid_dump : List ℕ → List ℕ
sb_uuid_dump [] = []
sb_uuid_dump (b ∷ bs) = hex_digit (b / 16) ∷ (hex_digit (b % 16) ∷ sb_uuid_dump bs)

-- `R`, `W` and `X`, or `-`
abbrev pub perm : (mode mask letter : ℕ) → ℕ
perm mode mask letter = if bit_and mode mask == 0 then 45 else letter

unfoldable pub ino_user_dump : ℕ → List ℕ
ino_user_dump mode = perm mode fm_user_r 82 ∷ perm mode fm_user_w 87 ∷ perm mode fm_user_x 88 ∷ []

unfoldable pub ino_group_dump : ℕ → List ℕ
ino_group_dump mode =
    perm mode fm_group_r 82 ∷ perm mode fm_group_w 87 ∷ perm mode fm_group_x 88 ∷ []

unfoldable pub ino_other_dump : ℕ → List ℕ
ino_other_dump mode =
    perm mode fm_other_r 82 ∷ perm mode fm_other_w 87 ∷ perm mode fm_other_x 88 ∷ []
