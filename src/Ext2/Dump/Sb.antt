-- ===== src/Ext2/Dump/Sb.antt =====
-- `_sbDump` and `_bgDump` of src/ext2dump.c.
pub mod Returns
use ext2p.Prelude.{
  ℕ, ◌/◌, List, [], ◌∷◌, ◌++◌, ltb, ◌==◌, if◌then◌else◌, bit_and, Option, none, some,
}
use ext2p.Machine.{Run, ok, fault, and_then, shl}
use ext2p.Output.{lit, dec, sdec, hex, hex2, str, date, Out, row, say, lines, yes_no, text_field}
use ext2p.Superblock.{Superblock}
use ext2p.Superblock.Masks.{
  fc_dir_prealloc, fc_imagic_inodes, fc_has_journal, fc_resized_inode, fc_dir_indexing,
  fi_compression, fi_filetype, fi_recover, fi_journal_dev, fi_meta_bg, fro_sparse_sb,
  fro_large_file, fro_btree_dir, comp_lzv1, comp_lzrw3_a, comp_gzip, comp_bzip2, comp_lzo,
}
use ext2p.Bg.{BlockGroupDescriptor, block_size}
use ext2p.Ext2.Dump.Labels.{
  sb_os_dump, sb_rev_dump, sb_state_dump, sb_error_dump, sb_mount_check_dump, sb_time_check_dump,
  sb_uuid_dump,
}

abbrev pub sb_identity : Superblock → Out
sb_identity sb = lines (
    (lit "* Superblock " ∷ [])
    ∷ (lit "(block #" ∷ dec sb.first_data_block ∷ lit ", " ∷ [])
    ∷ (lit "group #" ∷ dec sb.sb_block_group ∷ lit ")\n" ∷ [])
    ∷ say "│"
    ∷ row "├─ Created by (OS)... " (lit (sb_os_dump sb.creator_os))
    ∷ row "├─ Revision.......... " (lit (sb_rev_dump sb.rev_level))
    ∷ row "├─ Minor revision.... " (dec sb.minor_rev_level)
    ∷ say "│"
    ∷ row "├─ FS state....... " (lit (sb_state_dump sb.state))
    ∷ row "├─ Error policy... " (lit (sb_error_dump sb.errors))
    ∷ say "│"
    ∷ [])

-- the buffer of the checks, printed: not to be read before it is set
abbrev pub sb_needs_check : Option Out → Run Out
sb_needs_check needs_check = elim needs_check [
  | none ↦ fault
  | some text ↦ ok (lines ((lit "├─ Warrants fs check?... " ∷ text) ∷ say "" ∷ []))
]

abbrev pub sb_mounts : Superblock → Run Out
sb_mounts sb =
    and_then (sb_needs_check (sb_mount_check_dump sb.mount_count sb.max_mount_count)) λ needs_check.
      ok (lines (row "├─ Times mounted........ " (dec sb.mount_count) ∷ needs_check ∷ say "│" ∷ []))

abbrev pub sb_times : (now : ℕ) → Superblock → Run Out
sb_times now sb = and_then (sb_time_check_dump now sb.last_check sb.check_interval) λ text.
    and_then (sb_needs_check (some text)) λ needs_check. ok (
      lines (
        row "├─ Last mount time... " (date sb.mount_time)
        ∷ row "├─ Last write time... " (date sb.write_time)
        ∷ say "│"
        ∷ row "├─ Last fs check........ " (date sb.last_check)
        ∷ needs_check
        ∷ say "│"
        ∷ []))

abbrev pub sb_block_groups : Superblock → Out
sb_block_groups sb = lines (
    say "├─┬─ Block groups:"
    ∷ row "│ ├─── Inodes per group...... " (dec sb.inodes_per_group)
    ∷ row "│ ├─── Blocks per group...... " (dec sb.blocks_per_group)
    ∷ row "│ ├─── Fragments per group... " (dec sb.frags_per_group)
    ∷ row "│ └─── Reserved GDT blocks... " (dec sb.reserved_gdt)
    ∷ say "│"
    ∷ [])

abbrev pub sb_inodes : Superblock → Out
sb_inodes sb = lines (
    say "├─┬─ Inodes:"
    ∷ (lit "│ ├─── Count........... " ∷ dec sb.inode_count ∷ [])
    ∷ (lit " (" ∷ dec sb.free_inodes_count ∷ lit " free)\n" ∷ [])
    ∷ (lit "│ ├─── Size............ " ∷ dec sb.inode_size ∷ lit " bytes\n" ∷ [])
    ∷ row "│ └─── First usable.... #" (dec sb.first_inode)
    ∷ say "│"
    ∷ [])

-- BLOCK_SIZE and FRAG_SIZE: both shift by `logBlockSize`, which is unsigned.
abbrev pub sb_blocks : Superblock → Run Out
sb_blocks sb = and_then (block_size sb) λ size.
    and_then (if ltb 0 sb.log_block_size then shl 21 1024 sb.log_block_size else ok 1024)
      λ frag_size. ok (
        lines (
          say "├─┬─ Blocks:"
          ∷ (lit "│ ├─── Count........ " ∷ dec sb.block_count ∷ [])
          ∷ (lit " (" ∷ dec sb.free_blocks_count ∷ lit " free, " ∷ [])
          ∷ (dec sb.reserved_blocks_count ∷ lit " reserved for super user)\n" ∷ [])
          ∷ (lit "│ ├─── Size......... " ∷ dec (size / 1024) ∷ lit "Kib " ∷ [])
          ∷ (lit "(" ∷ dec size ∷ lit " bytes)\n" ∷ [])
          ∷ (lit "│ ├─── Frag size.... " ∷ dec (frag_size / 1024) ∷ lit "Kib " ∷ [])
          ∷ (lit "(" ∷ dec frag_size ∷ lit " bytes)\n" ∷ [])
          ∷ row "│ ├─── User ID...... " (dec sb.default_user_id)
          ∷ row "│ └─── Group ID..... " (dec sb.default_group_id)
          ∷ say "│"
          ∷ []))

abbrev pub sb_features : Superblock → Out
sb_features sb = lines (
    say "├─┬─ Features:"
    ∷ say "│ ├─┬─ Compatible:"
    ∷ row "│ │ ├─── Prealloc dirs?... " (yes_no sb.features_compat fc_dir_prealloc)
    ∷ row "│ │ ├─── Imagic inodes?... " (yes_no sb.features_compat fc_imagic_inodes)
    ∷ row "│ │ ├─── Has journal?..... " (yes_no sb.features_compat fc_has_journal)
    ∷ row "│ │ ├─── Extended attr?... " (yes_no sb.features_compat fc_has_journal)
    ∷ row "│ │ ├─── Resized inode?... " (yes_no sb.features_compat fc_resized_inode)
    ∷ row "│ │ └─── Dir indexing?.... " (yes_no sb.features_compat fc_dir_indexing)
    ∷ say "│ │"
    ∷ say "│ ├─┬─ Incompatible:"
    ∷ row "│ │ ├─── Compressed?......... " (yes_no sb.features_incompat fi_compression)
    ∷ row "│ │ ├─── Filetype in dirs?... " (yes_no sb.features_incompat fi_filetype)
    ∷ row "│ │ ├─── Needs recovery?..... " (yes_no sb.features_incompat fi_recover)
    ∷ row "│ │ ├─── Journal device?..... " (yes_no sb.features_incompat fi_journal_dev)
    ∷ row "│ │ └─── Meta block group?... " (yes_no sb.features_incompat fi_meta_bg)
    ∷ say "│ │"
    ∷ say "│ └─┬─ Compatible (read-only):"
    ∷ row "│   ├─── Sparse Superblock?... " (yes_no sb.features_read_only fro_sparse_sb)
    ∷ row "│   ├─── Large files?......... " (yes_no sb.features_read_only fro_large_file)
    ∷ row "│   └─── BTree sorted dirs?... " (yes_no sb.features_read_only fro_btree_dir)
    ∷ say "│"
    ∷ [])

abbrev pub sb_volume : Superblock → Run Out
sb_volume sb = and_then (text_field sb.volume_name) λ volume_name.
    and_then (text_field sb.mount_path) λ mount_path. ok (
      lines (
        say "├─┬─ Volume:"
        ∷ row "│ ├─── UUID...... 0x" (str (sb_uuid_dump sb.uuid))
        ∷ row "│ ├─── Name...... " volume_name
        ∷ row "│ └─── Mounted... " mount_path
        ∷ say "│"
        ∷ []))

abbrev pub sb_compression : Superblock → Out
sb_compression sb = lines (
    say "├─┬─ Compression:"
    ∷ row "│ ├─── LZV1 used?...... " (yes_no sb.compression_bitmap comp_lzv1)
    ∷ row "│ ├─── LZRW3-A used?... " (yes_no sb.compression_bitmap comp_lzrw3_a)
    ∷ row "│ ├─── gzip used?...... " (yes_no sb.compression_bitmap comp_gzip)
    ∷ row "│ ├─── bzip2 used?..... " (yes_no sb.compression_bitmap comp_bzip2)
    ∷ row "│ └─── LZO used?....... " (yes_no sb.compression_bitmap comp_lzo)
    ∷ say "│"
    ∷ [])

abbrev pub sb_performance : Superblock → Out
sb_performance sb = lines (
    say "├─┬─ Performance:"
    ∷ row "│ ├─── Prealloc (files)... " (dec sb.pre_alloc_blocks_f)
    ∷ row "│ └─── Prealloc (dirs).... " (dec sb.pre_alloc_blocks_d)
    ∷ say "│"
    ∷ [])

abbrev pub sb_journaling : Superblock → Out
sb_journaling sb =
    (if bit_and sb.features_compat fc_has_journal == 0
      then say "├─ Journaling: not present"
      else lines (
          say "├─┬─ Journaling:"
          ∷ row "│ ├─── Journal UUID..... 0x" (str (sb_uuid_dump sb.journal_uuid))
          ∷ row "│ ├─── Journal inode.... " (dec sb.journal_inode)
          ∷ row "│ ├─── Journal device... " (dec sb.journal_device)
          ∷ row "│ └─── Last orphan...... " (dec sb.last_orphan)
          ∷ []))
    ++ say "│"

-- `dirHashSeeds` has four members
abbrev pub sb_seeds : List ℕ → Run Out
sb_seeds (a ∷ (b ∷ (c ∷ (d ∷ [])))) = ok (
    lines (
      (lit "│ ├─── Seeds.......... 0x" ∷ hex a ∷ lit ", " ∷ [])
      ∷ (lit "0x" ∷ hex b ∷ lit ", " ∷ [])
      ∷ (lit "0x" ∷ hex c ∷ lit ", " ∷ [])
      ∷ row "0x" (hex d)
      ∷ []))
sb_seeds seeds = fault

abbrev pub sb_dir_indexing : Superblock → Run Out
sb_dir_indexing sb =
    if bit_and sb.features_compat fc_dir_indexing == 0
    then ok (lines (say "├─ Dir indexing: not present" ∷ say "│" ∷ []))
    else and_then (sb_seeds sb.dir_hash_seeds) λ seeds. ok (
        lines (
          say "├─┬─ Dir indexing:"
          ∷ seeds
          ∷ row "│ └─── Hash version... " (dec sb.default_hash_version)
          ∷ say "│"
          ∷ []))

abbrev pub sb_other : Superblock → Out
sb_other sb = lines (
    say "└─┬─ Other options:"
    ∷ row "  ├─── Mount options.. 0x" (hex2 sb.default_mount_options)
    ∷ row "  └─── 1st meta BG.... " (dec sb.first_meta_block_group)
    ∷ [])

unfoldable pub sb_dump : (now : ℕ) → Superblock → Run Out
sb_dump now sb = and_then (sb_mounts sb) λ mounts. and_then (sb_times now sb) λ times.
    and_then (sb_blocks sb) λ blocks. and_then (sb_volume sb) λ volume.
      and_then (sb_dir_indexing sb) λ dir_indexing. ok (
        lines (
          sb_identity sb
          ∷ mounts
          ∷ times
          ∷ sb_block_groups sb
          ∷ sb_inodes sb
          ∷ blocks
          ∷ sb_features sb
          ∷ volume
          ∷ sb_compression sb
          ∷ sb_performance sb
          ∷ sb_journaling sb
          ∷ dir_indexing
          ∷ sb_other sb
          ∷ []))

unfoldable pub bg_dump : BlockGroupDescriptor → (i : ℕ) → Out
bg_dump bgdesc i = lines (
    (lit "* Block Group Descriptor (#" ∷ sdec i 32 ∷ lit ")\n" ∷ [])
    ∷ say "│"
    ∷ row "├─ Block bitmap... " (dec bgdesc.block_bitmap)
    ∷ row "├─ Inode bitmap... " (dec bgdesc.inode_bitmap)
    ∷ say "│"
    ∷ row "├─ Inode table.... " (dec bgdesc.inode_table)
    ∷ say "│"
    ∷ row "├─ Free blocks.... " (dec bgdesc.free_blocks)
    ∷ row "├─ Free inodes.... " (dec bgdesc.free_inodes)
    ∷ say "│"
    ∷ row "└─ Dir inodes..... " (dec bgdesc.dir_inodes)
    ∷ [])
