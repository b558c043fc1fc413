-- ===== src/Tests/Dumps.antt =====
-- The theorem on the warnings of a superblock, at a concrete one.
use ext2p.Prelude.{◌≡◌, [], ◌++◌}
use ext2p.Superblock.{
  Superblock, superblock_of_bytes, sb_warnings, warn, bad_state, bad_errors, bad_os, bad_rev,
}
use ext2p.Ext2.Dump.Labels.{sb_os_dump, sb_rev_dump, sb_state_dump, sb_error_dump}
use ext2p.Ext2.Dump.Labels.Warned.{is_unknown, sb_warnings_lem}

-- a state and a revision that are not known
abbrev odd_sb : Superblock
odd_sb = record (superblock_of_bytes []) { state = 9; errors = 1; creator_os = 4; rev_level = 2 }

sb_warnings_lem_example :
    sb_warnings odd_sb
    ≡ warn (is_unknown (sb_state_dump odd_sb.state)) bad_state
      ++ (warn (is_unknown (sb_error_dump odd_sb.errors)) bad_errors
          ++ (warn (is_unknown (sb_os_dump odd_sb.creator_os)) bad_os
              ++ warn (is_unknown (sb_rev_dump odd_sb.rev_level)) bad_rev))
sb_warnings_lem_example = sb_warnings_lem odd_sb
