-- ===== src/Ext2/Dump/Labels/Checks.antt =====
-- When a superblock's dump says that a check is due.
use ext2p.Prelude.{ℕ, ◌+◌, ◌-◌, ◌%◌, ◌^◌, ◌≤◌, ◌<◌, ◌≡◌, arith, [], ◌∷◌}
use ext2p.Machine.{ok}
use ext2p.Output.{lit, sdec}
use ext2p.Ext2.Dump.Labels.{sb_time_check_dump}

-- With a positive interval and a last check in the past, less than 2^31 seconds ago, the dump says
-- that no check is due, however long ago the last one was. Instead of the interval it prints the
-- time since then, with a minus sign in front.
sb_time_check_dump-overdue :
    (now check interval : ℕ)
    → 0 < interval
    → interval < 2 ^ 31
    → check < 2 ^ 31
    → check ≤ now
    → now < check + 2 ^ 31
    → sb_time_check_dump now check interval
      ≡ ok (
          lit "no"
          ∷ lit " (check every "
          ∷ sdec ((2 ^ 32 - (now - check)) % 2 ^ 32) 32
          ∷ lit " seconds)"
          ∷ [])
unfolding sb_time_check_dump
sb_time_check_dump-overdue now check interval some_time small past before recent = ground arith
