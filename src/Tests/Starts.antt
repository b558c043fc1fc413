-- ===== src/Tests/Starts.antt =====
-- The shell started on files that are no image.
use ext2p.Prelude.{ℕ, List, [], ◌∷◌, ◌++◌, ◌≡◌, refl, arith, replicate, true, some}
use ext2p.Machine.{ok}
use ext2p.Output.{lit, str, hex4, report}
use ext2p.Util.{OpenFile, present, util_read_file, util_read_file_out}
use ext2p.Disk.{bytes_at}
use ext2p.Superblock.{superblock_of_bytes}
use ext2p.Shell.{Host, shell_open}
use ext2p.Shell.Refused.{unmounted, not_image, shell_open-no_image}

-- an empty path names a file that is not read whole, any other one a file of sevens
abbrev file_at : List ℕ → OpenFile
file_at [] = present 9 true (1 ∷ [])
file_at (c ∷ path) = present 1300 true (replicate 1300 7)

abbrev host : Host
host = record { file = file_at; can_write = λ path. true; now = 7; fuel = 1025 }

shell_open-no_image_example :
    (shell_open host (some [])
      ≡ ok (
        report (lit "couldn't read the file at '" ∷ str [] ∷ lit "'\n" ∷ []) ++ not_image [],
        unmounted,
      ))
    × (shell_open host (some (105 ∷ []))
        ≡ ok (
          report (lit "Superblock has bad magic " ∷ hex4 0x0707 ∷ lit " (should be EF53)" ∷ [])
              ++ not_image (105 ∷ []),
          unmounted,
        ))
unfolding superblock_of_bytes bytes_at util_read_file util_read_file_out
shell_open-no_image_example =
    shell_open-no_image host [] (105 ∷ []) (replicate 1300 7) refl refl (omega arith) refl
