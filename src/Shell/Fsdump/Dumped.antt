-- ===== src/Shell/Fsdump/Dumped.antt =====
-- `fsdump` in a mounted file system.
use mathlib.Core.Path.{subst}
use ext2p.Prelude.{
  ◌⊎◌, inl, inr, ℕ, zero, suc, ◌*◌, ◌/◌, ◌^◌, ◌<◌, ◌≤◌, ◌≡◌, refl, List, [], ◌∷◌, length, Bool,
  true, false, ◌&&◌, ◌||◌, ltb, ◌==◌, bit_and, some, arith, Bool-cases,
}
use ext2p.Prelude.Bits.{two_pow}
use ext2p.Machine.{Run, ok, fault, and_then}
use ext2p.Output.{Out, say}
use ext2p.Util.{present}
use ext2p.Inode.{res_root_dir}
use ext2p.Bg.{BlockGroup, block_size}
use ext2p.Ext2.{Ext2, ext2_open, group_at}
use ext2p.Ext2.Open.{Opened, ext2_open-Over, group_at-Opened}
use ext2p.Ext2.Dump.{
  ext2_dump, each, dump_group, dump_sb, dump_superblock, dump_bgdescriptor, dump_all_bgdescriptor,
  dump_inode, dump_inode_all, dump_inode_root, then_out,
}
use ext2p.Ext2.Dump.Sb.Returns.{is_printable, sb_dump_lem}
use ext2p.Ext2.Dump.Outcome.{
  ReturnsIf, ok-ReturnsIf, then_out-ReturnsIf, when-ReturnsIf, is_node, are_nodes, node-ReturnsIf,
  nodes-ReturnsIf,
}
use ext2p.Shell.{Shell, Host, on_fs}
use ext2p.Shell.Fsdump.{shell_fsdump, fsdump_flags}
use ext2p.Shell.Commands.Remove.{with_fs}

-- the flags of a dump that returns
abbrev pub is_dumpable : (now : ℕ) → BlockGroup → (flags : ℕ) → Bool
is_dumpable now bg flags =
    ((bit_and flags dump_superblock == 0) || is_printable now bg.sb)
    && ((bit_and flags dump_bgdescriptor == 0)
        && ((bit_and flags dump_all_bgdescriptor == 0)
            && (((bit_and flags dump_inode == 0) || are_nodes bg 32 0)
                && (((bit_and flags dump_inode_all == 0) || are_nodes bg bg.sb.inodes_per_group 0)
                    && ((bit_and flags dump_inode_root == 0) || is_node bg res_root_dir)))))

or_false : (b : Bool) → (b || false) ≡ b
or_false true = refl
or_false false = refl

and_true : (b : Bool) → (b && true) ≡ b
and_true true = refl
and_true false = refl

module _ (e : Ext2) (bg : BlockGroup) (opened : Opened e) (first : group_at e.bgs 0 ≡ ok bg) where
  -- a second group has not been read
  groups-fault : (n : ℕ) → 2 ≤ n → each (dump_group e) n 0 ≡ fault
  unfolding each
  groups-fault zero h = absurd (omega arith)
  groups-fault (suc zero) h = absurd (omega arith)
  groups-fault (suc (suc n)) h = rw (first, group_at-Opened e 1 opened (omega arith)) refl

  all_groups-fault :
      and_then
        (group_at e.bgs 0)
        (λ bg. and_then (block_size bg.sb) λ size. each (dump_group e) (size / 32) 0)
      ≡ fault
  unfolding block_size
  all_groups-fault = rw first (elim (Bool-cases (ltb bg.sb.log_block_size 21)) [
    | inl small ↦
        let size = 2 ^ bg.sb.log_block_size in
        let positive : 0 < size = two_pow bg.sb.log_block_size in
        rw (block_size, small) (groups-fault (1024 * size / 32) (omega (arith, positive)))
    | inr large ↦ rw (block_size, large) refl
  ])

  unset-ReturnsIf : {r : Run Out} → r ≡ fault → ReturnsIf r false
  unset-ReturnsIf broken = inr (refl, broken)

  sb-ReturnsIf :
      (now : ℕ) → ReturnsIf (then_out (dump_sb now e) (ok (say ""))) (is_printable now bg.sb)
  sb-ReturnsIf now =
      subst (ReturnsIf (then_out (dump_sb now e) (ok (say "")))) (and_true (is_printable now bg.sb))
        (then_out-ReturnsIf (rw first (sb_dump_lem now bg.sb)) (ok-ReturnsIf (say "")))

  dump-ReturnsIf : (now flags : ℕ) → ReturnsIf (ext2_dump now e flags) (is_dumpable now bg flags)
  unfolding ext2_dump
  dump-ReturnsIf now flags =
      then_out-ReturnsIf (when-ReturnsIf flags dump_superblock (sb-ReturnsIf now)) (
        then_out-ReturnsIf
          (subst (ReturnsIf _) (or_false (bit_and flags dump_bgdescriptor == 0)) (
            when-ReturnsIf flags dump_bgdescriptor
              (unset-ReturnsIf (groups-fault 32 (omega arith)))))
          (then_out-ReturnsIf
            (subst (ReturnsIf _) (or_false (bit_and flags dump_all_bgdescriptor == 0))
              (when-ReturnsIf flags dump_all_bgdescriptor (unset-ReturnsIf all_groups-fault)))
            (then_out-ReturnsIf (when-ReturnsIf flags dump_inode (nodes-ReturnsIf e bg first 32 0))
              (then_out-ReturnsIf
                (when-ReturnsIf flags dump_inode_all
                  (rw first (nodes-ReturnsIf e bg first bg.sb.inodes_per_group 0)))
                (when-ReturnsIf flags dump_inode_root (node-ReturnsIf e bg first res_root_dir))))))

-- `fsdump` of a format that it accepts, in a file system that `ext2Open` has mounted, returns with the
-- status of a success and leaves the shell as it was, exactly if no block group is asked for, the
-- superblock can be printed where it is asked for, and each inode that is asked for, the first 32, all
-- of the group or the one at index 2 for the root's, is in the group's table, has its fifteen blocks
-- and, in revision 1, a size whose upper half is below 2^31. Otherwise it does what C leaves undefined.
-- A superblock can be printed if it has not been mounted exactly as often as it may be, the clock is at
-- most 2^31 seconds past the last check where an interval asks for a comparison, the block size fits
-- an `int`, both names end in their fields, and there are four seeds where directories are indexed.
pub shell_fsdump_lem :
    (host : Host) (sh : Shell) (got : List ℕ) (e : Ext2) (bg : BlockGroup) (cmd fmt : List ℕ)
    (flags : ℕ)
    → length got < 2 ^ 62
    → ext2_open (present (length got) true got) ≡ ok (some e)
    → group_at e.bgs 0 ≡ ok bg
    → fsdump_flags fmt 0 ≡ some flags
    → ((is_dumpable host.now bg flags ≡ true)
        × ((out : Out) × (shell_fsdump host (cmd ∷ (fmt ∷ [])) (with_fs sh e)
              ≡ ok ((0, out), with_fs sh e))))
      ⊎ ((is_dumpable host.now bg flags ≡ false)
          × (shell_fsdump host (cmd ∷ (fmt ∷ [])) (with_fs sh e) ≡ fault))
unfolding shell_fsdump on_fs
shell_fsdump_lem host sh got e bg cmd fmt flags small mounted first accepted =
    let (_, _, (_, _, opened)) = ext2_open-Over got e small mounted in
    elim (dump-ReturnsIf e bg opened first host.now flags) [
      | inl (holds, (out, run)) ↦ inl (holds, (out, rw (accepted, run) refl))
      | inr (fails, run) ↦ inr (fails, rw (accepted, run) refl)
    ]
