-- ===== src/Ext2/Dumped.antt =====
-- `ext2Dump` on a file system that `ext2Open` has mounted.
use ext2p.Prelude.{
  ℕ, zero, suc, ◌^◌, ◌<◌, ◌≡◌, refl, arith, List, length, ap, ◌==◌, bit_and, true, false, some, ◌⊎◌,
  inl, inr,
}
use ext2p.Machine.{ok, fault}
use ext2p.Util.{present}
use ext2p.Bg.{BlockGroup}
use ext2p.Ext2.{Ext2, ext2_open, group_at}
use ext2p.Output.{say}
use ext2p.Ext2.Dump.{
  ext2_dump, each, dump_group, dump_sb, dump_superblock, dump_bgdescriptor, when, then_out,
}
use ext2p.Ext2.Dump.Total.{OrFault, and_then-OrFault, if-OrFault, sb_dump-OrFault, then_out-OrFault}
use ext2p.Ext2.Open.{Opened, ext2_open-Over, group_at-Opened}

-- the first group has been read, or there is no group at all
first_cases :
    (e : Ext2)
    → Opened e
    → (group_at e.bgs 0 ≡ fault) ⊎ ((bg : BlockGroup) × (group_at e.bgs 0 ≡ ok bg))
unfolding group_at
first_cases e (bg, zero, same) = inl (ap (λ bgs. group_at bgs 0) same)
first_cases e (bg, suc n, same) = inr (bg, ap (λ bgs. group_at bgs 0) same)

dump_groups : (e : Ext2) → Opened e → each (dump_group e) 32 0 ≡ fault
unfolding each
dump_groups e opened = elim (first_cases e opened) [
  | inl no_group ↦ rw no_group refl
  | inr (bg, first) ↦ rw (first, group_at-Opened e 1 opened (omega arith)) refl
]

first_dump-OrFault :
    (now : ℕ) (e : Ext2) (flags : ℕ)
    → Opened e
    → OrFault (when flags dump_superblock (then_out (dump_sb now e) (ok (say ""))))
first_dump-OrFault now e flags opened =
    if-OrFault (bit_and flags dump_superblock == 0) _ _ tt (elim (first_cases e opened) [
      | inl no_group ↦ rw no_group tt
      | inr (bg, first) ↦ rw first (and_then-OrFault _ _ (sb_dump-OrFault now bg.sb) λ _. tt)
    ])

-- `fsdump` of block groups, as its formats `a` and `b` ask for, reads memory that nothing has set:
-- `ext2Open` has read one group at most, and 32 are dumped. What else the flags ask for does not
-- matter.
ext2_dump-ext2_open :
    (got : List ℕ) (e : Ext2) (now flags : ℕ)
    → length got < 2 ^ 62
    → ext2_open (present (length got) true got) ≡ ok (some e)
    → (bit_and flags dump_bgdescriptor == 0) ≡ false
    → ext2_dump now e flags ≡ fault
unfolding ext2_dump
ext2_dump-ext2_open got e now flags small h asked =
    let (_, _, (_, _, opened)) = ext2_open-Over got e small h in
    then_out-OrFault _ _ (first_dump-OrFault now e flags opened)
      (rw (asked, dump_groups e opened) refl)
