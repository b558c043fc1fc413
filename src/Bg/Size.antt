-- ===== src/Bg/Size.antt =====
-- The size of a file, as `bgGetInodeSize` computes it.
use ext2p.Prelude.{
  ℕ, ◌+◌, ◌-◌, ◌*◌, ◌^◌, ◌<◌, ◌≡◌, arith, ltb, ◌==◌, if◌then◌else◌, bit_or, ◌∙◌, ap,
}
use ext2p.Prelude.Bits.{bit_or-shift, bit_or-shift_both, bit_or-ones}
use ext2p.Inode.{Inode}
use ext2p.Superblock.{rev_dynamic}
use ext2p.Bg.{BlockGroup, bg_get_inode_size}

-- an upper half joined to a number whose own upper half is all ones
or_sign :
    (hi lo : ℕ)
    → hi < 2 ^ 32
    → lo < 2 ^ 32
    → bit_or (hi * 2 ^ 32) (lo + (2 ^ 64 - 2 ^ 32)) ≡ lo + (2 ^ 64 - 2 ^ 32)
or_sign hi lo h l =
    let split : lo + (2 ^ 64 - 2 ^ 32) ≡ (2 ^ 32 - 1) * 2 ^ 32 + lo = omega arith in
    rw split
      (bit_or-shift_both 32 hi (2 ^ 32 - 1) lo l ∙ ap (λ n. n * 2 ^ 32 + lo) (bit_or-ones 32 hi h))

-- Up to 2 GiB - 1 in the low word, the size is the low word, with the high word above it in
-- revision 1. From 2 GiB on in the low word its sign fills the upper half: the size is then
-- 2^64 - 2^32 and the low word, whatever the revision and the high word.
pub bg_get_inode_size_lem :
    (bg : BlockGroup) (inode : Inode)
    → inode.size_lo < 2 ^ 32
    → inode.size_hi < 2 ^ 32
    → bg_get_inode_size bg inode ≡ (
        if ltb inode.size_lo (2 ^ 31)
        then inode.size_lo + (if bg.sb.rev_level == rev_dynamic then inode.size_hi * 2 ^ 32 else 0)
        else inode.size_lo + (2 ^ 64 - 2 ^ 32))
unfolding bg_get_inode_size
bg_get_inode_size_lem bg inode lo hi =
    ground (arith, bit_or-shift 32 inode.size_hi inode.size_lo, or_sign inode.size_hi inode.size_lo)
