-- ===== src/Ext2/Dump/Labels/Perms.antt =====
-- The permissions of an inode as text.
use ext2p.Prelude.{
  ℕ, zero, suc, ◌*◌, ◌/◌, ◌%◌, ◌^◌, ◌<◌, ◌≡◌, arith, List, [], ◌∷◌, leb, ◌==◌, if◌then◌else◌,
  bit_and,
}
use ext2p.Prelude.Bits.{two_pow, bit_and_power}
use ext2p.Ext2.Dump.Labels.{ino_user_dump, ino_group_dump, ino_other_dump}

-- the text of an octal digit: 4 is to read, 2 to write, 1 to execute
abbrev pub rwx : ℕ → List ℕ
rwx digit =
    (if leb 4 digit then 82 else 45)
    ∷ (if leb 2 (digit % 4) then 87 else 45)
    ∷ (if leb 1 (digit % 2) then 88 else 45)
    ∷ []

times_zero : (y m : ℕ) → y < 2 → 0 < m → (y * m == 0) ≡ (y == 0)
times_zero zero m h k = ground arith
times_zero (suc zero) m h k = ground arith
times_zero (suc (suc y)) m h k = absurd (omega arith)

bit_at : (k mode : ℕ) → (bit_and mode (2 ^ k) == 0) ≡ (mode / 2 ^ k % 2 == 0)
bit_at k mode =
    rw (bit_and_power k mode) (times_zero (mode / 2 ^ k % 2) (2 ^ k) (omega arith) (two_pow k))

-- The texts that are printed of the permissions are those of the last three octal digits of the mode:
-- the user's, the group's and the others'.
permissions_lem :
    (mode : ℕ)
    → (ino_user_dump mode ≡ rwx (mode / 64 % 8))
      × (ino_group_dump mode ≡ rwx (mode / 8 % 8))
      × (ino_other_dump mode ≡ rwx (mode % 8))
unfolding ino_user_dump ino_group_dump ino_other_dump
permissions_lem mode = (
  ground (arith, bit_at 8 mode, bit_at 7 mode, bit_at 6 mode),
  ground (arith, bit_at 5 mode, bit_at 4 mode, bit_at 3 mode),
  ground (arith, bit_at 2 mode, bit_at 1 mode, bit_at 0 mode),
)
