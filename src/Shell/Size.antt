-- ===== src/Shell/Size.antt =====
-- `_humanizeSize` of src/shell.c: a size with the suffix that fits it.
use ext2p.Prelude.{ℕ, zero, suc, ◌+◌, ◌/◌, ◌^◌, ◌≡◌, arith, ltb, if◌then◌else◌}
use ext2p.Machine.{Run, ok, fault}

-- the loop: the suffix's index, and the number in front of it
unfoldable pub shift_size : (rounds i bytes : ℕ) → ℕ × ℕ
shift_size zero i bytes = (i, bytes)
shift_size (suc n) i bytes =
    let rest = shift_size n (i + 1) (bytes / 1024) in if ltb bytes 1024 then (i, bytes) else rest

-- `SUFFIX` has five members: an index behind them is a fault.
unfoldable pub humanize_size : ℕ → Run (ℕ × ℕ)
humanize_size bytes = let r = shift_size 5 0 bytes in if ltb r.0 5 then ok r else fault

-- Up to 2^50 bytes, `_humanizeSize` prints the whole part of the size in the largest unit of which
-- the size has one, or in bytes; from 2^50 bytes on it reads behind the table of suffixes.
pub humanize_size_lem :
    (bytes : ℕ)
    → humanize_size bytes ≡ (
        if ltb bytes (2 ^ 10)
        then ok (0, bytes)
        else if ltb bytes (2 ^ 20)
        then ok (1, bytes / 2 ^ 10)
        else if ltb bytes (2 ^ 30)
        then ok (2, bytes / 2 ^ 20)
        else if ltb bytes (2 ^ 40)
        then ok (3, bytes / 2 ^ 30)
        else if ltb bytes (2 ^ 50)
        then ok (4, bytes / 2 ^ 40)
        else fault)
unfolding humanize_size shift_size
humanize_size_lem bytes = ground arith
