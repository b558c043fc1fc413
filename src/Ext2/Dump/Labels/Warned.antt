-- ===== src/Ext2/Dump/Labels/Warned.antt =====
-- The labels of a superblock's fields and the warnings of `sbRead`.
use Prim.Native.String.{String, compare}
use Prim.Native.Nat.{Ordering}
use ext2p.Prelude.{ℕ, zero, suc, ◌≡◌, refl, ◌++◌, Bool, true, false, ◌==◌, ltb, ◌||◌, arith}
use ext2p.Superblock.{Superblock, bad_state, bad_errors, bad_os, bad_rev, warn, sb_warnings}
use ext2p.Ext2.Dump.Labels.{sb_os_dump, sb_rev_dump, sb_state_dump, sb_error_dump}

abbrev pub is_unknown : String → Bool
is_unknown label = elim (compare label "unknown") [
  | Ordering.lt ↦ false
  | Ordering.eq ↦ true
  | Ordering.gt ↦ false
]

state_lem : (n : ℕ) → (n == 0 || ltb 2 n) ≡ is_unknown (sb_state_dump n)
unfolding sb_state_dump
state_lem zero = refl
state_lem (suc zero) = refl
state_lem (suc (suc zero)) = refl
state_lem (suc (suc (suc n))) =
    let unknown : sb_state_dump (suc (suc (suc n))) ≡ "unknown" = ground arith in
    rw unknown (ground arith)

errors_lem : (n : ℕ) → (n == 0 || ltb 3 n) ≡ is_unknown (sb_error_dump n)
unfolding sb_error_dump
errors_lem zero = refl
errors_lem (suc zero) = refl
errors_lem (suc (suc zero)) = refl
errors_lem (suc (suc (suc zero))) = refl
errors_lem (suc (suc (suc (suc n)))) =
    let unknown : sb_error_dump (suc (suc (suc (suc n)))) ≡ "unknown" = ground arith in
    rw unknown (ground arith)

os_lem : (n : ℕ) → ltb 4 n ≡ is_unknown (sb_os_dump n)
unfolding sb_os_dump
os_lem zero = refl
os_lem (suc zero) = refl
os_lem (suc (suc zero)) = refl
os_lem (suc (suc (suc zero))) = refl
os_lem (suc (suc (suc (suc zero)))) = refl
os_lem (suc (suc (suc (suc (suc n))))) =
    let unknown : sb_os_dump (suc (suc (suc (suc (suc n))))) ≡ "unknown" = ground arith in
    rw unknown (ground arith)

rev_lem : (n : ℕ) → ltb 1 n ≡ is_unknown (sb_rev_dump n)
unfolding sb_rev_dump
rev_lem zero = refl
rev_lem (suc zero) = refl
rev_lem (suc (suc n)) =
    let unknown : sb_rev_dump (suc (suc n)) ≡ "unknown" = ground arith in rw unknown (ground arith)

-- `sbRead` warns of a state, an error policy, an operating system or a revision, in this order, exactly
-- where the dump of the superblock calls it unknown.
pub sb_warnings_lem :
    (sb : Superblock)
    → sb_warnings sb
      ≡ warn (is_unknown (sb_state_dump sb.state)) bad_state
        ++ (warn (is_unknown (sb_error_dump sb.errors)) bad_errors
            ++ (warn (is_unknown (sb_os_dump sb.creator_os)) bad_os
                ++ warn (is_unknown (sb_rev_dump sb.rev_level)) bad_rev))
unfolding sb_warnings
sb_warnings_lem sb =
    rw (state_lem sb.state, errors_lem sb.errors, os_lem sb.creator_os, rev_lem sb.rev_level) refl
