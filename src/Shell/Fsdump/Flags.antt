-- ===== src/Shell/Fsdump/Flags.antt =====
-- Which flags the format of `fsdump` can set.
use native.Mathlib.Decide.{ℕ_discrete}
use mathlib.Core.Path.{subst}
use ext2p.Prelude.{
  ℕ, zero, suc, ◌<◌, ◌≤◌, ◌≡◌, refl, arith, List, [], ◌∷◌, Bool, true, false, not, ◌&&◌, ◌||◌, ltb,
  ltb→lt, ◌==◌, bit_and, none, some, Option-cases, Bool-cases, sym, ◌∙◌, ◌≢◌, inl, inr,
}
use ext2p.Ext2.Dump.{
  dump_bgdescriptor, dump_all_bgdescriptor, dump_inode, dump_inode_all, dump_inode_root,
}
use ext2p.Shell.Fsdump.{fsdump_flag, fsdump_flags}

-- At most one of the descriptors' two flags is set, at most one of the inodes' three, and no other bit
-- than those of the six flags.
abbrev pub is_consistent : ℕ → Bool
is_consistent flags =
    ltb flags 64
    && ((bit_and flags dump_bgdescriptor == 0 || bit_and flags dump_all_bgdescriptor == 0)
        && ((bit_and flags dump_inode == 0 || bit_and flags dump_inode_all == 0)
            && ((bit_and flags dump_inode == 0 || bit_and flags dump_inode_root == 0)
                && (bit_and flags dump_inode_all == 0 || bit_and flags dump_inode_root == 0))))

abbrev kept_by : (c flags : ℕ) → Bool
kept_by c flags = elim (fsdump_flag c flags) [
  | none ↦ true
  | some flags' ↦ not (is_consistent flags) || is_consistent flags'
]

abbrev all_below : (ℕ → Bool) → ℕ → Bool
all_below p zero = true
all_below p (suc n) = p n && all_below p n

table : all_below (λ c. all_below (kept_by c) 64) 128 ≡ true
unfolding fsdump_flag
table = refl

and_left : (a b : Bool) → a && b ≡ true → a ≡ true
and_left true b h = refl
and_left false b h = cc

and_right : (a b : Bool) → a && b ≡ true → b ≡ true
and_right true b h = h
and_right false b h = cc

all_below_at : (p : ℕ → Bool) (n k : ℕ) → all_below p n ≡ true → k < n → p k ≡ true
all_below_at p zero k h below = absurd (omega arith)
all_below_at p (suc n) k h below = elim (ℕ_discrete k n) [
  | yes same ↦ subst (λ i. p i ≡ true) (sym same) (and_left (p n) (all_below p n) h)
  | no other ↦ all_below_at p n k (and_right (p n) (all_below p n) h) (le-of-ne k n below other)
]
  where
    le-of-ne : (k n : ℕ) → k < suc n → k ≢ n → k < n
    le-of-ne k n below other = omega arith

implies : (a b : Bool) → not a || b ≡ true → a ≡ true → b ≡ true
implies true b h k = h
implies false b h k = cc

no_flag : (c flags : ℕ) → 128 ≤ c → fsdump_flag c flags ≡ none
unfolding fsdump_flag
no_flag c flags h = ground arith

fsdump_flag-consistent :
    (c flags flags' : ℕ)
    → is_consistent flags ≡ true
    → fsdump_flag c flags ≡ some flags'
    → is_consistent flags' ≡ true
fsdump_flag-consistent c flags flags' ok_before set = elim (Bool-cases (ltb c 128)) [
  | inl ascii ↦
      let row = all_below_at (λ c. all_below (kept_by c) 64) 128 c table (ltb→lt c 128 ascii) in
      let cell : kept_by c flags ≡ true =
        all_below_at (kept_by c) 64 flags row (ltb→lt flags 64 (and_left _ _ ok_before)) in
      implies (is_consistent flags) (is_consistent flags') (rw (kept_by, set) at cell) ok_before
  | inr other ↦ absurd (none≢some (sym (no_flag c flags (ltb-false c 128 other)) ∙ set))
]
  where
    ltb-false : (a b : ℕ) → ltb a b ≡ false → b ≤ a
    ltb-false a b h = ground arith

    none≢some : {x : ℕ} → none ≡ some x → ⊥
    none≢some h = cc

-- From consistent flags, that is no others than the six, with one kind of block group dump at most and
-- one kind of inode dump at most, every format that `fsdump` accepts leads to consistent ones.
pub fsdump_flags-consistent :
    (fmt : List ℕ) (flags flags' : ℕ)
    → is_consistent flags ≡ true
    → fsdump_flags fmt flags ≡ some flags'
    → is_consistent flags' ≡ true
fsdump_flags-consistent [] flags flags' ok_before set =
    subst (λ f. is_consistent f ≡ true) (some-inj set) ok_before
  where
    some-inj : {x y : ℕ} → some x ≡ some y → x ≡ y
    some-inj h = cc
fsdump_flags-consistent (c ∷ fmt) flags flags' ok_before set =
    elim (Option-cases (fsdump_flag c flags)) [
      | inl bad ↦ absurd (none≢some (rw (fsdump_flags, bad) at set))
      | inr (flags1, good) ↦
          fsdump_flags-consistent fmt flags1 flags'
            (fsdump_flag-consistent c flags flags1 ok_before good) (rw (fsdump_flags, good) at set)
    ]
  where
    none≢some : {x : ℕ} → none ≡ some x → ⊥
    none≢some h = cc
