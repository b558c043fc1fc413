-- ===== src/Ext2/Mounted/Single.antt =====
-- An image of one block group: what `ext2Free` finds.
use native.Mathlib.Nat.{div-eq_of_lt-le}
use ext2p.Prelude.{
  ℕ, zero, suc, ◌≤◌, ◌≡◌, refl, arith, List, [], ◌∷◌, length, ap, ◌∙◌, Option, some, none,
  length-set, length-take, replicate,
}
use ext2p.Machine.{ok}
use ext2p.Bg.{BlockGroup, Group}
use ext2p.Bg.Read.{sb_at}
use ext2p.Ext2.{Ext2, group_at, bg_free_all, ext2_free}
use ext2p.Ext2.Delete.{with_group, group_at-with_group}
use ext2p.Ext2.Open.{loaded}
use ext2p.Ext2.Mounted.{ImageAt, mounted, bg, first, count}

-- one group, which has been read
pub record IsSingle (e : Ext2) : Type 0 where
  pub group : BlockGroup
  pub one : length e.bgs ≡ 1
  pub at_group : group_at e.bgs 0 ≡ ok group

pub IsSingle-with_group : {e : Ext2} (g : Group) → IsSingle e → IsSingle (with_group e g)
IsSingle-with_group {e} g h = record {
  group = g.bg;
  one = length-set e.bgs 0 (some g.bg) ∙ h.one;
  at_group = group_at-with_group e h.group g h.at_group;
}

bg_free_all-single :
    (bgs : List (Option BlockGroup)) {b : BlockGroup}
    → length bgs ≡ 1
    → group_at bgs 0 ≡ ok b
    → bg_free_all bgs ≡ ok tt
unfolding bg_free_all group_at
bg_free_all-single [] one at_group = absurd (omega arith)
bg_free_all-single (none ∷ bgs) one at_group = cc
bg_free_all-single (some b ∷ []) one at_group = refl
bg_free_all-single (some b ∷ (c ∷ bgs)) one at_group = absurd (omega arith)

pub ext2_free-IsSingle : {e : Ext2} → IsSingle e → ext2_free e ≡ ok tt
unfolding ext2_free
ext2_free-IsSingle {e} h = bg_free_all-single e.bgs h.one h.at_group

length-replicate : (n : ℕ) → length (replicate {A = Option BlockGroup} n none) ≡ n
length-replicate zero = refl
length-replicate (suc n) = ap suc (length-replicate n)

pub mounted-IsSingle :
    {got : List ℕ} {size : ℕ} (image : ImageAt got size)
    → (sb_at (loaded got) 1024).block_count ≤ (sb_at (loaded got) 1024).blocks_per_group
    → IsSingle (mounted image)
mounted-IsSingle image few =
    let one : count image ≡ 1 =
      div-eq_of_lt-le _ (omega (arith, image.some_block)) (omega (arith, image.some_block)) in
    record {
      group = bg image;
      one =
          length-take (count image) (some (bg image) ∷ replicate (count image) none)
          ∙ omega (arith, one, length-replicate (count image));
      at_group = first image;
    }
