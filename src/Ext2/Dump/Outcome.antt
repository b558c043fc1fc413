-- ===== src/Ext2/Dump/Outcome.antt =====
-- Which dumps of a file system return.
use mathlib.Core.Path.{subst}
use ext2p.Prelude.{
  ◌⊎◌, inl, inr, ℕ, zero, suc, ◌+◌, ◌≡◌, refl, List, [], ◌∷◌, ◌++◌, length, Bool, true, false, not,
  ◌&&◌, ◌||◌, ltb, leb, ◌==◌, bit_and, none, some, get_elem?, arith, Bool-cases, Option, ◌^◌,
}
use ext2p.Machine.{Run, ok, fault, and_then}
use ext2p.Output.{Out, say}
use ext2p.Superblock.{rev_dynamic}
use ext2p.Inode.{Inode}
use ext2p.Bg.{BlockGroup, at}
use ext2p.Ext2.{Ext2, group_at}
use ext2p.Ext2.Dump.{dump_node, each, when, then_out}
use ext2p.Ext2.Dump.Node.{ino_dump, ino_size, ino_blocks, ino_direct}

-- A call returns if the test holds, and otherwise does what C leaves undefined.
abbrev pub ReturnsIf : {A : Type 0} → Run A → Bool → Type 0
ReturnsIf {A} r b = ((b ≡ true) × ((a : A) × (r ≡ ok a))) ⊎ ((b ≡ false) × (r ≡ fault))

pub and_then-ReturnsIf :
    {A B : Type 0} {r : Run A} {k : A → Run B} {b c : Bool}
    → ReturnsIf r b
    → ((a : A) → ReturnsIf (k a) c)
    → ReturnsIf (and_then r k) (b && c)
and_then-ReturnsIf {k} {c} (inl (holds, (a, run))) next = rw (holds, run) (next a)
and_then-ReturnsIf (inr (fails, run)) next = inr (rw fails refl, rw run refl)

pub ok-ReturnsIf : {A : Type 0} (a : A) → ReturnsIf (ok a) true
ok-ReturnsIf a = inl (refl, (a, refl))

then_ok-ReturnsIf :
    {A B : Type 0} {r : Run A} {b : Bool} (k : A → B)
    → ReturnsIf r b
    → ReturnsIf (and_then r λ a. ok (k a)) b
then_ok-ReturnsIf k (inl (holds, (a, run))) = inl (holds, (k a, rw run refl))
then_ok-ReturnsIf k (inr (fails, run)) = inr (fails, rw run refl)

pub then_out-ReturnsIf :
    {r rest : Run Out} {b c : Bool}
    → ReturnsIf r b
    → ReturnsIf rest c
    → ReturnsIf (then_out r rest) (b && c)
then_out-ReturnsIf (inl (holds, (a, run))) (inl (holds', (a', run'))) =
    inl (rw (holds, holds') refl, (a ++ a', rw (run, run') refl))
then_out-ReturnsIf (inl (holds, (a, run))) (inr (fails, run')) =
    inr (rw (holds, fails) refl, rw (run, run') refl)
then_out-ReturnsIf (inr (fails, run)) rest = inr (rw fails refl, rw run refl)

pub when-ReturnsIf :
    (flags flag : ℕ) {r : Run Out} {b : Bool}
    → ReturnsIf r b
    → ReturnsIf (when flags flag r) ((bit_and flags flag == 0) || b)
when-ReturnsIf flags flag h = elim (Bool-cases (bit_and flags flag == 0)) [
  | inl unasked ↦ rw unasked (inl (refl, ([], refl)))
  | inr asked ↦ rw asked h
]

-- an inode of fifteen blocks, the upper half of whose size is not shifted into a sign
abbrev pub is_whole : BlockGroup → Inode → Bool
is_whole bg ino =
    (not (bg.sb.rev_level == rev_dynamic) || ltb ino.size_hi (2 ^ 31)) && leb 15 (length ino.block)

size-ReturnsIf :
    (revision : ℕ) (ino : Inode)
    → ReturnsIf (ino_size revision ino) (not (revision == rev_dynamic) || ltb ino.size_hi (2 ^ 31))
unfolding ino_size
size-ReturnsIf revision ino = elim (Bool-cases (revision == rev_dynamic)) [
  | inl dynamic ↦ elim (Bool-cases (ltb ino.size_hi (2 ^ 31))) [
    | inl small ↦ rw (dynamic, small) (inl (refl, (_, refl)))
    | inr large ↦ rw (dynamic, large) (inr (refl, refl))
  ]
  | inr old ↦ rw old (inl (refl, (_, refl)))
]

at-ReturnsIf : {A : Type 0} (xs : List A) (i : ℕ) → ReturnsIf (at xs i) (ltb i (length xs))
at-ReturnsIf [] i = inr (ground arith, refl)
at-ReturnsIf (x ∷ xs) zero = inl (ground arith, (x, refl))
at-ReturnsIf (x ∷ xs) (suc i) =
    let step : ltb (suc i) (suc (length xs)) ≡ ltb i (length xs) = ground arith in
    rw step (at-ReturnsIf xs i)

abbrev direct_fits : (rounds i size : ℕ) → Bool
direct_fits zero i size = true
direct_fits (suc n) i size = ltb i size && direct_fits n (i + 1) size

direct-ReturnsIf :
    (n i : ℕ) (block : List ℕ) → ReturnsIf (ino_direct n i block) (direct_fits n i (length block))
unfolding ino_direct
direct-ReturnsIf zero i block = inl (refl, ([], refl))
direct-ReturnsIf (suc n) i block =
    and_then-ReturnsIf (at-ReturnsIf block i)
      λ b. then_ok-ReturnsIf _ (direct-ReturnsIf n (i + 1) block)

fifteen :
    (size : ℕ)
    → direct_fits 11 0 size
        && (ltb 11 size && (ltb 12 size && (ltb 13 size && (ltb 14 size && true))))
      ≡ leb 15 size
fifteen size = ground arith

blocks-ReturnsIf : (ino : Inode) → ReturnsIf (ino_blocks ino) (leb 15 (length ino.block))
blocks-ReturnsIf ino = subst (ReturnsIf (ino_blocks ino)) (fifteen (length ino.block)) (
    and_then-ReturnsIf (direct-ReturnsIf 11 0 ino.block) λ direct.
      and_then-ReturnsIf (at-ReturnsIf ino.block 11) λ last.
        and_then-ReturnsIf (at-ReturnsIf ino.block 12) λ indirect.
          and_then-ReturnsIf (at-ReturnsIf ino.block 13)
            λ doubly. and_then-ReturnsIf (at-ReturnsIf ino.block 14) λ trebly. ok-ReturnsIf _)

-- the inode at an index of the group's table
abbrev pub is_node : BlockGroup → ℕ → Bool
is_node bg i = elim (get_elem? bg.inodes i) [ none ↦ false | some ino ↦ is_whole bg ino ]

abbrev pub are_nodes : BlockGroup → (rounds i : ℕ) → Bool
are_nodes bg zero i = true
are_nodes bg (suc n) i = is_node bg i && are_nodes bg n (i + 1)

found-ReturnsIf :
    {B : Type 0} (bg : BlockGroup) (k : Inode → Run B)
    → ((ino : Inode) → ReturnsIf (k ino) (is_whole bg ino))
    → (r : Option Inode)
    → ReturnsIf
        (and_then (elim r [ none ↦ fault | some ino ↦ ok ino ]) k)
        (elim r [ none ↦ false | some ino ↦ is_whole bg ino ])
found-ReturnsIf bg k each_one none = inr (refl, refl)
found-ReturnsIf bg k each_one (some ino) = each_one ino

pub node-ReturnsIf :
    (e : Ext2) (bg : BlockGroup)
    → group_at e.bgs 0 ≡ ok bg
    → (i : ℕ) → ReturnsIf (dump_node e i) (is_node bg i)
unfolding ino_dump
node-ReturnsIf e bg first i = rw first (
    found-ReturnsIf bg _
      (λ ino.
        and_then-ReturnsIf (size-ReturnsIf bg.sb.rev_level ino)
          λ size. then_ok-ReturnsIf _ (blocks-ReturnsIf ino))
      (get_elem? bg.inodes i))

pub nodes-ReturnsIf :
    (e : Ext2) (bg : BlockGroup)
    → group_at e.bgs 0 ≡ ok bg
    → (n i : ℕ) → ReturnsIf (each (dump_node e) n i) (are_nodes bg n i)
unfolding each
nodes-ReturnsIf e bg first zero i = inl (refl, ([], refl))
nodes-ReturnsIf e bg first (suc n) i =
    then_out-ReturnsIf (node-ReturnsIf e bg first i)
      (then_out-ReturnsIf (ok-ReturnsIf (say "")) (nodes-ReturnsIf e bg first n (i + 1)))
