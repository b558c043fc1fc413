-- ===== src/Bg/After.antt =====
-- The image that `bgDeleteFile` leaves.
use ext2p.Prelude.{ℕ, ◌+◌, ◌≤◌, ◌<◌, ◌≡◌, ◌⊎◌, inr, arith, List, [], ◌∷◌, ◌++◌}
use ext2p.Machine.{Mem}
use ext2p.Util.Words.{le32}
use ext2p.Disk.Words.{le_bytes, size-store, byte-store, le32-store, length-le_bytes}
use ext2p.Dir.{Dir}
use ext2p.Dir.Listing.{Listing, Nonempty}
use ext2p.Dir.Moved.{AllEntries}
use ext2p.Dir.Shift.{moved, total, shifted-Listing, byte-shifted, size-shifted}
use ext2p.Bg.Delete.{image_after}

-- The number that ends the list once the entries behind the deleted one have moved: the last
-- entry's own is overwritten, and behind a moved one the block must hold a zero already.
abbrev pub EndsInZero : Mem → ℕ → List Dir → Type 0
EndsInZero m p [] = Unit
EndsInZero m p (d ∷ ds) = le32 m p ≡ 0

pub size-image_after : (m : Mem) (p : ℕ) (rest : List Dir) → (image_after m p rest).size ≡ m.size
size-image_after m p [] = size-store m p (le_bytes 4 0)
size-image_after m p (d ∷ ds) = size-shifted m p (d ∷ ds)

pub byte-image_after :
    (m : Mem) (p q : ℕ) (rest : List Dir)
    → AllEntries rest
    → (q < p) ⊎ (p + total rest + 4 ≤ q)
    → (image_after m p rest).byte q ≡ m.byte q
byte-image_after m p q [] es out =
    ground (arith, byte-store m p (le_bytes 4 0) q, length-le_bytes 4 0)
byte-image_after m p q (d ∷ ds) es out = byte-shifted m p q (d ∷ ds) es (omega arith)

-- behind `k` bytes of the block the image lists the moved entries
pub image_after-Listing :
    (m : Mem) (base size k : ℕ) (rest : List Dir)
    → AllEntries rest
    → k + total rest ≤ size
    → EndsInZero m (base + (k + total rest)) rest
    → Listing (image_after m (base + k) rest) base size k (moved k rest)
unfolding moved
image_after-Listing m base size k [] es room end = inr (le32-store m (base + k) 0)
image_after-Listing m base size k (d ∷ ds) es room end =
    shifted-Listing m base size k (d ∷ ds) es room end

pub Nonempty-append : (xs ys : List Dir) → Nonempty xs → Nonempty (xs ++ ys)
Nonempty-append [] ys h = absurd h
Nonempty-append (x ∷ xs) ys h = tt
