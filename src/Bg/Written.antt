-- ===== src/Bg/Written.antt =====
-- What `bgDeleteFile` writes are bytes.
use ext2p.Prelude.{ℕ, ◌+◌, ◌%◌, ◌<◌, arith, List, [], ◌∷◌}
use ext2p.Machine.{Mem, poke}
use ext2p.Disk.Words.{store, le_bytes}
use ext2p.Dir.{Dir}
use ext2p.Dir.Moved.{bytes_of}
use ext2p.Dir.Shift.{shifted}
use ext2p.Bg.Delete.{image_after}

-- every byte of an image is one
abbrev pub OfBytes : Mem → Type 0
OfBytes m = (q : ℕ) → m.byte q < 256

store-OfBytes : (m : Mem) (p : ℕ) (bs : List ℕ) → OfBytes m → OfBytes (store m p bs)
unfolding store
store-OfBytes m p [] h = h
store-OfBytes m p (b ∷ bs) h =
    store-OfBytes (poke m p (b % 256)) (p + 1) bs (λ q. ground (arith, h q))

shifted-OfBytes : (m : Mem) (p : ℕ) (ds : List Dir) → OfBytes m → OfBytes (shifted m p ds)
unfolding shifted
shifted-OfBytes m p [] h = h
shifted-OfBytes m p (d ∷ ds) h =
    shifted-OfBytes (store m p (bytes_of d)) (p + d.next_entry) ds
      (store-OfBytes m p (bytes_of d) h)

pub image_after-OfBytes :
    (m : Mem) (p : ℕ) (rest : List Dir) → OfBytes m → OfBytes (image_after m p rest)
image_after-OfBytes m p [] h = store-OfBytes m p (le_bytes 4 0) h
image_after-OfBytes m p (d ∷ ds) h = shifted-OfBytes m p (d ∷ ds) h
