-- ===== src/Struct.antt =====
-- Fields of a C structure that `memcpy` has filled: little-endian words of a list of bytes.
use ext2p.Prelude.{ℕ, zero, suc, ◌+◌, ◌*◌, ◌^◌, List, [], ◌∷◌, get_or}

abbrev pub u8 : List ℕ → ℕ → ℕ
u8 bs o = get_or bs o 0

abbrev pub u16 : List ℕ → ℕ → ℕ
u16 bs o = u8 bs o + 2 ^ 8 * u8 bs (o + 1)

abbrev pub u32 : List ℕ → ℕ → ℕ
u32 bs o = u16 bs o + 2 ^ 16 * u16 bs (o + 2)

-- `n` consecutive fields
abbrev pub u8s : List ℕ → ℕ → ℕ → List ℕ
u8s bs o zero = []
u8s bs o (suc n) = u8 bs o ∷ u8s bs (o + 1) n

abbrev pub u32s : List ℕ → ℕ → ℕ → List ℕ
u32s bs o zero = []
u32s bs o (suc n) = u32 bs o ∷ u32s bs (o + 4) n
