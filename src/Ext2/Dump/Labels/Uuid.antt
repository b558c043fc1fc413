-- ===== src/Ext2/Dump/Labels/Uuid.antt =====
-- The digits of a UUID.
use ext2p.Prelude.{
  ℕ, ◌+◌, ◌*◌, ◌-◌, ◌/◌, ◌%◌, ◌<◌, ◌≡◌, refl, arith, List, [], ◌∷◌, length, ltb, if◌then◌else◌,
}
use ext2p.Ext2.Dump.Labels.{sb_uuid_dump, hex_digit}

abbrev pub AllBytes : List ℕ → Type 0
AllBytes [] = Unit
AllBytes (b ∷ bs) = (b < 256) × AllBytes bs

abbrev digit_of : ℕ → ℕ
digit_of c = if ltb c 58 then c - 48 else c - 87

-- the bytes that a text of hexadecimal digits names
abbrev bytes_of_hex : List ℕ → List ℕ
bytes_of_hex [] = []
bytes_of_hex (c ∷ []) = []
bytes_of_hex (c ∷ (c' ∷ cs)) = (digit_of c * 16 + digit_of c') ∷ bytes_of_hex cs

digit_back : (d : ℕ) → d < 16 → digit_of (hex_digit d) ≡ d
digit_back d h = ground arith

byte_back :
    (b : ℕ) → b < 256 → digit_of (hex_digit (b / 16)) * 16 + digit_of (hex_digit (b % 16)) ≡ b
byte_back b h =
    rw (digit_back (b / 16) (omega arith), digit_back (b % 16) (omega arith)) (omega arith)

-- The text that is printed of a UUID has two digits for each byte, and reading them back gives the
-- UUID.
sb_uuid_dump-round_trip :
    (uuid : List ℕ)
    → AllBytes uuid
    → (bytes_of_hex (sb_uuid_dump uuid) ≡ uuid) × (length (sb_uuid_dump uuid) ≡ 2 * length uuid)
unfolding sb_uuid_dump
sb_uuid_dump-round_trip [] h = (refl, refl)
sb_uuid_dump-round_trip (b ∷ bs) h =
    let (back, size) = sb_uuid_dump-round_trip bs h.1 in
    (rw (byte_back b h.0, back) refl, omega (arith, size))
