-- ===== src/Output.antt =====
-- What the program prints, piece by piece: the texts of its formats, and the values that they place.
use Prim.Native.String.{String}
use ext2p.Machine.{Run, ok, fatal, fault, out_of_fuel}
use ext2p.Prelude.{Bool, true, false, ℕ, List, [], ◌∷◌, ◌++◌, bit_and, ◌==◌, if◌then◌else◌}

-- What is printed, in the order of the calls. `dec` is `%u`, `sdec w bits` the `%d` of the signed number
-- that the `bits` bits of `w` stand for, `hex2` is `%02x`, `hex4` is `%04X`, `hex` is `%x`, `str` is bytes,
-- by `%s` or one by one, `date` a time that `utilFmtTime` has the host format, `padded w` a piece that
-- spaces fill up to the width `w` on its right, and `sized` is `%lu%s`. `err` is a piece that goes to
-- `stderr`, and all the others go to `stdout`.
pub data Piece : Type 0 where
  lit : String → Piece
  dec : ℕ → Piece
  sdec : (w bits : ℕ) → Piece
  hex : ℕ → Piece
  hex2 : ℕ → Piece
  hex4 : ℕ → Piece
  str : List ℕ → Piece
  date : ℕ → Piece
  padded : (width : ℕ) → Piece → Piece
  sized : ℕ → (suffix : String) → Piece
  err : Piece → Piece

abbrev pub Out : Type 0
Out = List Piece

-- a line that ends with a value, and one without
abbrev pub row : String → Piece → Out
row text p = lit text ∷ p ∷ lit "\n" ∷ []

abbrev pub say : String → Out
say text = lit text ∷ lit "\n" ∷ []

-- YESNO of a mask
abbrev pub yes_no : (word mask : ℕ) → Piece
yes_no word mask = if bit_and word mask == 0 then lit "no" else lit "yes"

-- what a call prints that returns
abbrev pub printed : Run Out → Out
printed (ok out) = out
printed fatal = []
printed fault = []
printed out_of_fuel = []

abbrev pub lines : List Out → Out
lines [] = []
lines (line ∷ rest) = line ++ lines rest

-- a name of the image as a C string
abbrev pub c_str : List ℕ → List ℕ
c_str [] = []
c_str (c ∷ cs) = if c == 0 then [] else c ∷ c_str cs

-- a field of characters that ends with a NUL
abbrev pub terminated : List ℕ → Bool
terminated [] = false
terminated (c ∷ cs) = if c == 0 then true else terminated cs

-- `%s` of a field, or `N/A` for an empty one; one without a NUL is read beyond its end
abbrev pub text_field : List ℕ → Run Piece
text_field [] = fault
text_field (c ∷ cs) =
    if c == 0
    then ok (lit "N/A")
    else if terminated (c ∷ cs)
    then ok (str (c_str (c ∷ cs)))
    else fault

-- WARNING_MSG, in front of a warning
abbrev pub warning : Piece
warning = lit "\u{1b}[33mwarning\u{1b}[0m: "

-- ERR_MSG, in front of an error
abbrev pub error : Piece
error = lit "\u{1b}[31merror\u{1b}[0m: "

abbrev pub to_stderr : Out → Out
to_stderr [] = []
to_stderr (p ∷ ps) = err p ∷ to_stderr ps

-- ERR of a build with NDEBUG, in which LOC is empty
abbrev pub report : Out → Out
report ps = to_stderr (error ∷ ps)
