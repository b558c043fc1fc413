-- ===== src/Shell/Args.antt =====
-- The words of a line, as `_getArgs` of src/shell.c finds them with `strtok`.
pub mod Spread
use ext2p.Prelude.{ℕ, zero, suc, List, [], ◌∷◌, ◌==◌, if◌then◌else◌, take}

abbrev pub space : ℕ
space = 32

abbrev pub put : List ℕ → List (List ℕ) → List (List ℕ)
put [] ws = ws
put (c ∷ w) ws = (c ∷ w) ∷ ws

-- what a text starts with up to the first space, and the words behind that
abbrev pub scan : List ℕ → List ℕ × List (List ℕ)
scan [] = ([], [])
scan (c ∷ cs) = let r = scan cs in if c == space then ([], put r.0 r.1) else (c ∷ r.0, r.1)

unfoldable pub get_args : List ℕ → List (List ℕ)
get_args buf = let r = scan buf in take 64 (put r.0 r.1)
