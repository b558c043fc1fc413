-- ===== src/Tests/Texts.antt =====
-- The distance of `sl` and `ls`, whose characters are numbers here.
use ext2p.Prelude.{◌≤◌, [], ◌∷◌}
use ext2p.Util.Levenshtein.{
  Edits, none_left, replace, util_levenshtein, levenshtein, util_levenshtein_lem,
}

util_levenshtein_lem_example : Edits (115 ∷ (108 ∷ [])) (108 ∷ (115 ∷ [])) 2 2 2 × (2 ≤ 2)
unfolding util_levenshtein levenshtein
util_levenshtein_lem_example =
    util_levenshtein_lem (115 ∷ (108 ∷ [])) (108 ∷ (115 ∷ [])) 2 (replace (replace none_left))
