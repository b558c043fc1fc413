-- ===== src/Util/Levenshtein.antt =====
-- utilLevenshtein and _levenshtein of src/util.c: the distance of two texts. A text is the list of
-- its characters without the NUL.
use mathlib.Core.Path.{subst}
use native.Mathlib.Decide.{ℕ_discrete}
use ext2p.Prelude.{
  ℕ, zero, suc, ◌+◌, ◌≤◌, ◌≡◌, ◌≢◌, refl, arith, List, [], ◌∷◌, Bool, true, false, ltb, Bool-cases,
  ◌==◌, ◌&&◌, if◌then◌else◌, length, get_or, ◌⊎◌, inl, inr, ==_iff, ==-ne, ap, sym, ◌∙◌,
}

-- `strcmp(A, B) == 0`
abbrev pub str_eq : List ℕ → List ℕ → Bool
str_eq [] [] = true
str_eq [] (y ∷ ys) = false
str_eq (x ∷ xs) [] = false
str_eq (x ∷ xs) (y ∷ ys) = (x == y) && str_eq xs ys

-- `if( a > b ) a = b; if( a > c ) a = c;`
abbrev smallest : ℕ → ℕ → ℕ → ℕ
smallest a b c = let a' = if ltb b a then b else a in if ltb c a' then c else a'

-- The texts stay whole in the calls, and the sizes say how much of them is compared. An `int` is
-- wide enough for the shell's lines of 1024 bytes.
unfoldable pub levenshtein : (A B : List ℕ) (asz bsz : ℕ) → ℕ
levenshtein A B zero bsz = if str_eq A B then 0 else bsz
levenshtein A B (suc asz) zero = if str_eq A B then 0 else suc asz
levenshtein A B (suc asz) (suc bsz) = elim (str_eq A B) [
  | true ↦ 0
  | false ↦ elim (get_or A asz 0 == get_or B bsz 0) [
    | true ↦ levenshtein A B asz bsz
    | false ↦
        smallest (levenshtein A B asz (suc bsz)) (levenshtein A B (suc asz) bsz)
          (levenshtein A B asz bsz)
        + 1
  ]
]

unfoldable pub util_levenshtein : List ℕ → List ℕ → ℕ
util_levenshtein A B = levenshtein A B (length A) (length B)

-- The first `m` characters of one text become the first `n` of the other in `k` edits.
pub data Edits (A B : List ℕ) : ℕ → ℕ → ℕ → Type 0 where
  none_left : Edits A B 0 0 0
  keep : {m n k : ℕ} → get_or A m 0 ≡ get_or B n 0 → Edits A B m n k → Edits A B (suc m) (suc n) k
  replace : {m n k : ℕ} → Edits A B m n k → Edits A B (suc m) (suc n) (suc k)
  delete : {m n k : ℕ} → Edits A B m n k → Edits A B (suc m) n (suc k)
  insert : {m n k : ℕ} → Edits A B m n k → Edits A B m (suc n) (suc k)

-- some edits that are no more than `k`
abbrev Within : (A B : List ℕ) → ℕ → ℕ → ℕ → Type 0
Within A B m n k = (k' : ℕ) × Edits A B m n k' × (k' ≤ k)

module _ {A B : List ℕ} where
  Edits-all_deleted : (m : ℕ) → Edits A B m 0 m
  Edits-all_deleted zero = none_left
  Edits-all_deleted (suc m) = delete (Edits-all_deleted m)

  Edits-all_inserted : (n : ℕ) → Edits A B 0 n n
  Edits-all_inserted zero = none_left
  Edits-all_inserted (suc n) = insert (Edits-all_inserted n)

  Edits-bounds : {m n k : ℕ} → Edits A B m n k → (m ≤ k + n) × (n ≤ k + m)
  Edits-bounds none_left = (omega arith, omega arith)
  Edits-bounds (keep e h) = let r = Edits-bounds h in (omega (arith, r), omega (arith, r))
  Edits-bounds (replace h) = let r = Edits-bounds h in (omega (arith, r), omega (arith, r))
  Edits-bounds (delete h) = let r = Edits-bounds h in (omega (arith, r), omega (arith, r))
  Edits-bounds (insert h) = let r = Edits-bounds h in (omega (arith, r), omega (arith, r))

  Within-delete : {m n k : ℕ} → Within A B m n k → Within A B (suc m) n (suc k)
  Within-delete (k', h, le) = (suc k', delete h, omega arith)

  Within-insert : {m n k : ℕ} → Within A B m n k → Within A B m (suc n) (suc k)
  Within-insert (k', h, le) = (suc k', insert h, omega arith)

  Within-more : {m n k : ℕ} → Within A B m n k → Within A B m n (suc k)
  Within-more (k', h, le) = (k', h, omega arith)

  -- Without the last character of one text, one edit more is enough.
  Edits-shorten_right : {m n k : ℕ} → Edits A B m (suc n) k → Within A B m n (suc k)
  Edits-shorten_right (keep e h) = (_, delete h, omega arith)
  Edits-shorten_right (replace h) = (_, delete h, omega arith)
  Edits-shorten_right (delete h) = Within-delete (Edits-shorten_right h)
  Edits-shorten_right (insert h) = (_, h, omega arith)

  Edits-shorten_left : {m n k : ℕ} → Edits A B (suc m) n k → Within A B m n (suc k)
  Edits-shorten_left (keep e h) = (_, insert h, omega arith)
  Edits-shorten_left (replace h) = (_, insert h, omega arith)
  Edits-shorten_left (delete h) = (_, h, omega arith)
  Edits-shorten_left (insert h) = Within-insert (Edits-shorten_left h)

  -- Without the last character of both, no edit more is needed.
  Edits-shorten_both : {m n k : ℕ} → Edits A B (suc m) (suc n) k → Within A B m n k
  Edits-shorten_both (keep e h) = (_, h, omega arith)
  Edits-shorten_both (replace h) = (_, h, omega arith)
  Edits-shorten_both (delete h) = Edits-shorten_right h
  Edits-shorten_both (insert h) = Edits-shorten_left h

str_eq-≡ : (xs ys : List ℕ) → str_eq xs ys ≡ true → xs ≡ ys
str_eq-≡ [] [] h = refl
str_eq-≡ [] (y ∷ ys) h = cc
str_eq-≡ (x ∷ xs) [] h = cc
str_eq-≡ (x ∷ xs) (y ∷ ys) h = elim (ℕ_discrete x y) [
  | no ne ↦ absurd (true≢false (sym h ∙ rw (==-ne ne) refl))
  | yes e ↦
      let rest : str_eq xs ys ≡ true = sym (rw ((==_iff x y).1 e) refl) ∙ h in
      ap (λ z. z ∷ xs) e ∙ ap (λ zs. y ∷ zs) (str_eq-≡ xs ys rest)
]
  where
    true≢false : true ≡ false → ⊥
    true≢false k = cc

Edits-same : (A : List ℕ) (m : ℕ) → Edits A A m m 0
Edits-same A zero = none_left
Edits-same A (suc m) = keep refl (Edits-same A m)

smallest-least : (a b c : ℕ) → (smallest a b c ≤ a) × (smallest a b c ≤ b) × (smallest a b c ≤ c)
smallest-least a b c = (ground arith, ground arith, ground arith)

smallest-cases : (a b c : ℕ) → (smallest a b c ≡ a) ⊎ ((smallest a b c ≡ b) ⊎ (smallest a b c ≡ c))
smallest-cases a b c = ground arith

least_of_last :
    {A B : List ℕ} {m n k : ℕ} (a b c : ℕ)
    → get_or A m 0 ≢ get_or B n 0
    → ((j : ℕ) → Edits A B m (suc n) j → a ≤ j)
    → ((j : ℕ) → Edits A B (suc m) n j → b ≤ j)
    → ((j : ℕ) → Edits A B m n j → c ≤ j)
    → Edits A B (suc m) (suc n) k
    → suc (smallest a b c) ≤ k
least_of_last a b c ne la lb lc (keep e h) = absurd (ne e)
least_of_last a b c ne la lb lc (replace h) = omega (arith, smallest-least a b c, lc _ h)
least_of_last a b c ne la lb lc (delete h) = omega (arith, smallest-least a b c, la _ h)
least_of_last a b c ne la lb lc (insert h) = omega (arith, smallest-least a b c, lb _ h)

module _ (A B : List ℕ) (differ : str_eq A B ≡ false) where
  last_same :
      (m n : ℕ)
      → get_or A m 0 ≡ get_or B n 0
      → levenshtein A B (suc m) (suc n) ≡ levenshtein A B m n
  unfolding levenshtein
  last_same m n e = rw (levenshtein, differ, (==_iff (get_or A m 0) (get_or B n 0)).1 e) refl

  last_differ :
      (m n : ℕ)
      → get_or A m 0 ≢ get_or B n 0
      → levenshtein A B (suc m) (suc n)
        ≡ suc
            (smallest (levenshtein A B m (suc n)) (levenshtein A B (suc m) n) (levenshtein A B m n))
  unfolding levenshtein
  last_differ m n ne = rw (levenshtein, differ, ==-ne ne) (omega arith)

  Edits-smallest :
      (m n a b c : ℕ)
      → Edits A B m (suc n) a
      → Edits A B (suc m) n b
      → Edits A B m n c
      → Edits A B (suc m) (suc n) (suc (smallest a b c))
  Edits-smallest m n a b c ha hb hc = elim (smallest-cases a b c) [
    | inl e ↦ rw e (delete ha)
    | inr r ↦ elim r [ inl e ↦ rw e (insert hb) | inr e ↦ rw e (replace hc) ]
  ]

  levenshtein-Edits : (m n : ℕ) → Edits A B m n (levenshtein A B m n)
  unfolding levenshtein
  levenshtein-Edits zero n = rw (levenshtein, differ) (Edits-all_inserted n)
  levenshtein-Edits (suc m) zero = rw (levenshtein, differ) (Edits-all_deleted (suc m))
  levenshtein-Edits (suc m) (suc n) = elim (ℕ_discrete (get_or A m 0) (get_or B n 0)) [
    | yes e ↦ rw (last_same m n e) (keep e (levenshtein-Edits m n))
    | no ne ↦ rw (last_differ m n ne) (
        Edits-smallest m n _ _ _ (levenshtein-Edits m (suc n)) (levenshtein-Edits (suc m) n)
          (levenshtein-Edits m n))
  ]

  levenshtein-least : (m n k : ℕ) → Edits A B m n k → levenshtein A B m n ≤ k
  unfolding levenshtein
  levenshtein-least zero n k h = rw (levenshtein, differ) (omega (arith, Edits-bounds h))
  levenshtein-least (suc m) zero k h = rw (levenshtein, differ) (omega (arith, Edits-bounds h))
  levenshtein-least (suc m) (suc n) k h = elim (ℕ_discrete (get_or A m 0) (get_or B n 0)) [
    | yes e ↦
        let (k', h', le) = Edits-shorten_both h in
        rw (last_same m n e) (omega (arith, levenshtein-least m n k' h'))
    | no ne ↦ rw (last_differ m n ne) (
        least_of_last _ _ _ ne (levenshtein-least m (suc n)) (levenshtein-least (suc m) n)
          (levenshtein-least m n) h)
  ]

str_eq-same : (A : List ℕ) → str_eq A A ≡ true
str_eq-same [] = refl
str_eq-same (x ∷ xs) = rw ((==_iff x x).1 refl) (str_eq-same xs)

levenshtein-same : (A : List ℕ) (m n : ℕ) → levenshtein A A m n ≡ 0
unfolding levenshtein
levenshtein-same A zero n = rw (levenshtein, str_eq-same A) refl
levenshtein-same A (suc m) zero = rw (levenshtein, str_eq-same A) refl
levenshtein-same A (suc m) (suc n) = rw (levenshtein, str_eq-same A) refl

-- `utilLevenshtein` is the edit distance: the first text becomes the second in so many edits, each of
-- which replaces, deletes or inserts a character, and `k` edits that do it are no fewer.
pub util_levenshtein_lem :
    (A B : List ℕ) (k : ℕ)
    → Edits A B (length A) (length B) k
    → Edits A B (length A) (length B) (util_levenshtein A B) × (util_levenshtein A B ≤ k)
unfolding util_levenshtein
util_levenshtein_lem A B k h = elim (Bool-cases (str_eq A B)) [
  | inl same ↦
      subst
        (λ (X : List ℕ).
          Edits A X (length A) (length X) (levenshtein A X (length A) (length X))
          × (levenshtein A X (length A) (length X) ≤ k))
        (str_eq-≡ A B same)
        (rw (levenshtein-same A (length A) (length A)) (Edits-same A (length A), omega arith))
  | inr differ ↦ (
    levenshtein-Edits A B differ (length A) (length B),
    levenshtein-least A B differ (length A) (length B) k h,
  )
]
