-- ===== src/Shell/Args/Spread.antt =====
-- A line built of words, and that `_getArgs` finds them.
use ext2p.Prelude.{
  ℕ, zero, suc, ◌≤◌, ◌≡◌, ◌≢◌, refl, arith, List, [], ◌∷◌, ◌++◌, length, take, replicate, ap, ◌∙◌,
  ==-ne,
}
use ext2p.Shell.Args.{space, put, scan, get_args}

abbrev pub NoSpace : List ℕ → Type 0
NoSpace [] = Unit
NoSpace (c ∷ cs) = (c ≢ space) × NoSpace cs

-- a first character and the others, none of them a space
abbrev pub IsWord : List ℕ → Type 0
IsWord [] = ⊥
IsWord (c ∷ cs) = NoSpace (c ∷ cs)

-- words, each behind one space more than its number, and spaces at the end
abbrev pub spread : List (ℕ × List ℕ) → ℕ → List ℕ
spread [] trail = replicate trail space
spread ((n, w) ∷ ws) trail = replicate (suc n) space ++ (w ++ spread ws trail)

abbrev pub words_of : List (ℕ × List ℕ) → List (List ℕ)
words_of [] = []
words_of ((n, w) ∷ ws) = w ∷ words_of ws

abbrev pub AllWords : List (ℕ × List ℕ) → Type 0
AllWords [] = Unit
AllWords ((n, w) ∷ ws) = IsWord w × AllWords ws

abbrev found : List ℕ → List (List ℕ)
found cs = put (scan cs).0 (scan cs).1

scan-word : (w cs : List ℕ) → NoSpace w → scan (w ++ cs) ≡ (w ++ (scan cs).0, (scan cs).1)
scan-word [] cs h = refl
scan-word (c ∷ w) cs h =
    rw (==-ne h.0) (ap (λ (r : List ℕ × List (List ℕ)). (c ∷ r.0, r.1)) (scan-word w cs h.1))

scan-spaces : (n : ℕ) (cs : List ℕ) → scan (replicate (suc n) space ++ cs) ≡ ([], found cs)
scan-spaces zero cs = refl
scan-spaces (suc n) cs = ap (λ (r : List ℕ × List (List ℕ)). ([], put r.0 r.1)) (scan-spaces n cs)

append-nil : (xs : List ℕ) → xs ++ [] ≡ xs
append-nil [] = refl
append-nil (x ∷ xs) = ap (λ ys. x ∷ ys) (append-nil xs)

put-word : (w : List ℕ) (ws : List (List ℕ)) → IsWord w → put w ws ≡ w ∷ ws
put-word [] ws h = absurd h
put-word (c ∷ w) ws h = refl

IsWord-NoSpace : (w : List ℕ) → IsWord w → NoSpace w
IsWord-NoSpace [] h = tt
IsWord-NoSpace (c ∷ w) h = h

scan-replicate : (n : ℕ) → scan (replicate n space) ≡ ([], [])
scan-replicate zero = refl
scan-replicate (suc n) = ap (λ (r : List ℕ × List (List ℕ)). ([], put r.0 r.1)) (scan-replicate n)

found-word :
    (w : List ℕ) (ws : List (ℕ × List ℕ)) (trail : ℕ)
    → IsWord w
    → scan (spread ws trail) ≡ ([], words_of ws)
    → found (w ++ spread ws trail) ≡ w ∷ words_of ws
found-word w ws trail h e =
    let k : scan (w ++ spread ws trail) ≡ (w ++ [], words_of ws) =
      scan-word w (spread ws trail) (IsWord-NoSpace w h)
      ∙ ap (λ (r : List ℕ × List (List ℕ)). (w ++ r.0, r.1)) e in
    ap (λ (r : List ℕ × List (List ℕ)). put r.0 r.1) k
    ∙ (ap (λ v. put v (words_of ws)) (append-nil w) ∙ put-word w (words_of ws) h)

scan-spread :
    (ws : List (ℕ × List ℕ)) (trail : ℕ) → AllWords ws → scan (spread ws trail) ≡ ([], words_of ws)
scan-spread [] trail h = scan-replicate trail
scan-spread ((n, w) ∷ ws) trail h =
    scan-spaces n (w ++ spread ws trail)
    ∙ ap (λ vs. ([], vs)) (found-word w ws trail h.0 (scan-spread ws trail h.1))

take-all : (n : ℕ) (xs : List (List ℕ)) → length xs ≤ n → take n xs ≡ xs
take-all zero [] h = refl
take-all zero (x ∷ xs) h = absurd (omega arith)
take-all (suc n) [] h = refl
take-all (suc n) (x ∷ xs) h = ap (λ ys. x ∷ ys) (take-all n xs (omega arith))

found-spaces : (n : ℕ) (cs : List ℕ) → found (replicate n space ++ cs) ≡ found cs
found-spaces zero cs = refl
found-spaces (suc n) cs = ap (λ (r : List ℕ × List (List ℕ)). put r.0 r.1) (scan-spaces n cs)

-- `_getArgs` finds the words of a line, 64 at most, however many spaces stand before, between and
-- behind them.
pub get_args-spread :
    (lead trail : ℕ) (w : List ℕ) (ws : List (ℕ × List ℕ))
    → IsWord w
    → AllWords ws
    → length (words_of ws) ≤ 63
    → get_args (replicate lead space ++ (w ++ spread ws trail)) ≡ w ∷ words_of ws
unfolding get_args
get_args-spread lead trail w ws is_word all few =
    let e : found (replicate lead space ++ (w ++ spread ws trail)) ≡ w ∷ words_of ws =
      found-spaces lead (w ++ spread ws trail)
      ∙ found-word w ws trail is_word (scan-spread ws trail all) in
    ap (λ vs. take 64 vs) e ∙ take-all 64 (w ∷ words_of ws) (omega arith)
