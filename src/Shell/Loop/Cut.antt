-- ===== src/Shell/Loop/Cut.antt =====
-- The main loop on lines: what the calls of `fgets` read of the input.
use mathlib.Core.List.{append_assoc, append-nil}
use ext2p.Prelude.{
  length-append, ℕ, zero, suc, ◌+◌, ◌<◌, ◌≤◌, ◌≡◌, ◌≢◌, ◌⊎◌, inl, inr, refl, arith, List, [], ◌∷◌,
  ◌++◌, length, ap, ◌∙◌, sym, ==-ne, ==_iff, if◌then◌else◌, Bool-cases, ◌==◌,
}
use ext2p.Machine.{Run, ok, and_then}
use ext2p.Output.{Out}
use ext2p.Shell.{Shell, Host}
use ext2p.Shell.Commands.{newline, run_line}
use ext2p.Shell.Loop.Ended.{if_cong, and_then_cong}
use ext2p.Shell.Loop.{fgets, prompt, shell_loop, after_out}

abbrev pub joined : List (List ℕ) → List ℕ
joined [] = []
joined (l ∷ ls) = l ++ joined ls

-- a text without a newline
abbrev pub IsOpen : List ℕ → Type 0
IsOpen [] = Unit
IsOpen (c ∷ cs) = (c ≢ newline) × IsOpen cs

-- What one call of `fgets` takes of an input that goes on with `ls`: a text without a newline in front
-- of one, 1023 characters without a newline, or fewer at the end of the input.
abbrev pub IsTaken : List ℕ → (ls : List (List ℕ)) → Type 0
IsTaken l ls =
    ((cs : List ℕ) × (l ≡ cs ++ (newline ∷ [])) × IsOpen cs × (length cs < 1023))
    ⊎ ((IsOpen l × (length l ≡ 1023)) ⊎ (IsOpen l × (0 < length l) × (length l < 1023) × (ls ≡ [])))

-- an input cut into what the calls take
abbrev pub IsCut : List (List ℕ) → Type 0
IsCut [] = Unit
IsCut (l ∷ ls) = IsTaken l ls × IsCut ls

-- The lines in order, each behind a prompt while the shell runs. The end of the lines ends it too.
abbrev pub run_lines : Host → List (List ℕ) → Shell → Run (Out × Shell)
run_lines host [] sh = ok (if sh.run then prompt sh else [], sh)
run_lines host (l ∷ ls) sh =
    if sh.run
    then (and_then (run_line host l sh)
        λ (out, sh'). after_out (prompt sh ++ out) (run_lines host ls sh'))
    else ok ([], sh)

fgets-closed :
    (cs rest : List ℕ)
    → IsOpen cs
    → (n : ℕ) → length cs < n
    → fgets n (cs ++ (newline ∷ rest)) ≡ (cs ++ (newline ∷ []), rest)
unfolding fgets
fgets-closed cs rest h zero fits = absurd (omega arith)
fgets-closed [] rest h (suc n) fits = refl
fgets-closed (c ∷ cs) rest h (suc n) fits =
    rw (==-ne h.0)
      (ap (λ (r : List ℕ × List ℕ). (c ∷ r.0, r.1)) (fgets-closed cs rest h.1 n (omega arith)))

fgets-full :
    (cs rest : List ℕ) → IsOpen cs → (n : ℕ) → length cs ≡ n → fgets n (cs ++ rest) ≡ (cs, rest)
unfolding fgets
fgets-full [] rest h zero full = refl
fgets-full [] rest h (suc n) full = absurd (omega arith)
fgets-full (c ∷ cs) rest h zero full = absurd (omega arith)
fgets-full (c ∷ cs) rest h (suc n) full =
    rw (==-ne h.0)
      (ap (λ (r : List ℕ × List ℕ). (c ∷ r.0, r.1)) (fgets-full cs rest h.1 n (omega arith)))

fgets-last : (cs : List ℕ) → IsOpen cs → (n : ℕ) → length cs < n → fgets n cs ≡ (cs, [])
unfolding fgets
fgets-last cs h zero fits = absurd (omega arith)
fgets-last [] h (suc n) fits = refl
fgets-last (c ∷ cs) h (suc n) fits =
    rw (==-ne h.0)
      (ap (λ (r : List ℕ × List ℕ). (c ∷ r.0, r.1)) (fgets-last cs h.1 n (omega arith)))

-- a call takes the first piece
fgets-IsTaken :
    (l : List ℕ) (ls : List (List ℕ)) → IsTaken l ls → fgets 1023 (l ++ joined ls) ≡ (l, joined ls)
fgets-IsTaken l ls (inl (cs, same, h, fits)) = rw same (
    ap (fgets 1023) (append_assoc cs (newline ∷ []) (joined ls))
    ∙ fgets-closed cs (joined ls) h 1023 fits)
fgets-IsTaken l ls (inr (inl (h, full))) = fgets-full l (joined ls) h 1023 full
fgets-IsTaken l ls (inr (inr (h, some_char, fits, last))) =
    rw last (ap (fgets 1023) (append-nil l) ∙ fgets-last l h 1023 fits)

not_empty : {A : Type 0} (ls : List (List ℕ)) → IsTaken [] ls → A
not_empty ls (inl ([], same, h, fits)) = cc
not_empty ls (inl (c ∷ cs, same, h, fits)) = cc
not_empty ls (inr (inl (h, full))) = absurd (omega arith)
not_empty ls (inr (inr (h, some_char, fits, last))) = absurd (omega arith)

-- The main loop on lines that are typed one after the other, a newline behind 1022 characters at most, or
-- 1023 characters without one, or fewer at the end: with a unit of fuel for each line and one more, it
-- runs them in order, each behind a prompt and whole, from the state that the one before has left, until a
-- line stops the shell or there are no more.
pub shell_loop-run_lines :
    (host : Host) (n : ℕ) (ls : List (List ℕ)) (sh : Shell)
    → IsCut ls
    → length ls < n
    → shell_loop host n (joined ls) sh ≡ run_lines host ls sh
unfolding shell_loop
shell_loop-run_lines host zero ls sh cut enough = absurd (omega arith)
shell_loop-run_lines host (suc n) [] sh cut enough = refl
shell_loop-run_lines host (suc n) ([] ∷ ls) sh cut enough = not_empty ls cut.0
shell_loop-run_lines host (suc n) ((c ∷ l) ∷ ls) sh cut enough = if_cong sh.run _ (
    rw (fgets-IsTaken (c ∷ l) ls cut.0) (
      and_then_cong (run_line host (c ∷ l) sh) _ _ λ (out, sh').
        ap (after_out (prompt sh ++ out)) (shell_loop-run_lines host n ls sh' cut.1 (omega arith))))

-- what a call of `fgets` takes of any input
abbrev Taken : ℕ → List ℕ → List ℕ → Type 0
Taken n l rest =
    ((cs : List ℕ) × (l ≡ cs ++ (newline ∷ [])) × IsOpen cs × (length cs < n))
    ⊎ ((IsOpen l × (length l ≡ n)) ⊎ (IsOpen l × (length l < n) × (rest ≡ [])))

Taken-cons : (c n : ℕ) (l rest : List ℕ) → c ≢ newline → Taken n l rest → Taken (suc n) (c ∷ l) rest
Taken-cons c n l rest other (inl (cs, same, h, fits)) =
    inl (c ∷ cs, ap (λ xs. c ∷ xs) same, (other, h), omega arith)
Taken-cons c n l rest other (inr (inl (h, full))) = inr (inl ((other, h), omega arith))
Taken-cons c n l rest other (inr (inr (h, fits, end))) = inr (inr ((other, h), omega arith, end))

fgets-Taken :
    (n : ℕ) (input : List ℕ)
    → ((fgets n input).0 ++ (fgets n input).1 ≡ input) × Taken n (fgets n input).0 (fgets n input).1
unfolding fgets
fgets-Taken zero input = (refl, inr (inl (tt, refl)))
fgets-Taken (suc n) [] = (refl, inr (inr (tt, omega arith, refl)))
fgets-Taken (suc n) (c ∷ input) = elim (Bool-cases (c == newline)) [
  | inl end ↦ rw end (refl, inl ([], ap (λ x. x ∷ []) ((==_iff c newline).0 end), tt, omega arith))
  | inr more ↦
      let (whole, taken) = fgets-Taken n input in
      let other : c ≢ newline = λ same. ground arith in
      rw more (ap (λ xs. c ∷ xs) whole, Taken-cons c n _ _ other taken)
]

-- a call takes a character of an input that has one
Taken-some : (l rest : List ℕ) → 0 < length l + length rest → Taken 1023 l rest → 0 < length l
Taken-some l rest some_char (inl (cs, same, h, fits)) =
    omega (arith, ap length same, length-append cs (newline ∷ []))
Taken-some l rest some_char (inr (inl (h, full))) = omega arith
Taken-some l rest some_char (inr (inr (h, fits, end))) = omega (arith, ap length end)

no_lines : (ls : List (List ℕ)) → length ls ≤ 0 → ls ≡ []
no_lines [] h = refl
no_lines (l ∷ ls) h = absurd (omega arith)

Taken-IsTaken :
    (l rest : List ℕ) (ls : List (List ℕ))
    → 0 < length l
    → length ls ≤ length rest
    → Taken 1023 l rest
    → IsTaken l ls
Taken-IsTaken l rest ls some_char few (inl line) = inl line
Taken-IsTaken l rest ls some_char few (inr (inl long)) = inr (inl long)
Taken-IsTaken l rest ls some_char few (inr (inr (h, fits, end))) =
    inr (inr (h, some_char, fits, no_lines ls (omega (arith, ap length end))))

-- every input is cut in some way
pieces :
    (m : ℕ) (input : List ℕ)
    → length input ≤ m
    → (ls : List (List ℕ)) × (joined ls ≡ input) × IsCut ls × (length ls ≤ length input)
pieces m [] small = ([], refl, tt, omega arith)
pieces zero (c ∷ input) small = absurd (omega arith)
pieces (suc m) (c ∷ input) small =
    let (whole, taken) = fgets-Taken 1023 (c ∷ input) in
    let l = (fgets 1023 (c ∷ input)).0 in
    let rest = (fgets 1023 (c ∷ input)).1 in
    let both : length l + length rest ≡ suc (length input) =
      sym (length-append l rest) ∙ ap length whole in
    let some_char : 0 < length l = Taken-some l rest (omega (arith, both)) taken in
    let (ls, same, cut, few) = pieces m rest (omega (arith, both, some_char)) in
    (
      l ∷ ls,
      ap (λ xs. l ++ xs) same ∙ whole,
      (Taken-IsTaken l rest ls some_char few taken, cut),
      omega (arith, both, few, some_char),
    )

-- The main loop ends with what the user types. Every input is cut into lines as `fgets` takes them, a
-- newline behind 1022 characters at most, or 1023 characters without one, or fewer at the end, and a loop
-- with a unit of fuel for each character and one more runs these lines in order, each behind a
-- prompt, until a line stops the shell or the input ends: the loop itself never runs out.
pub shell_loop-IsCut :
    (host : Host) (n : ℕ) (input : List ℕ) (sh : Shell)
    → length input < n
    → (ls : List (List ℕ)) × (joined ls ≡ input)
      × IsCut ls
      × (shell_loop host n input sh ≡ run_lines host ls sh)
shell_loop-IsCut host n input sh enough =
    let (ls, same, cut, few) = pieces (length input) input (omega arith) in
    (
      ls,
      same,
      cut,
      ap (λ xs. shell_loop host n xs sh) (sym same)
          ∙ shell_loop-run_lines host n ls sh cut (omega (arith, few)),
    )
