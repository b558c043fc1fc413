-- ===== src/Shell/Loop/Ended.antt =====
-- How the main loop ends.
use ext2p.Prelude.{
  if_true, ℕ, zero, suc, ◌<◌, ◌≤◌, ◌≡◌, refl, arith, List, [], ◌∷◌, ◌++◌, length, ◌==◌,
  if◌then◌else◌, Bool, true, false, Bool-cases, inl, inr, ap, ◌∙◌,
}
use ext2p.Machine.{Run, ok, fatal, fault, out_of_fuel, and_then}
use ext2p.Output.{Out}
use ext2p.Shell.{Shell, Host, shell_exit}
use ext2p.Shell.Args.{get_args}
use ext2p.Shell.Commands.{run_line, newline, check_commands, dispatch, call, shell_commands}
use ext2p.Shell.Loop.{fgets, prompt, shell_loop, after_out}

-- a character is read of an input that has one
fgets_shorter : (n : ℕ) (input : List ℕ) → length (fgets n input).1 ≤ length input
unfolding fgets
fgets_shorter zero input = omega arith
fgets_shorter (suc n) [] = omega arith
fgets_shorter (suc n) (c ∷ input) = elim (Bool-cases (c == newline)) [
  | inl end ↦ rw end (omega arith)
  | inr more ↦ rw more (omega (arith, fgets_shorter n input))
]

fgets_rest : (n c : ℕ) (input : List ℕ) → length (fgets (suc n) (c ∷ input)).1 ≤ length input
unfolding fgets
fgets_rest n c input = elim (Bool-cases (c == newline)) [
  | inl end ↦ rw end (omega arith)
  | inr more ↦ rw more (fgets_shorter n input)
]

pub and_then_cong :
    {A B : Type 0} (r : Run A) (k k' : A → Run B)
    → ((a : A) → k a ≡ k' a)
    → and_then r k ≡ and_then r k'
and_then_cong (ok a) k k' same = same a
and_then_cong fatal k k' same = refl
and_then_cong fault k k' same = refl
and_then_cong out_of_fuel k k' same = refl

pub if_cong :
    {A : Type 0} (b : Bool) {x y : A} (z : A) → x ≡ y → (if b then x else z) ≡ (if b then y else z)
if_cong true z same = same
if_cong false z same = refl

-- However many rounds are allowed beyond one for each character, the result is the same.
pub shell_loop_fuel :
    (host : Host) (n m : ℕ) (input : List ℕ) (sh : Shell)
    → length input < n
    → length input < m
    → shell_loop host n input sh ≡ shell_loop host m input sh
unfolding shell_loop
shell_loop_fuel host zero m input sh h k = absurd (omega arith)
shell_loop_fuel host (suc n) zero input sh h k = absurd (omega arith)
shell_loop_fuel host (suc n) (suc m) [] sh h k = refl
shell_loop_fuel host (suc n) (suc m) (c ∷ input) sh h k = if_cong sh.run _ (
    and_then_cong (run_line host (fgets 1023 (c ∷ input)).0 sh) _ _ λ a.
      let shorter = fgets_rest 1022 c input in
      ap (after_out (prompt sh ++ a.0)) (
        shell_loop_fuel host n m (fgets 1023 (c ∷ input)).1 a.1 (omega (arith, shorter))
          (omega (arith, shorter))))

abbrev pub exit_line : List ℕ
exit_line = 101 ∷ 120 ∷ 105 ∷ 116 ∷ newline ∷ []

exit_read : (rest : List ℕ) → fgets 1023 (exit_line ++ rest) ≡ (exit_line, rest)
unfolding fgets
exit_read rest = refl

exit_ran :
    (host : Host) (sh : Shell)
    → run_line host exit_line sh ≡ ok ([], record sh { run = false; err = 0 })
unfolding run_line check_commands dispatch call shell_commands shell_exit get_args
exit_ran host sh = refl

stopped :
    (host : Host) (n : ℕ) (rest : List ℕ) (sh : Shell)
    → shell_loop host (suc n) rest (record sh { run = false; err = 0 })
      ≡ ok ([], record sh { run = false; err = 0 })
unfolding shell_loop
stopped host n [] sh = refl
stopped host n (c ∷ rest) sh = refl

-- `exit` stops the loop in any state: it has printed its prompt, the status is the one of a success,
-- the shell is otherwise what it was, and the lines behind it are not run.
pub shell_loop-exit :
    (host : Host) (n : ℕ) (rest : List ℕ) (sh : Shell)
    → sh.run ≡ true
    → shell_loop host (suc (suc n)) (exit_line ++ rest) sh
      ≡ ok ((prompt sh ++ []) ++ [], record sh { run = false; err = 0 })
unfolding shell_loop
shell_loop-exit host n rest sh running =
    if_true _ running
    ∙ ap (λ (line : List ℕ × List ℕ). after line (run_line host line.0 sh)) (exit_read rest)
    ∙ ap (after (exit_line, rest)) (exit_ran host sh)
    ∙ ap (after_out (prompt sh ++ [])) (stopped host n rest sh)
  where
    after : List ℕ × List ℕ → Run (Out × Shell) → Run (Out × Shell)
    after line r =
        and_then r λ (out, sh'). after_out (prompt sh ++ out) (shell_loop host (suc n) line.1 sh')
