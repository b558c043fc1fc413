-- ===== src/Shell/Loop/Lines.antt =====
-- A round of `shellRun` on a line that the user types.
use ext2p.Prelude.{
  ℕ, zero, suc, ◌<◌, ◌≡◌, refl, arith, List, [], ◌∷◌, ◌++◌, length, ap, ◌∙◌, true, ==-ne, if_true,
}
use ext2p.Machine.{ok}
use ext2p.Output.{Out}
use ext2p.Shell.{Shell, Host}
use ext2p.Shell.Commands.{newline, run_line}
use ext2p.Shell.Commands.Typed.{InLine, typed, entered, IsTyped, AllTyped, typed-InLine}
use ext2p.Shell.Loop.{fgets, prompt, shell_loop, after_out}

-- `fgets` reads a line that fits, with its newline.
fgets-InLine :
    (n : ℕ) (cs rest : List ℕ)
    → InLine cs
    → length cs < n
    → fgets n (cs ++ (newline ∷ rest)) ≡ (cs ++ (newline ∷ []), rest)
unfolding fgets
fgets-InLine zero cs rest h fits = absurd (omega arith)
fgets-InLine (suc n) [] rest h fits = refl
fgets-InLine (suc n) (c ∷ cs) rest h fits =
    rw (==-ne h.0)
      (ap (λ (r : List ℕ × List ℕ). (c ∷ r.0, r.1)) (fgets-InLine n cs rest h.2 (omega arith)))

-- a round takes the line and goes on behind it
round-InLine :
    (host : Host) (n c : ℕ) (cs rest : List ℕ) (sh sh' : Shell) (out : Out)
    → sh.run ≡ true
    → InLine (c ∷ cs)
    → length (c ∷ cs) < 1023
    → run_line host ((c ∷ cs) ++ (newline ∷ [])) sh ≡ ok (out, sh')
    → shell_loop host (suc n) ((c ∷ cs) ++ (newline ∷ rest)) sh
      ≡ after_out (prompt sh ++ out) (shell_loop host n rest sh')
unfolding shell_loop
round-InLine host n c cs rest sh sh' out running h fits run =
    if_true _ running ∙ rw (fgets-InLine 1023 (c ∷ cs) rest h fits, run) refl

pub shell_loop-entered :
    (host : Host) (n : ℕ) (w : List ℕ) (args : List (List ℕ)) (rest : List ℕ) (sh sh' : Shell)
    (out : Out)
    → sh.run ≡ true
    → IsTyped w
    → AllTyped args
    → length (typed w args) < 1023
    → run_line host (entered w args []) sh ≡ ok (out, sh')
    → shell_loop host (suc n) (entered w args rest) sh
      ≡ after_out (prompt sh ++ out) (shell_loop host n rest sh')
shell_loop-entered host n [] args rest sh sh' out running word words fits run = absurd word
shell_loop-entered host n (c ∷ w) args rest sh sh' out running word words fits run =
    round-InLine host n c (typed w args) rest sh sh' out running
      (typed-InLine (c ∷ w) args word words) fits run
