-- ===== src/Shell/Commands/Typed.antt =====
-- A line that the user types: a command and its words, as a round of `shellRun` reads it.
use ext2p.Prelude.{
  ℕ, zero, suc, ◌≤◌, ◌≡◌, ◌≢◌, refl, arith, List, [], ◌∷◌, ◌++◌, length, ap, ◌∙◌, true, none, some,
  get_elem?, ==-ne,
}
use ext2p.Machine.{ok}
use ext2p.Output.{Out}
use ext2p.Shell.{Shell, Host}
use ext2p.Shell.Args.{space, get_args}
use ext2p.Shell.Args.Spread.{NoSpace, IsWord, spread, words_of, AllWords, get_args-spread}
use ext2p.Shell.Commands.{
  ShellCommand, shell_commands, lookup, dispatch, check_commands, full_argv, answer, newline,
  text_of, run_line,
}

-- no character is a space, a newline or a NUL
abbrev pub IsPlain : List ℕ → Type 0
IsPlain [] = Unit
IsPlain (c ∷ cs) = (c ≢ space) × (c ≢ newline) × (c ≢ 0) × IsPlain cs

-- one character at least, all of them plain
abbrev pub IsTyped : List ℕ → Type 0
IsTyped [] = ⊥
IsTyped (c ∷ cs) = IsPlain (c ∷ cs)

abbrev pub AllTyped : List (List ℕ) → Type 0
AllTyped [] = Unit
AllTyped (w ∷ ws) = IsTyped w × AllTyped ws

-- each word behind one space
abbrev pub spaced : List (List ℕ) → List (ℕ × List ℕ)
spaced [] = []
spaced (w ∷ ws) = (0, w) ∷ spaced ws

-- the line without its newline, and with it in front of what is typed next
abbrev pub typed : List ℕ → List (List ℕ) → List ℕ
typed w args = w ++ spread (spaced args) 0

abbrev pub entered : List ℕ → List (List ℕ) → (next : List ℕ) → List ℕ
entered w args next = typed w args ++ (newline ∷ next)

-- no newline and no NUL
abbrev pub InLine : List ℕ → Type 0
InLine [] = Unit
InLine (c ∷ cs) = (c ≢ newline) × (c ≢ 0) × InLine cs

text_of-InLine : (cs : List ℕ) → InLine cs → text_of (cs ++ (newline ∷ [])) ≡ cs
text_of-InLine [] h = refl
text_of-InLine (c ∷ cs) h = rw (==-ne h.0, ==-ne h.1) (ap (λ xs. c ∷ xs) (text_of-InLine cs h.2))

IsPlain-InLine : (w cs : List ℕ) → IsPlain w → InLine cs → InLine (w ++ cs)
IsPlain-InLine [] cs h k = k
IsPlain-InLine (c ∷ w) cs h k = (h.1, h.2, IsPlain-InLine w cs h.3 k)

IsTyped-IsPlain : (w : List ℕ) → IsTyped w → IsPlain w
IsTyped-IsPlain [] h = absurd h
IsTyped-IsPlain (c ∷ w) h = h

spaced-InLine : (args : List (List ℕ)) → AllTyped args → InLine (spread (spaced args) 0)
spaced-InLine [] h = tt
spaced-InLine (w ∷ ws) h = (
  (λ e. absurd (omega arith)),
  (λ e. absurd (omega arith)),
  IsPlain-InLine w (spread (spaced ws) 0) (IsTyped-IsPlain w h.0) (spaced-InLine ws h.1),
)

-- what is typed is a line
pub typed-InLine :
    (w : List ℕ) (args : List (List ℕ)) → IsTyped w → AllTyped args → InLine (typed w args)
typed-InLine w args h k =
    IsPlain-InLine w (spread (spaced args) 0) (IsTyped-IsPlain w h) (spaced-InLine args k)

IsPlain-NoSpace : (w : List ℕ) → IsPlain w → NoSpace w
IsPlain-NoSpace [] h = tt
IsPlain-NoSpace (c ∷ w) h = (h.0, IsPlain-NoSpace w h.3)

IsTyped-IsWord : (w : List ℕ) → IsTyped w → IsWord w
IsTyped-IsWord [] h = h
IsTyped-IsWord (c ∷ w) h = IsPlain-NoSpace (c ∷ w) h

AllTyped-AllWords : (args : List (List ℕ)) → AllTyped args → AllWords (spaced args)
AllTyped-AllWords [] h = tt
AllTyped-AllWords (w ∷ ws) h = (IsTyped-IsWord w h.0, AllTyped-AllWords ws h.1)

words_of-spaced : (args : List (List ℕ)) → words_of (spaced args) ≡ args
words_of-spaced [] = refl
words_of-spaced (w ∷ ws) = ap (λ xs. w ∷ xs) (words_of-spaced ws)

get_elem?-length : (ws : List (List ℕ)) (i : ℕ) → length ws ≤ i → get_elem? ws i ≡ none
get_elem?-length [] i h = refl
get_elem?-length (w ∷ ws) zero h = absurd (omega arith)
get_elem?-length (w ∷ ws) (suc i) h = get_elem?-length ws i (omega arith)

line-answer :
    (host : Host) (w cs : List ℕ) (sh : Shell)
    → IsTyped w
    → InLine cs
    → run_line host ((w ++ cs) ++ (newline ∷ [])) sh ≡ answer host (w ++ cs) sh
unfolding run_line
line-answer host [] cs sh h k = absurd h
line-answer host (c ∷ w) cs sh h k =
    rw (==-ne h.1, ==-ne h.2)
      (ap (λ xs. answer host (c ∷ xs) sh) (text_of-InLine (w ++ cs) (IsPlain-InLine w cs h.3 k)))

module _ (host : Host) (w : List ℕ) (args : List (List ℕ)) (word : IsTyped w)
    (words : AllTyped args) (few : length args ≤ 62) where
  typed-words : get_args (typed w args) ≡ w ∷ args
  typed-words =
      get_args-spread 0 0 w (spaced args) (IsTyped-IsWord w word) (AllTyped-AllWords args words)
        (rw (words_of-spaced args) (omega arith))
      ∙ ap (λ ws. w ∷ ws) (words_of-spaced args)

  unwarned : full_argv (w ∷ args) ≡ []
  unwarned = rw (full_argv, get_elem?-length args 62 few) refl

  entered-answer :
      (sh : Shell) → run_line host (entered w args []) sh ≡ answer host (typed w args) sh
  entered-answer sh = line-answer host w (spread (spaced args) 0) sh word (spaced-InLine args words)

  module _ (cmd : ShellCommand) (out : Out) (sh sh' : Shell)
      (known : lookup shell_commands w ≡ some cmd)
      (run : dispatch host (w ∷ args) cmd sh ≡ ok ((true, out), sh')) where
    checked : check_commands host (typed w args) sh ≡ ok ((true, out), sh')
    unfolding check_commands
    checked = rw (check_commands, typed-words, known, run, unwarned) refl

    -- A line is a command of the table with its words.
    pub run_line-dispatch : run_line host (entered w args []) sh ≡ ok (out, sh')
    run_line-dispatch = entered-answer sh ∙ rw checked refl
