-- ===== src/Shell/Commands/Suggest.antt =====
-- Which command the shell asks about when it does not know one.
use mathlib.Core.Path.{subst}
use ext2p.Prelude.{
  ℕ, ◌≤◌, ◌≡◌, ◌⊎◌, inl, inr, refl, arith, List, [], ◌∷◌, false, Option, none, some, ltb,
  if◌then◌else◌, Bool-cases, ltb→lt, ap, ◌∙◌, sym,
}
use ext2p.Util.Levenshtein.{util_levenshtein}
use ext2p.Shell.Commands.{ShellCommand, best_of, try_levenshtein, shell_commands, int_max}

-- a command of the table by its name
pub data Listed (name : List ℕ) : List ShellCommand → Type 0 where
  here :
      {cmd : ShellCommand} {cmds : List ShellCommand} → name ≡ cmd.name → Listed name (cmd ∷ cmds)
  there :
      {cmd : ShellCommand} {cmds : List ShellCommand} → Listed name cmds → Listed name (cmd ∷ cmds)

ltb→le : (a b : ℕ) → ltb a b ≡ false → b ≤ a
ltb→le a b h = ground arith

-- the best pair is no farther than the start and than any name of the list
best_of-least :
    (buf : List ℕ) (cmds : List ShellCommand) (d : ℕ) (c : Option (List ℕ))
    → (best_of buf cmds d c).0 ≤ d
best_of-least buf [] d c = omega arith
best_of-least buf (cmd ∷ cmds) d c = elim (Bool-cases (ltb (util_levenshtein buf cmd.name) d)) [
  | inl better ↦ rw better (
      omega (
        arith,
        best_of-least buf cmds (util_levenshtein buf cmd.name) (some cmd.name),
        ltb→lt (util_levenshtein buf cmd.name) d better,
      ))
  | inr same ↦ rw same (best_of-least buf cmds d c)
]

best_of-all :
    (buf : List ℕ) (cmds : List ShellCommand) (d : ℕ) (c : Option (List ℕ)) (other : List ℕ)
    → Listed other cmds
    → (best_of buf cmds d c).0 ≤ util_levenshtein buf other
best_of-all buf [] d c other l = elim l [ ]
best_of-all buf (cmd ∷ cmds) d c other (here e) =
    elim (Bool-cases (ltb (util_levenshtein buf cmd.name) d)) [
      | inl better ↦
          rw (better, e) (best_of-least buf cmds (util_levenshtein buf cmd.name) (some cmd.name))
      | inr same ↦
          rw (same, e)
            (omega
              (arith, best_of-least buf cmds d c, ltb→le (util_levenshtein buf cmd.name) d same))
    ]
best_of-all buf (cmd ∷ cmds) d c other (there l) =
    elim (Bool-cases (ltb (util_levenshtein buf cmd.name) d)) [
      | inl better ↦
          rw better (best_of-all buf cmds (util_levenshtein buf cmd.name) (some cmd.name) other l)
      | inr same ↦ rw same (best_of-all buf cmds d c other l)
    ]

-- the pair is the one at the start, or a name of the list with its distance
abbrev Found :
    (buf : List ℕ) → List ShellCommand → ℕ × Option (List ℕ) → ℕ × Option (List ℕ) → Type 0
Found buf cmds start r =
    (r ≡ start)
    ⊎ ((name : List ℕ) × (r ≡ (util_levenshtein buf name, some name)) × Listed name cmds)

Found-there :
    (buf : List ℕ) (cmd : ShellCommand) (cmds : List ShellCommand) (start r : ℕ × Option (List ℕ))
    → Found buf cmds start r
    → Found buf (cmd ∷ cmds) start r
Found-there buf cmd cmds start r (inl e) = inl e
Found-there buf cmd cmds start r (inr (name, e, l)) = inr (name, e, there l)

Found-here :
    (buf : List ℕ) (cmd : ShellCommand) (cmds : List ShellCommand) (start r : ℕ × Option (List ℕ))
    → Found buf cmds (util_levenshtein buf cmd.name, some cmd.name) r
    → Found buf (cmd ∷ cmds) start r
Found-here buf cmd cmds start r (inl e) = inr (cmd.name, e, here refl)
Found-here buf cmd cmds start r (inr (name, e, l)) = inr (name, e, there l)

best_of-Found :
    (buf : List ℕ) (cmds : List ShellCommand) (d : ℕ) (c : Option (List ℕ))
    → Found buf cmds (d, c) (best_of buf cmds d c)
best_of-Found buf [] d c = inl refl
best_of-Found buf (cmd ∷ cmds) d c = elim (Bool-cases (ltb (util_levenshtein buf cmd.name) d)) [
  | inl better ↦ rw better (
      Found-here buf cmd cmds (d, c) _
        (best_of-Found buf cmds (util_levenshtein buf cmd.name) (some cmd.name)))
  | inr same ↦ rw same (Found-there buf cmd cmds (d, c) _ (best_of-Found buf cmds d c))
]

asked :
    (buf name x : List ℕ)
    → Listed x shell_commands
    → (if ltb 2 (util_levenshtein buf x) then none else some x) ≡ some name
    → (util_levenshtein buf x ≡ util_levenshtein buf name)
      × (util_levenshtein buf x ≤ 2)
      × Listed name shell_commands
asked buf name x l e = elim (Bool-cases (ltb 2 (util_levenshtein buf x))) [
  | inl far ↦ let k : none ≡ some name = ap (λ b. if b then none else some x) (sym far) ∙ e in cc
  | inr near ↦
      let k : some x ≡ some name = ap (λ b. if b then none else some x) (sym near) ∙ e in
      let same : x ≡ name = cc in
      (
        ap (λ y. util_levenshtein buf y) same,
        omega (arith, ltb→le 2 (util_levenshtein buf x) near),
        subst (λ y. Listed y shell_commands) same l,
      )
]

suggested :
    (buf name : List ℕ) (r : ℕ × Option (List ℕ))
    → Found buf shell_commands (int_max, none) r
    → (if ltb 2 r.0 then none else r.1) ≡ some name
    → (r.0 ≡ util_levenshtein buf name) × (r.0 ≤ 2) × Listed name shell_commands
suggested buf name r (inl same) e =
    let k : none ≡ some name =
      ap (λ (p : ℕ × Option (List ℕ)). if ltb 2 p.0 then none else p.1) (sym same) ∙ e in
    cc
suggested buf name r (inr (x, same, l)) e =
    let k = ap (λ (p : ℕ × Option (List ℕ)). if ltb 2 p.0 then none else p.1) (sym same) ∙ e in
    let (far, near, listed) = asked buf name x l k in
    let first : r.0 ≡ util_levenshtein buf x = ap (λ (p : ℕ × Option (List ℕ)). p.0) same in
    (first ∙ far, omega (arith, first, near), listed)

-- When `_tryLevenshtein` asks about a name, it is a command of the table at a distance of 2 at most
-- from what was typed, and no command is nearer.
pub try_levenshtein_lem :
    (buf name other : List ℕ)
    → try_levenshtein buf ≡ some name
    → Listed other shell_commands
    → Listed name shell_commands
      × (util_levenshtein buf name ≤ 2)
      × (util_levenshtein buf name ≤ util_levenshtein buf other)
unfolding try_levenshtein
try_levenshtein_lem buf name other e l =
    let (same, near, listed) =
      suggested buf name (best_of buf shell_commands int_max none)
        (best_of-Found buf shell_commands int_max none) e in
    (
      listed,
      omega (arith, same, near),
      omega (arith, same, best_of-all buf shell_commands int_max none other l),
    )
