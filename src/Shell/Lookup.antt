-- ===== src/Shell/Lookup.antt =====
-- The command that the table of src/shell/shell.c has for a name.
use mathlib.Core.Bool.{true≢false}
use embedded_template.Prelude.{
  ℕ, ◌%◌, ◌==◌, eq→==, ==→eq, true, ◌≡◌, ◌≢◌, refl, sym, ap, ap₂, ◌∙◌, ◌⊎◌, inl, inr, Bool-cases,
  List, [], ◌∷◌, ◌++◌, All, arith,
}
use embedded_template.Shell.{Command, same_string, execute_command_in_commands}

same_string→eq : (s t : List ℕ) → same_string s t ≡ true → s ≡ t
same_string→eq [] [] h = refl
same_string→eq [] (d ∷ t) h = absurd cc
same_string→eq (c ∷ s) [] h = absurd cc
same_string→eq (c ∷ s) (d ∷ t) h = elim (Bool-cases (c == d)) [
  | inl same ↦
      let tails : same_string s t ≡ true = ground (arith, h, same) in
      ap₂ (λ x xs. x ∷ xs) (==→eq c d same) (same_string→eq s t tails)
  | inr other ↦ absurd (ground (arith, h, other))
]

same_string_refl : (s : List ℕ) → same_string s s ≡ true
same_string_refl [] = refl
same_string_refl (c ∷ s) = rw (eq→== c c refl) (same_string_refl s)

-- The loop over the table finds the first command of the name.
pub looked_up :
    {S : Type 0} (run : ℕ → List (List ℕ) → S → ℕ × S) (cmds : List Command) (name : List ℕ)
    (argv : List (List ℕ)) (s : S)
    → let result = execute_command_in_commands run cmds name argv s in
      ((before : List Command) × (c : Command) × (behind : List Command) × (cmds
          ≡ before ++ c ∷ behind)
        × (c.cmd ≡ name)
        × All (λ d. d.cmd ≢ name) before
        × (result ≡ ((run c.handler argv s).0 % 256, (run c.handler argv s).1)))
      ⊎ (All (λ d. d.cmd ≢ name) cmds × (result ≡ (128, s)))
unfolding execute_command_in_commands
looked_up run [] name argv s = inr (tt, refl)
looked_up run (command ∷ cmds) name argv s = elim (Bool-cases (same_string command.cmd name)) [
  | inl same ↦ inl ([], command, cmds, refl, same_string→eq command.cmd name same, tt, rw same refl)
  | inr differs ↦
      let other : command.cmd ≢ name = λ e.
        true≢false (sym (same_string_refl name) ∙ ap (λ n. same_string n name) (sym e) ∙ differs) in
      elim (looked_up run cmds name argv s) [
        | inl (before, c, behind, table, found, others, ran) ↦ inl (
          command ∷ before,
          c,
          behind,
          ap (λ t. command ∷ t) table,
          found,
          (other, others),
          rw differs ran,
        )
        | inr (others, missing) ↦ inr ((other, others), rw differs missing)
      ]
]
