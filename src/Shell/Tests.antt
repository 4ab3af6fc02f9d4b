-- ===== src/Shell/Tests.antt =====
-- Lines of src/shell/shell.c, given to a table of one command, `ab`, whose handler counts.
use embedded_template.Prelude.{
  ℕ, ◌+◌, ◌≡◌, ◌≢◌, ◌⊎◌, ◌≤◌, refl, List, [], ◌∷◌, ◌++◌, All, length, arith,
}
use embedded_template.Shell.{
  Command, split_loop, shell_execute_command, execute_command_in_commands, execute_line,
  hide_spaces, squeeze, cut, getline, getline_loop, add_last, maxsize,
}
use embedded_template.Shell.Words.{IsPlain}
use embedded_template.Shell.Lines.{getline_fits}
use embedded_template.Shell.Arguments.{shell_execute_command-typed}

abbrev commands : List Command
commands = record { cmd = 97 ∷ 98 ∷ []; handler = 1 } ∷ []

-- The number of arguments is added to the state, and returned.
abbrev counting : ℕ → List (List ℕ) → ℕ → ℕ × ℕ
counting handler argv s = (length argv, s + length argv)

-- `ab  'a b'`, with two spaces, and with a newline.
quoted :
    shell_execute_command counting commands
      (97 ∷ 98 ∷ 32 ∷ 32 ∷ 39 ∷ 97 ∷ 32 ∷ 98 ∷ 39 ∷ 10 ∷ [])
      0
      5
    ≡ (2, 7)
unfolding shell_execute_command execute_line hide_spaces squeeze cut split_loop
    execute_command_in_commands
quoted = refl

-- `ab 'a`.
unclosed : shell_execute_command counting commands (97 ∷ 98 ∷ 32 ∷ 39 ∷ 97 ∷ []) 0 5 ≡ (130, 5)
unfolding shell_execute_command execute_line hide_spaces squeeze cut split_loop
    execute_command_in_commands
unclosed = refl

letter : IsPlain 97
letter = record {
  not_space = λ e. omega arith;
  not_alt = λ e. omega arith;
  not_tab = λ e. omega arith;
  not_newline = λ e. omega arith;
  not_return = λ e. omega arith;
  not_double = λ e. omega arith;
  not_single = λ e. omega arith;
}

shell_execute_command-typed_example :
    let result = shell_execute_command counting commands (97 ∷ 32 ∷ 97 ∷ []) 0 5 in
    ((before : List Command) × (c : Command) × (behind : List Command) × (commands
        ≡ before ++ c ∷ behind)
      × (c.cmd ≡ 97 ∷ [])
      × All (λ d. d.cmd ≢ 97 ∷ []) before
      × (result ≡ (2, 7)))
    ⊎ (All (λ d. d.cmd ≢ 97 ∷ []) commands × (result ≡ (128, 5)))
shell_execute_command-typed_example =
    shell_execute_command-typed counting commands 0 5 (97 ∷ []) ((97 ∷ []) ∷ [])
      (omega arith, (letter, tt), (omega arith, (letter, tt), tt)) (omega arith)

-- Two letters, one of them erased, and the end of the line.
getline_fits_example : length (add_last 10 (97 ∷ [])) + 1 ≤ maxsize
unfolding getline getline_loop
getline_fits_example = getline_fits (97 ∷ 98 ∷ 8 ∷ 13 ∷ 99 ∷ []) (97 ∷ []) (99 ∷ []) refl
