-- ===== src/Shell/Arguments.antt =====
-- Commands of src/shell/shell.c whose line is words without quotes: their arguments.
use embedded_template.Prelude.{
  ℕ, zero, suc, ◌+◌, ◌%◌, ◌≤◌, ◌<◌, ◌==◌, ne→==, eq→==, ==→ne, Bool, true, false, ◌≡◌, ◌≢◌, refl,
  sym, ap, ap₂, ◌∙◌, Option, none, some, ◌⊎◌, inl, inr, Bool-cases, List, [], ◌∷◌, ◌++◌, length,
  All, if◌then◌else◌, u8, arith,
}
use embedded_template.Shell.{
  Command, last_char, add_last, map_chars, hide_spaces, squeeze, skip_space, cut, Split, args,
  too_many, out_of_fuel, with_arg, split_round, split_loop, show_space, remove_quotes, unquote_all,
  same_string, execute_command_in_commands, execute_line, execute_split, execute_args,
  shell_execute_command,
}
use embedded_template.Shell.Lookup.{looked_up}
use embedded_template.Shell.Words.{
  IsPlain, AllWords, typed, terminated, typed-append, typed-IsLine, IsLine, ended, IsLine-append,
  space-IsLine, typed_some, hide_spaces_lem,
}

squeeze_word :
    (w : List ℕ) (rest : List ℕ)
    → All IsPlain w
    → squeeze false (w ++ (32 ∷ rest)) ≡ w ++ (32 ∷ squeeze true rest)
unfolding squeeze
squeeze_word [] rest p = refl
squeeze_word (c ∷ w) rest (p, ps) =
    rw (ne→== c 32 p.not_space) (ap (λ r. c ∷ r) (squeeze_word w rest ps))

squeeze-terminated :
    (after : Bool) (words : List (List ℕ))
    → AllWords words
    → squeeze after (terminated words) ≡ terminated words
unfolding squeeze
squeeze-terminated after [] p = refl
squeeze-terminated after ([] ∷ words) (some_w, p, ps) = absurd (omega arith)
squeeze-terminated after ((c ∷ w) ∷ words) (some_w, (p, q), ps) = rw (ne→== c 32 p.not_space) (
    ap (λ r. c ∷ r)
      (squeeze_word w (terminated words) q
        ∙ ap (λ r. w ++ (32 ∷ r)) (squeeze-terminated true words ps)))

cut_word : (w rest : List ℕ) → All IsPlain w → cut (w ++ (32 ∷ rest)) ≡ some (w, rest)
unfolding cut
cut_word [] rest p = refl
cut_word (c ∷ w) rest (p, ps) = rw (ne→== c 32 p.not_space) (rw (cut_word w rest ps) refl)

last_char-append : (c : ℕ) (s : List ℕ) (d : ℕ) → last_char c (s ++ (d ∷ [])) ≡ d
last_char-append c [] d = refl
last_char-append c (e ∷ s) d = last_char-append e s d

-- Up to `max_args` words are the arguments.
split_loop-args :
    (fuel argc : ℕ) (words : List (List ℕ))
    → AllWords words
    → argc + length words ≤ 10
    → length words < fuel
    → split_loop fuel argc (terminated words) ≡ args words
unfolding split_loop cut
split_loop-args zero argc words p few enough = absurd (omega arith)
split_loop-args (suc fuel) argc [] p few enough = refl
split_loop-args (suc fuel) argc (w ∷ words) (some_w, p, ps) few enough =
    ap (split_round argc (λ rest. split_loop fuel (suc argc) rest))
      (cut_word w (terminated words) p)
    ∙ rw (ne→== argc 10 (λ e. omega arith))
        (ap (with_arg w) (split_loop-args fuel (suc argc) words ps (omega arith) (omega arith)))

-- One more than `max_args` words are too many.
split_loop-many :
    (fuel argc : ℕ) (words : List (List ℕ))
    → AllWords words
    → argc ≤ 10
    → 10 < argc + length words
    → 10 < fuel + argc
    → split_loop fuel argc (terminated words) ≡ too_many
unfolding split_loop cut
split_loop-many zero argc words p few many enough = absurd (omega arith)
split_loop-many (suc fuel) argc [] p few many enough = absurd (omega arith)
split_loop-many (suc fuel) argc (w ∷ words) (some_w, p, ps) few many enough =
    ap (split_round argc (λ rest. split_loop fuel (suc argc) rest))
      (cut_word w (terminated words) p)
    ∙ elim (Bool-cases (argc == 10)) [
      | inl e ↦ rw e refl
      | inr e ↦ rw e (
          ap (with_arg w)
            (split_loop-many fuel (suc argc) words ps (ground arith) (omega arith) (omega arith)))
    ]

with_arg_fuel : (w : List ℕ) (r : Split) → r ≢ out_of_fuel → with_arg w r ≢ out_of_fuel
with_arg_fuel w (args words) h e = absurd (cc)
with_arg_fuel w too_many h e = h e
with_arg_fuel w out_of_fuel h e = h e

choose_ends :
    (b : Bool) (x y : Split)
    → x ≢ out_of_fuel
    → (b ≡ false → y ≢ out_of_fuel)
    → (if b then x else y) ≢ out_of_fuel
choose_ends true x y h k = h
choose_ends false x y h k = k refl

split_round_ends :
    (argc : ℕ) (next : List ℕ → Split) (o : Option (List ℕ × List ℕ))
    → ((rest : List ℕ) → argc ≢ 10 → next rest ≢ out_of_fuel)
    → split_round argc next o ≢ out_of_fuel
split_round_ends argc next none h = λ e. absurd cc
split_round_ends argc next (some (w, rest)) h =
    choose_ends (argc == 10) too_many (with_arg w (next rest)) (λ e. absurd cc)
      (λ differs. with_arg_fuel w (next rest) (h rest (==→ne argc 10 differs)))

-- The loop that cuts off the arguments ends for every string, after at most eleven rounds in all,
-- whatever number of arguments up to ten is there already.
pub split_loop_ends :
    (fuel argc : ℕ) (p : List ℕ)
    → argc ≤ 10
    → 10 < fuel + argc
    → split_loop fuel argc p ≢ out_of_fuel
unfolding split_loop
split_loop_ends zero argc p few enough = absurd (omega arith)
split_loop_ends (suc fuel) argc p few enough =
    split_round_ends argc (λ rest. split_loop fuel (suc argc) rest) (cut p)
      (λ rest differs. split_loop_ends fuel (suc argc) rest (omega arith) (omega arith))

show_space_plain : (w : List ℕ) → All IsPlain w → map_chars show_space w ≡ w
show_space_plain [] p = refl
show_space_plain (c ∷ w) (p, ps) =
    ap₂ (λ d t. d ∷ t) (rw (ne→== c 7 p.not_alt) refl) (show_space_plain w ps)

remove_quotes_plain : (w : List ℕ) → All IsPlain w → remove_quotes w ≡ w
remove_quotes_plain [] p = refl
remove_quotes_plain (c ∷ w) (p, ps) =
    rw (ne→== c 39 p.not_single) (rw (ne→== c 34 p.not_double) refl)

unquote_all_plain : (words : List (List ℕ)) → AllWords words → unquote_all words ≡ words
unquote_all_plain [] p = refl
unquote_all_plain (w ∷ words) (some_w, p, ps) =
    ap₂ (λ v vs. v ∷ vs) (ap remove_quotes (show_space_plain w p) ∙ remove_quotes_plain w p)
      (unquote_all_plain words ps)

first_not_space :
    (words : List (List ℕ)) (w : List ℕ)
    → AllWords (w ∷ words)
    → skip_space (terminated (w ∷ words)) ≡ terminated (w ∷ words)
first_not_space words [] (some_w, p, ps) = absurd (omega arith)
first_not_space words (c ∷ w) (some_w, (p, q), ps) = rw (ne→== c 32 p.not_space) refl

not_blank :
    (words : List (List ℕ)) (w : List ℕ)
    → AllWords (w ∷ words)
    → same_string (terminated (w ∷ words)) (32 ∷ []) ≡ false
not_blank words [] (some_w, p, ps) = absurd (omega arith)
not_blank words (c ∷ w) (some_w, (p, q), ps) = rw (ne→== c 32 p.not_space) refl

add_last-append : (c : ℕ) (s : List ℕ) (d : ℕ) → add_last d (s ++ (d ∷ [])) ≡ s ++ (d ∷ [])
add_last-append c [] d = rw (eq→== d d refl) refl
add_last-append c (e ∷ s) d = rw (last_char-append e s d) (rw (eq→== d d refl) refl)

-- The line as it is when its arguments are cut off.
prepared :
    (w : List ℕ) (words : List (List ℕ))
    → AllWords (w ∷ words)
    → add_last 32 (skip_space (squeeze false (terminated (w ∷ words)))) ≡ terminated (w ∷ words)
prepared w words p =
    ap (λ s. add_last 32 (skip_space s)) (squeeze-terminated false (w ∷ words) p)
    ∙ ap (add_last 32) (first_not_space words w p)
    ∙ ap (add_last 32) (sym (typed-append w words))
    ∙ add_last-append 0 (typed w words) 32
    ∙ typed-append w words

module _ {S : Type 0} (run : ℕ → List (List ℕ) → S → ℕ × S) (cmds : List Command) (rc : ℕ)
    (s : S) where
  execute_line_words :
      (w : List ℕ) (words : List (List ℕ)) (split : Split)
      → AllWords (w ∷ words)
      → split_loop 11 0 (terminated (w ∷ words)) ≡ split
      → execute_line run cmds (terminated (w ∷ words)) rc s ≡ execute_split run cmds split s
  unfolding execute_line
  execute_line_words w words split p e =
      ap₂ (λ blank r. if blank then (u8 rc, s) else execute_split run cmds r s)
        (ap (λ l. same_string l (32 ∷ [])) (squeeze-terminated false (w ∷ words) p)
          ∙ not_blank words w p)
        (ap (split_loop 11 0) (prepared w words p) ∙ e)

  unquoted_line :
      (line : List ℕ)
      → 0 < length line
      → All IsLine line
      → shell_execute_command run cmds line rc s ≡ execute_line run cmds (line ++ (32 ∷ [])) rc s
  unfolding shell_execute_command
  unquoted_line [] some_line p = absurd (omega arith)
  unquoted_line (c ∷ line) some_line p =
      ap (λ (h : Bool × List ℕ). if h.0 then (130, s) else execute_line run cmds h.1 rc s)
        (ap (hide_spaces false 0) (ended c line p)
          ∙ hide_spaces_lem ((c ∷ line) ++ (32 ∷ []))
              (IsLine-append (c ∷ line) (32 ∷ []) p space-IsLine))

  typed_words :
      (w : List ℕ) (words : List (List ℕ)) (split : Split)
      → AllWords (w ∷ words)
      → split_loop 11 0 (terminated (w ∷ words)) ≡ split
      → shell_execute_command run cmds (typed w words) rc s ≡ execute_split run cmds split s
  typed_words w words split (some_w, p, ps) e =
      unquoted_line (typed w words) (typed_some w words some_w)
        (typed-IsLine w words (some_w, p, ps))
      ∙ ap (λ l. execute_line run cmds l rc s) (typed-append w words)
      ∙ execute_line_words w words split (some_w, p, ps) e

  -- The words of a line are looked up as they are.
  words_looked_up :
      (w : List ℕ) (words : List (List ℕ))
      → AllWords (w ∷ words)
      → length (w ∷ words) ≤ 10
      → shell_execute_command run cmds (typed w words) rc s
        ≡ execute_command_in_commands run cmds w (w ∷ words) s
  words_looked_up w words p few =
      typed_words w words (args (w ∷ words)) p
        (split_loop-args 11 0 (w ∷ words) p (omega arith) (omega arith))
      ∙ ap (λ a. execute_args run cmds a s) (unquote_all_plain (w ∷ words) p)

  -- A line of one to ten words, with a space between them and without quotes, control characters
  -- that end a word, and the character 7, that the code puts for a space in quotes: it runs the first
  -- command of the table whose name is the first word, once, with the words as its arguments, and
  -- the result is the low byte of what its handler returns; if no command of the table has that name,
  -- nothing runs and the result is -128, as a byte.
  pub shell_execute_command-typed :
      (w : List ℕ) (words : List (List ℕ))
      → AllWords (w ∷ words)
      → length (w ∷ words) ≤ 10
      → let result = shell_execute_command run cmds (typed w words) rc s in
        ((before : List Command) × (c : Command) × (behind : List Command) × (cmds
            ≡ before ++ c ∷ behind)
          × (c.cmd ≡ w)
          × All (λ d. d.cmd ≢ w) before
          × (result ≡ ((run c.handler (w ∷ words) s).0 % 256, (run c.handler (w ∷ words) s).1)))
        ⊎ (All (λ d. d.cmd ≢ w) cmds × (result ≡ (128, s)))
  shell_execute_command-typed w words p few =
      let looked = words_looked_up w words p few in
      elim (looked_up run cmds w (w ∷ words) s) [
        | inl (before, c, behind, table, name, others, ran) ↦
            inl (before, c, behind, table, name, others, looked ∙ ran)
        | inr (others, missing) ↦ inr (others, looked ∙ missing)
      ]

  -- A line of more than ten words runs no command: the result is -124, as a byte.
  pub shell_execute_command_refuses :
      (w : List ℕ) (words : List (List ℕ))
      → AllWords (w ∷ words)
      → 10 < length (w ∷ words)
      → shell_execute_command run cmds (typed w words) rc s ≡ (132, s)
  shell_execute_command_refuses w words p many =
      typed_words w words too_many p
        (split_loop-many 11 0 (w ∷ words) p (omega arith) (omega arith) (omega arith))
