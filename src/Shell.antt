-- ===== src/Shell.antt =====
-- src/shell/shell.c: a command line, split into arguments, and the command that it names. A string is
-- the list of its characters before the terminating 0; a `char` that is returned is its byte.
pub mod Words
pub mod Lookup
pub mod Arguments
pub mod Lines
mod Tests
use embedded_template.Prelude.{
  ℕ, zero, suc, ◌+◌, ◌-◌, ltb, length, ◌==◌, Bool, true, false, ◌||◌, ◌&&◌, not, Option, none, some,
  List, [], ◌∷◌, ◌++◌, if◌then◌else◌, u8,
}

abbrev pub alt_space : ℕ
alt_space = 7

abbrev pub max_args : ℕ
max_args = 10

-- `struct shell_command`, less its help. The handler is a number, which says what function it is.
pub record Command : Type 0 where
  pub cmd : List ℕ
  pub handler : ℕ

abbrev pub same_string : List ℕ → List ℕ → Bool
same_string [] [] = true
same_string [] (d ∷ t) = false
same_string (c ∷ s) [] = false
same_string (c ∷ s) (d ∷ t) = (c == d) && same_string s t

abbrev pub last_char : ℕ → List ℕ → ℕ
last_char c [] = c
last_char c (d ∷ s) = last_char d s

abbrev pub add_last : ℕ → List ℕ → List ℕ
add_last c [] = []
add_last c (d ∷ s) = if last_char d s == c then d ∷ s else (d ∷ s) ++ (c ∷ [])

abbrev pub to_space : ℕ → ℕ
to_space c = if (c == 13) || ((c == 10) || (c == 9)) then 32 else c

abbrev pub map_chars : (ℕ → ℕ) → List ℕ → List ℕ
map_chars f [] = []
map_chars f (c ∷ s) = f c ∷ map_chars f s

abbrev pub is_quote : ℕ → Bool
is_quote c = (c == 39) || (c == 34)

-- The loop over the quotes: whether one is open at the end, and the string.
unfoldable pub hide_spaces : Bool → ℕ → List ℕ → Bool × List ℕ
hide_spaces inside quote_char [] = (inside, [])
hide_spaces inside quote_char (c ∷ s) =
    let opens = hide_spaces true c s in
    let closes = hide_spaces false 0 s in
    let stays = hide_spaces inside quote_char s in
    if is_quote c
    then (if not inside
        then (opens.0, c ∷ opens.1)
        else (if c == quote_char then (closes.0, c ∷ closes.1) else (stays.0, c ∷ stays.1)))
    else (stays.0, (if (c == 32) && inside then alt_space else c) ∷ stays.1)

-- The loops that leave one space of each run; the flag says that a space was just kept.
unfoldable pub squeeze : Bool → List ℕ → List ℕ
squeeze after_space [] = []
squeeze after_space (c ∷ s) =
    let after = squeeze true s in
    let before = squeeze false s in
    if c == 32 then (if after_space then after else 32 ∷ after) else c ∷ before

abbrev pub skip_space : List ℕ → List ℕ
skip_space [] = []
skip_space (c ∷ s) = if c == 32 then s else c ∷ s

-- `strchr(p, ' ')`: what stands before the first space, and what behind it.
unfoldable pub cut : List ℕ → Option (List ℕ × List ℕ)
cut [] = none
cut (c ∷ s) =
    if c == 32
    then some ([], s)
    else (elim (cut s) [ none ↦ none | some (word, rest) ↦ some (c ∷ word, rest) ])

pub data Split : Type 0 where
  args : List (List ℕ) → Split
  too_many : Split
  out_of_fuel : Split

abbrev pub with_arg : List ℕ → Split → Split
with_arg word (args words) = args (word ∷ words)
with_arg word too_many = too_many
with_arg word out_of_fuel = out_of_fuel

-- What a round does with the argument that was cut off.
abbrev pub split_round : ℕ → (List ℕ → Split) → Option (List ℕ × List ℕ) → Split
split_round argc next none = args []
split_round argc next (some (word, rest)) =
    if argc == max_args then too_many else with_arg word (next rest)

-- `while (1)`, on fuel.
unfoldable pub split_loop : ℕ → ℕ → List ℕ → Split
split_loop zero argc p = out_of_fuel
split_loop (suc fuel) argc p = split_round argc (λ rest. split_loop fuel (suc argc) rest) (cut p)

abbrev pub without_last : ℕ → List ℕ → List ℕ
without_last c [] = []
without_last c (d ∷ s) = c ∷ without_last d s

abbrev pub show_space : ℕ → ℕ
show_space c = if c == alt_space then 32 else c

-- An argument gets its spaces back, and loses quotes around it.
abbrev pub remove_quotes : List ℕ → List ℕ
remove_quotes [] = []
remove_quotes (c ∷ s) =
    if is_quote c && (c == last_char c s)
    then elim s [ [] ↦ [] | d ∷ t ↦ without_last d t ]
    else c ∷ s

abbrev pub unquote : List ℕ → List ℕ
unquote word = remove_quotes (map_chars show_space word)

abbrev pub unquote_all : List (List ℕ) → List (List ℕ)
unquote_all [] = []
unquote_all (word ∷ words) = unquote word ∷ unquote_all words

-- `run` runs a handler on the arguments, and answers what it returns.
unfoldable pub execute_command_in_commands :
    {S : Type 0}
    → (ℕ → List (List ℕ) → S → ℕ × S)
    → List Command
    → List ℕ
    → List (List ℕ)
    → S
    → ℕ × S
execute_command_in_commands run [] name argv s = (128, s)
execute_command_in_commands run (command ∷ cmds) name argv s =
    let rest = execute_command_in_commands run cmds name argv s in
    let (rc, s') = run command.handler argv s in
    if same_string command.cmd name then (u8 rc, s') else rest

-- The first argument names the command.
abbrev pub execute_args :
    {S : Type 0} → (ℕ → List (List ℕ) → S → ℕ × S) → List Command → List (List ℕ) → S → ℕ × S
execute_args run cmds [] s = execute_command_in_commands run cmds [] [] s
execute_args run cmds (name ∷ rest) s = execute_command_in_commands run cmds name (name ∷ rest) s

abbrev pub execute_split :
    {S : Type 0} → (ℕ → List (List ℕ) → S → ℕ × S) → List Command → Split → S → ℕ × S
execute_split run cmds (args words) s = execute_args run cmds (unquote_all words) s
execute_split run cmds too_many s = (132, s)
execute_split run cmds out_of_fuel s = (132, s)

-- The part behind the quotes, with the string that has them. Eleven rounds of fuel are given.
unfoldable pub execute_line :
    {S : Type 0} → (ℕ → List (List ℕ) → S → ℕ × S) → List Command → List ℕ → ℕ → S → ℕ × S
execute_line run cmds hidden rc s =
    let line = squeeze false hidden in
    if same_string line (32 ∷ [])
    then (u8 rc, s)
    else execute_split run cmds (split_loop 11 0 (add_last 32 (skip_space line))) s

unfoldable pub shell_execute_command :
    {S : Type 0} → (ℕ → List (List ℕ) → S → ℕ × S) → List Command → List ℕ → ℕ → S → ℕ × S
shell_execute_command run cmds [] rc s = (u8 rc, s)
shell_execute_command run cmds (c ∷ cmd) rc s =
    let (inside_quotes, hidden) =
      hide_spaces false 0 (map_chars to_space (add_last 10 (c ∷ cmd))) in
    if inside_quotes then (130, s) else execute_line run cmds hidden rc s

abbrev pub maxsize : ℕ
maxsize = 50

abbrev pub drop_last : List ℕ → List ℕ
drop_last [] = []
drop_last (c ∷ s) = without_last c s

-- The loop over the characters that `getchar` returns: the line, and those that are left. `none`
-- means that the loop waits for more. An end of line that is not behind a character goes into the
-- line, as in the source.
unfoldable pub getline_loop : ℕ → List ℕ → List ℕ → Option (List ℕ × List ℕ)
getline_loop buf_size [] buf = if ltb (length buf) (buf_size - 1) then none else some (buf, [])
getline_loop buf_size (c ∷ typed) buf =
    let erased = getline_loop buf_size typed (drop_last buf) in
    let stored = getline_loop buf_size typed (buf ++ (c ∷ [])) in
    if ltb (length buf) (buf_size - 1)
    then (if (c == 8) || (c == 127)
        then erased
        else (if ((c == 13) || (c == 10)) && ltb 0 (length buf) then some (buf, typed) else stored))
    else some (buf, c ∷ typed)

unfoldable pub getline : ℕ → List ℕ → Option (List ℕ × List ℕ)
getline buf_size typed = getline_loop buf_size typed []

-- A round of `shell_loop`: the result of the command, and the characters that are left.
unfoldable pub shell_round :
    {S : Type 0}
    → (ℕ → List (List ℕ) → S → ℕ × S)
    → List Command
    → List ℕ
    → ℕ
    → S
    → Option (ℕ × List ℕ × S)
shell_round run cmds typed rc s = elim (getline (maxsize - 1) typed) [
  | none ↦ none
  | some (cmd, rest) ↦
      let (rc', s') = shell_execute_command run cmds cmd rc s in some (rc', rest, s')
]
