-- ===== src/Shell/Lines.antt =====
-- The line editor of src/shell/shell.c: how long a line can be.
use embedded_template.Prelude.{
  ℕ, ◌+◌, ◌-◌, ◌≤◌, ◌<◌, ◌==◌, ltb, ltb→lt, Bool-cases, inl, inr, Bool, true, false, ◌&&◌, ◌||◌,
  ◌≡◌, subst, Option, none, some, List, [], ◌∷◌, ◌++◌, length, length-append, if◌then◌else◌, arith,
}
use embedded_template.Shell.{
  last_char, add_last, without_last, drop_last, getline_loop, getline, maxsize,
}

-- What a loop returns is at most `bound` characters long.
Within : ℕ → Option (List ℕ × List ℕ) → Type 0
Within bound none = Unit {0}
Within bound (some (line, rest)) = length line ≤ bound

chosen :
    (bound : ℕ) (b : Bool) (x y : Option (List ℕ × List ℕ))
    → Within bound x
    → Within bound y
    → Within bound (if b then x else y)
chosen bound true x y p q = p
chosen bound false x y p q = q

length-without_last : (c : ℕ) (s : List ℕ) → length (without_last c s) ≤ length s
length-without_last c [] = omega arith
length-without_last c (d ∷ s) = omega (arith, length-without_last d s)

length-drop_last : (s : List ℕ) → length (drop_last s) ≤ length s
length-drop_last [] = omega arith
length-drop_last (c ∷ s) = omega (arith, length-without_last c s)

-- The length of the line so far decides: it can grow, or the line is over.
by_room :
    (bound n : ℕ) (x y : Option (List ℕ × List ℕ))
    → (n < bound → Within bound x)
    → Within bound y
    → Within bound (if ltb n bound then x else y)
by_room bound n x y p q = elim (Bool-cases (ltb n bound)) [
  | inl e ↦ rw e (p (ltb→lt n bound e))
  | inr e ↦ rw e q
]

getline_loop-Within :
    (buf_size : ℕ) (typed buf : List ℕ)
    → length buf ≤ buf_size - 1
    → Within (buf_size - 1) (getline_loop buf_size typed buf)
unfolding Within getline_loop
getline_loop-Within buf_size [] buf h =
    by_room (buf_size - 1) (length buf) none (some (buf, [])) (λ less. tt) h
getline_loop-Within buf_size (c ∷ typed) buf h =
    by_room (buf_size - 1) (length buf) _ _
      (λ less.
        chosen (buf_size - 1) ((c == 8) || (c == 127)) _ _
          (getline_loop-Within buf_size typed (drop_last buf) (omega (arith, length-drop_last buf)))
          (chosen (buf_size - 1) (((c == 13) || (c == 10)) && ltb 0 (length buf)) _ _ h (
            getline_loop-Within buf_size typed (buf ++ (c ∷ []))
              (omega (arith, length-append buf (c ∷ []))))))
      h

length-add_last : (c : ℕ) (s : List ℕ) → length (add_last c s) ≤ length s + 1
length-add_last c [] = omega arith
length-add_last c (d ∷ s) = either (last_char d s == c)
  where
    either : (b : Bool) → length (if b then d ∷ s else (d ∷ s) ++ (c ∷ [])) ≤ length (d ∷ s) + 1
    either true = omega arith
    either false = omega (arith, length-append s (c ∷ []))

some-Within :
    (bound : ℕ) (o : Option (List ℕ × List ℕ)) (line rest : List ℕ)
    → Within bound o
    → o ≡ some (line, rest)
    → length line ≤ bound
unfolding Within
some-Within bound o line rest w e = subst (Within bound) e w

-- Whatever is typed, the line that the shell reads fits its buffer, together with the newline that
-- is put behind it and the terminating 0.
pub getline_fits :
    (typed line rest : List ℕ)
    → getline (maxsize - 1) typed ≡ some (line, rest)
    → length (add_last 10 line) + 1 ≤ maxsize
unfolding getline
getline_fits typed line rest e = omega (
  arith,
  length-add_last 10 line,
  some-Within 48 (getline_loop 49 typed []) line rest
      (getline_loop-Within 49 typed [] (omega arith)) e,
)
