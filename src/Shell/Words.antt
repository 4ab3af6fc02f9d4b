-- ===== src/Shell/Words.antt =====
-- The splitting of src/shell/shell.c on a line of words without quotes.
use embedded_template.Prelude.{
  ℕ, ◌<◌, ◌==◌, ne→==, Bool, true, false, ◌&&◌, ◌≡◌, ◌≢◌, refl, ap, ap₂, ◌∙◌, ◌⊎◌, inl, inr, List,
  [], ◌∷◌, ◌++◌, append_assoc, length, length-append, All, if◌then◌else◌, arith,
}
use embedded_template.Shell.{last_char, add_last, to_space, map_chars, is_quote, hide_spaces}

-- The characters of a word: no space, control character that the code takes for one, mark that it
-- puts for a space, or quote.
pub record IsPlain (c : ℕ) : Type 0 where
  pub not_space : c ≢ 32
  pub not_alt : c ≢ 7
  pub not_tab : c ≢ 9
  pub not_newline : c ≢ 10
  pub not_return : c ≢ 13
  pub not_double : c ≢ 34
  pub not_single : c ≢ 39

abbrev pub AllWords : List (List ℕ) → Type 0
AllWords [] = Unit {0}
AllWords (w ∷ words) = (0 < length w) × All IsPlain w × AllWords words

-- The words with a space between them, and with a space behind each.
abbrev pub typed : List ℕ → List (List ℕ) → List ℕ
typed w [] = w
typed w (v ∷ words) = w ++ (32 ∷ typed v words)

abbrev pub terminated : List (List ℕ) → List ℕ
terminated [] = []
terminated (w ∷ words) = w ++ (32 ∷ terminated words)

pub typed-append :
    (w : List ℕ) (words : List (List ℕ)) → typed w words ++ (32 ∷ []) ≡ terminated (w ∷ words)
typed-append w [] = refl
typed-append w (v ∷ words) =
    append_assoc w (32 ∷ typed v words) (32 ∷ []) ∙ ap (λ r. w ++ (32 ∷ r)) (typed-append v words)

-- Characters of a line: a space, or one of a word.
pub IsLine : ℕ → Type 0
IsLine c = IsPlain c ⊎ (c ≡ 32)

plain-IsLine :
    (w : List ℕ) (rest : List ℕ) → All IsPlain w → All IsLine rest → All IsLine (w ++ rest)
unfolding IsLine
plain-IsLine [] rest p q = q
plain-IsLine (c ∷ w) rest (p, ps) q = (inl p, plain-IsLine w rest ps q)

pub typed-IsLine :
    (w : List ℕ) (words : List (List ℕ)) → AllWords (w ∷ words) → All IsLine (typed w words)
unfolding IsLine
typed-IsLine [] [] (some_w, p, rest) = tt
typed-IsLine (c ∷ w) [] (some_w, (p, ps), rest) = (inl p, line w ps)
  where
    line : (w : List ℕ) → All IsPlain w → All IsLine w
    line [] p = tt
    line (c ∷ w) (p, ps) = (inl p, line w ps)
typed-IsLine w (v ∷ words) (some_w, p, rest) =
    plain-IsLine w (32 ∷ typed v words) p (inr refl, typed-IsLine v words rest)

pub IsLine-append : (s t : List ℕ) → All IsLine s → All IsLine t → All IsLine (s ++ t)
IsLine-append [] t p q = q
IsLine-append (c ∷ s) t (p, ps) q = (p, IsLine-append s t ps q)

pub space-IsLine : All IsLine (32 ∷ [])
unfolding IsLine
space-IsLine = (inr refl, tt)

pub typed_some : (w : List ℕ) (words : List (List ℕ)) → 0 < length w → 0 < length (typed w words)
typed_some w [] h = h
typed_some w (v ∷ words) h = omega (arith, length-append w (32 ∷ typed v words))

to_space_lem : (c : ℕ) → IsLine c → to_space c ≡ c
unfolding IsLine
to_space_lem c (inl p) =
    rw (ne→== c 13 p.not_return) (rw (ne→== c 10 p.not_newline) (rw (ne→== c 9 p.not_tab) refl))
to_space_lem c (inr e) = rw e refl

is_quote_lem : (c : ℕ) → IsLine c → is_quote c ≡ false
unfolding IsLine
is_quote_lem c (inl p) = rw (ne→== c 39 p.not_single) (rw (ne→== c 34 p.not_double) refl)
is_quote_lem c (inr e) = rw e refl

not_newline_lem : (c : ℕ) → IsLine c → (c == 10) ≡ false
unfolding IsLine
not_newline_lem c (inl p) = ne→== c 10 p.not_newline
not_newline_lem c (inr e) = rw e refl

pub map_chars-to_space : (s : List ℕ) → All IsLine s → map_chars to_space s ≡ s
map_chars-to_space [] p = refl
map_chars-to_space (c ∷ s) (p, ps) = ap₂ (λ d t. d ∷ t) (to_space_lem c p) (map_chars-to_space s ps)

map_chars-append :
    (f : ℕ → ℕ) (s t : List ℕ) → map_chars f (s ++ t) ≡ map_chars f s ++ map_chars f t
map_chars-append f [] t = refl
map_chars-append f (c ∷ s) t = ap (λ r. f c ∷ r) (map_chars-append f s t)

last_char_lem : (c : ℕ) (s : List ℕ) → IsLine c → All IsLine s → (last_char c s == 10) ≡ false
last_char_lem c [] p ps = not_newline_lem c p
last_char_lem c (d ∷ s) p (q, qs) = last_char_lem d s q qs

-- The line gets its newline, which becomes the space behind the last word.
pub ended :
    (c : ℕ) (s : List ℕ)
    → All IsLine (c ∷ s)
    → map_chars to_space (add_last 10 (c ∷ s)) ≡ (c ∷ s) ++ (32 ∷ [])
ended c s (p, ps) = rw (last_char_lem c s p ps) (
    map_chars-append to_space (c ∷ s) (10 ∷ [])
    ∙ ap (λ r. r ++ (32 ∷ [])) (map_chars-to_space (c ∷ s) (p, ps)))

pub hide_spaces_lem : (s : List ℕ) → All IsLine s → hide_spaces false 0 s ≡ (false, s)
unfolding hide_spaces
hide_spaces_lem [] p = refl
hide_spaces_lem (c ∷ s) (p, ps) =
    rw (is_quote_lem c p) (rw (hide_spaces_lem s ps) (and_false (c == 32)))
  where
    and_false :
        (b : Bool)
        → ◌≡◌ {A = Bool × List ℕ} (false, (if b && false then 7 else c) ∷ s) (false, c ∷ s)
    and_false true = refl
    and_false false = refl
