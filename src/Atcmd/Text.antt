-- ===== src/Atcmd/Text.antt =====
-- The functions of the C library that src/atcmd/atcmd.c calls on text, and src/atcmd/atcmd.c:
-- is_ip_string and atoi_skip_bank_prefix. Text is given as the memory from its first byte on: it ends
-- at the first 0, and what lies behind that is kept, since the source also looks there.
use Prim.Native.Char.{code}
use Prim.Native.String.{String}
use embedded_template.Prelude.{
  ℕ, zero, suc, ◌+◌, ◌-◌, ◌*◌, ◌/◌, ◌%◌, ◌≡◌, ◌≢◌, All, arith, min, Bool, true, false, ◌&&◌, ◌||◌,
  not, Option, none, some, List, [], ◌∷◌, ◌++◌, length, drop, get_or, ltb, leb, ◌==◌, if◌then◌else◌,
  u32,
}

-- The bytes of a literal.
abbrev pub codes : String → List ℕ
codes String.[] = []
codes (String.◌∷◌ c s) = code c ∷ codes s

-- No byte of the literal is 0.
abbrev pub no_zero : List ℕ → Bool
no_zero [] = true
no_zero (c ∷ s) = not (c == 0) && no_zero s

pub no_zero→All : (s : List ℕ) → no_zero s ≡ true → All (λ c. c ≢ 0) s
no_zero→All [] h = tt
no_zero→All (c ∷ s) h = (ground arith, no_zero→All s (ground arith))

-- The byte that a pointer to the text points to.
abbrev pub front : List ℕ → ℕ
front s = get_or s 0 0

unfoldable pub strlen : List ℕ → ℕ
strlen [] = 0
strlen (c ∷ s) = if c == 0 then 0 else suc (strlen s)

-- `strcmp(s, t) == 0`, with `t` a literal.
unfoldable pub strcmp_eq : List ℕ → List ℕ → Bool
strcmp_eq s [] = front s == 0
strcmp_eq [] (c ∷ t) = false
strcmp_eq (x ∷ s) (c ∷ t) = (x == c) && strcmp_eq s t

-- `strchr(s, c)` for a `c` that is not 0: the text from the first `c` on.
unfoldable pub strchr : List ℕ → ℕ → Option (List ℕ)
strchr [] c = none
strchr (x ∷ s) c = if x == c then some (x ∷ s) else if x == 0 then none else strchr s c

-- 36 stands for a byte that is no digit in any base.
unfoldable pub digit_of : ℕ → ℕ
digit_of c =
    if leb 48 c && leb c 57
    then c - 48
    else if leb 97 c && leb c 122
    then c - 87
    else if leb 65 c && leb c 90
    then c - 55
    else 36

unfoldable pub is_space : ℕ → Bool
is_space c = (c == 32) || (leb 9 c && leb c 13)

unfoldable pub skip_spaces : List ℕ → List ℕ
unfolding is_space
skip_spaces [] = []
skip_spaces (c ∷ s) = if is_space c then skip_spaces s else c ∷ s

-- The number that the digits spell behind `v`, and the text that follows them.
unfoldable pub strtol_digits : ℕ → ℕ → List ℕ → ℕ × List ℕ
unfolding digit_of
strtol_digits base v [] = (v, [])
strtol_digits base v (c ∷ s) =
    if ltb (digit_of c) base then strtol_digits base (v * base + digit_of c) s else (v, c ∷ s)

-- A `long` of 32 bits as its bit pattern; a number out of range is the nearest in range.
unfoldable pub long_of : Bool → ℕ → ℕ
long_of false v = min v 2147483647
long_of true v = u32 (4294967296 - min v 2147483648)

abbrev pub is_negative : ℕ → Bool
is_negative v = leb 2147483648 v

unfoldable pub skip_sign : List ℕ → List ℕ
skip_sign [] = []
skip_sign (c ∷ s) = if (c == 43) || (c == 45) then s else c ∷ s

-- In base 16 the digits may follow `0x` or `0X`.
unfoldable pub skip_base : ℕ → List ℕ → List ℕ
unfolding digit_of
skip_base base s =
    if (base == 16)
      && (get_or s 0 0 == 48)
      && ((get_or s 1 0 == 120) || (get_or s 1 0 == 88))
      && ltb (digit_of (get_or s 2 0)) 16
    then drop 2 s
    else s

-- `strtol(s, &end, base)`: the number, and the text at `end`, which is `s` where there is no digit.
unfoldable pub strtol : ℕ → List ℕ → ℕ × List ℕ
unfolding skip_spaces skip_sign skip_base strtol_digits long_of digit_of
strtol base s =
    let signed = skip_spaces s in
    let digits = skip_base base (skip_sign signed) in
    let (v, rest) = strtol_digits base 0 digits in
    if ltb (digit_of (front digits)) base then (long_of (front signed == 45) v, rest) else (0, s)

unfoldable pub atoi : List ℕ → ℕ
unfolding strtol
atoi s = (strtol 10 s).0

unfoldable pub skip_blanks : List ℕ → List ℕ
skip_blanks [] = []
skip_blanks (c ∷ s) = if (c == 32) || (c == 9) then skip_blanks s else c ∷ s

-- The pointer is never NULL where the source calls the function.
unfoldable pub atoi_skip_bank_prefix : List ℕ → ℕ
unfolding skip_blanks atoi
atoi_skip_bank_prefix s = atoi (skip_blanks s)

-- `ipseg < 0 || ipseg > 255 || *p != stop` does not hold.
abbrev pub segment_ok : ℕ → List ℕ → ℕ → Bool
segment_ok ipseg p stop = not (is_negative ipseg) && leb ipseg 255 && (front p == stop)

unfoldable pub is_ip_string : Option (List ℕ) → Bool
unfolding strtol
is_ip_string none = false
is_ip_string (some s) =
    let (seg1, p1) = strtol 10 s in
    let (seg2, p2) = strtol 10 (drop 1 p1) in
    let (seg3, p3) = strtol 10 (drop 1 p2) in
    let (seg4, p4) = strtol 10 (drop 1 p3) in
    segment_ok seg1 p1 46 && segment_ok seg2 p2 46 && segment_ok seg3 p3 46 && segment_ok seg4 p4 0

-- What `sprintf` writes for `%d` at a number that is not negative. Each round divides the number, so
-- as many rounds as the number says, and one more, are enough.
unfoldable pub decimal_loop : ℕ → ℕ → List ℕ → List ℕ
decimal_loop zero n acc = acc
decimal_loop (suc fuel) n acc = elim (n / 10 == 0) [
  | true ↦ (48 + n % 10) ∷ acc
  | false ↦ decimal_loop fuel (n / 10) ((48 + n % 10) ∷ acc)
]

unfoldable pub print_decimal : ℕ → List ℕ
unfolding decimal_loop
print_decimal n = decimal_loop (suc n) n []

-- The memory at `s` after a text and its terminating 0 were stored there.
abbrev pub write_text : List ℕ → List ℕ → List ℕ
write_text text s = text ++ 0 ∷ drop (suc (length text)) s
