-- ===== src/Atcmd/Address.antt =====
-- Numbers as they are printed and read back, and the addresses that is_ip_string accepts.
use embedded_template.Prelude.{
  ℕ, zero, suc, ◌+◌, ◌*◌, ◌/◌, ◌%◌, ◌<◌, ◌≡◌, refl, sym, ap, ◌∙◌, min, true, false, ◌&&◌, ◌||◌, inl,
  inr, Bool-cases, some, List, [], ◌∷◌, ◌++◌, ltb, leb, ◌==◌, arith,
}
use embedded_template.Atcmd.Text.{
  front, digit_of, skip_spaces, is_space, skip_sign, skip_base, strtol_digits, long_of, strtol,
  segment_ok, is_ip_string, decimal_loop, print_decimal,
}

pub decimal_loop-append :
    (fuel n : ℕ) (acc rest : List ℕ)
    → decimal_loop fuel n acc ++ rest ≡ decimal_loop fuel n (acc ++ rest)
unfolding decimal_loop
decimal_loop-append zero n acc rest = refl
decimal_loop-append (suc fuel) n acc rest = elim (Bool-cases (n / 10 == 0)) [
  | inl last ↦ rw (last, decimal_loop) refl
  | inr more ↦
      rw (more, decimal_loop) (decimal_loop-append fuel (n / 10) ((48 + n % 10) ∷ acc) rest)
]

digit_lem : (d : ℕ) → d < 10 → (ltb (digit_of (48 + d)) 10 ≡ true) × (digit_of (48 + d) ≡ d)
unfolding digit_of
digit_lem d h = (ground arith, ground arith)

digits_step :
    (v d : ℕ) (s : List ℕ)
    → d < 10
    → strtol_digits 10 v ((48 + d) ∷ s) ≡ strtol_digits 10 (v * 10 + d) s
unfolding strtol_digits
digits_step v d s h =
    let (digit, value) = digit_lem d h in
    rw (digit, strtol_digits) (ap (λ k. strtol_digits 10 (v * 10 + k) s) value)

-- The digits printed spell the number.
digits_back :
    (fuel n : ℕ) (acc : List ℕ)
    → n < fuel
    → strtol_digits 10 0 (decimal_loop fuel n acc) ≡ strtol_digits 10 n acc
unfolding decimal_loop
digits_back zero n acc h = absurd (omega arith)
digits_back (suc fuel) n acc h = elim (Bool-cases (n / 10 == 0)) [
  | inl last ↦
      let whole : 0 * 10 + n % 10 ≡ n = ground arith in
      rw (last, decimal_loop)
        (digits_step 0 (n % 10) acc (omega arith) ∙ ap (λ k. strtol_digits 10 k acc) whole)
  | inr more ↦
      let whole : n / 10 * 10 + n % 10 ≡ n = omega arith in
      rw (more, decimal_loop)
        (digits_back fuel (n / 10) ((48 + n % 10) ∷ acc) (ground arith)
          ∙ digits_step (n / 10) (n % 10) acc (omega arith)
          ∙ ap (λ k. strtol_digits 10 k acc) whole)
]

-- What is printed begins with a digit.
pub digits_first :
    (fuel n : ℕ) (acc : List ℕ)
    → n < fuel
    → (d : ℕ) × (s : List ℕ) × (d < 10) × (decimal_loop fuel n acc ≡ (48 + d) ∷ s)
unfolding decimal_loop
digits_first zero n acc h = absurd (omega arith)
digits_first (suc fuel) n acc h = elim (Bool-cases (n / 10 == 0)) [
  | inl last ↦ rw (last, decimal_loop) (n % 10, acc, omega arith, refl)
  | inr more ↦
      rw (more, decimal_loop) (digits_first fuel (n / 10) ((48 + n % 10) ∷ acc) (ground arith))
]

strtol_first :
    (d : ℕ) (s : List ℕ)
    → d < 10
    → strtol 10 ((48 + d) ∷ s)
      ≡ (let (v, rest) = strtol_digits 10 0 ((48 + d) ∷ s) in (long_of false v, rest))
unfolding strtol skip_spaces is_space skip_sign skip_base
strtol_first d s h =
    let space : ((48 + d == 32) || (leb 9 (48 + d) && leb (48 + d) 13)) ≡ false = ground arith in
    let sign : ((48 + d == 43) || (48 + d == 45)) ≡ false = ground arith in
    let minus : (48 + d == 45) ≡ false = ground arith in
    rw (space, sign, (digit_lem d h).0, minus) refl

digits_stop :
    (v : ℕ) (rest : List ℕ)
    → ltb (digit_of (front rest)) 10 ≡ false
    → strtol_digits 10 v rest ≡ (v, rest)
unfolding strtol_digits
digits_stop v [] stop = refl
digits_stop v (c ∷ rest) stop = rw stop refl

long_pair : ℕ × List ℕ → ℕ × List ℕ
long_pair (v, rest) = (long_of false v, rest)

-- The text of a number is read back as that number, or as the greatest `long`.
pub strtol-print_decimal :
    (n : ℕ) (rest : List ℕ)
    → ltb (digit_of (front rest)) 10 ≡ false
    → strtol 10 (print_decimal n ++ rest) ≡ (min n 2147483647, rest)
unfolding print_decimal long_of long_pair
strtol-print_decimal n rest stop =
    let text = decimal_loop (suc n) n rest in
    let (d, s, digit, first) = digits_first (suc n) n rest (omega arith) in
    let back = digits_back (suc n) n rest (omega arith) ∙ digits_stop n rest stop in
    ap (strtol 10) (decimal_loop-append (suc n) n [] rest)
    ∙ ap (strtol 10) first
    ∙ strtol_first d s digit
    ∙ ap long_pair (ap (strtol_digits 10 0) (sym first) ∙ back)

-- Four numbers with dots between them, and the 0 behind them.
abbrev pub dotted : ℕ → ℕ → ℕ → ℕ → List ℕ → List ℕ
dotted a b c d behind =
    print_decimal a
    ++ 46 ∷ (print_decimal b ++ 46 ∷ (print_decimal c ++ 46 ∷ (print_decimal d ++ 0 ∷ behind)))

segment_lem : (n stop : ℕ) (s : List ℕ) → segment_ok (min n 2147483647) (stop ∷ s) stop ≡ leb n 255
segment_lem n stop s = ground arith

-- Of four numbers in decimal with dots between them, `is_ip_string` accepts exactly those of which
-- none is above 255.
pub is_ip_string-dotted :
    (a b c d : ℕ) (behind : List ℕ)
    → is_ip_string (some (dotted a b c d behind))
      ≡ (leb a 255 && leb b 255 && leb c 255 && leb d 255)
unfolding is_ip_string digit_of
is_ip_string-dotted a b c d behind =
    let s4 = print_decimal d ++ 0 ∷ behind in
    let s3 = print_decimal c ++ 46 ∷ s4 in
    let s2 = print_decimal b ++ 46 ∷ s3 in
    rw
      (
        strtol-print_decimal a (46 ∷ s2) refl,
        strtol-print_decimal b (46 ∷ s3) refl,
        strtol-print_decimal c (46 ∷ s4) refl,
        strtol-print_decimal d (0 ∷ behind) refl,
        segment_lem a 46 s2,
        segment_lem b 46 s3,
        segment_lem c 46 s4,
        segment_lem d 0 behind,
      )
      refl
