-- ===== src/Softspi/Lines.antt =====
-- softspi_init and softspi_select: the levels of the select lines and of the clock.
use embedded_template.Prelude.{
  ℕ, zero, suc, ◌%◌, ◌<◌, ◌≤◌, ◌≡◌, ◌≢◌, refl, sym, ap, ◌∙◌, ◌⊎◌, inl, inr, ◌==◌, ==→eq, true,
  Bool-cases, none, some, List, [], ◌∷◌, length, bit_and, arith,
}
use embedded_template.Prelude.Bits.{holds_to, holds_at}
use embedded_template.Gpio.{input, output_pushpull, IsBank}
use embedded_template.Softspi.{
  Platform, flag_clk_idle_high, is_zero, init_cs_pins, init, cs_pin, select,
}

abbrev pub Absent : {Io : Type 0} → Io → List Io → Type 0
Absent j [] = Unit {0}
Absent j (pin ∷ pins) = (j ≢ pin) × Absent j pins

abbrev pub Distinct : {Io : Type 0} → List Io → Type 0
Distinct [] = Unit {0}
Distinct (pin ∷ pins) = Absent pin pins × Distinct pins

clk_table : holds_to (λ flags. bit_and flags flag_clk_idle_high == flags % 2) 256 ≡ true
unfolding holds_to
clk_table = refl

parity : (n : ℕ) → (n % 2 ≡ 0) ⊎ (n % 2 ≡ 1)
parity n = elim (Bool-cases (n % 2 == 0)) [
  | inl even ↦ inl (==→eq _ _ even)
  | inr odd ↦ inr (ground arith)
]

module _ {Io S : Type 0} (plat : Platform Io S) (bank : IsBank plat.gpio_ops) where
  -- Every pin of the list is high.
  abbrev pub AllHigh : S → List Io → Type 0
  AllHigh s [] = Unit {0}
  AllHigh s (pin ∷ pins) = (bank.level s pin ≡ 1) × AllHigh s pins

  -- Every pin of the list is ready.
  abbrev pub AllReady : S → List Io → Type 0
  AllReady s [] = Unit {0}
  AllReady s (pin ∷ pins) = bank.Ready s pin × AllReady s pins

  cs_pin_found :
      (pins : List Io) (which : ℕ) (s : S)
      → AllReady s pins
      → ((which < length pins) × (pin : Io) × (cs_pin pins which ≡ some pin) × bank.Ready s pin)
        ⊎ ((length pins ≤ which) × (cs_pin pins which ≡ none))
  unfolding cs_pin
  cs_pin_found [] which s ready = inr (omega arith, refl)
  cs_pin_found (pin ∷ pins) zero s (r, ready) = inl (omega arith, pin, refl, r)
  cs_pin_found (pin ∷ pins) (suc which) s (r, ready) = elim (cs_pin_found pins which s ready) [
    | inl (less, p, found, r') ↦ inl (omega arith, p, found, r')
    | inr (beyond, missing) ↦ inr (omega arith, missing)
  ]

  AllHigh-keep :
      (x : Io) (s s' : S) (pins : List Io)
      → Absent x pins
      → ((j : Io) → j ≢ x → bank.level s' j ≡ bank.level s j)
      → AllHigh s pins
      → AllHigh s' pins
  AllHigh-keep x s s' [] gone same high = tt
  AllHigh-keep x s s' (pin ∷ pins) (ne, gone) same (h, high) =
      (same pin (λ e. ne (sym e)) ∙ h, AllHigh-keep x s s' pins gone same high)

  init_cs_pins_only :
      (pins : List Io) (j : Io) (s : S)
      → Absent j pins
      → bank.level (init_cs_pins plat.gpio_ops pins s) j ≡ bank.level s j
  unfolding init_cs_pins
  init_cs_pins_only [] j s gone = refl
  init_cs_pins_only (pin ∷ pins) j s (ne, gone) =
      let s1 = (plat.gpio_ops.init pin output_pushpull s).1 in
      init_cs_pins_only pins j (plat.gpio_ops.set_output pin 1 s1).1 gone
      ∙ bank.drives_only pin j 1 s1 ne
      ∙ bank.init_only pin j output_pushpull s ne

  init_cs_pins-AllHigh :
      (pins : List Io) (s : S) → Distinct pins → AllHigh (init_cs_pins plat.gpio_ops pins s) pins
  unfolding init_cs_pins
  init_cs_pins-AllHigh [] s d = tt
  init_cs_pins-AllHigh (pin ∷ pins) s (gone, d) =
      let s1 = (plat.gpio_ops.init pin output_pushpull s).1 in
      (
        init_cs_pins_only pins pin (plat.gpio_ops.set_output pin 1 s1).1 gone
            ∙ bank.drives_high pin s1 (bank.init_ready pin s),
        init_cs_pins-AllHigh pins (plat.gpio_ops.set_output pin 1 s1).1 d,
      )

  clk_written :
      (flags : ℕ) (s : S)
      → flags < 256
      → bank.Ready s plat.clk
      → bank.level
          (plat.gpio_ops.set_output plat.clk (bit_and flags flag_clk_idle_high) s).1
          plat.clk
        ≡ flags % 2
  clk_written flags s h r =
      let bit = ==→eq _ _ (holds_at _ 256 clk_table flags h) in
      elim (parity flags) [
        | inl even ↦
            ap (λ v. bank.level (plat.gpio_ops.set_output plat.clk v s).1 plat.clk) (bit ∙ even)
            ∙ bank.drives_low plat.clk s r
            ∙ sym even
        | inr odd ↦
            ap (λ v. bank.level (plat.gpio_ops.set_output plat.clk v s).1 plat.clk) (bit ∙ odd)
            ∙ bank.drives_high plat.clk s r
            ∙ sym odd
      ]

  -- Where all pins of the bus are different ones, `softspi_init` leaves every select line high, so
  -- that no device is selected, and the clock at the idle level that bit 0 of the flags says; it
  -- keeps the flags and answers 1.
  pub init-AllHigh :
      (flags : ℕ) (s : S)
      → flags < 256
      → Distinct (plat.clk ∷ plat.mosi ∷ plat.miso ∷ plat.cs_pins)
      → let (kept, answer, s') = init plat flags s in
        (kept ≡ flags)
        × (answer ≡ 1)
        × AllHigh s' plat.cs_pins
        × (bank.level s' plat.clk ≡ flags % 2)
  unfolding init
  init-AllHigh flags s h ((clk_mosi, (clk_miso, clk_cs)), ((mosi_miso, mosi_cs), (miso_cs, d))) =
      let v = bit_and flags flag_clk_idle_high in
      let s1 = init_cs_pins plat.gpio_ops plat.cs_pins s in
      let s2 = (plat.gpio_ops.init plat.clk output_pushpull s1).1 in
      let s3 = (plat.gpio_ops.set_output plat.clk v s2).1 in
      let s4 = (plat.gpio_ops.init plat.mosi output_pushpull s3).1 in
      let s5 = (plat.gpio_ops.init plat.miso input s4).1 in
      (
        refl,
        refl,
        AllHigh-keep plat.miso s4 s5 plat.cs_pins miso_cs
            (λ j ne. bank.init_only plat.miso j input s4 ne)
            (AllHigh-keep plat.mosi s3 s4 plat.cs_pins mosi_cs
              (λ j ne. bank.init_only plat.mosi j output_pushpull s3 ne)
              (AllHigh-keep plat.clk s2 s3 plat.cs_pins clk_cs
                (λ j ne. bank.drives_only plat.clk j v s2 ne)
                (AllHigh-keep plat.clk s1 s2 plat.cs_pins clk_cs
                  (λ j ne. bank.init_only plat.clk j output_pushpull s1 ne)
                  (init_cs_pins-AllHigh plat.cs_pins s d)))),
        bank.init_only plat.miso plat.clk input s4 clk_miso
            ∙ bank.init_only plat.mosi plat.clk output_pushpull s3 clk_mosi
            ∙ clk_written flags s2 h (bank.init_ready plat.clk s1),
      )

  -- Where the select lines are ready, `softspi_select` of a line that there is answers 1, drives that
  -- line low to select and high to deselect, and leaves every other pin alone; of a line beyond the
  -- last it answers 0 and does nothing.
  pub select_lem :
      (which is_select : ℕ) (s : S)
      → AllReady s plat.cs_pins
      → ((which < length plat.cs_pins)
          × ((pin : Io) × (cs_pin plat.cs_pins which ≡ some pin)
              × ((select plat which is_select s).0 ≡ 1)
              × (bank.level (select plat which is_select s).1 pin ≡ is_zero is_select)
              × ((j : Io)
                  → j ≢ pin
                  → bank.level (select plat which is_select s).1 j ≡ bank.level s j)))
        ⊎ ((length plat.cs_pins ≤ which) × (select plat which is_select s ≡ (0, s)))
  unfolding select
  select_lem which is_select s ready = elim (cs_pin_found plat.cs_pins which s ready) [
    | inl (less, pin, found, r) ↦ inl (
      less,
      (
        pin,
        found,
        rw (found, select) refl,
        rw (found, select)
            (elim (Bool-cases (is_select == 0)) [
              | inl off ↦ rw off (bank.drives_high pin s r)
              | inr on ↦ rw on (bank.drives_low pin s r)
            ]),
        λ j ne. rw (found, select) (bank.drives_only pin j (is_zero is_select) s ne),
      ),
    )
    | inr (beyond, missing) ↦ inr (beyond, rw (missing, select) refl)
  ]
