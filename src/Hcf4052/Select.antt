-- ===== src/Hcf4052/Select.antt =====
-- Where hcf4052_select_channel leaves the pins, and what hcf4052_get_current_channel then says.
use embedded_template.Prelude.{
  ℕ, ◌≡◌, ◌≢◌, refl, sym, ◌∙◌, Bool-cases, inl, inr, ◌==◌, if◌then◌else◌,
}
use embedded_template.Gpio.{output_pushpull, IsBank}
use embedded_template.Hcf4052.{
  Channel, channel_0, channel_1, channel_2, channel_3, channel_none, Platform, init, switch_to,
  select_channel, io_to_channel, get_current_channel,
}

-- The three pins are different ones.
pub record IsWired {Io S : Type 0} (platform : Platform Io S) : Type 0 where
  pub a_b : platform.ctrl_a ≢ platform.ctrl_b
  pub a_inh : platform.ctrl_a ≢ platform.ctrl_inh
  pub b_inh : platform.ctrl_b ≢ platform.ctrl_inh

-- The three pins are ready.
pub record IsReady {Io S : Type 0} (platform : Platform Io S) (bank : IsBank platform.gpio_ops)
    (s : S) : Type 0 where
  pub a : bank.Ready s platform.ctrl_a
  pub b : bank.Ready s platform.ctrl_b
  pub inh : bank.Ready s platform.ctrl_inh

-- The levels of the pins A, B and INH.
abbrev pub Levels :
    {Io S : Type 0} (platform : Platform Io S) → IsBank platform.gpio_ops → S → ℕ → ℕ → ℕ → Type 0
Levels platform bank s a b inh =
    (bank.level s platform.ctrl_a ≡ a)
    × (bank.level s platform.ctrl_b ≡ b)
    × (bank.level s platform.ctrl_inh ≡ inh)

-- The levels once a channel was selected in the state `s`.
abbrev pub Selected :
    {Io S : Type 0} (platform : Platform Io S) → IsBank platform.gpio_ops → S → Channel → S → Type 0
Selected platform bank s channel_0 s' = Levels platform bank s' 0 0 0
Selected platform bank s channel_1 s' = Levels platform bank s' 1 0 0
Selected platform bank s channel_2 s' = Levels platform bank s' 0 1 0
Selected platform bank s channel_3 s' = Levels platform bank s' 1 1 0
Selected platform bank s channel_none s' =
    Levels platform bank s' (bank.level s platform.ctrl_a) (bank.level s platform.ctrl_b) 1

-- The channel that a reader of pin A alone takes a channel for.
abbrev pub misread : Channel → Channel
misread channel_0 = channel_0
misread channel_1 = channel_3
misread channel_2 = channel_0
misread channel_3 = channel_3
misread channel_none = channel_none

module _ {Io S : Type 0} (platform : Platform Io S) (bank : IsBank platform.gpio_ops)
    (wired : IsWired platform) where
  IsReady-set_output :
      (io : Io) (v : ℕ) (s : S)
      → IsReady platform bank s
      → IsReady platform bank (platform.gpio_ops.set_output io v s).1
  IsReady-set_output io v s r = record {
    a = bank.drives_ready io platform.ctrl_a v s r.a;
    b = bank.drives_ready io platform.ctrl_b v s r.b;
    inh = bank.drives_ready io platform.ctrl_inh v s r.inh;
  }

  -- After `hcf4052_init` the three pins are ready, and INH is high: no channel is on.
  pub init-IsReady :
      (s : S)
      → IsReady platform bank (init platform s)
        × (bank.level (init platform s) platform.ctrl_inh ≡ 1)
  unfolding init
  init-IsReady s =
      let s1 = (platform.gpio_ops.init platform.ctrl_inh output_pushpull s).1 in
      let s2 = (platform.gpio_ops.set_output platform.ctrl_inh 1 s1).1 in
      let s3 = (platform.gpio_ops.init platform.ctrl_a output_pushpull s2).1 in
      let ready1 = bank.init_ready platform.ctrl_inh s in
      let ready2 = bank.drives_ready platform.ctrl_inh platform.ctrl_inh 1 s1 ready1 in
      let inh_a : platform.ctrl_inh ≢ platform.ctrl_a = λ e. wired.a_inh (sym e) in
      let inh_b : platform.ctrl_inh ≢ platform.ctrl_b = λ e. wired.b_inh (sym e) in
      (
        record {
          a =
              bank.init_keeps platform.ctrl_b platform.ctrl_a output_pushpull s3 wired.a_b
                (bank.init_ready platform.ctrl_a s2);
          b = bank.init_ready platform.ctrl_b s3;
          inh =
              bank.init_keeps platform.ctrl_b platform.ctrl_inh output_pushpull s3 inh_b
                (bank.init_keeps platform.ctrl_a platform.ctrl_inh output_pushpull s2 inh_a ready2);
        },
        bank.init_only platform.ctrl_b platform.ctrl_inh output_pushpull s3 inh_b
            ∙ bank.init_only platform.ctrl_a platform.ctrl_inh output_pushpull s2 inh_a
            ∙ bank.drives_high platform.ctrl_inh s1 ready1,
      )

  switch_lem :
      (a b la lb : ℕ) (s : S)
      → IsReady platform bank s
      → ((t : S)
          → bank.Ready t platform.ctrl_a
          → bank.level (platform.gpio_ops.set_output platform.ctrl_a a t).1 platform.ctrl_a ≡ la)
      → ((t : S)
          → bank.Ready t platform.ctrl_b
          → bank.level (platform.gpio_ops.set_output platform.ctrl_b b t).1 platform.ctrl_b ≡ lb)
      → IsReady platform bank (switch_to platform a b s)
        × Levels platform bank (switch_to platform a b s) la lb 0
  unfolding switch_to
  switch_lem a b la lb s r write_a write_b =
      let s1 = (platform.gpio_ops.set_output platform.ctrl_a a s).1 in
      let s2 = (platform.gpio_ops.set_output platform.ctrl_b b s1).1 in
      let r1 = IsReady-set_output platform.ctrl_a a s r in
      let r2 = IsReady-set_output platform.ctrl_b b s1 r1 in
      (
        IsReady-set_output platform.ctrl_inh 0 s2 r2,
        (
          bank.drives_only platform.ctrl_inh platform.ctrl_a 0 s2 wired.a_inh
              ∙ bank.drives_only platform.ctrl_b platform.ctrl_a b s1 wired.a_b
              ∙ write_a s r.a,
          bank.drives_only platform.ctrl_inh platform.ctrl_b 0 s2 wired.b_inh ∙ write_b s1 r1.b,
          bank.drives_low platform.ctrl_inh s2 r2.inh,
        ),
      )

  -- On ready pins, selecting a channel puts its number on the pins, the low bit on A and the high
  -- bit on B, and takes INH low; selecting no channel takes INH high and leaves A and B alone. The
  -- pins stay ready.
  pub select_channel_lem :
      (c : Channel) (s : S)
      → IsReady platform bank s
      → IsReady platform bank (select_channel platform c s)
        × Selected platform bank s c (select_channel platform c s)
  unfolding select_channel
  select_channel_lem channel_0 s r =
      switch_lem 0 0 0 0 _ (IsReady-set_output platform.ctrl_inh 1 s r) (bank.drives_low _)
        (bank.drives_low _)
  select_channel_lem channel_1 s r =
      switch_lem 1 0 1 0 _ (IsReady-set_output platform.ctrl_inh 1 s r) (bank.drives_high _)
        (bank.drives_low _)
  select_channel_lem channel_2 s r =
      switch_lem 0 1 0 1 _ (IsReady-set_output platform.ctrl_inh 1 s r) (bank.drives_low _)
        (bank.drives_high _)
  select_channel_lem channel_3 s r =
      switch_lem 1 1 1 1 _ (IsReady-set_output platform.ctrl_inh 1 s r) (bank.drives_high _)
        (bank.drives_high _)
  select_channel_lem channel_none s r = (
    IsReady-set_output platform.ctrl_inh 1 s r,
    (
      bank.drives_only platform.ctrl_inh platform.ctrl_a 1 s wired.a_inh,
      bank.drives_only platform.ctrl_inh platform.ctrl_b 1 s wired.b_inh,
      bank.drives_high platform.ctrl_inh s r.inh,
    ),
  )

  current_on :
      (a : ℕ) (s : S)
      → IsReady platform bank s
      → bank.level s platform.ctrl_inh ≡ 0
      → bank.level s platform.ctrl_a ≡ a
      → get_current_channel platform s ≡ ((if a == 0 then channel_0 else channel_3), s)
  unfolding get_current_channel io_to_channel
  current_on a s r on at =
      let read_inh = bank.reads platform.ctrl_inh s r.inh in
      let read_a = bank.reads platform.ctrl_a s r.a in
      elim (Bool-cases (a == 0)) [
        | inl low ↦
            rw (read_inh, on, get_current_channel)
              (rw (read_inh) (rw read_a (rw read_a (rw at (rw (low, io_to_channel) refl)))))
        | inr high ↦
            rw (read_inh, on, get_current_channel)
              (rw (read_inh) (rw read_a (rw read_a (rw at (rw (high, io_to_channel) refl)))))
      ]

  current_off :
      (s : S)
      → IsReady platform bank s
      → bank.level s platform.ctrl_inh ≡ 1
      → get_current_channel platform s ≡ (channel_none, s)
  unfolding get_current_channel
  current_off s r off =
      let read_inh = bank.reads platform.ctrl_inh s r.inh in
      rw (read_inh, off, get_current_channel) (rw read_inh refl)

  -- What `hcf4052_get_current_channel` says once a channel was selected on ready pins: it reads A
  -- twice and never B, so it is right for the channels 0 and 3 and for no channel, but takes
  -- channel 1 for 3 and channel 2 for 0.
  pub get_current_channel-select_channel :
      (c : Channel) (s : S)
      → IsReady platform bank s
      → get_current_channel platform (select_channel platform c s)
        ≡ (misread c, select_channel platform c s)
  get_current_channel-select_channel channel_0 s r =
      let (r', (a, b, inh)) = select_channel_lem channel_0 s r in
      current_on 0 (select_channel platform channel_0 s) r' inh a
  get_current_channel-select_channel channel_1 s r =
      let (r', (a, b, inh)) = select_channel_lem channel_1 s r in
      current_on 1 (select_channel platform channel_1 s) r' inh a
  get_current_channel-select_channel channel_2 s r =
      let (r', (a, b, inh)) = select_channel_lem channel_2 s r in
      current_on 0 (select_channel platform channel_2 s) r' inh a
  get_current_channel-select_channel channel_3 s r =
      let (r', (a, b, inh)) = select_channel_lem channel_3 s r in
      current_on 1 (select_channel platform channel_3 s) r' inh a
  get_current_channel-select_channel channel_none s r =
      let (r', (a, b, inh)) = select_channel_lem channel_none s r in
      current_off (select_channel platform channel_none s) r' inh
