-- ===== src/I2c/Locked.antt =====
-- src/i2c/locked_i2c.c: transfers on a bus after it was set up.
use embedded_template.Prelude.{
  ℕ, ◌==◌, Bool-cases, ◌≡◌, ◌≢◌, refl, inl, inr, Option, none, some, List, [],
}
use embedded_template.I2c.{
  I2cBus, MutexOperations, LockedI2c, init_with, lockedi2c_init, lockedi2c_write_then_read,
}

module _ {M S : Type 0} (os : MutexOperations M S) (bus : I2cBus S) where
  -- The mutex is there exactly when the bus was set up.
  init_with-mutex :
      (mutex : Option M) (s : S)
      → (init_with os bus mutex s).0 ≢ 0
      → (m : M) × ((init_with os bus mutex s).1.mutex ≡ some m)
  unfolding init_with
  init_with-mutex none s done = absurd (done refl)
  init_with-mutex (some m) s done = elim (Bool-cases ((bus.init s).0 == 0)) [
    | inl f ↦ absurd (done (rw f refl))
    | inr f ↦ (m, rw f refl)
  ]

  transmit_some :
      (m : M) (i2c : LockedI2c M S)
      → i2c.mutex ≡ some m
      → (addr : ℕ) (w : Option (List ℕ)) (wlen rlen : ℕ)
      → lockedi2c_write_then_read os bus addr w wlen rlen i2c ≡ (0, [], i2c)
  unfolding lockedi2c_write_then_read
  transmit_some m i2c e addr w wlen rlen = rw e refl

  -- After a locked bus was set up, no transfer goes to the bus: each answers 0, stores nothing and
  -- changes nothing, whatever is to be written and read.
  pub lockedi2c_transmits_nothing :
      (i2c : LockedI2c M S) (addr : ℕ) (w : Option (List ℕ)) (wlen rlen : ℕ)
      → (lockedi2c_init os bus i2c).0 ≢ 0
      → lockedi2c_write_then_read os bus addr w wlen rlen (lockedi2c_init os bus i2c).1
        ≡ (0, [], (lockedi2c_init os bus i2c).1)
  unfolding lockedi2c_init
  lockedi2c_transmits_nothing i2c addr w wlen rlen done =
      let (mutex, s) = os.create i2c.below in
      let (m, e) = init_with-mutex mutex s done in
      transmit_some m (lockedi2c_init os bus i2c).1 e addr w wlen rlen
