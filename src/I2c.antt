-- ===== src/I2c.antt =====
-- src/i2c: the table of operations that every driver of a chip on the two-wire bus goes through, and
-- locked_i2c.c, the same table with a mutex around each transfer.
pub mod RegisterChip
pub mod Locked
mod Tests
use embedded_template.Prelude.{
  ℕ, ◌==◌, Bool, true, false, Option, none, some, List, [], length, if◌then◌else◌,
}
use embedded_template.Softi2c.{Platform}
use embedded_template.Softi2c

-- `struct i2c_bus` with its `struct i2c_operations`. A transfer takes the chip's address, the bytes to
-- write, none for a NULL pointer, and their number, and the number of bytes to read, 0 for a NULL
-- pointer. It answers the number of bytes that went through, and what is stored to the buffer.
pub record I2cBus (S : Type 0) : Type 0 where
  pub init : S → ℕ × S
  pub deinit : S → S
  pub transmit : ℕ → Option (List ℕ) → ℕ → ℕ → S → ℕ × List ℕ × S

-- `softi2c_ops`.
abbrev pub softi2c_ops : {Io S : Type 0} → Platform Io S → I2cBus S
softi2c_ops p = record {
  init = λ s. Softi2c.init p s;
  deinit = λ s. Softi2c.deinit p s;
  transmit = λ addr w wlen rlen s. Softi2c.write_then_read p addr w (not_zero rlen) rlen s;
}
  where
    not_zero : ℕ → Bool
    not_zero n = if n == 0 then false else true

-- What platform_os.h offers: a mutex may fail to be created.
pub record MutexOperations (M S : Type 0) : Type 0 where
  pub create : S → Option M × S
  pub destroy : M → S → S
  pub lock : Option M → S → S
  pub unlock : Option M → S → S

-- `struct lockedi2c_platform`: the mutex, and the state of the bus and of the system below.
pub record LockedI2c (M S : Type 0) : Type 0 where
  pub mutex : Option M
  pub below : S

module _ {M S : Type 0} (os : MutexOperations M S) (bus : I2cBus S) where
  -- `lockedi2c_init` after it asked for the mutex.
  unfoldable pub init_with : Option M → S → ℕ × LockedI2c M S
  init_with none s = (0, record { mutex = none; below = s })
  init_with (some m) s =
      let (ok, s') = bus.init s in
      if ok == 0
      then (0, record { mutex = none; below = os.destroy m s' })
      else (1, record { mutex = some m; below = s' })

  unfoldable pub lockedi2c_init : LockedI2c M S → ℕ × LockedI2c M S
  lockedi2c_init i2c = let (mutex, s) = os.create i2c.below in init_with mutex s

  unfoldable pub lockedi2c_deinit : LockedI2c M S → LockedI2c M S
  lockedi2c_deinit i2c = elim i2c.mutex [
    | none ↦ i2c
    | some m ↦ record {
      mutex = none;
      below = os.destroy m (os.unlock (some m) (bus.deinit (os.lock (some m) i2c.below)));
    }
  ]

  -- The test that the mutex is NULL is the source's.
  unfoldable pub lockedi2c_write_then_read :
      ℕ → Option (List ℕ) → ℕ → ℕ → LockedI2c M S → ℕ × List ℕ × LockedI2c M S
  lockedi2c_write_then_read addr w wlen rlen i2c = elim i2c.mutex [
    | none ↦
        let (len, r, s) = bus.transmit addr w wlen rlen (os.lock none i2c.below) in
        (len, r, record i2c { below = os.unlock none s })
    | some m ↦ (0, [], i2c)
  ]
