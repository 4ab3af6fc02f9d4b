-- ===== src/I2c/Tests.antt =====
-- A run of src/i2c/locked_i2c.c on a chip that keeps its registers, below a mutex that counts.
use embedded_template.Prelude.{ℕ, ◌≡◌, some, none, [], ◌∷◌, arith}
use embedded_template.I2c.{
  MutexOperations, LockedI2c, init_with, lockedi2c_init, lockedi2c_write_then_read,
}
use embedded_template.I2c.RegisterChip.{Chip, chip_bus}
use embedded_template.I2c.Locked.{lockedi2c_transmits_nothing}

abbrev free_mutexes : MutexOperations ℕ Chip
free_mutexes = record {
  create = λ s. (some 1, s);
  destroy = λ m s. s;
  lock = λ m s. s;
  unlock = λ m s. s;
}

abbrev unset : LockedI2c ℕ Chip
unset = record { mutex = none; below = record { regs = λ x. 0; pointer = 0 } }

lockedi2c_transmits_nothing_example :
    lockedi2c_write_then_read free_mutexes chip_bus 0x51
      (some (3 ∷ 9 ∷ []))
      2
      0
      (lockedi2c_init free_mutexes chip_bus unset).1
    ≡ (0, [], (lockedi2c_init free_mutexes chip_bus unset).1)
unfolding lockedi2c_init init_with
lockedi2c_transmits_nothing_example =
    lockedi2c_transmits_nothing free_mutexes chip_bus unset 0x51 (some (3 ∷ 9 ∷ [])) 2 0
      (λ e. omega arith)
