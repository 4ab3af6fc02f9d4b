-- ===== src/Softi2c/Tests.antt =====
-- Runs of the transfers of src/i2c/softi2c.c on concrete bytes.
use embedded_template.Prelude.{true, ◌≡◌, refl, some, [], ◌∷◌, arith}
use embedded_template.Softi2c.{write_then_read}
use embedded_template.Softi2c.Monitor.{started, stopped, master, idle}
use embedded_template.Softi2c.Bytes.{releases, shows, written, received}
use embedded_template.Softi2c.Transfers.{write_then_read_lem}

write_then_read_lem_example :
    write_then_read master 0x48
      (some (1 ∷ []))
      true
      2
      (idle (releases 0 (releases 0 (releases 0 (shows 0x12 (shows 0x34 []))))) [])
    ≡ (
      3,
      0x12 ∷ 0x34 ∷ [],
      idle [] (
          stopped
          ∷ received 0x34 1 (
              received 0x12 0
                (written 0x91 0 (started ∷ written 1 0 (written 0x90 0 (started ∷ [])))))),
    )
write_then_read_lem_example =
    write_then_read_lem 0x48 1 [] (0x12 ∷ 0x34 ∷ []) [] [] (omega arith, tt) refl (omega arith)
      (omega arith, (omega arith, tt))
