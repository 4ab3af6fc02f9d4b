-- ===== src/Softspi/Tests.antt =====
-- The bus's theorems for bytes sent least bit first, on an idle clock that is low.
use embedded_template.Prelude.{◌≡◌, refl, true, false, some, none, List, [], ◌∷◌, ℕ, arith}
use embedded_template.Softspi.{transfer}
use embedded_template.Softspi.Listener.{listener}
use embedded_template.Softspi.Stream.{stream, reverse_onto, wire, transfer_lem}

transfer_lem_example :
    let run = transfer (listener true 0) 6 0xff in
    let s = wire false 0 0 [] (stream true (3 ∷ 4 ∷ [])) in
    ((mosi' : ℕ) × (miso' : ℕ) × (run true (some (1 ∷ 2 ∷ [])) 2 s
        ≡ (2, 3 ∷ 4 ∷ [], wire false mosi' miso' (reverse_onto (stream true (1 ∷ 2 ∷ [])) []) [])))
    × ((mosi' : ℕ) × (miso' : ℕ) × (run false (some (1 ∷ 2 ∷ [])) 2 s
          ≡ (2, [], wire false mosi' miso' (reverse_onto (stream true (1 ∷ 2 ∷ [])) []) [])))
    × ((mosi' : ℕ) × (miso' : ℕ) × (taken' : List ℕ) × (run true none 2 s
          ≡ (2, 3 ∷ 4 ∷ [], wire false mosi' miso' taken' [])))
    × (run false none 2 s ≡ (0, [], s))
transfer_lem_example =
    transfer_lem true true false (1 ∷ 2 ∷ []) (3 ∷ 4 ∷ []) 0xff 0 0 [] (omega arith) (omega arith)
      (omega arith) refl
