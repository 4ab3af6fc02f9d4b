-- ===== src/RingBuffer/Tests.antt =====
-- Runs of the ring buffer, and its theorems at concrete rings.
use embedded_template.Prelude.{
  ◌<◌, ◌≤◌, ◌≡◌, refl, ◌⊎◌, true, some, [], ◌∷◌, length, drop, take, arith,
}
use embedded_template.RingBuffer.{RingBuffer, put_loop, put, write, try_read_loop, try_read, read}
use embedded_template.RingBuffer.Invariant.{IsValid, Holds}
use embedded_template.RingBuffer.Append.{write_refines}
use embedded_template.RingBuffer.Take.{try_read_refines, read_refines, try_read-write}
use embedded_template.RingBuffer.Strings.{read_string_and_is_with_prefix}
use embedded_template.RingBuffer.Strings.Prefix.{with_prefix_refines}

-- 8, then 9, round the end of the storage.
abbrev wrapped : RingBuffer
wrapped = record { cap = 4; len = 2; in_pos = 1; out_pos = 3; buf = 9 ∷ 7 ∷ 6 ∷ 8 ∷ [] }

-- The string "ab" and its terminating 0, then "c".
abbrev text : RingBuffer
text = record { cap = 5; len = 4; in_pos = 4; out_pos = 0; buf = 97 ∷ 98 ∷ 0 ∷ 99 ∷ 0 ∷ [] }

wrapped-IsValid : IsValid wrapped
wrapped-IsValid = omega arith

text-IsValid : IsValid text
text-IsValid = omega arith

wrapped-Holds : Holds (some wrapped) 4 (8 ∷ 9 ∷ [])
wrapped-Holds = (wrapped-IsValid, refl, refl)

text-Holds : Holds (some text) 5 (97 ∷ 98 ∷ 0 ∷ 99 ∷ [])
text-Holds = (text-IsValid, refl, refl)

put_run :
    put (some wrapped) 5 9
    ≡ (some (record wrapped { len = 4; in_pos = 3; buf = 9 ∷ 5 ∷ 5 ∷ 8 ∷ [] }), 2)
unfolding put put_loop
put_run = refl

try_read_run :
    try_read (some wrapped) true 9 ≡ (some (record wrapped { len = 0; out_pos = 1 }), 8 ∷ 9 ∷ [], 2)
unfolding try_read try_read_loop
try_read_run = refl

write_refines_example :
    let (rb', n) = write (some wrapped) (some (1 ∷ 2 ∷ [])) 2 in
    ((4 ≤ 4) × Holds rb' 4 (8 ∷ 9 ∷ 1 ∷ 2 ∷ []) × (n ≡ 2))
    ⊎ ((4 < 4) × (rb' ≡ some wrapped) × (n ≡ 0))
write_refines_example = write_refines (some wrapped) 4 (8 ∷ 9 ∷ []) (1 ∷ 2 ∷ []) wrapped-Holds

try_read_refines_example :
    let (rb', out, n) = try_read (some wrapped) true 1 in
    Holds rb' 4 (drop n (8 ∷ 9 ∷ [])) × (out ≡ take n (8 ∷ 9 ∷ [])) × (n ≡ 1)
try_read_refines_example = try_read_refines (some wrapped) 4 (8 ∷ 9 ∷ []) 1 wrapped-Holds

-- Four bytes are stored, and a read of four is refused.
read_refines_example :
    let (rb', out, n) = read (some text) true 4 in
    ((5 < 8) × (rb' ≡ some text) × (out ≡ []) × (n ≡ 0))
    ⊎ ((8 ≤ 5)
        × Holds rb' 5 (drop n (97 ∷ 98 ∷ 0 ∷ 99 ∷ []))
        × (out ≡ take n (97 ∷ 98 ∷ 0 ∷ 99 ∷ []))
        × (n ≡ 4))
read_refines_example = read_refines (some text) 5 (97 ∷ 98 ∷ 0 ∷ 99 ∷ []) 4 text-Holds

try_read-write_example :
    let (rb', n) = write (some wrapped) (some (1 ∷ 2 ∷ [])) 2 in
    let (rb'', out, n') = try_read rb' true 4 in
    Holds rb'' 4 [] × (n ≡ 2) × (out ≡ 8 ∷ 9 ∷ 1 ∷ 2 ∷ []) × (n' ≡ 4)
try_read-write_example =
    try_read-write (some wrapped) 4 (8 ∷ 9 ∷ []) (1 ∷ 2 ∷ []) wrapped-Holds (omega arith)

with_prefix_refines_example :
    let (rb', out, n, answer) =
      read_string_and_is_with_prefix (some text) (some (97 ∷ [])) true (some 9) in
    Holds rb' 5 (99 ∷ []) × (out ≡ 97 ∷ 98 ∷ 0 ∷ []) × (n ≡ some (length out)) × (answer ≡ true)
with_prefix_refines_example =
    with_prefix_refines (some text) 5 (97 ∷ 98 ∷ 0 ∷ 99 ∷ []) (97 ∷ []) true 9 text-Holds
      (omega arith) (omega arith)
