-- ===== src/Async/Queue.antt =====
-- The commands that wait in the looper's ring, one behind the other in bytes.
use embedded_template.Prelude.{
  ℕ, ◌+◌, ◌≤◌, ◌<◌, ◌≡◌, refl, sym, ap, subst, ◌∙◌, ◌⊎◌, inl, inr, true, false, Option, some, List,
  [], ◌∷◌, ◌++◌, append-nil, append_assoc, length, length-append, take, drop, take-append,
  drop-append, drop_all, ne→==, eq→==, arith,
}
use embedded_template.RingBuffer.{RingBuffer, write, read, clear}
use embedded_template.RingBuffer.Invariant.{Holds}
use embedded_template.RingBuffer.Append.{write_refines}
use embedded_template.RingBuffer.Take.{read_refines}
use embedded_template.Async.{Async, Command, Layout, notify_loop}
use embedded_template.Async.Events.{Run}
use embedded_template.Async.Looper.{take_command, exec_command}

abbrev pub bytes : Layout → List Command → List ℕ
bytes layout [] = []
bytes layout (c ∷ q) = layout.encode c ++ bytes layout q

-- The ring holds exactly the commands `q`, the oldest first.
abbrev pub Queued : Layout → List Command → Async → Type 0
Queued layout q s = Holds s.rb 100 (bytes layout q)

module _ (layout : Layout) where
  pub bytes-append :
      (q : List Command) (c : Command)
      → bytes layout (q ++ c ∷ []) ≡ bytes layout q ++ layout.encode c
  bytes-append [] c = append-nil (layout.encode c)
  bytes-append (d ∷ q) c =
      ap (λ l. layout.encode d ++ l) (bytes-append q c)
      ∙ sym (append_assoc (layout.encode d) (bytes layout q) (layout.encode c))

  -- A command is queued behind the others if its bytes fit, and else refused.
  pub notify_loop-Queued :
      (c : Command) (q : List Command) (s : Async)
      → Queued layout q s
      → ((rb' : Option RingBuffer) × (notify_loop layout c s
            ≡ (true, record s { rb = rb'; posts = s.posts + 1 }))
          × Holds rb' 100 (bytes layout (q ++ c ∷ [])))
        ⊎ ((100 < length (bytes layout q) + layout.size) × (notify_loop layout c s ≡ (false, s)))
  unfolding notify_loop
  notify_loop-Queued c q s h =
      let size : length (layout.encode c) ≡ layout.size = layout.length-encode c in
      let written =
        subst
          (λ n.
            let (rb', k) = write s.rb (some (layout.encode c)) n in
            ((length (bytes layout q) + n ≤ 100)
              × Holds rb' 100 (bytes layout q ++ layout.encode c)
              × (k ≡ n))
            ⊎ ((100 < length (bytes layout q) + n) × (rb' ≡ s.rb) × (k ≡ 0)))
          size (write_refines s.rb 100 (bytes layout q) (layout.encode c) h) in
      elim written [
        | inl (fits, held, all) ↦ inl (
          (write s.rb (some (layout.encode c)) layout.size).0,
          rw (eq→== _ _ all) refl,
          subst (Holds _ 100) (sym (bytes-append q c)) held,
        )
        | inr (full, same, nothing) ↦ inr (
          full,
          rw (nothing) (rw (ne→== 0 layout.size (omega (arith, layout.size_pos))) (rw same refl)),
        )
      ]

  -- A read that finds fewer free bytes than a command takes empties the ring.
  pub take_command_refused :
      (run : Run) (now next_timestamp : ℕ) (q : List Command) (s : Async)
      → Queued layout q s
      → 100 < layout.size + length (bytes layout q)
      → take_command layout run now next_timestamp s
        ≡ (false, next_timestamp, record s { rb = clear s.rb; posts = 0 })
  unfolding take_command
  take_command_refused run now next_timestamp q s h full =
      elim (read_refines s.rb 100 (bytes layout q) layout.size h) [
        | inl (_, same, _, nothing) ↦
            rw nothing (rw (ne→== layout.size 0 (omega (arith, layout.size_pos))) (rw same refl))
        | inr (room, _, _, _) ↦ absurd (omega arith)
      ]

  -- So does a read of an empty ring.
  pub take_command_empty :
      (run : Run) (now next_timestamp : ℕ) (s : Async)
      → Queued layout [] s
      → layout.size ≤ 100
      → (rb' : Option RingBuffer) × (take_command layout run now next_timestamp s
          ≡ (false, next_timestamp, record s { rb = clear rb'; posts = 0 }))
        × Holds rb' 100 []
  unfolding take_command
  take_command_empty run now next_timestamp s h small =
      elim (read_refines s.rb 100 [] layout.size h) [
        | inl (over, _, _, _) ↦ absurd (omega arith)
        | inr (_, held, _, count) ↦
            let nothing : (read s.rb true layout.size).2 ≡ 0 = omega arith in
            let left = drop_all (read s.rb true layout.size).2 [] (omega arith) in
            (
              (read s.rb true layout.size).0,
              rw nothing (rw (ne→== layout.size 0 (omega (arith, layout.size_pos))) refl),
              subst (Holds (read s.rb true layout.size).0 100) left held,
            )
      ]

  -- With room for one more command, the oldest command is taken and run.
  pub take_command_next :
      (run : Run) (now next_timestamp : ℕ) (c : Command) (q : List Command) (s : Async)
      → Queued layout (c ∷ q) s
      → layout.size + length (bytes layout (c ∷ q)) ≤ 100
      → (rb' : Option RingBuffer) × (take_command layout run now next_timestamp s
          ≡ exec_command run now c next_timestamp (record s { rb = rb' }))
        × Holds rb' 100 (bytes layout q)
  unfolding take_command
  take_command_next run now next_timestamp c q s h room =
      let size : length (layout.encode c) ≡ layout.size = layout.length-encode c in
      let long : length (bytes layout (c ∷ q))
          ≡ length (layout.encode c) + length (bytes layout q) =
        length-append (layout.encode c) (bytes layout q) in
      elim (read_refines s.rb 100 (bytes layout (c ∷ q)) layout.size h) [
        | inl (over, _, _, _) ↦ absurd (omega arith)
        | inr (_, held, out, count) ↦
            let all : (read s.rb true layout.size).2 ≡ layout.size = omega arith in
            let exact : (read s.rb true layout.size).2 ≡ length (layout.encode c) =
              all ∙ sym size in
            let left =
              ap (λ n. drop n (bytes layout (c ∷ q))) exact
              ∙ drop-append (layout.encode c) (bytes layout q) in
            let cmd : layout.decode (read s.rb true layout.size).1 ≡ c =
              ap layout.decode (
                out
                ∙ ap (λ n. take n (bytes layout (c ∷ q))) exact
                ∙ take-append (layout.encode c) (bytes layout q))
              ∙ layout.decode-encode c in
            (
              (read s.rb true layout.size).0,
              rw (eq→== layout.size _ (sym all)) (rw cmd refl),
              subst (Holds (read s.rb true layout.size).0 100) left held,
            )
      ]
