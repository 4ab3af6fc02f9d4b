-- ===== src/Async/Rounds.antt =====
-- async_looper_loop: whole rounds, and what becomes of the queue in them.
use embedded_template.Prelude.{
  ℕ, ◌+◌, ◌-◌, ◌≤◌, ◌<◌, ◌≡◌, refl, sym, ap, subst, ◌∙◌, ◌⊎◌, Bool-cases, inl, inr, true, false,
  Option, some, List, [], ◌∷◌, length, leb, if◌then◌else◌, arith,
}
use embedded_template.RingBuffer.{RingBuffer}
use embedded_template.RingBuffer.Invariant.{Holds, clear-Holds, length-contents}
use embedded_template.Async.{Async, Command, Layout}
use embedded_template.Async.Events.{Run}
use embedded_template.Async.Looper.{Tick, take_command, exec_due, round}
use embedded_template.Async.Queue.{
  bytes, take_command_refused, take_command_empty, take_command_next,
}
use embedded_template.Async.Owned.{IsAccounted, IsCallback}
use embedded_template.Async.Due.{exec_timeout-Walked}
use embedded_template.Async.Commands.{
  additions, count-adding, count-additions, exec_command-IsAccounted,
}

-- The ring has free bytes for one more command.
abbrev pub HasRoom : Layout → Async → Type 0
HasRoom layout s = (r : RingBuffer) × (s.rb ≡ some r) × (layout.size + r.len ≤ 100)

-- The state in which a round reads a command.
abbrev pub at_read : Run → Tick → ℕ → Async → Async
at_read run tick next_timestamp s =
    let s1 = (exec_due run tick next_timestamp s).1 in record s1 { posts = s1.posts - 1 }

length_stored :
    (rb : Option RingBuffer) (cap : ℕ) (q : List ℕ) (r : RingBuffer)
    → Holds rb cap q
    → rb ≡ some r
    → r.len ≡ length q
length_stored rb cap q r h at =
    let held = subst (λ k. Holds k cap q) at h in sym (length-contents r) ∙ ap length held.2

module _ (layout : Layout) (small : layout.size ≤ 100) (run : Run)
    (calls : IsCallback layout run) where
  impossible : false ≡ true → ⊥
  impossible e = cc

  take_command-IsAccounted :
      (now next_timestamp : ℕ) (q : List Command) (s : Async)
      → IsAccounted layout q [] s
      → layout.size + length (bytes layout q) ≤ 100
      → (q' : List Command) × IsAccounted layout q' []
          (take_command layout run now next_timestamp s).2
  take_command-IsAccounted now next_timestamp [] s a room =
      let (rb', taken, h) = take_command_empty layout run now next_timestamp s a.queued small in
      (
        [],
        subst (λ r. IsAccounted layout [] [] r.2) (sym taken)
            (record { queued = clear-Holds rb' 100 [] h; once = a.once }),
      )
  take_command-IsAccounted now next_timestamp (c ∷ q) s a room =
      let (rb', taken, h) = take_command_next layout run now next_timestamp c q s a.queued room in
      let (q', done) =
        exec_command-IsAccounted layout run calls now next_timestamp c q (record s { rb = rb' })
          (record { queued = h; once = λ x. omega (arith, a.once x, count-adding x c) }) in
      (q', subst (λ r. IsAccounted layout q' [] r.2) (sym taken) done)

  -- Refused, the read loses the queue: the events that were to be added are in no list.
  take_command_loses :
      (now next_timestamp : ℕ) (q : List Command) (s : Async)
      → IsAccounted layout q [] s
      → 100 < layout.size + length (bytes layout q)
      → IsAccounted layout [] (additions q) (take_command layout run now next_timestamp s).2
  take_command_loses now next_timestamp q s a full =
      subst (λ r. IsAccounted layout [] (additions q) r.2)
        (sym (take_command_refused layout run now next_timestamp q s a.queued full))
        (record {
          queued = clear-Holds s.rb 100 (bytes layout q) a.queued;
          once = λ x. omega (arith, a.once x, count-additions x q);
        })

  exec_due-IsAccounted :
      (tick : Tick) (next_timestamp : ℕ) (q : List Command) (s : Async)
      → IsAccounted layout q [] s
      → (q' : List Command) × IsAccounted layout q' [] (exec_due run tick next_timestamp s).1
  unfolding exec_due
  exec_due-IsAccounted tick next_timestamp q s a = elim (Bool-cases (leb next_timestamp tick.now)) [
    | inl due ↦
        let walked = exec_timeout-Walked layout run calls tick.now_exec q s a in
        rw (due, exec_due) (walked.queue, walked.accounted)
    | inr early ↦ rw (early, exec_due) (q, a)
  ]

  not_due :
      (tick : Tick) (next_timestamp : ℕ) (s : Async)
      → leb next_timestamp tick.now ≡ false
      → (exec_due run tick next_timestamp s).1 ≡ s
  unfolding exec_due
  not_due tick next_timestamp s early = rw early refl

  round_pended :
      (tick : Tick) (next_timestamp : ℕ) (s : Async)
      → tick.pended ≡ true
      → round layout run tick next_timestamp s
        ≡ take_command layout run tick.now_command
            (exec_due run tick next_timestamp s).0
            (at_read run tick next_timestamp s)
  unfolding round
  round_pended tick next_timestamp s got =
      ap
        (λ b.
          if b
          then take_command layout run tick.now_command (exec_due run tick next_timestamp s).0
              (at_read run tick next_timestamp s)
          else (
            false,
            (exec_due run tick next_timestamp s).0,
            (exec_due run tick next_timestamp s).1,
          ))
        got

  round_missed :
      (tick : Tick) (next_timestamp : ℕ) (s : Async)
      → tick.pended ≡ false
      → (round layout run tick next_timestamp s).2 ≡ (exec_due run tick next_timestamp s).1
  unfolding round
  round_missed tick next_timestamp s missed =
      ap
        (λ b.
          (if b
            then take_command layout run tick.now_command (exec_due run tick next_timestamp s).0
                (at_read run tick next_timestamp s)
            else (
              false,
              (exec_due run tick next_timestamp s).0,
              (exec_due run tick next_timestamp s).1,
            )).2)
        missed

  -- A round in which the read of a command finds room for another one, or gets no semaphore, leaves
  -- each event of the pool in exactly one place.
  pub round-IsAccounted :
      (tick : Tick) (next_timestamp : ℕ) (q : List Command) (s : Async)
      → IsAccounted layout q [] s
      → (tick.pended ≡ false) ⊎ HasRoom layout (at_read run tick next_timestamp s)
      → (q' : List Command) × IsAccounted layout q' [] (round layout run tick next_timestamp s).2
  round-IsAccounted tick next_timestamp q s a room =
      let (q1, a1) = exec_due-IsAccounted tick next_timestamp q s a in
      elim (Bool-cases tick.pended) [
        | inr missed ↦ (
          q1,
          subst (IsAccounted layout q1 []) (sym (round_missed tick next_timestamp s missed)) a1,
        )
        | inl got ↦ elim room [
          | inl missed ↦ absurd (impossible (sym missed ∙ got))
          | inr (r, at, free) ↦
              let stored = length_stored _ 100 (bytes layout q1) r a1.queued at in
              let (q', done) =
                take_command-IsAccounted tick.now_command (exec_due run tick next_timestamp s).0 q1
                  (at_read run tick next_timestamp s)
                  (record { queued = a1.queued; once = a1.once }) (omega arith) in
              (
                q',
                subst (λ r. IsAccounted layout q' [] r.2)
                    (sym (round_pended tick next_timestamp s got)) done,
              )
        ]
      ]

  -- A round with no event due that gets the semaphore while fewer bytes are free in the ring than a command takes loses
  -- every command that waits: afterwards the queue is empty, and exactly the events that those
  -- commands were to add are neither free, nor among the looper's, nor in the queue.
  pub round_loses :
      (tick : Tick) (next_timestamp : ℕ) (q : List Command) (s : Async)
      → tick.pended ≡ true
      → tick.now < next_timestamp
      → IsAccounted layout q [] s
      → 100 < layout.size + length (bytes layout q)
      → IsAccounted layout [] (additions q) (round layout run tick next_timestamp s).2
  round_loses tick next_timestamp q s got early a full =
      let early' : leb next_timestamp tick.now ≡ false = ground arith in
      let same = not_due tick next_timestamp s early' in
      let a1 =
        subst (λ r. IsAccounted layout q [] (record r { posts = r.posts - 1 })) (sym same)
          (record { queued = a.queued; once = a.once }) in
      subst (λ r. IsAccounted layout [] (additions q) r.2)
        (sym (round_pended tick next_timestamp s got))
        (take_command_loses tick.now_command (exec_due run tick next_timestamp s).0 q
          (at_read run tick next_timestamp s) a1 full)
