-- ===== src/Async/Commands.antt =====
-- What each command of async_looper_loop does to the places of the events.
use embedded_template.Prelude.{
  ℕ, ◌<◌, ◌≡◌, refl, subst, Bool-cases, inl, inr, List, [], ◌∷◌, ◌++◌, ◌==◌, ==→eq, if◌then◌else◌,
  arith,
}
use embedded_template.Async.{
  Async, addition_data_timeout, cancel_event, trigger_call, add_event, exit, Command, Layout,
}
use embedded_template.Async.Events.{
  Run, exec_trigger_loop, exec_trigger, add_answered, add_to_looper_event_list, free_from_loop,
  free_from_looper_event_list, free_all,
}
use embedded_template.Async.Looper.{exec_command}
use embedded_template.Async.Owned.{
  count, adds, added, IsAccounted, IsCallback, count-append, move_to_free-IsAccounted,
  set_event-IsAccounted,
}
use embedded_template.Async.Due.{IsWithin, run_IsWithin, first_there}

-- The events that queued commands were to add.
abbrev pub adding : Command → List ℕ
adding c = elim c.type [ add_event ↦ c.event ∷ [] | _ ↦ [] ]

abbrev pub additions : List Command → List ℕ
additions [] = []
additions (c ∷ q) = adding c ++ additions q

pub count-adding : (x : ℕ) (c : Command) → count x (adding c) ≡ adds x c
count-adding x c =
    elim c.type
      as (λ t.
        count x (elim t [ add_event ↦ c.event ∷ [] | _ ↦ [] ])
        ≡ (elim t [ add_event ↦ (if c.event == x then 1 else 0) | _ ↦ 0 ])) [
          | add_event ↦ omega arith
          | cancel_event ↦ refl
          | trigger_call ↦ refl
          | exit ↦ refl
        ]

pub count-additions : (x : ℕ) (q : List Command) → count x (additions q) ≡ added x q
count-additions x [] = refl
count-additions x (c ∷ q) =
    omega (arith, count-append x (adding c) (additions q), count-adding x c, count-additions x q)

module _ (layout : Layout) (run : Run) (calls : IsCallback layout run) where
  exec_trigger_loop-IsAccounted :
      (now event d : ℕ) (rest : List ℕ) (q : List Command) (s : Async)
      → IsWithin rest s
      → IsAccounted layout q [] s
      → (q' : List Command) × IsAccounted layout q' [] (exec_trigger_loop run now event d rest s).1
  unfolding exec_trigger_loop
  exec_trigger_loop-IsAccounted now event d [] q s within a = (q, a)
  exec_trigger_loop-IsAccounted now event d (pos ∷ rest) q s within a =
      elim (Bool-cases (pos == event)) [
        | inr other ↦
            rw (other, exec_trigger_loop)
              (exec_trigger_loop-IsAccounted now event d rest q s (λ x. omega (arith, within x)) a)
        | inl found ↦
            let cb = (s.events_pool event).cb in
            let (q', a1) = calls.accounted cb event d q [] s a in
            let there =
              subst (λ k. 0 < count k (run cb event d s).1.events) (==→eq pos event found)
                (first_there layout run calls pos rest (run cb event d s).1
                  (run_IsWithin layout run calls cb event d (pos ∷ rest) s within)) in
            elim (Bool-cases ((run cb event d s).0 == 0)) [
              | inl ends ↦
                  rw (found, ends, exec_trigger_loop)
                    (q', move_to_free-IsAccounted layout q' [] event (run cb event d s).1 there a1)
              | inr stays ↦
                  rw (found, stays, exec_trigger_loop)
                    (q', set_event-IsAccounted layout q' [] event _ (run cb event d s).1 a1)
            ]
      ]

  add_answered-IsAccounted :
      (now event rc : ℕ) (q : List Command) (s : Async)
      → IsAccounted layout q (event ∷ []) s
      → IsAccounted layout q [] (add_answered now event rc s).1
  unfolding add_answered
  add_answered-IsAccounted now event rc q s a = elim (Bool-cases (rc == 0)) [
    | inl ends ↦
        rw (ends, add_answered) (record { queued = a.queued; once = λ x. omega (arith, a.once x) })
    | inr stays ↦
        rw (stays, add_answered) (record { queued = a.queued; once = λ x. omega (arith, a.once x) })
  ]

  add_to_looper-IsAccounted :
      (now event : ℕ) (q : List Command) (s : Async)
      → IsAccounted layout q (event ∷ []) s
      → (q' : List Command) × IsAccounted layout q' [] (add_to_looper_event_list run now event s).1
  unfolding add_to_looper_event_list
  add_to_looper-IsAccounted now event q s a =
      elim (Bool-cases ((s.events_pool event).timeout == 0)) [
        | inl at_once ↦
            let cb = (s.events_pool event).cb in
            let (q', a1) = calls.accounted cb event addition_data_timeout q (event ∷ []) s a in
            rw (at_once, add_to_looper_event_list)
              (
                q',
                add_answered-IsAccounted now event (run cb event addition_data_timeout s).0 q'
                    (run cb event addition_data_timeout s).1 a1,
              )
        | inr later ↦
            rw (later, add_to_looper_event_list) (q, add_answered-IsAccounted now event 1 q s a)
      ]

  free_from_loop-IsAccounted :
      (event : ℕ) (rest : List ℕ) (q : List Command) (s : Async)
      → IsWithin rest s
      → IsAccounted layout q [] s
      → IsAccounted layout q [] (free_from_loop event rest s)
  unfolding free_from_loop
  free_from_loop-IsAccounted event [] q s within a = a
  free_from_loop-IsAccounted event (pos ∷ rest) q s within a = elim (Bool-cases (pos == event)) [
    | inl found ↦
        let there =
          subst (λ k. 0 < count k s.events) (==→eq pos event found)
            (first_there layout run calls pos rest s within) in
        rw (found, free_from_loop) (move_to_free-IsAccounted layout q [] event s there a)
    | inr other ↦
        rw (other, free_from_loop)
          (free_from_loop-IsAccounted event rest q s (λ x. omega (arith, within x)) a)
  ]

  free_all-IsAccounted :
      (q : List Command) (s : Async)
      → IsAccounted layout q [] s
      → IsAccounted layout q [] (free_all s)
  unfolding free_all
  free_all-IsAccounted q s a = record {
    queued = a.queued;
    once = λ x. omega (arith, a.once x, count-append x s.events s.free_list);
  }

  -- A command that was taken from the queue leaves the events accounted for, whatever it is.
  pub exec_command-IsAccounted :
      (now next_timestamp : ℕ) (c : Command) (q : List Command) (s : Async)
      → IsAccounted layout q (adding c) s
      → (q' : List Command) × IsAccounted layout q' [] (exec_command run now c next_timestamp s).2
  unfolding exec_command exec_trigger free_from_looper_event_list
  exec_command-IsAccounted now next_timestamp c q s a =
      (elim c.type
          as (λ t.
            IsAccounted layout q (adding (record c { type = t })) s
            → (q' : List Command) × IsAccounted layout q' []
                (exec_command run now (record c { type = t }) next_timestamp s).2) [
                  | trigger_call ↦ λ a'.
                      exec_trigger_loop-IsAccounted now c.event c.addition_data s.events q s
                        (λ x. omega arith) a'
                  | add_event ↦ λ a'. add_to_looper-IsAccounted now c.event q s a'
                  | cancel_event ↦ λ a'.
                      (q, free_from_loop-IsAccounted c.event s.events q s (λ x. omega arith) a')
                  | exit ↦ λ a'.
                      let ended = free_all-IsAccounted q s a' in
                      (q, record { queued = ended.queued; once = ended.once })
                ])
        a
