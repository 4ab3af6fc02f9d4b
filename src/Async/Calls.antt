-- ===== src/Async/Calls.antt =====
-- The functions for other threads: registering, triggering and cancelling an event, and exit.
use embedded_template.Prelude.{
  ℕ, ◌+◌, ◌<◌, ◌≡◌, refl, sym, ap, subst, ◌⊎◌, inl, inr, true, false, Option, some, none, List, [],
  ◌∷◌, ◌++◌, length, eq→==, List-cases, arith,
}
use embedded_template.RingBuffer.{RingBuffer}
use embedded_template.Async.{Event, Async, add_event, Command, Layout, set_event, notify_loop}
use embedded_template.Async.Events.{
  register_entry, event_register, event_trigger, event_cancel, set_callback, set_timeout, set_data,
}
use embedded_template.Async.Looper.{looper_exit}
use embedded_template.Async.Queue.{bytes, notify_loop-Queued}
use embedded_template.Async.Owned.{count, adds, IsAccounted, added-append, set_event-IsAccounted}

-- A call that another thread makes of the looper.
pub data Call : Type 0 where
  registers : (garbage cb timeout dat : ℕ) → Call
  triggers : (event addition_data : ℕ) → Call
  cancels : (garbage event : ℕ) → Call
  exits : (garbage garbage' : ℕ) → Call
  sets_callback : (event cb : ℕ) → Call
  sets_timeout : (event timeout : ℕ) → Call
  sets_data : (event dat : ℕ) → Call

module _ (layout : Layout) where
  -- A command is queued: the additions that it makes are taken from `held`.
  notify_loop-IsAccounted :
      (c : Command) (q : List Command) (held held' : List ℕ) (s : Async)
      → ((x : ℕ) → adds x c + count x held' ≡ count x held)
      → IsAccounted layout q held s
      → ((rb' : Option RingBuffer) × (notify_loop layout c s
            ≡ (true, record s { rb = rb'; posts = s.posts + 1 }))
          × IsAccounted layout (q ++ c ∷ []) held' (record s { rb = rb'; posts = s.posts + 1 }))
        ⊎ ((100 < length (bytes layout q) + layout.size) × (notify_loop layout c s ≡ (false, s)))
  notify_loop-IsAccounted c q held held' s moved a =
      elim (notify_loop-Queued layout c q s a.queued) [
        | inl (rb', sent, h) ↦ inl (
          rb',
          sent,
          record {
            queued = h;
            once = λ x. omega (arith, a.once x, moved x, added-append x q (c ∷ []));
          },
        )
        | inr (full, refused) ↦ inr (full, refused)
      ]

  -- A call of the functions that only queue a command that adds nothing.
  only_notify :
      (c : Command) (q : List Command) (s : Async)
      → ((x : ℕ) → adds x c ≡ 0)
      → IsAccounted layout q [] s
      → (q' : List Command) × IsAccounted layout q' [] (notify_loop layout c s).1
  only_notify c q s nothing a =
      elim (notify_loop-IsAccounted c q [] [] s (λ x. omega (arith, nothing x)) a) [
        | inl (rb', sent, a') ↦
            (q ++ c ∷ [], subst (IsAccounted layout (q ++ c ∷ []) []) (sym (ap (λ r. r.1) sent)) a')
        | inr (full, refused) ↦ (q, subst (IsAccounted layout q []) (sym (ap (λ r. r.1) refused)) a)
      ]

  -- What a registration may end with, in the state `s` with the queue `q`.
  abbrev pub Registered : ℕ → ℕ → ℕ → ℕ → List Command → Async → Option ℕ × Async → Type 0
  Registered garbage cb timeout dat q s (ret, s') =
      ((e : ℕ) × (rest : List ℕ) × (s.free_list ≡ e ∷ rest)
        × (ret ≡ some e)
        × (s'.free_list ≡ rest)
        × (s'.events_pool e ≡ record (s.events_pool e) { cb = cb; timeout = timeout; dat = dat })
        × IsAccounted layout
            (q ++ record { type = add_event; event = e; addition_data = garbage } ∷ []) [] s')
      ⊎ (((s.free_list ≡ []) ⊎ (100 < length (bytes layout q) + layout.size))
          × (ret ≡ none)
          × (s'.free_list ≡ s.free_list)
          × IsAccounted layout q [] s')

  register_entry-Registered :
      (garbage cb timeout dat : ℕ) (q : List Command) (e : ℕ) (rest : List ℕ) (s : Async)
      → IsAccounted layout q [] s
      → s.free_list ≡ e ∷ rest
      → Registered garbage cb timeout dat q s
          (register_entry layout garbage cb timeout dat e rest s)
  unfolding register_entry
  register_entry-Registered garbage cb timeout dat q e rest s a at =
      let ev : Event = record (s.events_pool e) { cb = cb; dat = dat; timeout = timeout } in
      let s1 : Async = set_event e ev (record s { free_list = rest }) in
      let c : Command = record { type = add_event; event = e; addition_data = garbage } in
      let a1 : IsAccounted layout q (e ∷ []) s1 = record {
        queued = a.queued;
        once = λ x. omega (arith, a.once x, ap (count x) at);
      } in
      elim (notify_loop-IsAccounted c q (e ∷ []) [] s1 (λ x. refl) a1) [
        | inl (rb', sent, a') ↦
            rw sent (inl (e, rest, at, refl, refl, rw (eq→== e e refl) refl, a'))
        | inr (full, refused) ↦ rw refused (
            inr (
              inr full,
              refl,
              sym at,
              record { queued = a.queued; once = λ x. omega (arith, a1.once x) },
            ))
      ]

  register_entry_of :
      (garbage cb timeout dat e : ℕ) (rest : List ℕ) (s : Async)
      → s.free_list ≡ e ∷ rest
      → event_register layout garbage cb timeout dat s
        ≡ register_entry layout garbage cb timeout dat e rest s
  unfolding event_register register_entry
  register_entry_of garbage cb timeout dat e rest s at = rw (at, event_register) refl

  none_free :
      (garbage cb timeout dat : ℕ) (s : Async)
      → s.free_list ≡ []
      → event_register layout garbage cb timeout dat s ≡ (none, s)
  unfolding event_register
  none_free garbage cb timeout dat s empty =
      rw (empty, event_register) (ap (λ l. (none, record s { free_list = l })) empty)

  -- Registering an event: it is refused, with the lists and the queue unchanged, only if no event is
  -- free or the queue has no room; and else the first free event is taken, filled, and queued to be
  -- added. In both cases each event of the pool stays in exactly one place.
  pub event_register-Registered :
      (garbage cb timeout dat : ℕ) (q : List Command) (s : Async)
      → IsAccounted layout q [] s
      → Registered garbage cb timeout dat q s (event_register layout garbage cb timeout dat s)
  event_register-Registered garbage cb timeout dat q s a = elim (List-cases s.free_list) [
    | inl empty ↦
        subst (Registered garbage cb timeout dat q s)
          (sym (none_free garbage cb timeout dat s empty)) (inr (inl empty, refl, refl, a))
    | inr (e, rest, at) ↦
        subst (Registered garbage cb timeout dat q s)
          (sym (register_entry_of garbage cb timeout dat e rest s at))
          (register_entry-Registered garbage cb timeout dat q e rest s a at)
  ]

  abbrev pub after_call : Call → Async → Async
  after_call (registers garbage cb timeout dat) s =
      (event_register layout garbage cb timeout dat s).1
  after_call (triggers event addition_data) s = (event_trigger layout event addition_data s).1
  after_call (cancels garbage event) s = (event_cancel layout garbage event s).1
  after_call (exits garbage garbage') s = (looper_exit layout garbage garbage' s).1
  after_call (sets_callback event cb) s = set_callback event cb s
  after_call (sets_timeout event timeout) s = set_timeout event timeout s
  after_call (sets_data event dat) s = set_data event dat s

  -- Every call leaves each event in exactly one place.
  pub after_call-IsAccounted :
      (call : Call) (q : List Command) (s : Async)
      → IsAccounted layout q [] s
      → (q' : List Command) × IsAccounted layout q' [] (after_call call s)
  unfolding event_trigger event_cancel looper_exit set_callback set_timeout set_data
  after_call-IsAccounted (registers garbage cb timeout dat) q s a =
      elim (event_register-Registered garbage cb timeout dat q s a) [
        | inl (e, rest, _, _, _, _, a') ↦ (_, a')
        | inr (_, _, _, a') ↦ (q, a')
      ]
  after_call-IsAccounted (triggers event addition_data) q s a = only_notify _ q s (λ x. refl) a
  after_call-IsAccounted (cancels garbage event) q s a = only_notify _ q s (λ x. refl) a
  after_call-IsAccounted (exits garbage garbage') q s a = only_notify _ q s (λ x. refl) a
  after_call-IsAccounted (sets_callback event cb) q s a =
      (q, set_event-IsAccounted layout q [] event _ s a)
  after_call-IsAccounted (sets_timeout event timeout) q s a =
      (q, set_event-IsAccounted layout q [] event _ s a)
  after_call-IsAccounted (sets_data event dat) q s a =
      (q, set_event-IsAccounted layout q [] event _ s a)
