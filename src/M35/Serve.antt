-- ===== src/M35/Serve.antt =====
-- What a round of dtum35_run does with the queue of commands.
use embedded_template.Prelude.{
  ℕ, ◌+◌, ◌-◌, ◌*◌, ◌%◌, ◌^◌, u16, ◌<◌, ◌≤◌, ◌≡◌, refl, sym, ap, ap₂, subst, ◌∙◌, true, inl, inr,
  Option, some, List, [], ◌∷◌, ◌++◌, append-nil, length, length-append, take, drop, take-append,
  drop-append, lt→ltb, le→ltb, eq→==, ne→==, u8, arith,
}
use embedded_template.RingBuffer.{RingBuffer, read, write, get_left_space}
use embedded_template.RingBuffer.Invariant.{Holds, clear-Holds}
use embedded_template.RingBuffer.Append.{write_refines, get_left_space_refines}
use embedded_template.RingBuffer.Take.{read_refines}
use embedded_template.Atcmd.Tcp.{send_tcp}
use embedded_template.M35.{M35}
use embedded_template.M35.Queue.{
  cmd_send_tcp, SendTcp, Machine, CmdHandleMap, call_handle, handle_with, find_handle,
  get_cmd_handle, take_param, take_cmd, run_round, post_command, post_write, send_handler,
  handle_send_tcp,
}

triple_eq :
    {A B C : Type 0} (t : A × B × C) {a : A} {b : B} {c : C}
    → t.0 ≡ a
    → t.1 ≡ b
    → t.2 ≡ c
    → t ≡ (a, b, c)
triple_eq {A} {B} {C} t p q r =
    ap₂ (λ (x : A) (yz : B × C). (x, yz.0, yz.1)) p (ap₂ (λ (y : B) (z : C). (y, z)) q r)

-- A read of what stands first in the queue, with enough free space.
read_exact :
    (rb : Option RingBuffer) (cap n : ℕ) (s rest : List ℕ)
    → Holds rb cap (s ++ rest)
    → length s ≡ n
    → n + length (s ++ rest) ≤ cap
    → (rb' : Option RingBuffer) × Holds rb' cap rest × (read rb true n ≡ (rb', s, n))
read_exact rb cap n s rest h e room = elim (read_refines rb cap (s ++ rest) n h) [
  | inl (full, _, _, _) ↦ absurd (omega arith)
  | inr (_, holds, out, count) ↦
      let whole : (read rb true n).2 ≡ n = omega (arith, count, length-append s rest) in
      let front : (read rb true n).1 ≡ s =
        out ∙ ap (λ i. take i (s ++ rest)) (whole ∙ sym e) ∙ take-append s rest in
      let after = ap (λ i. drop i (s ++ rest)) (whole ∙ sym e) ∙ drop-append s rest in
      (
        (read rb true n).0,
        subst (Holds (read rb true n).0 cap) after holds,
        triple_eq (read rb true n) refl front whole,
      )
]

-- A read of more than the free space.
read_refused :
    (rb : Option RingBuffer) (cap n : ℕ) (q : List ℕ)
    → Holds rb cap q
    → cap < n + length q
    → read rb true n ≡ (rb, [], 0)
read_refused rb cap n q h less = elim (read_refines rb cap q n h) [
  | inl (_, same, out, count) ↦ triple_eq (read rb true n) same out count
  | inr (enough, _, _, _) ↦ absurd (omega arith)
]

-- A write with enough free space.
written :
    (rb : Option RingBuffer) (cap : ℕ) (q dat : List ℕ)
    → Holds rb cap q
    → length q + length dat ≤ cap
    → (rb' : Option RingBuffer) × Holds rb' cap (q ++ dat)
      × ((write rb (some dat) (length dat)).0 ≡ rb')
written rb cap q dat h room = elim (write_refines rb cap q dat h) [
  | inl (_, holds, _) ↦ ((write rb (some dat) (length dat)).0, holds, refl)
  | inr (less, _, _) ↦ absurd (omega arith)
]

module _ (k : Machine) where
  take_param_served :
      (cmd cap : ℕ) (param rest memory : List ℕ) (h : CmdHandleMap) (m : M35)
      → Holds m.cmd_rb cap (param ++ rest)
      → get_cmd_handle k cmd ≡ some h
      → h.param_len ≡ length param
      → length param ≤ k.union_size
      → length param + (length param + length rest) ≤ cap
      → (rb : Option RingBuffer) × Holds rb cap rest
        × (take_param k cmd (length param) memory m
            ≡ call_handle k h.handle param memory (record m { cmd_rb = rb }))
  unfolding take_param handle_with
  take_param_served cmd cap param rest memory h m holds found same fits room =
      let (rb, after, result) =
        read_exact m.cmd_rb cap (length param) param rest holds refl
          (omega (arith, length-append param rest)) in
      (
        rb,
        after,
        rw
            (
              result,
              le→ltb k.union_size (length param) fits,
              eq→== (length param) (length param) refl,
              found,
              eq→== h.param_len (length param) same,
            )
            refl,
      )

  -- A command at the head of the queue, with enough free space for the reads.
  pub run_round_served :
      (cmd cap : ℕ) (param rest memory : List ℕ) (h : CmdHandleMap) (m : M35)
      → Holds m.cmd_rb cap (cmd ∷ length param ∷ param ++ rest)
      → 0 < m.cmd_posts
      → get_cmd_handle k cmd ≡ some h
      → h.param_len ≡ length param
      → length param ≤ k.union_size
      → length param + length rest + 4 ≤ cap
      → length param + (length param + length rest) ≤ cap
      → (rb : Option RingBuffer) × Holds rb cap rest
        × (run_round k memory m
            ≡ call_handle k h.handle param memory
                (record m { cmd_posts = m.cmd_posts - 1; cmd_rb = rb }))
  unfolding run_round take_cmd
  run_round_served cmd cap param rest memory h m holds posted found same fits room room' =
      let (rb1, after1, info) =
        read_exact m.cmd_rb cap 2 (cmd ∷ length param ∷ []) (param ++ rest) holds refl
          (omega (arith, length-append param rest)) in
      let m1 = record m { cmd_posts = m.cmd_posts - 1; cmd_rb = rb1 } in
      let (rb, after, result) =
        take_param_served cmd cap param rest memory h m1 after1 found same fits room' in
      (rb, after, rw (lt→ltb 0 m.cmd_posts posted, info) result)

  -- The bytes of a command are too many for the free space behind its header, so `ringbuffer_read`
  -- refuses them.
  pub run_round_loses :
      (cmd n cap : ℕ) (q memory : List ℕ) (m : M35)
      → Holds m.cmd_rb cap (cmd ∷ n ∷ q)
      → 0 < m.cmd_posts
      → 0 < n
      → n ≤ k.union_size
      → length q + 4 ≤ cap
      → cap < n + length q
      → let m' = run_round k memory m in
        Holds m'.cmd_rb cap []
        × (m'.stored ≡ m.stored)
        × (m'.line ≡ m.line)
        × (m'.cmd_posts ≡ m.cmd_posts - 1)
  unfolding run_round take_cmd take_param
  run_round_loses cmd n cap q memory m holds posted some_bytes fits room less =
      let (rb1, after1, info) =
        read_exact m.cmd_rb cap 2 (cmd ∷ n ∷ []) q holds refl (omega arith) in
      let refused = read_refused rb1 cap n q after1 less in
      rw
        (
          lt→ltb 0 m.cmd_posts posted,
          info,
          le→ltb k.union_size n fits,
          refused,
          ne→== 0 n (omega arith),
        )
        (clear-Holds rb1 cap q after1, refl, refl, refl)

  find_send :
      get_cmd_handle k cmd_send_tcp
      ≡ some
          (record { cmd = cmd_send_tcp; param_len = k.send_layout.size; handle = handle_send_tcp })
  unfolding get_cmd_handle find_handle
  find_send = refl

  post_command_empty :
      (cmd cap : ℕ) (param : List ℕ) (m : M35)
      → Holds m.cmd_rb cap []
      → length param + 2 ≤ cap
      → length param < 256
      → (rb : Option RingBuffer) × Holds rb cap (cmd ∷ length param ∷ param)
        × (post_command cmd param m ≡ some (record m { cmd_rb = rb; cmd_posts = m.cmd_posts + 1 }))
  unfolding post_command
  post_command_empty cmd cap param m holds room small =
      let byte : u8 (length param) ≡ length param = omega arith in
      let info = cmd ∷ length param ∷ [] in
      let left = get_left_space_refines m.cmd_rb cap [] holds in
      let (rb1, header, first) = written m.cmd_rb cap [] info holds (omega arith) in
      let (rb, whole, same) = written rb1 cap info param header (omega arith) in
      let store : Option RingBuffer → Option RingBuffer =
        λ r. (write r (some param) (length param)).0 in
      let stored : store (write m.cmd_rb (some (cmd ∷ u8 (length param) ∷ [])) 2).0 ≡ rb =
        ap (λ b. store (write m.cmd_rb (some (cmd ∷ b ∷ [])) 2).0) byte ∙ ap store first ∙ same in
      (
        rb,
        whole,
        rw (le→ltb (get_left_space m.cmd_rb) (length param + 2) (omega arith))
            (ap (λ r. some (record m { cmd_rb = r; cmd_posts = m.cmd_posts + 1 })) stored),
      )

  -- A write of `len` bytes (an `int` from 0 on) that `dtum35_tcp_write` posts while the queue is empty
  -- is the command that the next round of `dtum35_run` serves: that round calls `atcmd_send_tcp` with
  -- the address of the data and the time that were given, and with the length cut off to 16 bits,
  -- which is another one from 65536 on; it stores what the call returns at the address of `ret`, takes
  -- the count back from the semaphore, and leaves the queue empty. Addresses and times have 32 bits,
  -- the structures fewer than 256 bytes, and the ring must have room for the two bytes of the header
  -- and two bytes more, and twice the parameters.
  pub run_round-post_write :
      (buffer len timeout_ms ret cap : ℕ) (memory : List ℕ) (m : M35)
      → buffer < 2 ^ 32
      → timeout_ms < 2 ^ 32
      → ret < 2 ^ 32
      → Holds m.cmd_rb cap []
      → k.union_size < 256
      → 2 * k.send_layout.size + 4 ≤ cap
      → (m' : M35) × (post_write k buffer len timeout_ms ret m ≡ some m')
        × (let (l, ok) = send_tcp (k.at_address buffer) (len % 65536) timeout_ms memory m.line in
            let m'' = run_round k memory m' in
            (m''.line ≡ l)
            × (m''.stored ≡ m.stored ++ (ret, ok) ∷ [])
            × (m''.cmd_posts ≡ m.cmd_posts)
            × Holds m''.cmd_rb cap [])
  unfolding post_write call_handle send_handler
  run_round-post_write buffer len timeout_ms ret cap memory m in_dat in_time in_ret holds small
        room =
      let p : SendTcp = record { dat = buffer; len = u16 len; timeout = timeout_ms; ret = ret } in
      let param = k.send_layout.bytes p in
      let size = k.send_layout.length-bytes p in
      let fits = k.send_fits in
      let (rb1, queued, posted) =
        post_command_empty cmd_send_tcp cap param m holds (omega arith) (omega arith) in
      let m' = record m { cmd_rb = rb1; cmd_posts = m.cmd_posts + 1 } in
      let whole =
        subst (Holds rb1 cap) (sym (append-nil (cmd_send_tcp ∷ length param ∷ param))) queued in
      let (rb, after, served) =
        run_round_served cmd_send_tcp cap param [] memory _ m' whole (omega arith) find_send
          (sym size) (omega arith) (omega arith) (omega arith) in
      let same = k.send_layout.value-bytes p (in_dat, omega arith, in_time, in_ret) in
      (m', posted, rw (served, same) (refl, refl, omega arith, after))
