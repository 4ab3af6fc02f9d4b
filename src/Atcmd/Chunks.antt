-- ===== src/Atcmd/Chunks.antt =====
-- How many bytes atcmd_send_tcp_cb sends behind a command.
use embedded_template.Prelude.{
  ℕ, suc, ◌+◌, ◌<◌, ◌≤◌, ◌≡◌, ◌∙◌, false, List, [], length, length-append, length-replicate,
  replicate, ltb, if◌then◌else◌, arith,
}
use embedded_template.Atcmd.Ends.{loop_ends, loop_keeps}
use embedded_template.Atcmd.Tcp.{Chunk, data_round, chunk_data}

module _ {P : Type 0} (cb_get : P → ℕ → P × List ℕ)
    (within : (p : P) (size : ℕ) → length (cb_get p size).1 ≤ size) where
  -- Sent and to be sent are the whole.
  record Counted (n : ℕ) (c : Chunk P) : Type 0 where
    whole : c.this_len + length c.bytes ≡ n
    small : c.this_len < 65536

  given_within :
      (c : Chunk P)
      → length (cb_get c.private_data (if ltb 20 c.this_len then 20 else c.this_len)).1 ≤ c.this_len
  given_within c =
      ground (arith, within c.private_data (if ltb 20 c.this_len then 20 else c.this_len))

  round_falls :
      (c : Chunk P)
      → (data_round cb_get c).0 ≡ false
      → (data_round cb_get c).1.this_len < c.this_len
  unfolding data_round
  round_falls c stays = ground (arith, given_within c)

  round_Counted : (n : ℕ) (c : Chunk P) → Counted n c → Counted n (data_round cb_get c).1
  unfolding data_round
  round_Counted n c h =
      let given = (cb_get c.private_data (if ltb 20 c.this_len then 20 else c.this_len)).1 in
      ground (arith, given_within c, length-append c.bytes given)

  -- With a callback that never stores more than the size it is given, exactly as many bytes follow
  -- the command as it announces, whenever the callback stops giving data.
  length-chunk_data :
      (p : P) (n : ℕ) (memory : List ℕ)
      → n < 65536
      → length (chunk_data cb_get p n memory).bytes ≡ n
  unfolding chunk_data
  length-chunk_data p n memory h =
      let start : Chunk P = record {
        private_data = p;
        memory = memory;
        this_len = n;
        bytes = [];
      } in
      let body = data_round cb_get in
      let (c, ends) =
        loop_ends body (λ (s : Chunk P). s.this_len) round_falls (suc n) start (omega arith) in
      let counted =
        loop_keeps body (Counted n) (Counted n) (λ s k _. round_Counted n s k)
          (λ s k _. round_Counted n s k) (suc n) start c ends (omega arith) in
      rw ends (
        length-append c.bytes (replicate c.this_len 0)
        ∙ omega (arith, length-replicate {A = ℕ} c.this_len 0, counted.whole))
