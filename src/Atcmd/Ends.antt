-- ===== src/Atcmd/Ends.antt =====
-- How often the loops that wait for lines go round.
use mathlib.Core.Option.{some-injective}
use embedded_template.Prelude.{
  ℕ, zero, suc, ◌+◌, ◌-◌, ◌≤◌, ◌<◌, ◌≡◌, refl, Bool, true, false, inl, inr, Option, none, some,
  List, [], ◌∷◌, length, ltb, Bool-cases, if◌then◌else◌, u32, subst, arith,
}
use embedded_template.Atcmd.{
  Atcmd, Receiver, serial_recv_serial_default, serial_recv_ipd_length, serial_recv_ipd_content,
  recv_serial_byte, dispatch, recv_serial_default, recv_ipd_length, recv_ipd_content,
  with_prefix_byte,
}
use embedded_template.Atcmd.Receive.{recv_all}
use embedded_template.Atcmd.Line.{
  Line, Wait, Outcome, pend_sem, read_reply, loop, load, bytes_in, arrived_in, waits_after,
  expect_round, expect_loop, expect, exec_command, send_command, await,
}
use embedded_template.Atcmd.Retry.{Poll, poll_round, decided, memory_of}

-- A loop leaves if each round that does not leave makes a number smaller.
pub loop_ends {ℓ} :
    {S : Type ℓ} (body : S → Bool × S) (measure : S → ℕ)
    → ((s : S) → (body s).0 ≡ false → measure (body s).1 < measure s)
    → (fuel : ℕ) (s : S) → measure s < fuel
    → (s' : S) × (loop fuel body s ≡ some s')
unfolding loop
loop_ends body measure falls zero s h = absurd (omega arith)
loop_ends body measure falls (suc fuel) s h = elim (Bool-cases (body s).0) [
  | inl leaves ↦ ((body s).1, rw (leaves, loop) refl)
  | inr stays ↦
      rw (stays, loop) (loop_ends body measure falls fuel (body s).1 (omega (arith, falls s stays)))
]

with_prefix_byte_posts : (b : ℕ) (a : Atcmd) → (with_prefix_byte b a).posts ≡ a.posts
unfolding with_prefix_byte
with_prefix_byte_posts b a = ground arith

default_posts : (now b : ℕ) (a : Atcmd) → (recv_serial_default now b a).posts ≤ a.posts + 1
unfolding recv_serial_default
default_posts now b a = ground (arith, with_prefix_byte_posts b a)

dispatch_posts : (r : Receiver) (now b : ℕ) (a : Atcmd) → (dispatch r now b a).posts ≤ a.posts + 1
unfolding dispatch recv_ipd_length recv_ipd_content
dispatch_posts serial_recv_serial_default now b a = default_posts now b a
dispatch_posts serial_recv_ipd_length now b a = ground arith
dispatch_posts serial_recv_ipd_content now b a = omega arith

byte_posts : (now b : ℕ) (a : Atcmd) → (recv_serial_byte now b a).posts ≤ a.posts + 1
unfolding recv_serial_byte
byte_posts now b a = ground (
  arith,
  dispatch_posts a.serial_recv now b a,
  dispatch_posts serial_recv_serial_default now b
      (record a { serial_recv = serial_recv_serial_default }),
)

all_posts : (ds : List (ℕ × ℕ)) (a : Atcmd) → (recv_all ds a).posts ≤ a.posts + length ds
all_posts [] a = omega arith
all_posts ((now, b) ∷ ds) a =
    omega (arith, all_posts ds (recv_serial_byte now b a), byte_posts now b a)

bytes_split : (ws : List Wait) → bytes_in ws ≡ length (arrived_in ws) + bytes_in (waits_after ws)
bytes_split [] = refl
bytes_split (w ∷ ws) = refl

pub load-pend_sem :
    (ms : ℕ) (l : Line)
    → (load (pend_sem ms l).0 ≤ load l)
      × ((pend_sem ms l).1 ≡ true → load (pend_sem ms l).0 < load l)
unfolding pend_sem
load-pend_sem ms l = ground (arith, all_posts (arrived_in l.feed) l.atcmd, bytes_split l.feed)

pub load-read_reply :
    (prefix : List ℕ) (size : ℕ) (buff : Option (List ℕ)) (l : Line)
    → load (read_reply prefix size buff l).line ≡ load l
unfolding read_reply
load-read_reply prefix size buff l = refl

pub load-expect_round :
    (prefix : List ℕ) (size end : ℕ) (o : Outcome)
    → (load (expect_round prefix size end o).1.line ≤ load o.line)
      × ((expect_round prefix size end o).0 ≡ false
          → load (expect_round prefix size end o).1.line < load o.line)
      × ((expect_round prefix size end o).1.rc ≡ true
          → load (expect_round prefix size end o).1.line < load o.line)
unfolding expect_round
load-expect_round prefix size end o =
    let l = (pend_sem (end - o.line.now) o.line).0 in
    ground (arith, load-pend_sem (end - o.line.now) o.line, load-read_reply prefix size o.buff l)

-- What the loop keeps in each round that goes on, and what a round that leaves makes of it.
pub loop_keeps {ℓ κ} :
    {S : Type ℓ} (body : S → Bool × S) (P Q : S → Type κ)
    → ((s : S) → P s → (body s).0 ≡ false → P (body s).1)
    → ((s : S) → P s → (body s).0 ≡ true → Q (body s).1)
    → (fuel : ℕ) (s s' : S) → loop fuel body s ≡ some s'
    → P s
    → Q s'
unfolding loop
loop_keeps body P Q keep leave zero s s' e h = absurd cc
loop_keeps body P Q keep leave (suc fuel) s s' e h = elim (Bool-cases (body s).0) [
  | inl leaves ↦ subst Q (some-injective _ _ (rw (leaves, loop) at e)) (leave s h leaves)
  | inr stays ↦
      loop_keeps body P Q keep leave fuel (body s).1 s' (rw (stays, loop) at e) (keep s h stays)
]

-- The loop of `expect` ends within as many rounds as counts are at the semaphore and bytes to come,
-- and one more.
pub expect_loop_ends :
    (fuel : ℕ) (prefix : List ℕ) (size end : ℕ) (o : Outcome)
    → load o.line < fuel
    → (o' : Outcome) × (expect_loop fuel prefix size end o ≡ some o')
unfolding expect_loop
expect_loop_ends fuel prefix size end o h =
    loop_ends (expect_round prefix size end) (λ s. load s.line)
      (λ s. (load-expect_round prefix size end s).1) fuel o h

pend_sem_late :
    (ms : ℕ) (l : Line) → (pend_sem ms l).1 ≡ false → (pend_sem ms l).0.now ≡ u32 (l.now + ms)
unfolding pend_sem
pend_sem_late ms l h = ground arith

expect_round_late :
    (prefix : List ℕ) (size end : ℕ) (o : Outcome)
    → end < 4294967296
    → (expect_round prefix size end o).0 ≡ true
    → (expect_round prefix size end o).1.rc ≡ false
    → end ≤ (expect_round prefix size end o).1.line.now
unfolding expect_round
expect_round_late prefix size end o b leaves failed =
    ground (arith, pend_sem_late (end - o.line.now) o.line)

-- A call of `expect` takes something from the line if it succeeds, and lasts until its end if not.
pub record Awaited (l : Line) (ms : ℕ) (o : Outcome) : Type 0 where
  pub less : load o.line ≤ load l
  pub taken : o.rc ≡ true → load o.line < load l
  pub late : o.rc ≡ false → u32 (l.now + ms) ≤ o.line.now

pub expect-Awaited :
    (prefix : List ℕ) (size : ℕ) (buff : Option (List ℕ)) (ms : ℕ) (l : Line)
    → Awaited l ms (expect prefix size buff ms l)
unfolding expect expect_loop
expect-Awaited prefix size buff ms l =
    let o : Outcome = record { line = l; buff = buff; rc = false } in
    let end = u32 (l.now + ms) in
    let (o', ends) = expect_loop_ends (suc (load l)) prefix size end o (omega arith) in
    let result =
      loop_keeps (expect_round prefix size end) (λ s. load s.line ≤ load l) (Awaited l ms)
        (λ s h stays. omega (arith, (load-expect_round prefix size end s).0))
        (λ s h leaves. record {
          less = omega (arith, (load-expect_round prefix size end s).0);
          taken = λ ok. omega (arith, (load-expect_round prefix size end s).2 ok);
          late = expect_round_late prefix size end s (omega arith) leaves;
        })
        (suc (load l)) o o' ends (omega arith) in
    rw ends result

-- What is left to take, with one for a loop that has time left.
abbrev ahead : ℕ → Outcome → ℕ
ahead end o = load o.line + (if ltb o.line.now end then 1 else 0)

pub decided_line : (d : Option Bool) (o : Outcome) → (decided d o).1.line ≡ o.line
decided_line none o = refl
decided_line (some answer) o = refl

poll_round_falls :
    (p : Poll) (end : ℕ) (final : Bool)
    → end < 4294967296
    → (o : Outcome) → (poll_round p end final o).0 ≡ false
    → ahead end (poll_round p end final o).1 < ahead end o
unfolding poll_round exec_command send_command await
poll_round_falls p end final b o stays =
    let memory = some (p.prepare (memory_of o.buff)) in
    let awaited = expect-Awaited [] p.buff_size memory (end - o.line.now) o.line in
    let o' = expect [] p.buff_size memory (end - o.line.now) o.line in
    ground (
      arith,
      awaited.less,
      awaited.taken,
      awaited.late,
      decided_line (p.judge (memory_of o'.buff)) o',
      decided_line p.on_failure o',
    )

-- A loop that polls the line ends, too: within two rounds more than counts and bytes.
pub poll_loop_ends :
    (fuel : ℕ) (p : Poll) (end : ℕ) (final : Bool) (o : Outcome)
    → end < 4294967296
    → suc (load o.line) < fuel
    → (o' : Outcome) × (loop fuel (poll_round p end final) o ≡ some o')
poll_loop_ends fuel p end final o b h =
    loop_ends (poll_round p end final) (ahead end) (poll_round_falls p end final b) fuel o
      (ground arith)
