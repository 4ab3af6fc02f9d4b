-- ===== src/Atcmd/Typed.antt =====
-- A line of text that the receiver takes, byte by byte, into the ring of lines.
use embedded_template.Prelude.{
  ℕ, suc, ◌+◌, ◌≤◌, ◌<◌, ◌≡◌, ◌≢◌, refl, sym, ap, subst, ◌∙◌, Bool, false, ◌&&◌, inl, inr, Option,
  List, [], ◌∷◌, ◌++◌, append_assoc, append-nil, length, length-append, length-set, set, get_or,
  ltb, ◌==◌, ne→==, Bool-cases, if◌then◌else◌, arith,
}
use embedded_template.RingBuffer.{RingBuffer, put}
use embedded_template.RingBuffer.Invariant.{Holds}
use embedded_template.RingBuffer.Strings.Prefix.{starts_with}
use embedded_template.Atcmd.{
  Atcmd, serial_recv_serial_default, recv_serial_byte, dispatch, recv_serial_default,
  with_prefix_byte, announces_ipd,
}
use embedded_template.Atcmd.Receive.{recv_all, bytes_of, put_one}

-- The engine while it takes lines, with the given prefix, its index, and ring of lines.
abbrev pub taking : List ℕ → ℕ → Option RingBuffer → Atcmd → Atcmd
taking p i rb a = record a {
  auto_prefix = p;
  auto_prefix_index = i;
  rb = rb;
  serial_recv = serial_recv_serial_default;
}

-- The kept prefix and its index after one byte more.
abbrev kept_prefix : List ℕ → ℕ → ℕ → List ℕ
kept_prefix p i b = if ltb i 5 then set p i b else p

abbrev next_index : ℕ → ℕ
next_index i = if ltb i 5 then i + 1 else i

abbrev announced : List ℕ → ℕ → Bool
announced p i = (i == 3) && (get_or p 0 0 == 73) && (get_or p 1 0 == 80) && (get_or p 2 0 == 68)

byte_lem :
    (now b : ℕ) (p : List ℕ) (i : ℕ) (rb : Option RingBuffer) (a : Atcmd)
    → b ≢ 10
    → b ≢ 13
    → announced (kept_prefix p i b) (next_index i) ≡ false
    → recv_serial_byte now b (taking p i rb a)
      ≡ taking (kept_prefix p i b) (next_index i) (put rb b 1).0 a
unfolding recv_serial_byte dispatch recv_serial_default with_prefix_byte announces_ipd
byte_lem now b p i rb a lf cr plain = elim (Bool-cases (ltb i 5)) [
  | inl room ↦ let plain' = rw room at plain in rw (ne→== b 10 lf, ne→== b 13 cr, room, plain') refl
  | inr full ↦ let plain' = rw full at plain in rw (ne→== b 10 lf, ne→== b 13 cr, full, plain') refl
]

-- None of the bytes ends the line, or completes an announcement of data.
abbrev Plain : List ℕ → ℕ → List (ℕ × ℕ) → Type 0
Plain p i [] = Unit {0}
Plain p i ((now, b) ∷ ds) =
    (b ≢ 10)
    × (b ≢ 13)
    × (announced (kept_prefix p i b) (next_index i) ≡ false)
    × Plain (kept_prefix p i b) (next_index i) ds

-- The receiver took the bytes as text.
record TakenText (ds : List (ℕ × ℕ)) (cap : ℕ) (q p : List ℕ) (i : ℕ) (rb : Option RingBuffer)
    (a : Atcmd) : Type 0 where
  prefix : List ℕ
  index : ℕ
  ring : Option RingBuffer
  result : recv_all ds (taking p i rb a) ≡ taking prefix index ring a
  same_length : length prefix ≡ length p
  queue : Holds ring cap (q ++ bytes_of ds)

length-kept_prefix : (p : List ℕ) (i b : ℕ) → length (kept_prefix p i b) ≡ length p
length-kept_prefix p i b = ground (arith, length-set p i b)

text_lem :
    (ds : List (ℕ × ℕ)) (cap : ℕ) (q p : List ℕ) (i : ℕ) (rb : Option RingBuffer) (a : Atcmd)
    → Plain p i ds
    → Holds rb cap q
    → length q + length ds ≤ cap
    → TakenText ds cap q p i rb a
text_lem [] cap q p i rb a plain h room = record {
  prefix = p;
  index = i;
  ring = rb;
  result = refl;
  same_length = refl;
  queue = subst (Holds rb cap) (sym (append-nil q)) h;
}
text_lem ((now, b) ∷ ds) cap q p i rb a (lf, cr, quiet, plain) h room =
    let t =
      text_lem ds cap (q ++ b ∷ []) (kept_prefix p i b) (next_index i) (put rb b 1).0 a plain
        (put_one rb cap b q h (omega arith)) (omega (arith, length-append q (b ∷ []))) in
    record {
      prefix = t.prefix;
      index = t.index;
      ring = t.ring;
      result = ap (recv_all ds) (byte_lem now b p i rb a lf cr quiet) ∙ t.result;
      same_length = t.same_length ∙ length-kept_prefix p i b;
      queue = subst (Holds t.ring cap) (append_assoc q (b ∷ []) (bytes_of ds)) t.queue;
    }

-- The bytes of a line: none ends it, and none is the 0 that ends a string.
abbrev pub IsText : List (ℕ × ℕ) → Type 0
IsText [] = Unit {0}
IsText ((now, b) ∷ ds) = (b ≢ 10) × (b ≢ 13) × (b ≢ 0) × IsText ds

-- Behind its third byte a line announces nothing.
Plain-late : (ds : List (ℕ × ℕ)) (p : List ℕ) (i : ℕ) → 3 ≤ i → IsText ds → Plain p i ds
Plain-late [] p i late t = tt
Plain-late ((now, b) ∷ ds) p i late (lf, cr, _, t) =
    (lf, cr, ground arith, Plain-late ds (kept_prefix p i b) (next_index i) (ground arith) t)

three_kept :
    (p : List ℕ) (x y z : ℕ)
    → length p ≡ 10
    → let p' = set (set (set p 0 x) 1 y) 2 z in
      (get_or p' 0 0 ≡ x) × (get_or p' 1 0 ≡ y) × (get_or p' 2 0 ≡ z)
three_kept [] x y z ten = absurd (omega arith)
three_kept (_ ∷ []) x y z ten = absurd (omega arith)
three_kept (_ ∷ _ ∷ []) x y z ten = absurd (omega arith)
three_kept (_ ∷ _ ∷ _ ∷ p) x y z ten = (refl, refl, refl)

third_byte :
    (p : List ℕ) (x y z : ℕ) (s : List ℕ)
    → length p ≡ 10
    → starts_with (73 ∷ 80 ∷ 68 ∷ []) (x ∷ y ∷ z ∷ s) ≡ false
    → announced (set (set (set p 0 x) 1 y) 2 z) 3 ≡ false
third_byte p x y z s ten other = ground (arith, three_kept p x y z ten)

Plain-start :
    (ds : List (ℕ × ℕ)) (p : List ℕ)
    → length p ≡ 10
    → IsText ds
    → starts_with (73 ∷ 80 ∷ 68 ∷ []) (bytes_of ds) ≡ false
    → Plain p 0 ds
Plain-start [] p ten t other = tt
Plain-start ((_, x) ∷ []) p ten (a, b, _, _) other = (a, b, refl, tt)
Plain-start ((_, x) ∷ (_, y) ∷ []) p ten (a, b, _, (c, d, _, _)) other =
    (a, b, refl, (c, d, refl, tt))
Plain-start ((_, x) ∷ (_, y) ∷ (_, z) ∷ ds) p ten (a, b, _, (c, d, _, (e, f, _, t))) other =
    let last = third_byte p x y z (bytes_of ds) ten other in
    (a, b, refl, (c, d, refl, (e, f, last, Plain-late ds _ 3 (omega arith) t)))

pub length-bytes_of : (ds : List (ℕ × ℕ)) → length (bytes_of ds) ≡ length ds
length-bytes_of [] = refl
length-bytes_of ((now, b) ∷ ds) = ap suc (length-bytes_of ds)

recv_all-append :
    (ds es : List (ℕ × ℕ)) (a : Atcmd) → recv_all (ds ++ es) a ≡ recv_all es (recv_all ds a)
recv_all-append [] es a = refl
recv_all-append ((now, b) ∷ ds) es a = recv_all-append ds es (recv_serial_byte now b a)

newline_lem :
    (t u : ℕ) (p : List ℕ) (i : ℕ) (rb : Option RingBuffer) (a : Atcmd)
    → recv_all ((t, 13) ∷ (u, 10) ∷ []) (taking p i rb a)
      ≡ record (taking p 0 (put rb 0 1).0 a) { posts = a.posts + 1 }
unfolding recv_serial_byte dispatch recv_serial_default
newline_lem t u p i rb a = refl

-- What is known of the receiver behind a line.
pub record TakenLine (ds : List (ℕ × ℕ)) (cap : ℕ) (q : List ℕ) (a a' : Atcmd) : Type 0 where
  pub prefix : List ℕ
  pub ring : Option RingBuffer
  pub result : a' ≡ record (taking prefix 0 ring a) { posts = a.posts + 1 }
  pub ten : length prefix ≡ 10
  pub queue : Holds ring cap (q ++ (bytes_of ds ++ 0 ∷ []))

-- A line of text that fits the ring of lines and does not begin with "IPD", behind which CR and LF
-- come: its bytes and a 0 are appended to the ring, and the semaphore is posted once.
pub line_lem :
    (ds : List (ℕ × ℕ)) (t u cap : ℕ) (q p : List ℕ) (rb : Option RingBuffer) (a : Atcmd)
    → length p ≡ 10
    → IsText ds
    → starts_with (73 ∷ 80 ∷ 68 ∷ []) (bytes_of ds) ≡ false
    → Holds rb cap q
    → length q + length ds < cap
    → TakenLine ds cap q a (recv_all (ds ++ (t, 13) ∷ (u, 10) ∷ []) (taking p 0 rb a))
line_lem ds t u cap q p rb a ten text other h room =
    let taken = text_lem ds cap q p 0 rb a (Plain-start ds p ten text other) h (omega arith) in
    record {
      prefix = taken.prefix;
      ring = (put taken.ring 0 1).0;
      result =
          recv_all-append ds ((t, 13) ∷ (u, 10) ∷ []) (taking p 0 rb a)
          ∙ ap (recv_all ((t, 13) ∷ (u, 10) ∷ [])) taken.result
          ∙ newline_lem t u taken.prefix taken.index taken.ring a;
      ten = taken.same_length ∙ ten;
      queue = subst (Holds (put taken.ring 0 1).0 cap) (append_assoc q (bytes_of ds) (0 ∷ [])) (
          put_one taken.ring cap 0 (q ++ bytes_of ds) taken.queue
            (omega (arith, length-append q (bytes_of ds), length-bytes_of ds)));
    }
