-- ===== src/Atcmd/Receive.antt =====
-- The data behind an announcement: where its bytes go, and how the receiver gets back to lines.
use embedded_template.Prelude.{
  ℕ, ◌+◌, ◌-◌, ◌<◌, ◌≤◌, ◌≡◌, refl, sym, ap, subst, ◌∙◌, true, false, Option, List, [], ◌∷◌, ◌++◌,
  append_assoc, length, length-append, min, replicate, leb, if◌then◌else◌, u16, u32, arith,
}
use embedded_template.RingBuffer.{RingBuffer, put}
use embedded_template.RingBuffer.Invariant.{Holds}
use embedded_template.RingBuffer.Append.{put_refines}
use embedded_template.Atcmd.{
  Atcmd, serial_recv_serial_default, serial_recv_ipd_content, recv_ipd_content, recv_serial_byte,
  dispatch,
}

-- The bytes that come in one after the other, each with the time that it is taken at.
abbrev pub recv_all : List (ℕ × ℕ) → Atcmd → Atcmd
recv_all [] a = a
recv_all ((now, b) ∷ ds) a = recv_all ds (recv_serial_byte now b a)

abbrev pub bytes_of : List (ℕ × ℕ) → List ℕ
bytes_of [] = []
bytes_of ((now, b) ∷ ds) = b ∷ bytes_of ds

-- Each byte comes before the time at which the receiver gives up, which is `t` for the first, and
-- 20 ms after a byte for the next.
abbrev pub OnTime : ℕ → List (ℕ × ℕ) → Type 0
OnTime t [] = Unit {0}
OnTime t ((now, b) ∷ ds) = (now < t) × OnTime (u32 (now + 20)) ds

content_on_time :
    (now b : ℕ) (a : Atcmd)
    → a.serial_recv ≡ serial_recv_ipd_content
    → now < a.time_to_default
    → recv_serial_byte now b a ≡ recv_ipd_content now b a
unfolding recv_serial_byte dispatch
content_on_time now b a mode early =
    let late : leb a.time_to_default now ≡ false = ground arith in rw (mode, late) refl

pub put_one :
    (rb : Option RingBuffer) (cap b : ℕ) (q : List ℕ)
    → Holds rb cap q
    → length q < cap
    → Holds (put rb b 1).0 cap (q ++ b ∷ [])
put_one rb cap b q h room =
    let one : min 1 (cap - length q) ≡ 1 = omega arith in
    subst (λ k. Holds (put rb b 1).0 cap (q ++ replicate k b)) one (put_refines rb cap q b 1 h).0

content_index :
    (now b : ℕ) (a : Atcmd) → (recv_ipd_content now b a).ipd_recv_index ≡ u16 (a.ipd_recv_index + 1)
unfolding recv_ipd_content
content_index now b a = refl

content_told : (now b : ℕ) (a : Atcmd) → (recv_ipd_content now b a).ipd_length ≡ a.ipd_length
unfolding recv_ipd_content
content_told now b a = refl

content_mode :
    (now b : ℕ) (a : Atcmd)
    → (recv_ipd_content now b a).serial_recv ≡ (
        if leb a.ipd_length (u16 (a.ipd_recv_index + 1))
        then serial_recv_serial_default
        else a.serial_recv)
unfolding recv_ipd_content
content_mode now b a = refl

content_ring :
    (now b cap : ℕ) (q : List ℕ) (a : Atcmd)
    → Holds a.ipd_rb cap q
    → length q < cap
    → Holds (recv_ipd_content now b a).ipd_rb cap (q ++ b ∷ [])
unfolding recv_ipd_content
content_ring now b cap q a h room = put_one a.ipd_rb cap b q h room

content_rest :
    (now b : ℕ) (a : Atcmd)
    → ((recv_ipd_content now b a).rb ≡ a.rb)
      × ((recv_ipd_content now b a).posts ≡ a.posts)
      × ((recv_ipd_content now b a).time_to_default ≡ u32 (now + 20))
unfolding recv_ipd_content
content_rest now b a = (refl, refl, refl)

-- While data is taken, with at least one byte missing: if the missing bytes all come on time and
-- there is room for them, they go to the data's ring in order, the lines' ring and the semaphore
-- stay as they are, and the receiver is back at lines exactly after the last of them.
pub recv_all_lem :
    (ds : List (ℕ × ℕ)) (cap : ℕ) (q : List ℕ) (a : Atcmd)
    → a.serial_recv ≡ serial_recv_ipd_content
    → 0 < length ds
    → a.ipd_recv_index + length ds ≡ a.ipd_length
    → a.ipd_length < 65536
    → OnTime a.time_to_default ds
    → Holds a.ipd_rb cap q
    → length q + length ds ≤ cap
    → ((recv_all ds a).serial_recv ≡ serial_recv_serial_default)
      × Holds (recv_all ds a).ipd_rb cap (q ++ bytes_of ds)
      × ((recv_all ds a).rb ≡ a.rb)
      × ((recv_all ds a).posts ≡ a.posts)
recv_all_lem [] cap q a mode some_left sum told early h room = absurd (omega arith)
recv_all_lem ((now, b) ∷ []) cap q a mode some_left sum told (early, on_time) h room =
    let step = content_on_time now b a mode early in
    let last : leb a.ipd_length (u16 (a.ipd_recv_index + 1)) ≡ true = ground arith in
    let (same_rb, same_posts, time) = content_rest now b a in
    (
      ap (λ k. k.serial_recv) step ∙ content_mode now b a ∙ rw last refl,
      subst (λ k. Holds k.ipd_rb cap (q ++ b ∷ [])) (sym step)
          (content_ring now b cap q a h (omega arith)),
      ap (λ k. k.rb) step ∙ same_rb,
      ap (λ k. k.posts) step ∙ same_posts,
    )
recv_all_lem ((now, b) ∷ d ∷ ds) cap q a mode some_left sum told (early, on_time) h room =
    let step = content_on_time now b a mode early in
    let a1 = recv_ipd_content now b a in
    let more : leb a.ipd_length (u16 (a.ipd_recv_index + 1)) ≡ false = ground arith in
    let (same_rb, same_posts, time) = content_rest now b a in
    let grown : length (q ++ b ∷ []) ≡ length q + 1 = length-append q (b ∷ []) in
    let (mode', ring', rb', posts') =
      recv_all_lem (d ∷ ds) cap (q ++ b ∷ []) a1 (content_mode now b a ∙ rw more mode) (omega arith)
        (omega (arith, content_index now b a, content_told now b a))
        (omega (arith, content_told now b a)) (subst (λ t. OnTime t (d ∷ ds)) (sym time) on_time)
        (content_ring now b cap q a h (omega arith)) (omega arith) in
    (
      ap (λ k. (recv_all (d ∷ ds) k).serial_recv) step ∙ mode',
      subst (λ k. Holds (recv_all (d ∷ ds) k).ipd_rb cap (q ++ bytes_of ((now, b) ∷ d ∷ ds)))
          (sym step)
          (subst (Holds (recv_all (d ∷ ds) a1).ipd_rb cap)
            (append_assoc q (b ∷ []) (bytes_of (d ∷ ds))) ring'),
      ap (λ k. (recv_all (d ∷ ds) k).rb) step ∙ rb' ∙ same_rb,
      ap (λ k. (recv_all (d ∷ ds) k).posts) step ∙ posts' ∙ same_posts,
    )
