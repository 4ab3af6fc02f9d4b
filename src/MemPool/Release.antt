-- ===== src/MemPool/Release.antt =====
-- add_segment: where a block given back goes, and what the list ends with.
use embedded_template.Prelude.{
  ℕ, suc, ◌+◌, ◌≤◌, ◌<◌, ◌≡◌, refl, sym, ap, subst, ◌∙◌, Bool-cases, inl, inr, true, false, some,
  [], ◌∷◌, ltb, ◌==◌, ne→==, eq→==, ltb→lt, ==→eq, if◌then◌else◌, arith,
}
use embedded_template.MemPool.{Segment, Heap, ◌>>=◌, Outcome, done, update, add_segment_loop}
use embedded_template.MemPool.Chain.{
  Blocks, ChainTo, Ordered, total, update_self, update_ne, ChainTo-update, load_then, set_next_done,
}
use embedded_template.MemPool.Combine.{join, combine-Combined}

-- Where the block of size `z` at `x` goes, among `bs` behind the block `a`.
abbrev pub insert_after : ℕ → ℕ → ℕ → ℕ → Blocks → Blocks
insert_after a s x z [] = join a s ((x, z) ∷ [])
insert_after a s x z ((b, t) ∷ bs) =
    if ltb x b then join a s (join x z ((b, t) ∷ bs)) else (a, s) ∷ insert_after b t x z bs

-- The pointer that the list ends with: `g`, which stood in the segment's header, if the segment came
-- behind all others, and else NULL.
abbrev pub end_after : ℕ → ℕ → Blocks → ℕ
end_after x g [] = g
end_after x g ((b, t) ∷ bs) = if ltb x b then 0 else end_after x g bs

-- The block lies in a gap: behind `lo`, and not across any block of `bs`.
abbrev pub FitsIn : ℕ → ℕ → ℕ → Blocks → Type 0
FitsIn lo x z [] = lo ≤ x
FitsIn lo x z ((b, t) ∷ bs) = (lo ≤ x) × (if ltb x b then x + z ≤ b else FitsIn (b + t) x z bs)

-- `join` starts at the block's own address.
record Joined (x z : ℕ) (bs : Blocks) : Type 0 where
  size : ℕ
  rest : Blocks
  shape : join x z bs ≡ (x, size) ∷ rest
  positive : 0 < size

join-Joined : (x z : ℕ) (bs : Blocks) → 0 < z → Joined x z bs
join-Joined x z [] pz = record { size = z; rest = []; shape = refl; positive = pz }
join-Joined x z ((b, t) ∷ bs) pz = elim (Bool-cases (z + x == b)) [
  | inl touch ↦ record { size = z + t; rest = bs; shape = rw touch; positive = omega arith }
  | inr apart ↦ record { size = z; rest = (b, t) ∷ bs; shape = rw apart; positive = pz }
]

pub total-join : (x z : ℕ) (bs : Blocks) → total (join x z bs) ≡ z + total bs
total-join x z [] = refl
total-join x z ((b, t) ∷ bs) = elim (Bool-cases (z + x == b)) [
  | inl touch ↦ rw touch (omega arith)
  | inr apart ↦ rw apart refl
]

pub total-insert_after :
    (a s x z : ℕ) (bs : Blocks) → total (insert_after a s x z bs) ≡ s + z + total bs
total-insert_after a s x z [] = total-join a s ((x, z) ∷ []) ∙ omega arith
total-insert_after a s x z ((b, t) ∷ bs) = elim (Bool-cases (ltb x b)) [
  | inl less ↦ rw less (total-join a s (join x z ((b, t) ∷ bs)) ∙ rw total-join (omega arith))
  | inr more ↦ rw more (omega (arith, total-insert_after b t x z bs))
]

pub join-Ordered :
    (lo a s : ℕ) (bs : Blocks)
    → lo ≤ a
    → 0 < s
    → s + total bs < 65536
    → Ordered (a + s) bs
    → Ordered lo (join a s bs)
join-Ordered lo a s [] above ps fits o = (above, ps, omega arith, tt)
join-Ordered lo a s ((b, t) ∷ bs) above ps sum (h, pt, fits, o) = elim (Bool-cases (s + a == b)) [
  | inl touch ↦
      let same : b + t ≡ a + (s + t) = omega (arith, ==→eq (s + a) b touch) in
      rw touch (above, omega arith, omega arith, subst (λ k. Ordered k bs) same o)
  | inr apart ↦ rw apart (above, ps, omega arith, (h, pt, fits, o))
]

pub insert_after-Ordered :
    (lo a s x z : ℕ) (bs : Blocks)
    → lo ≤ a
    → 0 < s
    → 0 < z
    → s + z + total bs < 65536
    → Ordered (a + s) bs
    → FitsIn (a + s) x z bs
    → Ordered lo (insert_after a s x z bs)
insert_after-Ordered lo a s x z [] above ps pz sum o gap =
    join-Ordered lo a s ((x, z) ∷ []) above ps (omega arith) (gap, pz, omega arith, tt)
insert_after-Ordered lo a s x z ((b, t) ∷ bs) above ps pz sum (h, pt, fits, o) (behind, gap) =
    elim (Bool-cases (ltb x b)) [
      | inl less ↦
          let room : x + z ≤ b = rw less at gap in
          rw less (
            join-Ordered lo a s (join x z ((b, t) ∷ bs)) above ps (rw total-join (omega arith))
              (join-Ordered (a + s) x z ((b, t) ∷ bs) behind pz (omega arith) (room, pt, fits, o)))
      | inr more ↦ rw more (
        above,
        ps,
        omega arith,
        insert_after-Ordered (a + s) b t x z bs h pt pz (omega arith) o (rw more at gap),
      )
    ]

-- How the loop of `add_segment` ends, started at the block `a` with the segment `x` behind it.
pub record Released (h : Heap) (a s x z g : ℕ) (bs : Blocks) (result : Outcome (Unit {0} × Heap))
    (h' : Heap) : Type 0 where
  pub ends : result ≡ done (tt, h')
  pub chain : ChainTo h' a (insert_after a s x z bs) (end_after x g bs)
  pub frame : (y : ℕ) → y < a → h' y ≡ h y

-- At the end of the list the segment's own `next` stays as it was.
pub release_last :
    (fuel a s n x z g : ℕ) (h : Heap)
    → h a ≡ some (record { next = n; size = s })
    → n ≡ 0
    → h x ≡ some (record { next = g; size = z })
    → 0 < s
    → 0 < z
    → a + s ≤ x
    → s + z < 65536
    → (h' : Heap) × Released h a s x z g [] (add_segment_loop (suc fuel) a x h) h'
unfolding add_segment_loop
release_last fuel a s n x z g h cell last cell_x ps pz behind sum =
    let linked : Segment = record { next = x; size = s } in
    let h1 = update h a linked in
    let at_x : h1 x ≡ some (record { next = g; size = z }) =
      update_ne h a x linked (omega arith) ∙ cell_x in
    let (h', c) =
      combine-Combined h1 a s x x z g [] (update_self h a linked) (g, refl, at_x, refl)
        (behind, pz, omega arith, tt) ps sum in
    (
      h',
      record {
        ends =
            load_then h a _ _ cell
            ∙ rw (eq→== n 0 last) (rw (set_next_done h a x _ cell, ◌>>=◌) c.ends);
        chain = c.chain;
        frame = λ y less. c.frame y (omega arith) ∙ update_ne h a y linked (omega arith);
      },
    )

pub release_here :
    (fuel a s n x z g b t : ℕ) (bs : Blocks) (h : Heap)
    → h a ≡ some (record { next = n; size = s })
    → ChainTo h n ((b, t) ∷ bs) 0
    → h x ≡ some (record { next = g; size = z })
    → Ordered (a + s) ((b, t) ∷ bs)
    → 0 < s
    → 0 < z
    → a + s ≤ x
    → x + z ≤ b
    → ltb x b ≡ true
    → s + z + total ((b, t) ∷ bs) < 65536
    → (h' : Heap) × Released h a s x z g ((b, t) ∷ bs) (add_segment_loop (suc fuel) a x h) h'
unfolding add_segment_loop
release_here fuel a s n x z g b t bs h cell (n', at, cell_b, c) cell_x (above, pt, fits, o) ps pz
      behind room less sum =
    let nonzero : (n == 0) ≡ false = ne→== n 0 (omega arith) in
    let less_n : ltb x n ≡ true = rw at less in
    let linked : Segment = record { next = n; size = z } in
    let h1 = update h x linked in
    let chain1 : ChainTo h1 n ((b, t) ∷ bs) 0 =
      ChainTo-update h x linked b n ((b, t) ∷ bs) 0 (ltb→lt x b less) (omega arith, pt, fits, o)
        (n', at, cell_b, c) in
    let (h2, first) =
      combine-Combined h1 x z n b t 0 bs (update_self h x linked) chain1 (room, pt, fits, o) pz
        (omega arith) in
    let j = join-Joined x z ((b, t) ∷ bs) pz in
    let cell2 : h2 a ≡ some (record { next = n; size = s }) =
      first.frame a (omega arith) ∙ update_ne h x a linked (omega arith) ∙ cell in
    let linked' : Segment = record { next = x; size = s } in
    let h3 = update h2 a linked' in
    let ordered : Ordered (a + s) ((x, j.size) ∷ j.rest) =
      subst (Ordered (a + s)) j.shape
        (join-Ordered (a + s) x z ((b, t) ∷ bs) behind pz (omega arith) (room, pt, fits, o)) in
    let chain3 : ChainTo h3 x ((x, j.size) ∷ j.rest) 0 =
      ChainTo-update h2 a linked' (a + s) x ((x, j.size) ∷ j.rest) 0 (omega arith) ordered
        (subst (λ k. ChainTo h2 x k 0) j.shape first.chain) in
    let amount : j.size + total j.rest ≡ z + total ((b, t) ∷ bs) =
      ap total (sym j.shape) ∙ total-join x z ((b, t) ∷ bs) in
    let (h4, second) =
      combine-Combined h3 a s x x j.size 0 j.rest (update_self h2 a linked') chain3 ordered ps
        (omega arith) in
    (
      h4,
      record {
        ends =
            load_then h a _ _ cell
            ∙ rw (nonzero, less_n)
                (rw (set_next_done h x n (record { next = g; size = z }) cell_x, ◌>>=◌)
                  (rw (first.ends, ◌>>=◌)
                    (rw (set_next_done h2 a x (record { next = n; size = s }) cell2, ◌>>=◌)
                      second.ends)));
        chain = rw (less, j.shape) second.chain;
        frame = λ y below.
            second.frame y (omega arith)
            ∙ update_ne h2 a y linked' (omega arith)
            ∙ first.frame y (omega arith)
            ∙ update_ne h x y linked (omega arith);
      },
    )
