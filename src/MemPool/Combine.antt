-- ===== src/MemPool/Combine.antt =====
-- try_combine_with_next: a segment swallows its neighbour exactly if the two touch.
use embedded_template.Prelude.{
  ℕ, ◌+◌, ◌<◌, ◌≡◌, ◌≢◌, refl, ◌∙◌, Bool-cases, inl, inr, true, false, some, [], ◌∷◌, ltb, ◌==◌,
  ne→==, ==→ne, lt→ltb, if◌then◌else◌, u16, arith,
}
use embedded_template.MemPool.{Segment, Heap, Outcome, done, update, try_combine_with_next}
use embedded_template.MemPool.Chain.{
  Blocks, ChainTo, Ordered, update_self, update_ne, ChainTo-update, load_then,
}

-- A block in front of others, grown by the first of them if the two touch.
abbrev pub join : ℕ → ℕ → Blocks → Blocks
join a s [] = (a, s) ∷ []
join a s ((b, t) ∷ bs) = if s + a == b then (a, s + t) ∷ bs else (a, s) ∷ (b, t) ∷ bs

-- How a call of `try_combine_with_next` on `a` ends.
pub record Combined (h : Heap) (a s : ℕ) (bs : Blocks) (e : ℕ) (result : Outcome (Unit {0} × Heap))
    (h' : Heap) : Type 0 where
  pub ends : result ≡ done (tt, h')
  pub chain : ChainTo h' a (join a s bs) e
  pub frame : (x : ℕ) → x ≢ a → h' x ≡ h x

-- The segment at `a` stands in front of a chain of blocks that lie behind its end.
pub combine-Combined :
    (h : Heap) (a s n b t e : ℕ) (bs : Blocks)
    → h a ≡ some (record { next = n; size = s })
    → ChainTo h n ((b, t) ∷ bs) e
    → Ordered (a + s) ((b, t) ∷ bs)
    → 0 < s
    → s + t < 65536
    → (h' : Heap) × Combined h a s ((b, t) ∷ bs) e (try_combine_with_next a h) h'
unfolding try_combine_with_next
combine-Combined h a s n b t e bs cell (n', at, cell', c) (above, pt, fits, o) ps sum =
    let nonzero : (n == 0) ≡ false = ne→== n 0 (omega arith) in
    let cell_n : h n ≡ some (record { next = n'; size = t }) = rw at cell' in
    elim (Bool-cases (s + a == b)) [
      | inl touch ↦
          let big : Segment = record { next = n'; size = s + t } in
          let touch_n : (s + a == n) ≡ true = rw at touch in
          let whole : u16 (s + t) ≡ s + t = omega arith in
          (
            update h a big,
            record {
              ends =
                  load_then h a _ _ cell
                  ∙ rw (nonzero, touch_n) (load_then h n _ _ cell_n ∙ rw whole);
              chain = rw touch (
                n',
                refl,
                update_self h a big,
                ChainTo-update h a big (b + t) n' bs e (omega arith) o c,
              );
              frame = λ x xa. update_ne h a x big xa;
            },
          )
      | inr apart ↦
          let apart_n : (s + a == n) ≡ false = rw at apart in
          let less : ltb (s + a) n ≡ true =
            lt→ltb (s + a) n (omega (arith, ==→ne (s + a) b apart)) in
          (
            h,
            record {
              ends = load_then h a _ _ cell ∙ rw (nonzero, apart_n, less);
              chain = rw apart (n, refl, cell, (n', at, cell', c));
              frame = λ x xa. refl;
            },
          )
    ]
