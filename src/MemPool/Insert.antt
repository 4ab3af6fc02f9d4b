-- ===== src/MemPool/Insert.antt =====
-- mem_pool_free: what the pool is after a block is given back, and when it is one no longer.
use embedded_template.Prelude.{
  ℕ, zero, suc, ◌+◌, ◌-◌, ◌≤◌, ◌<◌, ◌≡◌, refl, sym, ap, subst, ◌∙◌, Bool-cases, inl, inr, true,
  false, some, [], ◌∷◌, length, ltb, ◌==◌, ne→==, eq→==, ltb→lt, if◌then◌else◌, arith,
}
use embedded_template.MemPool.{
  Segment, Heap, ◌>>=◌, Outcome, done, update, add_segment_loop, add_segment, free, poison,
}
use embedded_template.MemPool.Chain.{
  Blocks, ChainTo, Ordered, total, IsPool, update_self, first_nonzero, ChainTo-update, load_then,
  set_next_done,
}
use embedded_template.MemPool.Combine.{join, combine-Combined}
use embedded_template.MemPool.Release.{
  insert_after, end_after, FitsIn, total-join, total-insert_after, join-Ordered,
  insert_after-Ordered, Released, release_last, release_here,
}

release_loop :
    (bs : Blocks) (fuel a s n x z g : ℕ) (h : Heap)
    → h a ≡ some (record { next = n; size = s })
    → ChainTo h n bs 0
    → h x ≡ some (record { next = g; size = z })
    → Ordered (a + s) bs
    → 0 < s
    → 0 < z
    → FitsIn (a + s) x z bs
    → s + z + total bs < 65536
    → length bs < fuel
    → (h' : Heap) × Released h a s x z g bs (add_segment_loop fuel a x h) h'
unfolding add_segment_loop
release_loop bs zero a s n x z g h cell c cell_x o ps pz gap sum f = absurd (omega arith)
release_loop [] (suc fuel) a s n x z g h cell c cell_x o ps pz gap sum f =
    release_last fuel a s n x z g h cell c cell_x ps pz gap (omega arith)
release_loop ((b, t) ∷ bs) (suc fuel) a s n x z g h cell (n', at, cell_b, c) cell_x
      (above, pt, fits, o) ps pz (behind, gap) sum f =
    elim (Bool-cases (ltb x b)) [
      | inl less ↦
          release_here fuel a s n x z g b t bs h cell (n', at, cell_b, c) cell_x
            (above, pt, fits, o) ps pz behind (rw less at gap) less sum
      | inr more ↦
          let nonzero : (n == 0) ≡ false = ne→== n 0 (omega arith) in
          let more_n : ltb x n ≡ false = rw at more in
          let (h', rest) =
            release_loop bs fuel b t n' x z g h cell_b c cell_x o pt pz (rw more at gap)
              (omega arith) (omega arith) in
          (
            h',
            record {
              ends =
                  load_then h a _ _ cell
                  ∙ rw (nonzero, more_n) (ap (λ k. add_segment_loop fuel k x h) at ∙ rest.ends);
              chain = rw more (
                n,
                refl,
                rest.frame a (omega arith) ∙ cell,
                subst (λ k. ChainTo h' k (insert_after b t x z bs) (end_after x g bs)) (sym at)
                    rest.chain,
              );
              frame = λ y less. rest.frame y (omega arith);
            },
          )
    ]

-- The free blocks once the block of size `z` at `x` is given back.
abbrev pub insert : ℕ → ℕ → Blocks → Blocks
insert x z [] = (x, z) ∷ []
insert x z ((a, s) ∷ bs) = if ltb x a then join x z ((a, s) ∷ bs) else insert_after a s x z bs

-- The pointer that the list then ends with.
abbrev pub end_of : ℕ → ℕ → Blocks → ℕ
end_of x g [] = 0
end_of x g ((a, s) ∷ bs) = if ltb x a then 0 else end_after x g bs

pub total-insert : (x z : ℕ) (bs : Blocks) → total (insert x z bs) ≡ z + total bs
total-insert x z [] = refl
total-insert x z ((a, s) ∷ bs) = elim (Bool-cases (ltb x a)) [
  | inl less ↦ rw less (total-join x z ((a, s) ∷ bs))
  | inr more ↦ rw more (total-insert_after a s x z bs ∙ omega arith)
]

insert-Ordered :
    (x z : ℕ) (bs : Blocks)
    → 0 < z
    → z + total bs < 65536
    → Ordered 1 bs
    → FitsIn 1 x z bs
    → Ordered 1 (insert x z bs)
insert-Ordered x z [] pz sum o gap = (gap, pz, omega arith, tt)
insert-Ordered x z ((a, s) ∷ bs) pz sum (above, ps, fits, o) (behind, gap) =
    elim (Bool-cases (ltb x a)) [
      | inl less ↦
          let room : x + z ≤ a = rw less at gap in
          rw less (join-Ordered 1 x z ((a, s) ∷ bs) behind pz sum (room, ps, fits, o))
      | inr more ↦
          rw more (insert_after-Ordered 1 a s x z bs above ps pz (omega arith) o (rw more at gap))
    ]

-- How `add_segment` ends on a pool of the blocks `bs`.
record Added (x z g : ℕ) (bs : Blocks) (result : Outcome (ℕ × Heap)) (p' : ℕ) (h' : Heap)
    : Type 0 where
  ends : result ≡ done (p', h')
  chain : ChainTo h' p' (insert x z bs) (end_of x g bs)

add_segment-Added :
    (fuel p x z g : ℕ) (h : Heap) (bs : Blocks)
    → IsPool h p bs
    → h x ≡ some (record { next = g; size = z })
    → 0 < z
    → FitsIn 1 x z bs
    → z + total bs < 65536
    → length bs < fuel
    → (p' : ℕ) × (h' : Heap) × Added x z g bs (add_segment fuel p x h) p' h'
unfolding add_segment
add_segment-Added fuel p x z g h [] v cell_x pz gap sum f =
    let none_left : (p == 0) ≡ true = eq→== p 0 v.chain in
    let only : Segment = record { next = 0; size = z } in
    (
      x,
      update h x only,
      record {
        ends =
            rw none_left (rw (set_next_done h x 0 (record { next = g; size = z }) cell_x, ◌>>=◌));
        chain = (0, refl, update_self h x only, refl);
      },
    )
add_segment-Added fuel p x z g h ((a, s) ∷ bs) v cell_x pz (behind, gap) sum f =
    let (n, at, cell, c) = v.chain in
    let (above, ps, fits, o) = v.ordered in
    let nonzero = first_nonzero h p a s bs 0 v.chain v.ordered in
    elim (Bool-cases (ltb x a)) [
      | inl less ↦
          let less_p : ltb x p ≡ true = rw at less in
          let room : x + z ≤ a = rw less at gap in
          let linked : Segment = record { next = p; size = z } in
          let h1 = update h x linked in
          let (h2, first) =
            combine-Combined h1 x z p a s 0 bs (update_self h x linked)
              (ChainTo-update h x linked a p ((a, s) ∷ bs) 0 (ltb→lt x a less)
                (omega arith, ps, fits, o) v.chain)
              (room, ps, fits, o) pz (omega arith) in
          (
            x,
            h2,
            record {
              ends =
                  rw (nonzero, less_p)
                    (rw (set_next_done h x p (record { next = g; size = z }) cell_x, ◌>>=◌)
                      (rw (first.ends, ◌>>=◌)));
              chain = rw less first.chain;
            },
          )
      | inr more ↦
          let more_p : ltb x p ≡ false = rw at more in
          let (h', rest) =
            release_loop bs fuel a s n x z g h cell c cell_x o ps pz (rw more at gap) (omega arith)
              (omega arith) in
          let ends' : add_segment_loop fuel p x h ≡ done (tt, h') =
            ap (λ k. add_segment_loop fuel k x h) at ∙ rest.ends in
          (
            p,
            h',
            record {
              ends = rw (nonzero, more_p) (rw (ends', ◌>>=◌));
              chain = rw (more) (rw at rest.chain);
            },
          )
    ]

-- Behind a poisoned header `mem_pool_free` adds the segment.
free_ends :
    (fuel p mem z : ℕ) (h : Heap)
    → 8 < mem
    → h (mem - 8) ≡ some (record { next = poison; size = z })
    → free fuel p mem h ≡ add_segment fuel p (mem - 8) h
unfolding free
free_ends fuel p mem z h far cell =
    let given : (mem == 0) ≡ false = ne→== mem 0 (omega arith) in
    rw given (load_then h (mem - 8) _ _ cell)

-- A block that was handed out is given back. The memory `mem` lies behind a poisoned header, the
-- block does not overlap a free block, the free bytes fit in 16 bits, and the pool is empty or has
-- a free block behind the one given back. Then `mem_pool_free` ends without a fault, and the pool is
-- well-formed again: its blocks are in order of address, the block given back is among them and
-- joined with the neighbours it touches, and the free bytes are those before and the block's size.
-- More rounds than there are blocks are enough.
pub free_refines :
    (fuel p mem z : ℕ) (h : Heap) (bs : Blocks)
    → IsPool h p bs
    → 8 < mem
    → h (mem - 8) ≡ some (record { next = poison; size = z })
    → 0 < z
    → FitsIn 1 (mem - 8) z bs
    → z + total bs < 65536
    → end_of (mem - 8) poison bs ≡ 0
    → length bs < fuel
    → (p' : ℕ) × (h' : Heap) × (free fuel p mem h ≡ done (p', h'))
      × IsPool h' p' (insert (mem - 8) z bs)
      × (total (insert (mem - 8) z bs) ≡ z + total bs)
free_refines fuel p mem z h bs v far cell pz gap sum behind f =
    let (p', h', added) = add_segment-Added fuel p (mem - 8) z poison h bs v cell pz gap sum f in
    (
      p',
      h',
      free_ends fuel p mem z h far cell ∙ added.ends,
      record {
        chain = subst (ChainTo h' p' (insert (mem - 8) z bs)) behind added.chain;
        ordered = insert-Ordered (mem - 8) z bs pz sum v.ordered gap;
      },
      total-insert (mem - 8) z bs,
    )

-- Where the block given back lies behind all free blocks of a pool that has some, `mem_pool_free`
-- ends without a fault, but the pool's list does not end with NULL: it ends with the pointer POISON
-- that stood in the block's header.
pub free_breaks :
    (fuel p mem z : ℕ) (h : Heap) (bs : Blocks)
    → IsPool h p bs
    → 8 < mem
    → h (mem - 8) ≡ some (record { next = poison; size = z })
    → 0 < z
    → FitsIn 1 (mem - 8) z bs
    → z + total bs < 65536
    → end_of (mem - 8) poison bs ≡ poison
    → length bs < fuel
    → (p' : ℕ) × (h' : Heap) × (free fuel p mem h ≡ done (p', h'))
      × ChainTo h' p' (insert (mem - 8) z bs) poison
free_breaks fuel p mem z h bs v far cell pz gap sum last f =
    let (p', h', added) = add_segment-Added fuel p (mem - 8) z poison h bs v cell pz gap sum f in
    (
      p',
      h',
      free_ends fuel p mem z h far cell ∙ added.ends,
      subst (ChainTo h' p' (insert (mem - 8) z bs)) last added.chain,
    )
