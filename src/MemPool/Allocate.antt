-- ===== src/MemPool/Allocate.antt =====
-- mem_pool_malloc: which block it hands out, and what it leaves of the pool.
use embedded_template.Prelude.{
  ℕ, ◌+◌, ◌-◌, ◌≤◌, ◌<◌, ◌≡◌, ◌≢◌, refl, sym, ap, subst, ◌∙◌, Bool-cases, inl, inr, true, false,
  some, [], ◌∷◌, length, ltb, ◌==◌, eq→==, ltb→lt, ltb→le, u16, le→ltb, arith,
}
use embedded_template.MemPool.{
  Segment, Heap, ◌>>=◌, sizeof_segment, done, update, malloc_loop, malloc, poison,
}
use embedded_template.MemPool.Chain.{
  Blocks, ChainTo, Ordered, IsPool, first_nonzero, update_self, update_ne, ChainTo-frame,
  ChainTo-update, set_next_done,
}
use embedded_template.MemPool.Carve.{
  carve, splite_small, splite_whole, splite-cut, cut, IsHandedOut,
}
use embedded_template.MemPool.Search.{Searched, malloc_loop-Searched}

carve-Ordered :
    (want lo : ℕ) (bs : Blocks) → 0 < want → Ordered lo bs → Ordered lo (carve want bs).0
carve-Ordered want lo [] pw o = o
carve-Ordered want lo ((a, s) ∷ bs) pw (above, ps, fits, o) = elim (Bool-cases (ltb s want)) [
  | inl small ↦ rw small (above, ps, fits, carve-Ordered want (a + s) bs pw o)
  | inr enough ↦ elim (Bool-cases (ltb (want + 16) s)) [
    | inl more ↦
        let room = ltb→lt (want + 16) s more in
        let same : a + want + (s - want) ≡ a + s = omega arith in
        rw (enough, more)
          (omega arith, omega arith, omega arith, subst (λ k. Ordered k bs) (sym same) o)
    | inr whole ↦ rw (enough, whole) tt
  ]
]

-- How `mem_pool_malloc` ends on a well-formed pool.
pub record Allocated (fuel p size : ℕ) (h : Heap) (bs : Blocks) (p' ret : ℕ) (h' : Heap)
    : Type 0 where
  pub ends : malloc fuel p size h ≡ done ((p', ret), h')
  pub pool : IsPool h' p' (carve (size + 8) bs).0
  pub answer : ret ≡ (carve (size + 8) bs).1
  pub marked : IsHandedOut h' (size + 8) ret

malloc_first_whole :
    (fuel p size a s n : ℕ) (h : Heap) (bs : Blocks)
    → IsPool h p ((a, s) ∷ bs)
    → p ≡ a
    → h a ≡ some (record { next = n; size = s })
    → size + 8 < 65536
    → ltb s (size + 8) ≡ false
    → ltb (size + 8 + 16) s ≡ false
    → Allocated fuel p size h
        ((a, s) ∷ bs)
        0
        (p + 8)
        (update h p (record { next = poison; size = s }))
unfolding malloc
malloc_first_whole fuel p size a s n h bs v at cell b enough whole =
    let nonzero = first_nonzero h p a s bs 0 v.chain v.ordered in
    let wanted : u16 (size + sizeof_segment) ≡ size + 8 = omega arith in
    let cell_p : h p ≡ some (record { next = n; size = s }) = rw at cell in
    let back : p + 8 - 8 ≡ p = omega arith in
    record {
      ends =
          rw (nonzero, wanted, splite_whole h p n s (size + 8) cell_p enough whole, ◌>>=◌)
            (rw (set_next_done h p poison (record { next = n; size = s }) cell_p, ◌>>=◌));
      pool = rw (enough, whole) (record { chain = refl; ordered = tt });
      answer = rw (enough, whole) (ap (λ k. k + 8) at);
      marked = inr (
        s,
        ap (update h p (record { next = poison; size = s })) back
            ∙ update_self h p (record { next = poison; size = s }),
        ltb→le s (size + 8) enough,
      );
    }

malloc_first_cut :
    (fuel p size a s n : ℕ) (h : Heap) (bs : Blocks)
    → IsPool h p ((a, s) ∷ bs)
    → p ≡ a
    → h a ≡ some (record { next = n; size = s })
    → ChainTo h n bs 0
    → size + 8 < 65536
    → ltb s (size + 8) ≡ false
    → ltb (size + 8 + 16) s ≡ true
    → Allocated fuel p size h
        ((a, s) ∷ bs)
        (p + (size + 8))
        (p + 8)
        (update (cut h p n s (size + 8)) p (record { next = poison; size = size + 8 }))
unfolding malloc
malloc_first_cut fuel p size a s n h bs v at cell c b enough more =
    let nonzero = first_nonzero h p a s bs 0 v.chain v.ordered in
    let wanted : u16 (size + sizeof_segment) ≡ size + 8 = omega arith in
    let cell_p : h p ≡ some (record { next = n; size = s }) = rw at cell in
    let back : p + 8 - 8 ≡ p = omega arith in
    let want = size + 8 in
    let room = ltb→lt (want + 16) s more in
    let rest : Segment = record { next = n; size = s - want } in
    let part : Segment = record { next = n; size = want } in
    let done_part : Segment = record { next = poison; size = want } in
    let g = cut h p n s want in
    let h' = update g p done_part in
    let (above, ps, fits, o) = v.ordered in
    let other : (x : ℕ) → x ≢ p → x ≢ p + want → h' x ≡ h x = λ x xp xw.
      update_ne g p x done_part xp
      ∙ update_ne (update h (p + want) rest) p x part xp
      ∙ update_ne h (p + want) x rest xw in
    let left : h' (a + want) ≡ some rest =
      ap h' (ap (λ k. k + want) (sym at))
      ∙ update_ne g p (p + want) done_part (omega arith)
      ∙ update_ne (update h (p + want) rest) p (p + want) part (omega arith)
      ∙ update_self h (p + want) rest in
    record {
      ends =
          rw (nonzero, wanted, splite-cut h p n s want cell_p fits enough more, ◌>>=◌)
            (rw (
              set_next_done g p poison part (update_self (update h (p + want) rest) p part),
              ◌>>=◌,
            ));
      pool = record {
        chain =
            rw (enough, more)
              (
                n,
                ap (λ k. k + want) at,
                left,
                ChainTo-frame h h' (a + s) n bs 0 (λ x hx. other x (omega arith) (omega arith)) o c,
              );
        ordered = carve-Ordered want 1 ((a, s) ∷ bs) (omega arith) v.ordered;
      };
      answer = rw (enough, more) (ap (λ k. k + 8) at);
      marked = inr (want, ap h' back ∙ update_self g p done_part, omega arith);
    }

malloc_later :
    (fuel p size a s n ret : ℕ) (h h' : Heap) (bs : Blocks)
    → IsPool h p ((a, s) ∷ bs)
    → p ≡ a
    → h a ≡ some (record { next = n; size = s })
    → size + 8 < 65536
    → ltb s (size + 8) ≡ true
    → Searched h a s (size + 8) bs (malloc_loop fuel a (size + 8) h) ret h'
    → Allocated fuel p size h ((a, s) ∷ bs) p ret h'
unfolding malloc
malloc_later fuel p size a s n ret h h' bs v at cell b small found =
    let nonzero = first_nonzero h p a s bs 0 v.chain v.ordered in
    let wanted : u16 (size + sizeof_segment) ≡ size + 8 = omega arith in
    let cell_p : h p ≡ some (record { next = n; size = s }) = rw at cell in
    let (n', _, cell', chain) = found.chain in
    let ends' : malloc_loop fuel p (size + 8) h ≡ done (ret, h') =
      ap (λ k. malloc_loop fuel k (size + 8) h) at ∙ found.ends in
    record {
      ends =
          rw (nonzero, wanted, splite_small h p n s (size + 8) cell_p small, ◌>>=◌)
            (rw (wanted, ends', ◌>>=◌));
      pool = record {
        chain = rw small (n', at, cell', chain);
        ordered = carve-Ordered (size + 8) 1 ((a, s) ∷ bs) (omega arith) v.ordered;
      };
      answer = rw small found.answer;
      marked = found.marked;
    }

-- On a well-formed pool, for a size that the header can be added to in 16 bits, `mem_pool_malloc`
-- ends without a fault and leaves a well-formed pool of the blocks that `carve` describes: the first
-- block that is large enough is cut, or taken whole, and in that case all free blocks behind it
-- leave the pool with it. What it hands out is as `carve` says: NULL where no block is large enough,
-- and else memory behind a poisoned header of at least the size asked for. More rounds than there
-- are blocks are enough.
pub malloc_refines :
    (fuel p size : ℕ) (h : Heap) (bs : Blocks)
    → IsPool h p bs
    → size + 8 < 65536
    → length bs < fuel
    → (p' : ℕ) × (ret : ℕ) × (h' : Heap) × Allocated fuel p size h bs p' ret h'
malloc_refines fuel p size h [] v b f =
    let empty : (p == 0) ≡ true = eq→== p 0 v.chain in
    (
      0,
      0,
      h,
      record {
        ends = unfold malloc in rw empty refl;
        pool = record { chain = refl; ordered = tt };
        answer = refl;
        marked = inl refl;
      },
    )
malloc_refines fuel p size h ((a, s) ∷ bs) v b f =
    let (n, at, cell, c) = v.chain in
    let (above, ps, fits, o) = v.ordered in
    let want = size + 8 in
    elim (Bool-cases (ltb s want)) [
      | inl small ↦
          let (ret, h', found) =
            malloc_loop-Searched bs fuel a s n want h cell c o ps (omega arith) (omega arith) in
          (p, ret, h', malloc_later fuel p size a s n ret h h' bs v at cell b small found)
      | inr enough ↦ elim (Bool-cases (ltb (want + 16) s)) [
        | inl more ↦ (
          p + want,
          p + 8,
          update (cut h p n s want) p (record { next = poison; size = want }),
          malloc_first_cut fuel p size a s n h bs v at cell c b enough more,
        )
        | inr whole ↦ (
          0,
          p + 8,
          update h p (record { next = poison; size = s }),
          malloc_first_whole fuel p size a s n h bs v at cell b enough whole,
        )
      ]
    ]

-- Where the pool's first block has the size asked for and its header, and at most two headers more,
-- it is handed out and the pool becomes NULL: the blocks behind it still stand in the heap, but are
-- lost to the pool.
pub malloc_forgets :
    (fuel p size a s : ℕ) (h : Heap) (bs : Blocks)
    → IsPool h p ((a, s) ∷ bs)
    → size + 8 ≤ s
    → s ≤ size + 24
    → length bs < fuel
    → (h' : Heap) × (n : ℕ) × (malloc fuel p size h ≡ done ((0, a + 8), h'))
      × (h a ≡ some (record { next = n; size = s }))
      × ChainTo h' n bs 0
malloc_forgets fuel p size a s h bs v enough few f =
    let (n, at, cell, c) = v.chain in
    let (above, ps, fits, o) = v.ordered in
    let taken =
      malloc_first_whole fuel p size a s n h bs v at cell (omega arith) (le→ltb s (size + 8) enough)
        (le→ltb (size + 8 + 16) s (omega arith)) in
    (
      update h p (record { next = poison; size = s }),
      n,
      taken.ends ∙ ap (λ k. done ((0, k + 8), update h p (record { next = poison; size = s }))) at,
      cell,
      ChainTo-update h p (record { next = poison; size = s }) (a + s) n bs 0 (omega arith) o c,
    )
