-- ===== src/MemPool/Search.antt =====
-- The search of mem_pool_malloc through the list of free blocks.
use embedded_template.Prelude.{
  ℕ, zero, suc, ◌+◌, ◌-◌, ◌≤◌, ◌<◌, ◌≡◌, ◌≢◌, refl, sym, ap, ◌∙◌, Bool-cases, inl, inr, true, false,
  none, some, [], ◌∷◌, length, ltb, ◌==◌, ne→==, eq→==, ltb→lt, ltb→le, arith,
}
use embedded_template.MemPool.{
  Segment, Heap, ◌>>=◌, ◌>>◌, return, sizeof_segment, Outcome, done, update, set_next, splite,
  malloc_loop, poison,
}
use embedded_template.MemPool.Chain.{
  Blocks, ChainTo, Ordered, update_self, update_ne, ChainTo-frame, load_then, set_next_done,
}
use embedded_template.MemPool.Carve.{
  carve, splite_small, splite_whole, cut, splite-cut, IsHandedOut,
}

-- How the loop ends, started at the block `a` of size `s` that is too small.
pub record Searched (h : Heap) (a s want : ℕ) (bs : Blocks) (result : Outcome (ℕ × Heap)) (ret : ℕ)
    (h' : Heap) : Type 0 where
  pub ends : result ≡ done (ret, h')
  pub chain : ChainTo h' a ((a, s) ∷ (carve want bs).0) 0
  pub answer : ret ≡ (carve want bs).1
  pub marked : IsHandedOut h' want ret
  pub frame : (x : ℕ) → x < a → h' x ≡ h x

module _ (fuel a s n b t n' want : ℕ) (bs : Blocks) (h : Heap)
    (cell : h a ≡ some (record { next = n; size = s })) (at : n ≡ b)
    (cell' : h b ≡ some (record { next = n'; size = t })) (chain : ChainTo h n' bs 0)
    (apart : a + s ≤ b) (positive : 0 < s) (ordered : Ordered (b + t) bs) (fits : t < 65536)
    (some_size : 0 < t) (wanted : 0 < want) where
  nonzero : (n == 0) ≡ false
  nonzero = ne→== n 0 (omega arith)

  cell_n : h n ≡ some (record { next = n'; size = t })
  cell_n = rw at cell'

  -- The heap when the segment `a` was linked to `l` and `n` was poisoned, behind a split.
  abbrev linked : Heap → ℕ → ℕ → Heap
  linked g l m =
      update (update g a (record { next = l; size = s })) n (record { next = poison; size = m })

  link_done :
      (g : Heap) (l m x y : ℕ)
      → g a ≡ some (record { next = x; size = s })
      → g n ≡ some (record { next = y; size = m })
      → (set_next a l >> (set_next n poison >> return (n + sizeof_segment))) g
        ≡ done (n + 8, linked g l m)
  link_done g l m x y ca cn =
      let g' = update g a (record { next = l; size = s }) in
      let cn' : g' n ≡ some (record { next = y; size = m }) =
        update_ne g a n (record { next = l; size = s }) (omega arith) ∙ cn in
      rw (set_next_done g a l (record { next = x; size = s }) ca, ◌>>=◌)
        (rw (set_next_done g' n poison (record { next = y; size = m }) cn', ◌>>=◌))

  linked_a : (g : Heap) (l m : ℕ) → linked g l m a ≡ some (record { next = l; size = s })
  linked_a g l m =
      update_ne (update g a (record { next = l; size = s })) n a
        (record { next = poison; size = m }) (omega arith)
      ∙ update_self g a (record { next = l; size = s })

  linked_other : (g : Heap) (l m x : ℕ) → x ≢ a → x ≢ n → linked g l m x ≡ g x
  linked_other g l m x xa xn =
      update_ne (update g a (record { next = l; size = s })) n x
        (record { next = poison; size = m }) xn
      ∙ update_ne g a x (record { next = l; size = s }) xa

  handed_out : (g : Heap) (l m : ℕ) → want ≤ m → IsHandedOut (linked g l m) want (n + 8)
  handed_out g l m enough =
      let back : n + 8 - 8 ≡ n = omega arith in
      inr (
        m,
        ap (linked g l m) back
            ∙ update_self (update g a (record { next = l; size = s })) n
                (record { next = poison; size = m }),
        enough,
      )

  search_whole :
      ltb t want ≡ false
      → ltb (want + 16) t ≡ false
      → Searched h a s want ((b, t) ∷ bs) (malloc_loop (suc fuel) a want h) (n + 8) (linked h 0 t)
  unfolding malloc_loop
  search_whole enough whole = record {
    ends =
        load_then h a _ _ cell
        ∙ rw (nonzero, splite_whole h n n' t want cell_n enough whole, ◌>>=◌)
            (link_done h 0 t n n' cell cell_n);
    chain = rw (enough, whole) (0, refl, linked_a h 0 t, refl);
    answer = rw (enough, whole) (omega arith);
    marked = handed_out h 0 t (ltb→le t want enough);
    frame = λ x less. linked_other h 0 t x (omega arith) (omega arith);
  }

  search_cut :
      ltb t want ≡ false
      → ltb (want + 16) t ≡ true
      → Searched h a s want
          ((b, t) ∷ bs)
          (malloc_loop (suc fuel) a want h)
          (n + 8)
          (linked (cut h n n' t want) (n + want) want)
  unfolding malloc_loop
  search_cut enough more =
      let g = cut h n n' t want in
      let room = ltb→lt (want + 16) t more in
      let rest : Segment = record { next = n'; size = t - want } in
      let part : Segment = record { next = n'; size = want } in
      let ga : g a ≡ some (record { next = n; size = s }) =
        update_ne (update h (n + want) rest) n a part (omega arith)
        ∙ update_ne h (n + want) a rest (omega arith)
        ∙ cell in
      let gn : g n ≡ some (record { next = n'; size = want }) =
        update_self (update h (n + want) rest) n part in
      let other : linked g (n + want) want (b + want) ≡ some rest =
        ap (linked g (n + want) want) (ap (λ k. k + want) (sym at))
        ∙ linked_other g (n + want) want (n + want) (omega arith) (omega arith)
        ∙ update_ne (update h (n + want) rest) n (n + want) part (omega arith)
        ∙ update_self h (n + want) rest in
      let tail : ChainTo (linked g (n + want) want) n' bs 0 =
        ChainTo-frame h (linked g (n + want) want) (b + t) n' bs 0
          (λ x hx.
            linked_other g (n + want) want x (omega arith) (omega arith)
            ∙ update_ne (update h (n + want) rest) n x part (omega arith)
            ∙ update_ne h (n + want) x rest (omega arith))
          ordered chain in
      record {
        ends =
            load_then h a _ _ cell
            ∙ rw (nonzero, splite-cut h n n' t want cell_n fits enough more, ◌>>=◌)
                (link_done g (n + want) want n n' ga gn);
        chain =
            rw (enough, more)
              (
                n + want,
                refl,
                linked_a g (n + want) want,
                (n', ap (λ k. k + want) at, other, tail),
              );
        answer = rw (enough, more) (omega arith);
        marked = handed_out g (n + want) want (omega arith);
        frame = λ x less.
            linked_other g (n + want) want x (omega arith) (omega arith)
            ∙ update_ne (update h (n + want) rest) n x part (omega arith)
            ∙ update_ne h (n + want) x rest (omega arith);
      }

-- The block `b` is too small too, and the search goes on from there.
search_on :
    (fuel a s n b t want ret : ℕ) (bs : Blocks) (h h' : Heap)
    → h a ≡ some (record { next = n; size = s })
    → n ≡ b
    → a < b
    → (n == 0) ≡ false
    → splite n want h ≡ done (none, h)
    → ltb t want ≡ true
    → Searched h b t want bs (malloc_loop fuel b want h) ret h'
    → Searched h a s want ((b, t) ∷ bs) (malloc_loop (suc fuel) a want h) ret h'
unfolding malloc_loop
search_on fuel a s n b t want ret bs h h' cell at above nonzero split small found = record {
  ends =
      load_then h a _ _ cell
      ∙ rw (nonzero, split, ◌>>=◌) (ap (λ k. malloc_loop fuel k want h) at ∙ found.ends);
  chain = rw small (
    b,
    refl,
    found.frame a above ∙ cell ∙ ap (λ k. some (record { next = k; size = s })) at,
    found.chain,
  );
  answer = rw small found.answer;
  marked = found.marked;
  frame = λ x less. found.frame x (omega arith);
}

pub malloc_loop-Searched :
    (bs : Blocks) (fuel a s n want : ℕ) (h : Heap)
    → h a ≡ some (record { next = n; size = s })
    → ChainTo h n bs 0
    → Ordered (a + s) bs
    → 0 < s
    → 0 < want
    → length bs < fuel
    → (ret : ℕ) × (h' : Heap) × Searched h a s want bs (malloc_loop fuel a want h) ret h'
malloc_loop-Searched bs zero a s n want h cell c o ps pw f = absurd (omega arith)
malloc_loop-Searched [] (suc fuel) a s n want h cell c o ps pw f = (
  0,
  h,
  record {
    ends = unfold malloc_loop in load_then h a _ _ cell ∙ rw (eq→== n 0 c);
    chain = (n, refl, cell, c);
    answer = refl;
    marked = inl refl;
    frame = λ x less. refl;
  },
)
malloc_loop-Searched ((b, t) ∷ bs) (suc fuel) a s n want h cell (n', at, cell', c)
      (above, pt, fits, o) ps pw f =
    let cell_n : h n ≡ some (record { next = n'; size = t }) = rw at cell' in
    elim (Bool-cases (ltb t want)) [
      | inl small ↦
          let (ret, h', found) =
            malloc_loop-Searched bs fuel b t n' want h cell' c o pt pw (omega arith) in
          (
            ret,
            h',
            search_on fuel a s n b t want ret bs h h' cell at (omega arith)
                (ne→== n 0 (omega arith)) (splite_small h n n' t want cell_n small) small found,
          )
      | inr enough ↦ elim (Bool-cases (ltb (want + 16) t)) [
        | inl more ↦ (
          n + 8,
          linked fuel a s n b t n' want bs h cell at cell' c above ps o fits pt pw
              (cut h n n' t want) (n + want) want,
          search_cut fuel a s n b t n' want bs h cell at cell' c above ps o fits pt pw enough more,
        )
        | inr whole ↦ (
          n + 8,
          linked fuel a s n b t n' want bs h cell at cell' c above ps o fits pt pw h 0 t,
          search_whole fuel a s n b t n' want bs h cell at cell' c above ps o fits pt pw enough
              whole,
        )
      ]
    ]
