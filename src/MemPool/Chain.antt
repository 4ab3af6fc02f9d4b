-- ===== src/MemPool/Chain.antt =====
-- The list of free blocks that the pool's segments spell, and what the two counting loops return.
use embedded_template.Prelude.{
  ℕ, zero, suc, ◌+◌, ◌≤◌, ◌<◌, ◌≡◌, ◌≢◌, refl, ap, ◌∙◌, false, some, List, [], ◌∷◌, length, ◌==◌,
  ne→==, eq→==, u16, arith,
}
use embedded_template.MemPool.{
  set_next, Segment, Heap, M, ◌>>=◌, done, update, load, free_size_loop, get_free_size,
  segment_count_loop, get_segment_count,
}

-- The address and the size of each block.
abbrev pub Blocks : Type 0
Blocks = List (ℕ × ℕ)

-- From `p` the segments spell the blocks, and the last one's `next` is `e`.
abbrev pub ChainTo : Heap → ℕ → Blocks → ℕ → Type 0
ChainTo h p [] e = p ≡ e
ChainTo h p ((a, s) ∷ bs) e =
    (n : ℕ) × (p ≡ a) × (h a ≡ some (record { next = n; size = s })) × ChainTo h n bs e

-- The blocks lie above `lo`, in order and apart, and their sizes are uint16_t values above 0.
abbrev pub Ordered : ℕ → Blocks → Type 0
Ordered lo [] = Unit {0}
Ordered lo ((a, s) ∷ bs) = (lo ≤ a) × (0 < s) × (s < 65536) × Ordered (a + s) bs

abbrev pub total : Blocks → ℕ
total [] = 0
total ((a, s) ∷ bs) = s + total bs

-- The free blocks of the pool `p`: a list that ends with NULL, of blocks in order of address.
pub record IsPool (h : Heap) (p : ℕ) (bs : Blocks) : Type 0 where
  pub chain : ChainTo h p bs 0
  pub ordered : Ordered 1 bs

pub update_self : (h : Heap) (p : ℕ) (s : Segment) → update h p s p ≡ some s
update_self h p s = rw (eq→== p p refl)

pub update_ne : (h : Heap) (p q : ℕ) (s : Segment) → q ≢ p → update h p s q ≡ h q
update_ne h p q s ne = rw (ne→== q p ne)

-- What does not change the heap from `lo` on leaves a chain above `lo` as it is.
pub ChainTo-frame :
    (h h' : Heap) (lo p : ℕ) (bs : Blocks) (e : ℕ)
    → ((x : ℕ) → lo ≤ x → h' x ≡ h x)
    → Ordered lo bs
    → ChainTo h p bs e
    → ChainTo h' p bs e
ChainTo-frame h h' lo p [] e same o c = c
ChainTo-frame h h' lo p ((a, s) ∷ bs) e same (above, pos, fits, o) (n, at, cell, c) = (
  n,
  at,
  same a above ∙ cell,
  ChainTo-frame h h' (a + s) n bs e (λ x hx. same x (omega arith)) o c,
)

pub ChainTo-update :
    (h : Heap) (x : ℕ) (v : Segment) (lo p : ℕ) (bs : Blocks) (e : ℕ)
    → x < lo
    → Ordered lo bs
    → ChainTo h p bs e
    → ChainTo (update h x v) p bs e
ChainTo-update h x v lo p bs e less =
    ChainTo-frame h (update h x v) lo p bs e (λ y hy. update_ne h x y v (omega arith))

-- A pool is NULL exactly if it has no block.
pub first_nonzero :
    (h : Heap) (p a s : ℕ) (bs : Blocks) (e : ℕ)
    → ChainTo h p ((a, s) ∷ bs) e
    → Ordered 1 ((a, s) ∷ bs)
    → (p == 0) ≡ false
first_nonzero h p a s bs e (n, at, cell, c) (above, pos, fits, rest) = ne→== p 0 (omega arith)

pub Ordered-weaken : (lo lo' : ℕ) (bs : Blocks) → lo' ≤ lo → Ordered lo bs → Ordered lo' bs
Ordered-weaken lo lo' [] h o = o
Ordered-weaken lo lo' ((a, s) ∷ bs) h (above, pos, fits, rest) = (omega arith, pos, fits, rest)

-- A read of a header that is there.
pub load_then :
    {B : Type 0} (h : Heap) (p : ℕ) (s : Segment) (f : Segment → M B)
    → h p ≡ some s
    → (load p >>= f) h ≡ f s h
load_then h p s f e = rw (e, ◌>>=◌)

-- The rest of a `do` block runs on what its first step returned.
pub then_done :
    {A B : Type 0} (m : M A) (f : A → M B) {h h' : Heap} {a : A}
    → m h ≡ done (a, h')
    → (m >>= f) h ≡ f a h'
then_done m f e = rw (e, ◌>>=◌)

pub set_next_done :
    (h : Heap) (p n : ℕ) (s : Segment)
    → h p ≡ some s
    → set_next p n h ≡ done (tt, update h p (record s { next = n }))
set_next_done h p n s e = load_then h p s _ e

free_size_loop_lem :
    (fuel ret p : ℕ) (h : Heap) (bs : Blocks)
    → ChainTo h p bs 0
    → Ordered 1 bs
    → ret < 65536
    → length bs < fuel
    → free_size_loop fuel ret p h ≡ done (u16 (ret + total bs), h)
unfolding free_size_loop
free_size_loop_lem zero ret p h bs c o b f = absurd (omega arith)
free_size_loop_lem (suc fuel) ret p h [] c o b f =
    let whole : ret ≡ u16 (ret + 0) = omega arith in
    rw (c, free_size_loop) (ap (λ r. done (r, h)) whole)
free_size_loop_lem (suc fuel) ret p h ((a, s) ∷ bs) (n, at, cell, c) (above, pos, fits, o) b f =
    let nonzero : (p == 0) ≡ false = ne→== p 0 (omega arith) in
    let sum : u16 (u16 (ret + s) + total bs) ≡ u16 (ret + (s + total bs)) = omega arith in
    rw (nonzero, free_size_loop)
      (rw at (load_then h a _ _ cell)
        ∙ free_size_loop_lem fuel (u16 (ret + s)) n h bs c
            (Ordered-weaken (a + s) 1 bs (omega arith) o) (omega arith) (omega arith)
        ∙ ap (λ r. done (r, h)) sum)

segment_count_loop_lem :
    (fuel ret p : ℕ) (h : Heap) (bs : Blocks)
    → ChainTo h p bs 0
    → Ordered 1 bs
    → ret < 65536
    → length bs < fuel
    → segment_count_loop fuel ret p h ≡ done (u16 (ret + length bs), h)
unfolding segment_count_loop
segment_count_loop_lem zero ret p h bs c o b f = absurd (omega arith)
segment_count_loop_lem (suc fuel) ret p h [] c o b f =
    let whole : ret ≡ u16 (ret + 0) = omega arith in
    rw (c, segment_count_loop) (ap (λ r. done (r, h)) whole)
segment_count_loop_lem (suc fuel) ret p h ((a, s) ∷ bs) (n, at, cell, c) (above, pos, fits, o) b f =
    let nonzero : (p == 0) ≡ false = ne→== p 0 (omega arith) in
    let sum : u16 (u16 (ret + 1) + length bs) ≡ u16 (ret + suc (length bs)) = omega arith in
    rw (nonzero, segment_count_loop)
      (rw at (load_then h a _ _ cell)
        ∙ segment_count_loop_lem fuel (u16 (ret + 1)) n h bs c
            (Ordered-weaken (a + s) 1 bs (omega arith) o) (omega arith) (omega arith)
        ∙ ap (λ r. done (r, h)) sum)

-- On a well-formed pool the two counting functions end without a fault, leave the heap alone, and
-- return the sum of the sizes and the number of the free blocks, both modulo 65536. More rounds than
-- there are blocks are enough.
pub counts_lem :
    (fuel p : ℕ) (h : Heap) (bs : Blocks)
    → IsPool h p bs
    → length bs < fuel
    → (get_free_size fuel p h ≡ done (u16 (total bs), h))
      × (get_segment_count fuel p h ≡ done (u16 (length bs), h))
unfolding get_free_size get_segment_count
counts_lem fuel p h bs v f = (
  free_size_loop_lem fuel 0 p h bs v.chain v.ordered (omega arith) f
      ∙ ap (λ n. done (u16 n, h)) (omega arith),
  segment_count_loop_lem fuel 0 p h bs v.chain v.ordered (omega arith) f
      ∙ ap (λ n. done (u16 n, h)) (omega arith),
)
