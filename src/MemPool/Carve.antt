-- ===== src/MemPool/Carve.antt =====
-- A block that mem_pool_malloc cuts or hands out whole.
use embedded_template.Prelude.{
  ℕ, ◌+◌, ◌-◌, ◌≤◌, ◌<◌, ◌≡◌, ◌∙◌, ◌⊎◌, true, false, none, some, [], ◌∷◌, ltb, if◌then◌else◌, u16,
  arith,
}
use embedded_template.MemPool.{Heap, done, update, splite, poison}
use embedded_template.MemPool.Chain.{Blocks, load_then}

-- What the search for `want` bytes leaves of the free blocks, and what it hands out, 0 for nothing.
-- The first block that is large enough is cut where more than two headers are left over. Where it is
-- taken whole, every block behind it leaves the list too.
abbrev pub carve : ℕ → Blocks → Blocks × ℕ
carve want [] = ([], 0)
carve want ((a, s) ∷ bs) =
    if ltb s want
    then ((a, s) ∷ (carve want bs).0, (carve want bs).1)
    else if ltb (want + 16) s
    then ((a + want, s - want) ∷ bs, a + 8)
    else ([], a + 8)

pub splite_small :
    (h : Heap) (p n s want : ℕ)
    → h p ≡ some (record { next = n; size = s })
    → ltb s want ≡ true
    → splite p want h ≡ done (none, h)
unfolding splite
splite_small h p n s want e small = load_then h p _ _ e ∙ rw small

pub splite_whole :
    (h : Heap) (p n s want : ℕ)
    → h p ≡ some (record { next = n; size = s })
    → ltb s want ≡ false
    → ltb (want + 16) s ≡ false
    → splite p want h ≡ done (some 0, h)
unfolding splite
splite_whole h p n s want e enough whole = load_then h p _ _ e ∙ rw (enough, whole)

-- The heap behind a cut: the header of what is left over, and that of the block itself.
abbrev pub cut : Heap → ℕ → ℕ → ℕ → ℕ → Heap
cut h p n s want =
    update (update h (p + want) (record { next = n; size = s - want })) p
      (record { next = n; size = want })

pub splite-cut :
    (h : Heap) (p n s want : ℕ)
    → h p ≡ some (record { next = n; size = s })
    → s < 65536
    → ltb s want ≡ false
    → ltb (want + 16) s ≡ true
    → splite p want h ≡ done (some (p + want), cut h p n s want)
unfolding splite
splite-cut h p n s want e fits enough more =
    let left : u16 (s - want) ≡ s - want = omega arith in
    load_then h p _ _ e ∙ rw (enough, more, left)

-- What is handed out is NULL, or lies behind a header that is poisoned and large enough.
abbrev pub IsHandedOut : Heap → ℕ → ℕ → Type 0
IsHandedOut h want ret =
    (ret ≡ 0) ⊎ ((n : ℕ) × (h (ret - 8) ≡ some (record { next = poison; size = n })) × (want ≤ n))
