-- ===== src/MemPool/Tests.antt =====
-- Runs of the memory pool, and its theorems at a concrete heap.
use embedded_template.Prelude.{ℕ, ◌+◌, ◌≡◌, refl, some, none, [], ◌∷◌, ◌==◌, if◌then◌else◌, arith}
use embedded_template.MemPool.{Heap, done, poison, malloc, free}
use embedded_template.MemPool.Chain.{Blocks, ChainTo, IsPool, total}
use embedded_template.MemPool.Allocate.{Allocated, malloc_refines, malloc_forgets}
use embedded_template.MemPool.Insert.{free_refines}

-- Two free blocks, and two that were handed out: one between them, one behind both.
abbrev sample : Heap
sample p =
    if p == 100
    then some (record { next = 200; size = 48 })
    else if p == 148
    then some (record { next = poison; size = 40 })
    else if p == 200
    then some (record { next = 0; size = 64 })
    else if p == 300
    then some (record { next = poison; size = 24 })
    else none

abbrev free_blocks : Blocks
free_blocks = (100, 48) ∷ (200, 64) ∷ []

sample-IsPool : IsPool sample 100 free_blocks
sample-IsPool = record { chain = (200, refl, refl, (0, refl, refl, refl)); ordered = omega arith }

malloc_refines_example :
    (p' : ℕ) × (ret : ℕ) × (h' : Heap) × Allocated 3 100 20 sample free_blocks p' ret h'
malloc_refines_example =
    malloc_refines 3 100 20 sample free_blocks sample-IsPool (omega arith) (omega arith)

malloc_forgets_example :
    (h' : Heap) × (n : ℕ) × (malloc 3 100 40 sample ≡ done ((0, 108), h'))
    × (sample 100 ≡ some (record { next = n; size = 48 }))
    × ChainTo h' n ((200, 64) ∷ []) 0
malloc_forgets_example =
    malloc_forgets 3 100 40 100 48 sample ((200, 64) ∷ []) sample-IsPool (omega arith) (omega arith)
      (omega arith)

free_refines_example :
    (p' : ℕ) × (h' : Heap) × (free 3 100 156 sample ≡ done (p', h'))
    × IsPool h' p' ((100, 88) ∷ (200, 64) ∷ [])
    × (total ((100, 88) ∷ (200, 64) ∷ []) ≡ 40 + total free_blocks)
free_refines_example =
    free_refines 3 100 156 40 sample free_blocks sample-IsPool (omega arith) refl (omega arith)
      (omega arith) (omega arith) refl (omega arith)
