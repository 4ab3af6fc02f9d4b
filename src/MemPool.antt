-- ===== src/MemPool.antt =====
-- src/mem_pool/mem_pool.c: a pool of free memory as a linked list of segments, in the memory itself.
-- The heap gives the segment header that stands at an address. The sizes are those of a target with
-- pointers of 4 bytes, where a header takes 8 bytes; addresses are plain numbers and 0 is NULL.
pub mod Chain
pub mod Carve
pub mod Search
pub mod Allocate
pub mod Combine
pub mod Release
pub mod Insert
mod Tests
use embedded_template.Prelude.{
  ℕ, zero, suc, ◌+◌, ◌-◌, ◌*◌, Bool, true, false, Option, none, some, ltb, ◌==◌, if◌then◌else◌, u16,
}

-- `struct mem_pool_segment`.
pub record Segment : Type 0 where
  pub next : ℕ
  pub size : ℕ

-- `none` where no header can be read: following such a pointer is a fault.
abbrev pub Heap : Type 0
Heap = ℕ → Option Segment

-- How a call ends. A failed ASSERT loops for ever in the source; `out_of_fuel` is no end of the
-- source's loops, and says that the model's fuel was too small.
pub data Outcome {ℓ} (A : Type ℓ) : Type ℓ where
  done : A → Outcome A
  fault : Outcome A
  assert_failed : Outcome A
  out_of_fuel : Outcome A

abbrev pub M : Type 0 → Type 0
M A = Heap → Outcome (A × Heap)

infixl 5 ◌>>=◌ ◌>>◌
abbrev pub ◌>>=◌ : {A B : Type 0} → M A → (A → M B) → M B
◌>>=◌ m f h = elim (m h) [
  | done (a, h') ↦ f a h'
  | fault ↦ fault
  | assert_failed ↦ assert_failed
  | out_of_fuel ↦ out_of_fuel
]

abbrev pub ◌>>◌ : {B : Type 0} → M (Unit {0}) → M B → M B
m >> k = m >>= λ _. k

abbrev pub return : {A : Type 0} → A → M A
return a h = done (a, h)

-- The heap with another header at `p`.
abbrev pub update : Heap → ℕ → Segment → Heap
update h p s q = if q == p then some s else h q

abbrev pub load : ℕ → M Segment
load p h = elim (h p) [ none ↦ fault | some s ↦ done (s, h) ]

abbrev pub store : ℕ → Segment → M (Unit {0})
store p s h = done (tt, update h p s)

abbrev pub set_next : ℕ → ℕ → M (Unit {0})
set_next p n = do s ← load p; store p (record s { next = n })

abbrev pub assert : Bool → M (Unit {0})
assert true h = done (tt, h)
assert false h = assert_failed

abbrev pub poison : ℕ
poison = 0xEFCDAB89

-- `sizeof(struct mem_pool_segment)`, and the same by ALLIGN_SIZEOF.
abbrev pub sizeof_segment : ℕ
sizeof_segment = 8

pub try_combine_with_next : ℕ → M (Unit {0})
try_combine_with_next seg = do
  s ← load seg
  if s.next == 0
      then return tt
      else if s.size + seg == s.next
      then (do n ← load s.next; store seg (record { next = n.next; size = u16 (s.size + n.size) }))
      else assert (ltb (s.size + seg) s.next)

-- The loop of `add_segment`; the fuel bounds the rounds.
pub add_segment_loop : ℕ → ℕ → ℕ → M (Unit {0})
add_segment_loop zero pre seg = λ h. out_of_fuel
add_segment_loop (suc fuel) pre seg = do
  p ← load pre
  elim (p.next == 0) [
    | true ↦ (do set_next pre seg; try_combine_with_next pre)
    | false ↦ elim (ltb seg p.next) [
      | true ↦ (do
        set_next seg p.next
        try_combine_with_next seg
        set_next pre seg
        try_combine_with_next pre)
      | false ↦ add_segment_loop fuel p.next seg
    ]
  ]

-- The pointer that is returned is the pool's new first segment.
pub add_segment : ℕ → ℕ → ℕ → M ℕ
add_segment fuel pool seg =
    if pool == 0
    then (do set_next seg 0; return seg)
    else if ltb seg pool
    then (do set_next seg pool; try_combine_with_next seg; return seg)
    else (do add_segment_loop fuel pool seg; return pool)

-- `none` is the return value 0; `some left` is 1, with what is stored through `left`.
pub splite : ℕ → ℕ → M (Option ℕ)
splite seg size = do
  s ← load seg
  if ltb s.size size
      then return none
      else if ltb (size + 2 * sizeof_segment) s.size
      then (do
        store (seg + size) (record { next = s.next; size = u16 (s.size - size) })
        store seg (record s { size = size })
        return (some (seg + size)))
      else return (some 0)

-- A function that takes `pool` by reference returns its new value.
pub add_buffer : ℕ → ℕ → ℕ → ℕ → M ℕ
add_buffer fuel pool buffer size = do
  s ← load buffer
  store buffer (record s { size = size })
  add_segment fuel pool buffer

-- The loop of `mem_pool_malloc`, with the size that the header is counted into.
pub malloc_loop : ℕ → ℕ → ℕ → M ℕ
malloc_loop zero cur size = λ h. out_of_fuel
malloc_loop (suc fuel) cur size = do
  c ← load cur
  elim (c.next == 0) [
    | true ↦ return 0
    | false ↦ (do
      split ← splite c.next size
      elim split [
        | some n ↦ (do set_next cur n; set_next c.next poison; return (c.next + sizeof_segment))
        | none ↦ malloc_loop fuel c.next size
      ])
  ]

-- The new value of the pool, and the memory that is handed out, or 0.
pub malloc : ℕ → ℕ → ℕ → M (ℕ × ℕ)
malloc fuel pool size = if pool == 0 then return (0, 0) else (do
  let wanted = u16 (size + sizeof_segment)
  split ← splite pool wanted
  elim split [
    | some n ↦ (do set_next pool poison; return (n, pool + sizeof_segment))
    | none ↦ (do mem ← malloc_loop fuel pool wanted; return (pool, mem))
  ])

pub free : ℕ → ℕ → ℕ → M ℕ
free fuel pool mem = if mem == 0 then return pool else (do
  let seg = mem - sizeof_segment
  s ← load seg
  assert (s.next == poison)
  add_segment fuel pool seg)

-- The two loops over the list, with the sum or the count so far.
pub free_size_loop : ℕ → ℕ → ℕ → M ℕ
free_size_loop zero ret pool = λ h. out_of_fuel
free_size_loop (suc fuel) ret pool = elim (pool == 0) [
  | true ↦ return ret
  | false ↦ (do s ← load pool; free_size_loop fuel (u16 (ret + s.size)) s.next)
]

pub get_free_size : ℕ → ℕ → M ℕ
get_free_size fuel pool = free_size_loop fuel 0 pool

pub segment_count_loop : ℕ → ℕ → ℕ → M ℕ
segment_count_loop zero ret pool = λ h. out_of_fuel
segment_count_loop (suc fuel) ret pool = elim (pool == 0) [
  | true ↦ return ret
  | false ↦ (do s ← load pool; segment_count_loop fuel (u16 (ret + 1)) s.next)
]

pub get_segment_count : ℕ → ℕ → M ℕ
get_segment_count fuel pool = segment_count_loop fuel 0 pool
