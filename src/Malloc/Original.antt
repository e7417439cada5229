-- ===== src/Malloc/Original.antt =====
-- "Efficient Mallocs"/mm-original.c: the allocator that only moves the break.
use operating_system_basics.Base.{
  ℕ, ◌+◌, ◌-◌, ◌%◌, ◌^◌, ◌≤◌, ◌<◌, ◌≡◌, refl, Bool, true, false, List, [], ◌∷◌, arith, ◌==◌, ltb,
  leb, if◌then◌else◌, Bool-cases, inl, inr, not-ltb→le, All, ◌⊎◌,
}
use operating_system_basics.Malloc.Brk.{mem_sbrk-small, mem_sbrk-negative}
use operating_system_basics.Malloc.{Heap, minus_one, mem_sbrk, put}

-- `ALIGN`, on a `size_t`.
unfoldable pub align_size : ℕ → ℕ
align_size size = let q = (size + 7) % 2 ^ 32 in q - q % 8

abbrev pub size_t_size : ℕ
size_t_size = 8

unfoldable pub mm_malloc : ℕ → Heap → ℕ × Heap
mm_malloc size h =
    let (p, h1) = mem_sbrk (align_size (size + size_t_size)) h in
    if p == minus_one then (0, h1) else (p + size_t_size, put p size h1)

-- `true` is the result 0.
abbrev pub mm_init : Heap → Bool × Heap
mm_init h = (true, h)

abbrev pub mm_free : ℕ → Heap → Heap
mm_free ptr h = h

-- `memcpy` is what the copy of `n` bytes does to the words of the memory.
unfoldable pub mm_realloc : (ℕ → ℕ → ℕ → (ℕ → ℕ) → ℕ → ℕ) → ℕ → ℕ → Heap → ℕ × Heap
mm_realloc memcpy ptr size h =
    let (newptr, h1) = mm_malloc size h in
    let old = h1.mem (ptr - size_t_size) in
    let copy_size = if ltb size old then size else old in
    if newptr == 0
    then (0, h1)
    else (newptr, mm_free ptr (record h1 { mem = memcpy newptr ptr copy_size h1.mem }))

-- The payloads that a sequence of requests got.
unfoldable pub payloads : List ℕ → Heap → List (ℕ × ℕ)
payloads [] h = []
payloads (size ∷ sizes) h =
    let (p, after) = mm_malloc size h in
    let more = payloads sizes after in if p == 0 then more else (p, size) ∷ more

-- The payloads are aligned, have room for the size before them, and lie one after the other
-- between `lo` and `hi`.
abbrev pub Placed : ℕ → ℕ → List (ℕ × ℕ) → Type 0
Placed lo hi [] = lo ≤ hi
Placed lo hi ((p, n) ∷ rest) = (p % 8 ≡ 0) × lo + size_t_size ≤ p × Placed (p + n) hi rest

Placed-below : (a b hi : ℕ) (ps : List (ℕ × ℕ)) → a ≤ b → Placed b hi ps → Placed a hi ps
Placed-below a b hi [] h k = omega arith
Placed-below a b hi ((p, n) ∷ ps) h (aligned, before, more) = (aligned, omega arith, more)

align_size-le : (n : ℕ) → n < 2 ^ 31 → n + 8 ≤ align_size (n + 8) × align_size (n + 8) % 8 ≡ 0
unfolding align_size
align_size-le n h = (omega arith, omega arith)

-- A request fails and changes nothing, or moves the break by a multiple of eight with room for the
-- payload and its size.
mm_malloc_cases :
    (size : ℕ) (h : Heap)
    → size < 2 ^ 31
    → h.mem_max_addr + size + 15 < 2 ^ 32
    → h.mem_brk ≤ h.mem_max_addr
    → h.mem_max_addr < minus_one
    → (mm_malloc size h ≡ (0, h))
      ⊎ ((n : ℕ) × (mm_malloc size h
            ≡ (h.mem_brk + size_t_size, put h.mem_brk size (record h { mem_brk = h.mem_brk + n })))
          × h.mem_brk + n ≤ h.mem_max_addr
          × size + size_t_size ≤ n
          × (n % 8 ≡ 0))
unfolding mm_malloc align_size
mm_malloc_cases size h small sum below top =
    let n = align_size (size + 8) in
    let (room, multiple) = align_size-le size small in
    elim (Bool-cases (leb (2 ^ 31) n)) [
      | inl a ↦ inl (rw (mem_sbrk-negative n h (ground arith)) refl)
      | inr a ↦
          let sbrk = mem_sbrk-small n h (ground arith) (omega arith) in
          elim (Bool-cases (ltb h.mem_max_addr (h.mem_brk + n))) [
            | inl b ↦ inl (rw (sbrk, b) refl)
            | inr b ↦
                let inside : (h.mem_brk == minus_one) ≡ false = ground arith in
                inr (
                  n,
                  rw (sbrk, b, inside) refl,
                  not-ltb→le h.mem_max_addr (h.mem_brk + n) b,
                  room,
                  multiple,
                )
          ]
    ]

-- For requests of less than 2^31 bytes, each with a sum of 32 bits with the last address, a header
-- and the rounding, from an aligned break on, each payload is aligned and none
-- overlaps another one or the size that is stored before it, and all lie in the heap.
pub payloads-Placed :
    (sizes : List ℕ) (h : Heap)
    → All (λ n. n < 2 ^ 31 × h.mem_max_addr + n + 15 < 2 ^ 32) sizes
    → h.mem_brk % 8 ≡ 0
    → h.mem_brk ≤ h.mem_max_addr
    → h.mem_max_addr < minus_one
    → Placed h.mem_brk h.mem_max_addr (payloads sizes h)
unfolding payloads
payloads-Placed [] h small aligned below top = below
payloads-Placed (size ∷ sizes) h ((small, sum), others) aligned below top =
    elim (mm_malloc_cases size h small sum below top) [
      | inl e ↦ rw e (payloads-Placed sizes h others aligned below top)
      | inr (n, e, fits, room, multiple) ↦
          let after = put h.mem_brk size (record h { mem_brk = h.mem_brk + n }) in
          let there : (h.mem_brk + 8 == 0) ≡ false = ground arith in
          let rest = payloads-Placed sizes after others (omega arith) fits top in
          rw (e, there)
            (
              omega arith,
              omega arith,
              Placed-below (h.mem_brk + 8 + size) (h.mem_brk + n) h.mem_max_addr
                  (payloads sizes after) (omega arith) rest,
            )
    ]
