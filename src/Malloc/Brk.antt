-- ===== src/Malloc/Brk.antt =====
-- "Efficient Mallocs"/memlib.c: the break stays within the heap, and each area is new.
use operating_system_basics.Base.{
  ℕ, ◌+◌, ◌%◌, ◌^◌, ◌≤◌, ◌<◌, ◌≡◌, refl, List, [], ◌∷◌, arith, ltb, leb, ◌==◌, Bool-cases,
  not-ltb→le, true, false, if◌then◌else◌, inl, inr, ◌⊎◌, All,
}
use operating_system_basics.Malloc.{Heap, minus_one, mem_sbrk}

-- A negative increment is refused.
pub mem_sbrk-negative : (incr : ℕ) (h : Heap) → 2 ^ 31 ≤ incr → mem_sbrk incr h ≡ (minus_one, h)
unfolding mem_sbrk
mem_sbrk-negative incr h big = let e : leb (2 ^ 31) incr ≡ true = ground arith in rw e refl

-- An increment that is not negative, and with which the sum does not wrap.
pub mem_sbrk-small :
    (incr : ℕ) (h : Heap)
    → incr < 2 ^ 31
    → h.mem_brk + incr < 2 ^ 32
    → mem_sbrk incr h ≡ (
        if ltb h.mem_max_addr (h.mem_brk + incr)
        then (minus_one, h)
        else (h.mem_brk, record h { mem_brk = h.mem_brk + incr }))
unfolding mem_sbrk
mem_sbrk-small incr h small sum =
    let e : leb (2 ^ 31) incr ≡ false = ground arith in
    let m : (h.mem_brk + incr) % 2 ^ 32 ≡ h.mem_brk + incr = omega arith in rw (e, m) refl

-- The areas that a sequence of requests got.
unfoldable pub areas : List ℕ → Heap → List (ℕ × ℕ)
areas [] h = []
areas (incr ∷ rest) h =
    let (p, after) = mem_sbrk incr h in
    let more = areas rest after in if p == minus_one then more else (p, incr) ∷ more

-- The areas follow one another from `lo` on and end before `hi`.
abbrev pub Follow : ℕ → ℕ → List (ℕ × ℕ) → Type 0
Follow lo hi [] = lo ≤ hi
Follow lo hi ((p, n) ∷ rest) = (p ≡ lo) × Follow (p + n) hi rest

-- From a heap with its break below the last address, each request, as long as the last address and
-- an increment that is not negative have a sum of 32 bits, gets the area from the break on or leaves
-- the heap as it is, a negative one too, so that the areas of a sequence of requests lie side by side
-- between the first break and the last address.
pub areas-Follow :
    (requests : List ℕ) (h : Heap)
    → All (λ incr. (2 ^ 31 ≤ incr) ⊎ h.mem_max_addr + incr < 2 ^ 32) requests
    → h.mem_brk ≤ h.mem_max_addr
    → h.mem_max_addr < minus_one
    → Follow h.mem_brk h.mem_max_addr (areas requests h)
unfolding areas
areas-Follow [] h sums below top = below
areas-Follow (incr ∷ rest) h (sum, sums) below top = elim (Bool-cases (leb (2 ^ 31) incr)) [
  | inl n ↦ rw (mem_sbrk-negative incr h (ground arith)) (areas-Follow rest h sums below top)
  | inr n ↦
      let small : incr < 2 ^ 31 = ground arith in
      let fits : h.mem_brk + incr < 2 ^ 32 = elim sum [
        | inl x ↦ absurd (omega arith)
        | inr x ↦ omega arith
      ] in
      elim (Bool-cases (ltb h.mem_max_addr (h.mem_brk + incr))) [
        | inl e ↦ rw (mem_sbrk-small incr h small fits, e) (areas-Follow rest h sums below top)
        | inr e ↦
            let room = not-ltb→le h.mem_max_addr (h.mem_brk + incr) e in
            let inside : (h.mem_brk == minus_one) ≡ false = ground arith in
            rw (mem_sbrk-small incr h small fits, e, inside)
              (refl, areas-Follow rest (record h { mem_brk = h.mem_brk + incr }) sums room top)
      ]
]
