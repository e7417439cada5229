-- ===== src/Driver/Payloads.antt =====
-- mdriver.c with mm_freeList.c: `add_range` and payloads that lie in blocks which do not overlap.

use operating_system_basics.Base.{
  ℕ, ◌+◌, ◌-◌, ◌%◌, ◌≤◌, ◌<◌, ◌≡◌, refl, true, false, some, List, [], ◌∷◌, arith, inl, inr, All,
  ◌==◌, ==_iff,
}
use operating_system_basics.Driver.{Range, alignment, overlaps, any_overlap, add_range}
use operating_system_basics.Driver.Ranges.{in_bounds}
use operating_system_basics.Malloc.FreeList.Disjoint.{Block, Disjoint, Among, All-Among}

-- The payload lies in one of the allocated blocks, and starts where the block does.
abbrev pub Backed : List Block → Range → Type 0
Backed blocks r = (n : ℕ) × Among (r.lo, n) blocks × r.lo ≤ r.hi × r.hi < r.lo + n

abbrev pub range : ℕ → ℕ → Range
range p size = record { lo = p; hi = p + size - 1 }

pub no_overlap :
    (p n hi : ℕ) (blocks : List Block) (ranges : List Range)
    → All (Disjoint (p, n)) blocks
    → p ≤ hi
    → hi < p + n
    → All (Backed blocks) ranges
    → any_overlap p hi ranges ≡ false
unfolding any_overlap
no_overlap p n hi blocks [] d le lt b = refl
no_overlap p n hi blocks (r ∷ ranges) d le lt ((k, among, positive, inside), b) =
    let rest = no_overlap p n hi blocks ranges d le lt b in
    let apart = All-Among (Disjoint (p, n)) (r.lo, k) blocks d among in
    let clear : overlaps p hi r ≡ false = elim apart [
      | inl e ↦ ground arith
      | inr e ↦ ground arith
    ] in
    rw (clear, rest) refl

-- What `add_range` tests.
pub add_range-true :
    (lo hi : ℕ) (ranges : List Range) (p size : ℕ)
    → 0 < size
    → p % 8 ≡ 0
    → lo ≤ p
    → p + size - 1 ≤ hi
    → any_overlap p (p + size - 1) ranges ≡ false
    → add_range lo hi ranges p size ≡ some (true, range p size ∷ ranges)
unfolding add_range
add_range-true lo hi ranges p size positive aligned low high clear =
    let e1 : (size == 0) ≡ false = ground arith in
    let e2 : (p % alignment == 0) ≡ true = (==_iff (p % alignment) 0).1 aligned in
    let e3 = in_bounds p (p + size - 1) lo hi low (omega arith) high in rw (e1, e2, e3, clear) refl
