-- ===== src/Malloc/FreeList/Free.antt =====
-- mm_freeList.c: `mm_free` on the blocks of the heap.
use operating_system_basics.Base.{ℕ, ◌≡◌, refl, sym, List, [], ◌∷◌, subst}
use operating_system_basics.Malloc.{Heap}
use operating_system_basics.Malloc.FreeList.{get_size, put_both, coalesce, mm_free}
use operating_system_basics.Malloc.FreeList.Tiles.{Tile, base}
use operating_system_basics.Malloc.FreeList.Whole.{Whole, opened, joined, joined-Whole, cut-Whole}
use operating_system_basics.Malloc.FreeList.Join.{fill, get_size-tag}
use operating_system_basics.Malloc.FreeList.Coalesce.{
  free_tile, used_tile, unmerged, merged_size, coalesce_sized,
}

-- In a sound heap `mm_free` of an allocated block leaves a sound heap: the block is free, joined
-- with the block before it and the one after it where they were free, and all other blocks are as
-- they were.
pub mm_free-Whole :
    (bottom : ℕ) (ls : List Tile) (n : ℕ) (ts : List Tile) (fl : List ℕ) (h : Heap)
    → Whole bottom [] (joined ls (used_tile n ∷ ts)) fl h
    → (rest : List ℕ) × Whole bottom []
        (joined (unmerged ls) (free_tile (merged_size ls n ts) ∷ unmerged ts))
        rest
        (mm_free (base bottom ls) h)
unfolding mm_free
mm_free-Whole bottom ls n ts fl h sound =
    let w = cut-Whole ls (used_tile n ∷ ts) sound in
    let (a1, a2, a3, more) = w.ahead in
    let size : get_size h (base bottom ls) ≡ n =
      get_size-tag h (base bottom ls) (used_tile n) a1 a3 in
    let g = opened w in
    let f = fill n g refl a3.0 in
    let c = coalesce_sized n refl f in
    let low = base bottom ls in
    let after = joined (unmerged ls) (free_tile (merged_size ls n ts) ∷ unmerged ts) in
    subst (λ x. (rest : List ℕ) × Whole bottom [] after rest (coalesce low (put_both low x h)).1)
      (sym size)
      (
        (coalesce low (put_both low n h)).0 ∷ c.rest,
        joined-Whole (unmerged ls) (free_tile (merged_size ls n ts) ∷ unmerged ts) c.whole,
      )
