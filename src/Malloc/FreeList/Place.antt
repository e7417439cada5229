-- ===== src/Malloc/FreeList/Place.antt =====
-- mm_freeList.c: `place` on the blocks of the heap.
use operating_system_basics.Base.{
  ℕ, ◌+◌, ◌-◌, ◌%◌, ◌^◌, ◌≤◌, ◌≡◌, inl, inr, ap, ◌∙◌, false, List, ◌∷◌, arith, subst, leb,
  Bool-cases, if◌then◌else◌,
}
use operating_system_basics.Malloc.{Heap}
use operating_system_basics.Malloc.FreeList.{
  get_size, put_both, coalesce, place, remove_block, pack_alloc, right_blkp, size_of, min_blocksize,
}
use operating_system_basics.Malloc.FreeList.Tiles.{Tile, IsTile, base, base-ge, free_behind}
use operating_system_basics.Malloc.FreeList.Apart.{far_above, far_below}
use operating_system_basics.Malloc.FreeList.Gap.{Gap}
use operating_system_basics.Malloc.FreeList.TakeOut.{take_out}
use operating_system_basics.Malloc.FreeList.Absorb.{own_free, absorb_own}
use operating_system_basics.Malloc.FreeList.Insert.{put_both-Marked}
use operating_system_basics.Malloc.FreeList.Whole.{Whole, opened, closed, back}
use operating_system_basics.Malloc.FreeList.Join.{
  fill, get_size-tag, edge_used, edge_size, keep_edge,
}
use operating_system_basics.Malloc.FreeList.Coalesce.{
  free_tile, used_tile, unmerged, coalesce_sized,
}

-- The start of a gap is an allocated block of `a` bytes that is in no list.
record Claimed (bottom : ℕ) (ls : List Tile) (q : ℕ) (ts : List Tile) (a : ℕ) (h : Heap)
    : Type 0 where
  rest : List ℕ
  gap : Gap bottom ls q ts false rest h
  header : h.mem (base bottom ls - 4) ≡ a + 1
  footer : h.mem (base bottom ls + a - 8) ≡ a + 1

claim :
    {bottom : ℕ} {ls : List Tile} {n : ℕ} {ts : List Tile} {fl : List ℕ} {h : Heap} (a : ℕ)
    → Whole bottom ls (free_tile n ∷ ts) fl h
    → 24 ≤ a
    → a ≤ n
    → a % 8 ≡ 0
    → Claimed bottom ls
        (base bottom ls + n)
        ts
        a
        (remove_block (base bottom ls) (put_both (base bottom ls) (pack_alloc a) h))
claim {bottom} {ls} {n} {ts} {fl} {h} a w big fits multiple =
    let start = base-ge bottom ls in
    let low = base bottom ls in
    let even : pack_alloc a ≡ a + 1 = omega arith in
    let size : size_of (pack_alloc a) ≡ a = omega arith in
    let marked = put_both-Marked a (pack_alloc a) (opened w) size big (omega arith) in
    let t = take_out marked.gap low (own_free bottom ls (low + n) ts) in
    let (rest, g) = absorb_own t in
    record {
      rest = rest;
      gap = g;
      header =
          t.same (low - 4)
            (inr (inl (omega arith, omega arith, far_below (low - 4) low (omega arith))))
          ∙ marked.header
          ∙ even;
      footer =
          t.same (low + a - 8)
            (inr (inl (omega arith, omega arith, far_above (low + a - 8) low (omega arith))))
          ∙ marked.footer
          ∙ even;
    }

-- The allocated block is behind the gap that remains.
cut_gap :
    {bottom : ℕ} {ls : List Tile} {q : ℕ} {ts : List Tile} {a : ℕ} {h : Heap}
    → (c : Claimed bottom ls q ts a h) → IsTile (used_tile a)
    → base bottom ls + a + 24 ≤ q
    → Gap bottom (used_tile a ∷ ls) q ts false c.rest h
unfolding free_behind
cut_gap c sizes fits = record {
  around = record {
    behind = (c.header, c.footer, sizes, c.gap.around.behind);
    ahead = c.gap.around.ahead;
    gap = fits;
    prologue = c.gap.around.prologue;
    low = c.gap.around.low;
    origin = c.gap.around.origin;
    brk = c.gap.around.brk;
    room = c.gap.around.room;
    top = c.gap.around.top;
  };
  chain = c.gap.chain;
  covers = c.gap.covers;
}

-- A free block of `n` bytes after `place` of a request for `a` bytes: the rest of it is a free block
-- where it has at least 24 bytes.
unfoldable pub placed : ℕ → ℕ → List Tile → List Tile
placed n a ts =
    if leb min_blocksize (n - a)
    then used_tile a ∷ free_tile (n - a + edge_size (edge_used ts) ts) ∷ unmerged ts
    else used_tile n ∷ ts

place_rest :
    {bottom : ℕ} {ls : List Tile} {n : ℕ} {ts : List Tile} {a : ℕ} {h : Heap}
    → Claimed bottom ls (base bottom ls + n) ts a h
    → IsTile (used_tile a)
    → a + 24 ≤ n
    → n % 8 ≡ 0
    → (rest : List ℕ) × Whole bottom ls
        (used_tile a ∷ free_tile (n - a + edge_size (edge_used ts) ts) ∷ unmerged ts)
        rest
        (coalesce (base bottom ls + a) (put_both (base bottom ls + a) (n - a) h)).1
unfolding edge_used keep_edge edge_size
place_rest {bottom} {ls} {n} {ts} {a} {h} c sizes fits multiple =
    let (am, abig) = sizes in
    let f = fill (n - a) (cut_gap c sizes (omega arith)) (omega arith) (omega arith) in
    let d = coalesce_sized (n - a) (omega arith) f in
    let same : 0 + (n - a) + edge_size (edge_used ts) ts ≡ n - a + edge_size (edge_used ts) ts =
      omega arith in
    (
      (coalesce (base bottom ls + a) (put_both (base bottom ls + a) (n - a) h)).0 ∷ d.rest,
      back (
          subst
            (λ x.
              Whole bottom (used_tile a ∷ ls) (free_tile x ∷ unmerged ts)
                ((coalesce (base bottom ls + a) (put_both (base bottom ls + a) (n - a) h)).0
                  ∷ d.rest)
                (coalesce (base bottom ls + a) (put_both (base bottom ls + a) (n - a) h)).1)
            same d.whole),
    )

pub place-Whole :
    {bottom : ℕ} {ls : List Tile} {n : ℕ} {ts : List Tile} {fl : List ℕ} {h : Heap} (a : ℕ)
    → Whole bottom ls (free_tile n ∷ ts) fl h
    → 24 ≤ a
    → a ≤ n
    → a % 8 ≡ 0
    → (rest : List ℕ) × Whole bottom ls (placed n a ts) rest (place (base bottom ls) a h)
unfolding place placed
place-Whole {bottom} {ls} {n} {ts} {fl} {h} a w big fits multiple =
    let low = base bottom ls in
    let (a1, a2, (nm, nbig), more) = w.ahead in
    let size : get_size h low ≡ n = get_size-tag h low (free_tile n) a1 (nm, nbig) in
    let c = claim a w big fits multiple in
    let d = claim n w nbig (omega arith) nm in
    let brk = w.brk in
    let room = w.room in
    let top = w.top in
    let start = base-ge bottom ls in
    let small : (n + 2 ^ 32 - a) % 2 ^ 32 ≡ n - a = omega arith in
    let g = remove_block low (put_both low (pack_alloc a) h) in
    let own : right_blkp g low ≡ low + a =
      ap (λ x. low + x) (get_size-tag g low (used_tile a) c.header (multiple, big)) in
    rw (own, size, small)
      (elim (Bool-cases (leb min_blocksize (n - a))) [
        | inl e ↦ rw e (place_rest c (multiple, big) (grind (arith, e)) nm)
        | inr e ↦ rw e (d.rest, closed (used_tile n) d.gap d.header d.footer (nm, nbig))
      ])
