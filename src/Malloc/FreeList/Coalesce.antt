-- ===== src/Malloc/FreeList/Coalesce.antt =====
-- mm_freeList.c: `coalesce` on the blocks of the heap.
use operating_system_basics.Base.{
  ℕ, ◌+◌, ◌-◌, ◌≡◌, inl, inr, refl, sym, ap, ◌∙◌, Bool, true, false, ◌||◌, List, [], ◌∷◌, arith,
  ◌==◌, ==_iff, subst,
}
use operating_system_basics.Malloc.{Heap}
use operating_system_basics.Malloc.FreeList.{
  insert_block, size_of, alloc_of, get_size, get_alloc, left_blkp, right_blkp, ftrp, join_blocks,
  coalesce,
}
use operating_system_basics.Malloc.FreeList.Tiles.{Tile, tag, base, base-ge}
use operating_system_basics.Malloc.FreeList.Apart.{far_above, far_below}
use operating_system_basics.Malloc.FreeList.Gap.{Gap}
use operating_system_basics.Malloc.FreeList.Insert.{insert-Gap, insert_spares}
use operating_system_basics.Malloc.FreeList.Whole.{Whole, closed}
use operating_system_basics.Malloc.FreeList.Join.{
  Filled, Joined, edge_used, keep_edge, edge_size, alloc_of-tag, get_size-tag, left_blkp-base,
  own_right, join_left, join_right, join_both,
}

abbrev pub free_tile : ℕ → Tile
free_tile n = record { size = n; used = false }

abbrev pub used_tile : ℕ → Tile
used_tile n = record { size = n; used = true }

or_true : (b : Bool) → (b || true) ≡ true
or_true true = refl
or_true false = refl

or_false : (b : Bool) → (b || false) ≡ b
or_false true = refl
or_false false = refl

unfoldable left_test : Heap → ℕ → Bool
left_test h bp = alloc_of (h.mem (ftrp h (left_blkp h bp))) || (left_blkp h bp == bp)

module _ {bottom q : ℕ} {fl : List ℕ} {h : Heap} where
  left_test-edge_used :
      (ls ts : List Tile) → Filled bottom ls q ts fl h → left_test h (base bottom ls) ≡ edge_used ls
  unfolding left_test edge_used
  left_test-edge_used [] ts f =
      let at : bottom + 40 - 4 - 4 ≡ bottom + 32 = omega arith in
      let zero : h.mem (bottom + 40 - 4 - 4) ≡ 0 = ap h.mem at ∙ f.gap.around.behind in
      let left : left_blkp h (bottom + 40) ≡ bottom + 40 =
        ap (λ x. bottom + 40 - size_of x) zero ∙ omega arith in
      let own : (bottom + 40 == bottom + 40) ≡ true = (==_iff (bottom + 40) (bottom + 40)).1 refl in
      rw (left, own) (or_true (alloc_of (h.mem (ftrp h (bottom + 40)))))
  left_test-edge_used (l ∷ ls) ts f =
      let start = base-ge bottom ls in
      let (b1, b2, (b3, big), more) = f.gap.around.behind in
      let low = base bottom ls in
      let left : left_blkp h (low + l.size) ≡ low = left_blkp-base h low l b2 (b3, big) in
      let size : get_size h low ≡ l.size = get_size-tag h low l b1 (b3, big) in
      let other : (low == low + l.size) ≡ false = ground arith in
      rw (left, size, b2, other) (or_false (alloc_of (tag l)) ∙ alloc_of-tag l (b3, big))

  right_test-edge_used :
      (ls ts : List Tile)
      → Filled bottom ls q ts fl h
      → get_alloc h (right_blkp h (base bottom ls)) ≡ edge_used ts
  unfolding edge_used
  right_test-edge_used ls [] f = rw (own_right f, f.gap.around.ahead) refl
  right_test-edge_used ls (r ∷ ts) f =
      let (a1, a2, a3, more) = f.gap.around.ahead in rw (own_right f, a1) (alloc_of-tag r a3)

  join_edges :
      (a b : Bool) (ls ts : List Tile)
      → edge_used ls ≡ a
      → edge_used ts ≡ b
      → Filled bottom ls q ts fl h
      → Joined bottom
          (keep_edge a ls)
          (q + edge_size b ts)
          (keep_edge b ts)
          (join_blocks a b (base bottom ls) h)
  unfolding edge_used keep_edge edge_size join_blocks
  join_edges true true ls ts ea eb f = record {
    rest = fl;
    place = refl;
    filled = subst (λ x. Filled bottom ls x ts fl h) (omega arith) f;
  }
  join_edges true false ls [] ea eb f = cc
  join_edges true false ls (r ∷ ts) ea eb f = join_right ls r ts f eb
  join_edges false b [] ts ea eb f = cc
  join_edges false true (l ∷ ls) ts ea eb f =
      subst (λ x. Joined bottom ls x ts (join_blocks false true (base bottom ls + l.size) h))
        (omega arith) (join_left l ls ts f ea)
  join_edges false false (l ∷ ls) [] ea eb f = cc
  join_edges false false (l ∷ ls) (r ∷ ts) ea eb f = join_both l ls r ts f ea eb

  -- The block of the gap, in the list and with the right tags.
  insert_joined :
      (ls ts : List Tile)
      → Filled bottom ls q ts fl h
      → Whole bottom ls
          (free_tile (q - base bottom ls) ∷ ts)
          (base bottom ls ∷ fl)
          (insert_block (base bottom ls) h)
  insert_joined ls ts f =
      let start = base-ge bottom ls in
      let gap = f.gap.around.gap in
      let low = base bottom ls in
      let e : q ≡ low + (q - low) = omega arith in
      let header =
        insert_spares f.gap (low - 4)
          (inr (inl (omega arith, omega arith, far_below (low - 4) low (omega arith)))) in
      let footer =
        insert_spares f.gap (q - 8)
          (inr (inl (omega arith, omega arith, far_above (q - 8) low (omega arith)))) in
      closed (free_tile (q - low))
        (subst (λ x. Gap bottom ls x ts true (low ∷ fl) (insert_block low h)) e (insert-Gap f.gap))
        (header ∙ f.header) (ap (λ x. (insert_block low h).mem (x - 8)) (sym e) ∙ footer ∙ f.footer)
        (f.multiple, omega arith)

pub base-keep_edge :
    (bottom : ℕ) (a : Bool) (ls : List Tile)
    → base bottom ls ≡ base bottom (keep_edge a ls) + edge_size a ls
unfolding keep_edge edge_size
base-keep_edge bottom true ls = omega arith
base-keep_edge bottom false [] = omega arith
base-keep_edge bottom false (l ∷ ls) = refl

abbrev pub unmerged : List Tile → List Tile
unmerged ts = keep_edge (edge_used ts) ts

abbrev pub merged_size : List Tile → ℕ → List Tile → ℕ
merged_size ls n ts = edge_size (edge_used ls) ls + n + edge_size (edge_used ts) ts

-- What `coalesce` gives: the block joined with its free neighbours, at the head of the free list.
pub record Coalesced (bottom : ℕ) (ls : List Tile) (n : ℕ) (ts : List Tile) (r : ℕ × Heap)
    : Type 0 where
  pub rest : List ℕ
  pub place : r.0 ≡ base bottom (unmerged ls)
  pub whole :
      Whole bottom (unmerged ls) (free_tile (merged_size ls n ts) ∷ unmerged ts) (r.0 ∷ rest) r.1

module _ {bottom q : ℕ} {ls ts : List Tile} {fl : List ℕ} {h : Heap} where
  coalesce-Joined :
      (r : ℕ × Heap)
      → Filled bottom ls q ts fl h
      → Joined bottom (unmerged ls) (q + edge_size (edge_used ts) ts) (unmerged ts) r
      → Coalesced bottom ls (q - base bottom ls) ts (r.0, insert_block r.0 r.1)
  coalesce-Joined (p, g) f j =
      let gap = f.gap.around.gap in
      let place = j.place in
      let same = base-keep_edge bottom (edge_used ls) ls in
      let n : q + edge_size (edge_used ts) ts - base bottom (unmerged ls)
          ≡ merged_size ls (q - base bottom ls) ts =
        omega arith in
      record {
        rest = j.rest;
        place = j.place;
        whole = rw place (
            subst
              (λ x.
                Whole bottom (unmerged ls) (free_tile x ∷ unmerged ts)
                  (base bottom (unmerged ls) ∷ j.rest) (insert_block (base bottom (unmerged ls)) g))
              n (insert_joined (unmerged ls) (unmerged ts) j.filled));
      }

  coalesce-Coalesced :
      Filled bottom ls q ts fl h
      → Coalesced bottom ls (q - base bottom ls) ts (coalesce (base bottom ls) h)
  unfolding coalesce left_test
  coalesce-Coalesced f =
      rw (left_test-edge_used ls ts f, right_test-edge_used ls ts f)
        (coalesce-Joined (join_blocks (edge_used ls) (edge_used ts) (base bottom ls) h) f
          (join_edges (edge_used ls) (edge_used ts) ls ts refl refl f))

  pub coalesce_sized :
      (n : ℕ)
      → base bottom ls + n ≡ q
      → Filled bottom ls q ts fl h
      → Coalesced bottom ls n ts (coalesce (base bottom ls) h)
  coalesce_sized n e f =
      let same : q - base bottom ls ≡ n = omega arith in
      subst (λ x. Coalesced bottom ls x ts (coalesce (base bottom ls) h)) same
        (coalesce-Coalesced f)
