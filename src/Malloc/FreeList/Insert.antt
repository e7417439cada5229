-- ===== src/Malloc/FreeList/Insert.antt =====
-- mm_freeList.c: the tags of a block that fills the gap, and `insertBlock` of it.
use operating_system_basics.Base.{
  ℕ, ◌+◌, ◌-◌, ◌≤◌, ◌≡◌, inl, inr, refl, sym, ap, ◌∙◌, Bool, true, false, ◌&&◌, ◌||◌, List, ◌∷◌,
  arith, ◌==◌, subst,
}
use operating_system_basics.Malloc.{Heap, put, write}
use operating_system_basics.Malloc.FreeList.{insert_block, put_both, size_of}
use operating_system_basics.Malloc.FreeList.Chain.{Apart, insert_block-IsFreeList}
use operating_system_basics.Malloc.FreeList.Tiles.{Tile, base, base-ge, free_ahead, free_behind}
use operating_system_basics.Malloc.FreeList.Apart.{
  free_ahead-ge, free_behind-le, or_cases, far_below, far_above,
}
use operating_system_basics.Malloc.FreeList.Outside.{
  write_elsewhere, insert_block-outside, insert_block-SameStatics,
}
use operating_system_basics.Malloc.FreeList.Gap.{
  Around-frame, Gap, has, is_free, All-has, Spared, Spared-bottom, Tagged-Spared, Spared-inside,
}
use operating_system_basics.Malloc.FreeList.TakeOut.{Gap-put, Avoids-all}

write_here : (m : ℕ → ℕ) (p v : ℕ) → write m p v p ≡ v
write_here m p v = ground arith

pub put_both-put :
    (bp w : ℕ) (h : Heap) → put_both bp w h ≡ put (bp + size_of w - 8) w (put (bp - 4) w h)
put_both-put bp w h =
    ap (λ x. put (bp + size_of x - 8) w (put (bp - 4) w h)) (write_here h.mem (bp - 4) w)

-- The gap with the two tags of a block of `size` bytes at its start.
pub record Marked (bottom : ℕ) (ls : List Tile) (q : ℕ) (ts : List Tile) (inside : Bool)
    (fl : List ℕ) (size w : ℕ) (h : Heap) : Type 0 where
  pub gap : Gap bottom ls q ts inside fl h
  pub header : h.mem (base bottom ls - 4) ≡ w
  pub footer : h.mem (base bottom ls + size - 8) ≡ w

pub put_both-Marked :
    {bottom : ℕ} {ls : List Tile} {q : ℕ} {ts : List Tile} {inside : Bool} {fl : List ℕ} {h : Heap}
    (size w : ℕ)
    → Gap bottom ls q ts inside fl h
    → size_of w ≡ size
    → 24 ≤ size
    → base bottom ls + size ≤ q
    → Marked bottom ls q ts inside fl size w (put_both (base bottom ls) w h)
put_both-Marked {bottom} {ls} {q} {ts} {inside} {fl} {h} size w g e big fits =
    let start = base-ge bottom ls in
    let gap = g.around.gap in
    let bp = base bottom ls in
    let g1 =
      Gap-put g (bp - 4) w (omega arith) (omega arith) (far_below (bp - 4) bp (omega arith)) in
    let g2 =
      Gap-put g1 (bp + size - 8) w (omega arith) (omega arith)
        (far_above (bp + size - 8) bp (omega arith)) in
    let m1 = write h.mem (bp - 4) w in
    subst (Marked bottom ls q ts inside fl size w)
      (sym (put_both-put bp w h ∙ ap (λ x. put (bp + x - 8) w (put (bp - 4) w h)) e))
      (record {
        gap = g2;
        header =
            write_elsewhere m1 (bp + size - 8) w (bp - 4) (λ x. absurd (omega arith))
            ∙ write_here h.mem (bp - 4) w;
        footer = write_here m1 (bp + size - 8) w;
      })

or_insert : (e c i : Bool) → i ≡ (c || false) → (e || i) ≡ (c || (true && e))
or_insert true true i k = refl
or_insert true false i k = refl
or_insert false true i k = k
or_insert false false i k = k

module _ {bottom : ℕ} {ls : List Tile} {q : ℕ} {ts : List Tile} {fl : List ℕ} {h : Heap}
    (g : Gap bottom ls q ts false fl h) where
  elsewhere : (d : ℕ) → has d fl ≡ true → Apart (base bottom ls) d
  elsewhere d e =
      let gap = g.around.gap in
      let free : is_free bottom ls q ts false d ≡ true = sym (g.covers d) ∙ e in
      elim (or_cases (free_behind bottom ls d || free_ahead q ts d) false free) [
        | inl f ↦ elim (or_cases (free_behind bottom ls d) (free_ahead q ts d) f) [
          | inl k ↦
              let place = free_behind-le h.mem bottom ls d g.around.behind k in inr (omega arith)
          | inr k ↦ let place = free_ahead-ge q ts d k in inl (omega arith)
        ]
        | inr f ↦ cc
      ]

  pub insert_spares :
      (r : ℕ) → Spared bottom ls q ts r → (insert_block (base bottom ls) h).mem r ≡ h.mem r
  insert_spares r s =
      insert_block-outside bottom (base bottom ls) fl h r g.chain (Avoids-all g r s)
        (Spared-bottom g.around r s) (Spared-inside g.around r s)

  pub insert-Gap : Gap bottom ls q ts true (base bottom ls ∷ fl) (insert_block (base bottom ls) h)
  unfolding has
  insert-Gap =
      let start = base-ge bottom ls in
      record {
        around =
            Around-frame g.around (insert_block (base bottom ls) h)
              (insert_block-SameStatics (base bottom ls) h)
              (λ r t. insert_spares r (Tagged-Spared bottom ls q ts r t));
        chain =
            insert_block-IsFreeList bottom (base bottom ls) fl h g.chain (omega arith)
              (All-has (Apart (base bottom ls)) fl elsewhere) (inr (omega arith));
        covers = λ d.
            or_insert (base bottom ls == d) (free_behind bottom ls d || free_ahead q ts d)
              (has d fl) (g.covers d);
      }
