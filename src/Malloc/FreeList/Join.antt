-- ===== src/Malloc/FreeList/Join.antt =====
-- mm_freeList.c: the cases of `coalesce` that join a block with its free neighbours.
use operating_system_basics.Base.{
  ℕ, ◌+◌, ◌-◌, ◌%◌, ◌^◌, ◌≡◌, inl, inr, refl, sym, ap, ◌∙◌, Bool, true, false, List, [], ◌∷◌, arith,
  Bool-cases, subst,
}
use operating_system_basics.Malloc.{Heap}
use operating_system_basics.Malloc.FreeList.{
  remove_block, put_both, size_of, alloc_of, get_size, left_blkp, right_blkp, join_blocks,
}
use operating_system_basics.Malloc.FreeList.Tiles.{Tile, tag, IsTile, base, base-ge}
use operating_system_basics.Malloc.FreeList.Apart.{far_above, far_below}
use operating_system_basics.Malloc.FreeList.Gap.{Gap}
use operating_system_basics.Malloc.FreeList.TakeOut.{take_out}
use operating_system_basics.Malloc.FreeList.Absorb.{
  absorb_left, absorb_right, left_free, right_free,
}
use operating_system_basics.Malloc.FreeList.Insert.{put_both-Marked}

-- A free block fills the gap; it is not in the list.
pub record Filled (bottom : ℕ) (ls : List Tile) (q : ℕ) (ts : List Tile) (fl : List ℕ) (h : Heap)
    : Type 0 where
  pub gap : Gap bottom ls q ts false fl h
  pub header : h.mem (base bottom ls - 4) ≡ q - base bottom ls
  pub footer : h.mem (q - 8) ≡ q - base bottom ls
  pub multiple : (q - base bottom ls) % 8 ≡ 0

pub fill :
    {bottom : ℕ} {ls : List Tile} {q : ℕ} {ts : List Tile} {fl : List ℕ} {h : Heap} (w : ℕ)
    → Gap bottom ls q ts false fl h
    → base bottom ls + w ≡ q
    → w % 8 ≡ 0
    → Filled bottom ls q ts fl (put_both (base bottom ls) w h)
fill {bottom} {ls} {q} {ts} {fl} {h} w g e m =
    let start = base-ge bottom ls in
    let gap = g.around.gap in
    let k : w ≡ q - base bottom ls = omega arith in
    let marked = put_both-Marked w w g (omega arith) (omega arith) (omega arith) in
    record {
      gap = marked.gap;
      header = marked.header ∙ k;
      footer = ap (λ x. (put_both (base bottom ls) w h).mem (x - 8)) (sym e) ∙ marked.footer ∙ k;
      multiple = subst (λ x. x % 8 ≡ 0) k m;
    }

pub size_of-tag : (t : Tile) → IsTile t → size_of (tag t) ≡ t.size
size_of-tag t (m, big) = elim (Bool-cases t.used) [
  | inl e ↦ rw e (omega arith)
  | inr e ↦ rw e (omega arith)
]

pub alloc_of-tag : (t : Tile) → IsTile t → alloc_of (tag t) ≡ t.used
alloc_of-tag t (m, big) = elim (Bool-cases t.used) [
  | inl e ↦ rw e (ground arith)
  | inr e ↦ rw e (ground arith)
]

pub get_size-tag :
    (h : Heap) (p : ℕ) (t : Tile) → h.mem (p - 4) ≡ tag t → IsTile t → get_size h p ≡ t.size
get_size-tag h p t e k = ap size_of e ∙ size_of-tag t k

pub left_blkp-base :
    (h : Heap) (p : ℕ) (l : Tile)
    → h.mem (p + l.size - 8) ≡ tag l
    → IsTile l
    → left_blkp h (p + l.size) ≡ p
left_blkp-base h p l e k =
    let at : p + l.size - 4 - 4 ≡ p + l.size - 8 = omega arith in
    let size : size_of (h.mem (p + l.size - 4 - 4)) ≡ l.size =
      ap (λ x. size_of (h.mem x)) at ∙ ap size_of e ∙ size_of-tag l k in
    ap (λ x. p + l.size - x) size ∙ omega arith

-- The neighbour at the end of a list, where it is free.
unfoldable pub edge_used : List Tile → Bool
edge_used [] = true
edge_used (t ∷ ts) = t.used

unfoldable pub keep_edge : Bool → List Tile → List Tile
keep_edge true ts = ts
keep_edge false [] = []
keep_edge false (t ∷ ts) = ts

unfoldable pub edge_size : Bool → List Tile → ℕ
edge_size true ts = 0
edge_size false [] = 0
edge_size false (t ∷ ts) = t.size

pub record Joined (bottom : ℕ) (ls : List Tile) (q : ℕ) (ts : List Tile) (r : ℕ × Heap)
    : Type 0 where
  pub rest : List ℕ
  pub place : r.0 ≡ base bottom ls
  pub filled : Filled bottom ls q ts rest r.1

module _ {bottom q : ℕ} {fl : List ℕ} {h : Heap} where
  own_size :
      {ls ts : List Tile}
      → Filled bottom ls q ts fl h
      → get_size h (base bottom ls) ≡ q - base bottom ls
  own_size {ls} {ts} f = let m = f.multiple in ap size_of f.header ∙ omega arith

  pub own_right :
      {ls ts : List Tile} → Filled bottom ls q ts fl h → right_blkp h (base bottom ls) ≡ q
  own_right {ls} {ts} f =
      let gap = f.gap.around.gap in ap (λ x. base bottom ls + x) (own_size f) ∙ omega arith

  pub join_right :
      (ls : List Tile) (r : Tile) (ts : List Tile)
      → Filled bottom ls q (r ∷ ts) fl h
      → r.used ≡ false
      → Joined bottom ls (q + r.size) ts (join_blocks true false (base bottom ls) h)
  unfolding join_blocks
  join_right ls r ts f u =
      let a = f.gap.around in
      let gap = a.gap in
      let brk = a.brk in
      let room = a.room in
      let top = a.top in
      let multiple = f.multiple in
      let (a1, a2, (a3, big), more) = a.ahead in
      let t = take_out f.gap q (right_free bottom ls q r ts u) in
      let (rest, g) = absorb_right r u t in
      let own = own_size f in
      let right = own_right f in
      let size : get_size h q ≡ r.size = get_size-tag h q r a1 (a3, big) in
      let small : (q - base bottom ls + r.size) % 2 ^ 32 ≡ q - base bottom ls + r.size =
        omega arith in
      rw (right, own, size, small)
        (record {
          rest = rest;
          place = refl;
          filled = fill (q - base bottom ls + r.size) g (omega arith) (omega arith);
        })

  pub join_left :
      (l : Tile) (ls : List Tile) (ts : List Tile)
      → Filled bottom (l ∷ ls) q ts fl h
      → l.used ≡ false
      → Joined bottom ls q ts (join_blocks false true (base bottom ls + l.size) h)
  unfolding join_blocks
  join_left l ls ts f u =
      let a = f.gap.around in
      let gap = a.gap in
      let brk = a.brk in
      let room = a.room in
      let top = a.top in
      let multiple = f.multiple in
      let (b1, b2, (b3, big), more) = a.behind in
      let t = take_out f.gap (base bottom ls) (left_free bottom l ls q ts u) in
      let (rest, g) = absorb_left l u t in
      let own = own_size f in
      let left : left_blkp h (base bottom ls + l.size) ≡ base bottom ls =
        left_blkp-base h (base bottom ls) l b2 (b3, big) in
      let size : get_size h (base bottom ls) ≡ l.size =
        get_size-tag h (base bottom ls) l b1 (b3, big) in
      let n = q - (base bottom ls + l.size) in
      let small : (n + l.size) % 2 ^ 32 ≡ n + l.size = omega arith in
      rw (left, own, size, small)
        (record {
          rest = rest;
          place = refl;
          filled = fill (n + l.size) g (omega arith) (omega arith);
        })

  pub join_both :
      (l : Tile) (ls : List Tile) (r : Tile) (ts : List Tile)
      → Filled bottom (l ∷ ls) q (r ∷ ts) fl h
      → l.used ≡ false
      → r.used ≡ false
      → Joined bottom ls (q + r.size) ts (join_blocks false false (base bottom ls + l.size) h)
  unfolding join_blocks
  join_both l ls r ts f ul ur =
      let a = f.gap.around in
      let start = base-ge bottom ls in
      let gap = a.gap in
      let brk = a.brk in
      let room = a.room in
      let top = a.top in
      let multiple = f.multiple in
      let low = base bottom ls in
      let bp = base bottom ls + l.size in
      let (b1, b2, (b3, big), more) = a.behind in
      let (a1, a2, (a3, big_r), more_r) = a.ahead in
      let h1 = remove_block low h in
      let t1 = take_out f.gap low (left_free bottom l ls q (r ∷ ts) ul) in
      let (rest1, g1) = absorb_left l ul t1 in
      let h2 = remove_block q h1 in
      let t2 = take_out g1 q (right_free bottom ls q r ts ur) in
      let (rest, g2) = absorb_right r ur t2 in
      let (c1, c2, c3, c4) = t1.around.behind in
      let (d1, d2, d3, d4) = t2.around.ahead in
      let own = own_size f in
      let left : left_blkp h bp ≡ low = left_blkp-base h low l b2 (b3, big) in
      let header1 : h1.mem (bp - 4) ≡ h.mem (bp - 4) =
        t1.same (bp - 4)
          (inr (inl (omega arith, omega arith, far_below (bp - 4) bp (omega arith)))) in
      let own1 : get_size h1 bp ≡ q - bp = ap size_of header1 ∙ own in
      let right1 : right_blkp h1 bp ≡ q = ap (λ x. bp + x) own1 ∙ omega arith in
      let header2 : h2.mem (bp - 4) ≡ h1.mem (bp - 4) =
        t2.same (bp - 4)
          (inr (inl (omega arith, omega arith, far_above (bp - 4) low (omega arith)))) in
      let own2 : get_size h2 bp ≡ q - bp = ap size_of header2 ∙ own1 in
      let right2 : right_blkp h2 bp ≡ q = ap (λ x. bp + x) own2 ∙ omega arith in
      let footer2 : h2.mem (bp - 8) ≡ tag l =
        t2.same (bp - 8)
          (inr (inl (omega arith, omega arith, far_above (bp - 8) low (omega arith))))
        ∙ c2 in
      let left2 : left_blkp h2 bp ≡ low = left_blkp-base h2 low l footer2 (b3, big) in
      let head2 : h2.mem (low - 4) ≡ tag l =
        t2.same (low - 4)
          (inr (inl (omega arith, omega arith, far_below (low - 4) low (omega arith))))
        ∙ c1 in
      let size_l : get_size h2 low ≡ l.size = get_size-tag h2 low l head2 (b3, big) in
      let size_r : get_size h2 q ≡ r.size = get_size-tag h2 q r d1 d3 in
      let n = q - bp in
      let small : (n + l.size + r.size) % 2 ^ 32 ≡ n + l.size + r.size = omega arith in
      rw (left, right1, left2, right2, own, size_l, size_r, small)
        (record {
          rest = rest;
          place = refl;
          filled = fill (n + l.size + r.size) g2 (omega arith) (omega arith);
        })
