-- ===== src/Malloc/FreeList/Alloc.antt =====
-- mm_freeList.c: `mm_malloc` on the blocks of the heap.
use operating_system_basics.Base.{
  ℕ, ◌+◌, ◌-◌, ◌*◌, ◌/◌, ◌%◌, ◌^◌, ◌≤◌, ◌<◌, ◌≡◌, ◌≢◌, ◌⊎◌, inl, inr, refl, sym, ap, ◌∙◌, false,
  List, [], ◌∷◌, arith, subst, ◌==◌, Bool-cases, if◌then◌else◌, ==_iff, Option, some, length, ltb,
}
use operating_system_basics.Malloc.{Heap}
use operating_system_basics.Malloc.FreeList.{
  get_size, find_freeblock, extend_heap, place, mm_malloc, newsize_of, align, max, chunksize, wsize,
  min_blocksize,
}
use operating_system_basics.Malloc.FreeList.Tiles.{Tile, base, base-ge}
use operating_system_basics.Malloc.FreeList.Whole.{Whole, joined, joined-Whole, cut-Whole}
use operating_system_basics.Malloc.FreeList.Join.{get_size-tag, edge_used, keep_edge}
use operating_system_basics.Malloc.FreeList.Coalesce.{free_tile, unmerged, merged_size, Coalesced}
use operating_system_basics.Malloc.FreeList.Place.{placed, place-Whole}
use operating_system_basics.Malloc.FreeList.Extend.{Whole-Edge, extend_heap-Coalesced}
use operating_system_basics.Malloc.FreeList.FirstFit.{first_fit}
use operating_system_basics.Malloc.FreeList.Fit.{
  listed, first_fit-has, find_freeblock-Whole, NoFit, first_fit-NoFit,
}

-- What a request for a block of `a` bytes does with the blocks of the heap, and the pointer that it
-- gives: `reused` takes a free block, `extended` a new one at the end of the heap.
pub data Malloced (bottom : ℕ) (a : ℕ) (h : Heap) : List Tile → ℕ → List Tile → Type 0 where
  refused :
      (tiles : List Tile)
      → NoFit a tiles
      → h.mem_max_addr < h.mem_brk + max a chunksize
      → Malloced bottom a h tiles 0 tiles
  reused :
      (ls : List Tile) (n : ℕ) (ts : List Tile)
      → a ≤ n
      → Malloced bottom a h
          (joined ls (free_tile n ∷ ts))
          (base bottom ls)
          (joined ls (placed n a ts))
  extended :
      (ls : List Tile)
      → NoFit a (joined ls [])
      → Malloced bottom a h
          (joined ls [])
          (base bottom (unmerged ls))
          (joined (unmerged ls) (placed (merged_size ls (max a chunksize) []) a []))

pub max_lem : (a b : ℕ) → (max a b ≡ a × b ≤ a) ⊎ (max a b ≡ b × a ≤ b)
max_lem a b = elim (Bool-cases (ltb b a)) [
  | inl e ↦ inl (rw e refl, grind (arith, e))
  | inr e ↦ inr (rw e refl, grind (arith, e))
]

-- The size of the block for a request: it has room for the bytes, the header and the footer, and the
-- sizes of all blocks are multiples of 8.
pub newsize_lem :
    (size : ℕ)
    → size + 16 < 2 ^ 32
    → size + 8 ≤ newsize_of size
      × 24 ≤ newsize_of size
      × (newsize_of size % 8 ≡ 0)
      × newsize_of size ≤ size + 24
unfolding newsize_of align
newsize_lem size small =
    let q : (size + (8 - 1)) % 2 ^ 32 ≡ size + 7 = omega arith in
    let sum : (size + 7 - (size + 7) % 8 + 8) % 2 ^ 32 ≡ size + 7 - (size + 7) % 8 + 8 =
      omega arith in
    let v = size + 7 - (size + 7) % 8 + 8 in
    rw (q, sum)
      (elim (max_lem v min_blocksize) [
        | inl (e, k) ↦ rw e (omega arith, omega arith, omega arith, omega arith)
        | inr (e, k) ↦ rw e (omega arith, omega arith, omega arith, omega arith)
      ])

chunk_lem :
    (a : ℕ)
    → a % 8 ≡ 0
    → (max a chunksize % 8 ≡ 0)
      × a ≤ max a chunksize
      × 4096 ≤ max a chunksize
      × max a chunksize ≤ a + 4096
chunk_lem a m = elim (max_lem a chunksize) [
  | inl (e, k) ↦ rw e (m, omega arith, omega arith, omega arith)
  | inr (e, k) ↦ rw e (refl, omega arith, omega arith, omega arith)
]

ends : (ls ts : List Tile) → (all : List Tile) × (joined ls ts ≡ joined all [])
unfolding joined
ends ls [] = (ls, refl)
ends ls (t ∷ ts) = ends (t ∷ ls) ts

mm_malloc-found :
    (fuel size bp : ℕ) (h : Heap)
    → (size == 0) ≡ false
    → find_freeblock fuel (newsize_of size) h ≡ some bp
    → (bp == 0) ≡ false
    → mm_malloc fuel size h ≡ some (bp, place bp (newsize_of size) h)
unfolding mm_malloc
mm_malloc-found fuel size bp h e f k = rw (e, f, k) refl

mm_malloc-grown :
    (fuel size : ℕ) (h : Heap)
    → (size == 0) ≡ false
    → find_freeblock fuel (newsize_of size) h ≡ some 0
    → mm_malloc fuel size h ≡ (
        let (p, h1) = extend_heap (max (newsize_of size) chunksize / wsize) h in
        if p == 0 then some (0, h1) else some (p, place p (newsize_of size) h1))
unfolding mm_malloc
mm_malloc-grown fuel size h e f = rw (e, f) refl

-- The result of a request.
pub record Served (bottom a : ℕ) (tiles : List Tile) (h : Heap) (r : Option (ℕ × Heap))
    : Type 0 where
  pub p : ℕ
  pub heap : Heap
  pub after : List Tile
  pub rest : List ℕ
  pub returns : r ≡ some (p, heap)
  pub step : Malloced bottom a h tiles p after
  pub whole : Whole bottom [] after rest heap

module _ {bottom : ℕ} {tiles : List Tile} {fl : List ℕ} {h : Heap} (size : ℕ)
    (w : Whole bottom [] tiles fl h) (some_bytes : 0 < size) (small : size + 5000 < 2 ^ 27) where
  serve_found :
      first_fit h (newsize_of size) fl ≢ 0
      → Served bottom (newsize_of size) tiles h (mm_malloc (length fl + 1) size h)
  serve_found n =
      let a = newsize_of size in
      let (room, big, multiple, bound) = newsize_lem size (omega arith) in
      let (k, fits) = first_fit-has h a fl n in
      let f = listed (first_fit h a fl) w k in
      let (a1, a2, a3, more) = f.whole.ahead in
      let at = f.place in
      let fsize : get_size h (first_fit h a fl) ≡ f.size =
        subst (λ x. get_size h x ≡ f.size) at
          (get_size-tag h (base bottom f.ls) (free_tile f.size) a1 a3) in
      let enough : a ≤ f.size = omega arith in
      let (rest, whole) = place-Whole a f.whole big enough multiple in
      let e : (size == 0) ≡ false = ground arith in
      let valid : (first_fit h a fl == 0) ≡ false = ground arith in
      record {
        p = base bottom f.ls;
        heap = place (base bottom f.ls) a h;
        after = joined f.ls (placed f.size a f.ts);
        rest = rest;
        returns =
            mm_malloc-found (length fl + 1) size (first_fit h a fl) h e
              (find_freeblock-Whole a (length fl + 1) w (omega arith)) valid
            ∙ ap (λ x. some (x, place x a h)) (sym at);
        step =
            subst
              (λ x. Malloced bottom a h x (base bottom f.ls) (joined f.ls (placed f.size a f.ts)))
              (sym f.same) (reused f.ls f.size f.ts enough);
        whole = joined-Whole f.ls (placed f.size a f.ts) whole;
      }

  serve_grown :
      first_fit h (newsize_of size) fl ≡ 0
      → Served bottom (newsize_of size) tiles h (mm_malloc (length fl + 1) size h)
  unfolding joined keep_edge edge_used
  serve_grown none =
      let a = newsize_of size in
      let m = max a chunksize in
      let words = m / wsize in
      let (room, big, multiple, bound) = newsize_lem size (omega arith) in
      let (m8, am, chunk, limit) = chunk_lem a multiple in
      let exact : words * 4 ≡ m = omega arith in
      let (all, same) = ends [] tiles in
      let no_block = subst (NoFit a) same (first_fit-NoFit a w none) in
      let end = cut-Whole all [] (subst (λ x. Whole bottom [] x fl h) same w) in
      let e : (size == 0) ≡ false = ground arith in
      let start =
        mm_malloc-grown (length fl + 1) size h e
          (find_freeblock-Whole a (length fl + 1) w (omega arith) ∙ ap (λ x. some x) none) in
      elim (extend_heap-Coalesced words (Whole-Edge end) (omega arith) (omega arith)
        (omega arith)) [
          | inl (full, run) ↦ record {
            p = 0;
            heap = h;
            after = tiles;
            rest = fl;
            returns = start ∙ rw run refl;
            step = refused tiles (first_fit-NoFit a w none) (omega arith);
            whole = w;
          }
          | inr grown ↦
              let c = subst (λ x. Coalesced bottom all x [] (extend_heap words h)) exact grown in
              let r = extend_heap words h in
              let low = base-ge bottom (unmerged all) in
              let at = c.place in
              let valid : (r.0 == 0) ≡ false = ground arith in
              let (rest, whole) = place-Whole a c.whole big (omega arith) multiple in
              record {
                p = base bottom (unmerged all);
                heap = place (base bottom (unmerged all)) a r.1;
                after = joined (unmerged all) (placed (merged_size all m []) a []);
                rest = rest;
                returns = start ∙ rw valid refl ∙ ap (λ x. some (x, place x a r.1)) at;
                step =
                    subst
                      (λ x.
                        Malloced bottom a h x (base bottom (unmerged all))
                          (joined (unmerged all) (placed (merged_size all m []) a [])))
                      (sym same) (extended all no_block);
                whole = joined-Whole (unmerged all) (placed (merged_size all m []) a []) whole;
              }
        ]

  -- In a sound heap `mm_malloc` of some bytes, fewer than 2^27 - 5000, comes back, with more fuel than
  -- free blocks, and leaves a sound heap. It gives NULL and
  -- changes nothing only where no free block has room for the bytes, a header and a footer, and
  -- `mem_sbrk` has no room either. Otherwise it gives a block that was free, or one that it joins from
  -- new memory and the last block if that is free; a rest of 24 bytes or more stays free, and all
  -- other blocks are as they were.
  pub mm_malloc-Served : Served bottom (newsize_of size) tiles h (mm_malloc (length fl + 1) size h)
  mm_malloc-Served = elim (Bool-cases (first_fit h (newsize_of size) fl == 0)) [
    | inl e ↦ serve_grown ((==_iff (first_fit h (newsize_of size) fl) 0).0 e)
    | inr e ↦ serve_found (grind (arith, e))
  ]
