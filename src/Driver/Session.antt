-- ===== src/Driver/Session.antt =====
-- mdriver.c with mm_freeList.c: a run of `eval_mm_valid` on a trace.
use mathlib.Core.List.{Permᴰ}
use operating_system_basics.Base.{
  ℕ, ◌+◌, ◌-◌, ◌%◌, ◌^◌, ◌≤◌, ◌<◌, ◌≡◌, ◌≢◌, ◌⊎◌, refl, sym, ◌∙◌, Bool, true, false, Option, none,
  some, List, [], ◌∷◌, arith, subst, inl, inr, All, ◌==◌, ==_iff, set, length, length-set,
}
use operating_system_basics.Driver.{
  Range, add_range, remove_range, TraceOp, alloc_op, free_op, realloc_op, Allocator, Eval,
  with_value, fill_block, record_block, eval_op,
}
use operating_system_basics.Driver.Payloads.{range, no_overlap, add_range-true}
use operating_system_basics.Driver.Pairs.{
  Paired, Open, close, get_elem?-set_same, Paired-set, Paired-new, Paired-Open, Paired-close,
}
use operating_system_basics.Malloc.{Heap, mem_heap_lo, mem_heap_hi, mem_reset_brk}
use operating_system_basics.Malloc.FreeList.{
  mm_init, mm_malloc, mm_free, newsize_of, max, chunksize,
}
use operating_system_basics.Malloc.FreeList.Tiles.{Tile, base, base-ge, total}
use operating_system_basics.Malloc.FreeList.Outside.{SameStatics}
use operating_system_basics.Malloc.FreeList.Whole.{Whole}
use operating_system_basics.Malloc.FreeList.Coalesce.{unmerged}
use operating_system_basics.Malloc.FreeList.Alloc.{Malloced, mm_malloc-Served, newsize_lem}
use operating_system_basics.Malloc.FreeList.Live.{
  live, live-Spaced, Malloced-Rearranged, mm_free-Rearranged,
}
use operating_system_basics.Malloc.FreeList.Disjoint.{
  Spaced-AllDisjoint, Spaced-bounds, Permᴰ-AllDisjoint, Permᴰ-Among, Among, All-Among, live-aligned,
}
use operating_system_basics.Malloc.FreeList.Payload.{FilledIn, FilledIn-Whole, allocated}
use operating_system_basics.Malloc.FreeList.Fuel.{length-lt, mm_malloc-fuel}

-- The bytes of the heap: `memset p v n` writes no word outside of the `n` bytes at `p`.
pub record Bytes : Type 0 where
  pub load : Heap → ℕ → ℕ
  pub memset : ℕ → ℕ → ℕ → Heap → Heap
  pub memset-elsewhere :
      (p v n : ℕ) (h : Heap)
      → SameStatics h (memset p v n h)
        × ((memset p v n h).start ≡ h.start)
        × ((r : ℕ) → (r + 4 ≤ p) ⊎ (p + n ≤ r) → (memset p v n h).mem r ≡ h.mem r)

abbrev pub init_result : Heap → Option (Bool × Heap) → Bool × Heap
init_result h none = (false, h)
init_result h (some r) = r

abbrev malloc_result : Heap → Option (ℕ × Heap) → ℕ × Heap
malloc_result h none = (0, h)
malloc_result h (some r) = r

-- mm_freeList.c as the allocator of the driver. The bytes below the break are the fuel of a search;
-- `mm_realloc`, which calls the C library's `malloc`, is `realloc`.
abbrev pub free_list : Bytes → (ℕ → ℕ → Heap → ℕ × Heap) → Allocator Heap
free_list bytes realloc = record {
  mem_reset_brk = mem_reset_brk;
  mm_init = λ h. init_result h (mm_init h);
  mm_malloc = λ size h. malloc_result h (mm_malloc h.mem_brk size h);
  mm_realloc = realloc;
  mm_free = mm_free;
  heap_lo = mem_heap_lo;
  heap_hi = mem_heap_hi;
  load = bytes.load;
  memset = bytes.memset;
}

-- A trace without `realloc` on `ids` blocks, where `is` are open: it asks for some bytes for an index
-- that is not open, and frees open ones.
abbrev pub Valid : ℕ → List ℕ → List TraceOp → Type 0
Valid ids is [] = Unit
Valid ids is (alloc_op i size ∷ ops) =
    i < ids × 0 < size × size + 5000 < 2 ^ 27 × All (λ j. j ≢ i) is × Valid ids (i ∷ is) ops
Valid ids is (free_op i ∷ ops) = Open i is × Valid ids (close i is) ops
Valid ids is (realloc_op i size ∷ ops) = ⊥

-- The state between two requests.
pub record Between (bottom ids : ℕ) (is : List ℕ) (e : Eval Heap) : Type 0 where
  pub tiles : List Tile
  pub free : List ℕ
  pub whole : Whole bottom [] tiles free e.heap
  pub paired : Paired e.blocks (live (bottom + 40) tiles) is e.ranges
  pub count : length e.blocks ≡ ids

Malloced-null :
    (bottom a : ℕ) (h : Heap) (tiles : List Tile) (p : ℕ) (after : List Tile)
    → Malloced bottom a h tiles p after
    → p ≡ 0
    → h.mem_max_addr < h.mem_brk + max a chunksize
Malloced-null bottom a h tiles p after (Malloced.refused xs fits full) e = full
Malloced-null bottom a h tiles p after (Malloced.reused ls n ts fits) e =
    let low = base-ge bottom ls in absurd (omega (arith, e))
Malloced-null bottom a h tiles p after (Malloced.extended ls fits) e =
    let low = base-ge bottom (unmerged ls) in absurd (omega (arith, e))

module _ (bytes : Bytes) (realloc : ℕ → ℕ → Heap → ℕ × Heap) (bottom ids : ℕ)
    (aligned : bottom % 8 ≡ 0) where
  abbrev mm : Allocator Heap
  mm = free_list bytes realloc

  eval_alloc-null :
      (i size p : ℕ) (g : Heap) (e : Eval Heap)
      → mm_malloc e.heap.mem_brk size e.heap ≡ some (p, g)
      → p ≡ 0
      → eval_op mm (alloc_op i size) e ≡ some (false, record e { heap = g })
  unfolding eval_op
  eval_alloc-null i size p g e run null =
      let z : (p == 0) ≡ true = (==_iff p 0).1 null in rw (run, z) refl

  eval_alloc-passed :
      (i size p : ℕ) (g : Heap) (e : Eval Heap) (rs : List Range)
      → mm_malloc e.heap.mem_brk size e.heap ≡ some (p, g)
      → (p == 0) ≡ false
      → add_range (mem_heap_lo g) (mem_heap_hi g) e.ranges p size ≡ some (true, rs)
      → eval_op mm (alloc_op i size) e
        ≡ some (
          true,
          record {
            heap = bytes.memset p (i % 256) size g;
            ranges = rs;
            blocks = set e.blocks i p;
            block_sizes = set e.block_sizes i size;
          },
        )
  unfolding eval_op record_block with_value fill_block
  eval_alloc-passed i size p g e rs run z accepted = rw (run, z, accepted) refl

  -- A request for memory: it passes, or there is no room in the heap.
  pub alloc_step :
      (i size : ℕ) (is : List ℕ) (e : Eval Heap)
      → Between bottom ids is e
      → i < ids
      → 0 < size
      → size + 5000 < 2 ^ 27
      → All (λ j. j ≢ i) is
      → ((e' : Eval Heap) × (eval_op mm (alloc_op i size) e ≡ some (true, e'))
          × Between bottom ids (i ∷ is) e')
        ⊎ ((e' : Eval Heap) × (eval_op mm (alloc_op i size) e ≡ some (false, e'))
            × e.heap.mem_max_addr < e.heap.mem_brk + max (newsize_of size) chunksize)
  unfolding mem_heap_lo mem_heap_hi
  alloc_step i size is e b index positive small absent =
      let w = b.whole in
      let before = live (bottom + 40) b.tiles in
      let s = mm_malloc-Served size w positive small in
      let p = s.p in
      let room = newsize_lem size (omega arith) in
      let run = mm_malloc-fuel w e.heap.mem_brk size (length-lt w) ∙ s.returns in
      let brk = s.whole.brk in
      let origin = s.whole.origin in
      let blocks = live (bottom + 40) s.after in
      let top = bottom + 40 + total s.after in
      let spaced = live-Spaced (bottom + 40) s.after in
      elim (Malloced-Rearranged bottom (newsize_of size) e.heap b.tiles p s.after s.step) [
        | inl (null, same) ↦ inr (
          record e { heap = s.heap },
          eval_alloc-null i size p s.heap e run null,
          Malloced-null bottom (newsize_of size) e.heap b.tiles p s.after s.step null,
        )
        | inr (pos, (n, (enough, perm))) ↦
            let (disjoint, others) =
              Permᴰ-AllDisjoint perm (Spaced-AllDisjoint (bottom + 40) top blocks spaced) in
            let among : Among (p, n) blocks = Permᴰ-Among (p, n) perm (inl refl) in
            let place =
              All-Among (λ x. (bottom + 40 ≤ x.0) × x.0 + x.1 ≤ top) (p, n) blocks
                (Spaced-bounds (bottom + 40) (bottom + 40) top blocks (omega arith) spaced) among in
            let even : p % 8 ≡ 0 =
              All-Among (λ x. x.0 % 8 ≡ 0) (p, n) blocks
                (live-aligned s.heap.mem (bottom + 40) s.after s.whole.ahead (omega arith)) among in
            let (apart, backed) =
              Paired-new e.blocks p n before is e.ranges (omega arith) disjoint b.paired in
            let clear =
              no_overlap p n (p + size - 1) before e.ranges disjoint (omega arith) (omega arith)
                backed in
            let accepted =
              add_range-true s.heap.mem_start_brk (s.heap.mem_brk - 1) e.ranges p size positive even
                (omega arith) (omega arith) clear in
            let z : (p == 0) ≡ false = ground arith in
            let (statics, start, elsewhere) = bytes.memset-elsewhere p (i % 256) size s.heap in
            let filled : FilledIn p n s.heap (bytes.memset p (i % 256) size s.heap) = (
              statics,
              start,
              λ r k. elsewhere r (elim k [ inl x ↦ inl x | inr x ↦ inr (omega (arith, x)) ]),
            ) in
            let count = b.count in
            inl (
              record {
                heap = bytes.memset p (i % 256) size s.heap;
                ranges = range p size ∷ e.ranges;
                blocks = set e.blocks i p;
                block_sizes = set e.block_sizes i size;
              },
              eval_alloc-passed i size p s.heap e (range p size ∷ e.ranges) run z accepted,
              record {
                tiles = s.after;
                free = s.rest;
                whole =
                    FilledIn-Whole (bytes.memset p (i % 256) size s.heap) p n s.whole among filled;
                paired = (
                  get_elem?-set_same e.blocks i p (omega arith),
                  (n, among, omega arith, omega arith),
                  apart,
                  Paired-set e.blocks i p n before blocks is e.ranges perm absent b.paired,
                );
                count = length-set e.blocks i p ∙ count;
              },
            )
      ]

  pub free_step :
      (i : ℕ) (is : List ℕ) (e : Eval Heap)
      → Between bottom ids is e
      → Open i is
      → (e' : Eval Heap) × (eval_op mm (free_op i) e ≡ some (true, e'))
        × Between bottom ids (close i is) e'
  unfolding eval_op with_value
  free_step i is e b at_open =
      let (p, n, at, among) =
        Paired-Open e.blocks (live (bottom + 40) b.tiles) is e.ranges i b.paired at_open in
      let u = allocated p n b.whole among in
      let (after, rest, whole, perm) =
        mm_free-Rearranged bottom u.ls n u.ts b.free e.heap
          (subst (λ x. Whole bottom [] x b.free e.heap) u.same b.whole) in
      let perm1 =
        subst (λ x. Permᴰ (live (bottom + 40) x) ((base bottom u.ls, n) ∷ live (bottom + 40) after))
          (sym u.same) perm in
      let perm2 =
        subst (λ x. Permᴰ (live (bottom + 40) b.tiles) ((x, n) ∷ live (bottom + 40) after)) u.place
          perm1 in
      (
        record e { ranges = remove_range e.ranges p; heap = mm_free p e.heap },
        rw at refl,
        record {
          tiles = after;
          free = rest;
          whole = subst (λ x. Whole bottom [] after rest (mm_free x e.heap)) u.place whole;
          paired =
              Paired-close e.blocks p n (live (bottom + 40) b.tiles) (live (bottom + 40) after) is
                e.ranges i perm2 b.paired at_open at;
          count = b.count;
        },
      )
