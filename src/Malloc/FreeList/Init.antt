-- ===== src/Malloc/FreeList/Init.antt =====
-- mm_freeList.c: `mm_init` makes a sound heap.
use operating_system_basics.Base.{
  ◌^◌, ℕ, ◌+◌, ◌≤◌, ◌<◌, ◌≡◌, ◌≢◌, inl, inr, refl, true, false, List, [], ◌∷◌, arith, ◌==◌, ltb,
  some,
}
use operating_system_basics.Malloc.{Heap, minus_one}
use operating_system_basics.Malloc.Brk.{mem_sbrk-small}
use operating_system_basics.Malloc.FreeList.{extend_heap, put_prologue, mm_init, chunk_words}
use operating_system_basics.Malloc.FreeList.Tiles.{free_behind}
use operating_system_basics.Malloc.FreeList.Gap.{has}
use operating_system_basics.Malloc.FreeList.Whole.{Whole}
use operating_system_basics.Malloc.FreeList.Coalesce.{free_tile}
use operating_system_basics.Malloc.FreeList.Join.{edge_used, keep_edge, edge_size}
use operating_system_basics.Malloc.FreeList.Extend.{Edge, extend_heap-Coalesced}

unfoldable started : Heap → Heap
started h = put_prologue h.mem_brk (record h { mem_brk = h.mem_brk + 48 })

started-Edge :
    (h : Heap)
    → 0 < h.mem_brk
    → h.mem_start_brk ≤ h.mem_brk
    → h.mem_brk + 80 ≤ h.mem_max_addr
    → h.mem_max_addr + 2 ^ 27 < 2 ^ 32
    → h.mem (h.mem_brk + 40) ≡ 0
    → Edge (h.mem_brk + 8) [] [] (started h)
unfolding put_prologue free_behind has started
started-Edge h positive begin room top blank =
    let p = h.mem_brk in
    record {
      behind = ground arith;
      prologue = ground arith;
      low = omega arith;
      origin = omega arith;
      brk = omega arith;
      room = omega arith;
      top = top;
      chain = ((refl, ground arith), tt);
      covers = λ d. refl;
    }

mm_init-extend_heap :
    (h : Heap)
    → 0 < h.mem_brk
    → h.mem_start_brk ≤ h.mem_brk
    → h.mem_brk + 80 ≤ h.mem_max_addr
    → h.mem_max_addr + 2 ^ 27 < 2 ^ 32
    → (extend_heap chunk_words (started h)).0 ≢ 0
    → mm_init h ≡ some (true, (extend_heap chunk_words (started h)).1)
unfolding mm_init started
mm_init-extend_heap h positive begin room top found =
    let p = h.mem_brk in
    let fits : ltb h.mem_max_addr (p + 48) ≡ false = ground arith in
    let valid : (p == 0) ≡ false = ground arith in
    let got : (p == minus_one) ≡ false = ground arith in
    let result : ((extend_heap chunk_words (started h)).0 == 0) ≡ false = grind (arith, found) in
    rw (mem_sbrk-small 48 h (omega arith) (omega arith), fits, valid, got, result) refl

-- From a break that is not below the start of the heap, with 80 bytes of room above it that ends 2^27 bytes below the last 32-bit address, where the word 40 bytes above it is 0, `mm_init` gives 0
-- and leaves a sound heap with one free block of 32 bytes.
pub mm_init-Whole :
    (h : Heap)
    → 0 < h.mem_brk
    → h.mem_start_brk ≤ h.mem_brk
    → h.mem_brk + 80 ≤ h.mem_max_addr
    → h.mem_max_addr + 2 ^ 27 < 2 ^ 32
    → h.mem (h.mem_brk + 40) ≡ 0
    → (g : Heap) × (fl : List ℕ) × (mm_init h ≡ some (true, g))
      × Whole (h.mem_brk + 8) [] (free_tile 32 ∷ []) fl g
unfolding edge_used keep_edge edge_size started put_prologue
mm_init-Whole h positive begin room top blank =
    let p = h.mem_brk in
    elim (extend_heap-Coalesced chunk_words (started-Edge h positive begin room top blank) refl
      (omega arith) (omega arith)) [
        | inl (full, run) ↦ let k : h.mem_max_addr < p + 48 + 32 = full in absurd (omega arith)
        | inr c ↦
            let r = extend_heap chunk_words (started h) in
            let at : r.0 ≡ p + 8 + 40 = c.place in
            (
              r.1,
              r.0 ∷ c.rest,
              mm_init-extend_heap h positive begin room top (λ e. absurd (omega arith)),
              c.whole,
            )
      ]
