-- ===== src/Malloc/FreeList/Check.antt =====
-- mm_freeList.c: `mm_check` and `mm_checkBlock`.
use mathlib.Core.List.{append_assoc}
use operating_system_basics.Base.{
  ℕ, zero, suc, ◌<◌, ◌≡◌, ◌≢◌, Bool, true, false, not, ◌||◌, Option, none, some, List, [], ◌∷◌,
  ◌++◌, ◌==◌, ltb, if◌then◌else◌, arith, lt→ltb, sym,
}
use operating_system_basics.Malloc.{Heap, mem_heap_lo, mem_heap_hi}
use operating_system_basics.Malloc.FreeList.{
  min_blocksize, hdrp, ftrp, get_size, get_alloc, next_blkp, prev_blkp, size_of, alloc_of,
}
use operating_system_basics.Malloc.FreeList.Chain.{IsFreeList}

-- What the checks print.
pub data Message : Type 0 where
  prologue_size : Message
  prologue_alloc : Message
  size_mismatch : Message
  alloc_mismatch : Message
  out_of_bounds : Message

abbrev report : Bool → Message → List Message
report true m = m ∷ []
report false m = []

abbrev differ : Bool → Bool → Bool
differ true b = not b
differ false b = b

-- Are the two pointers of the block outside the heap?
abbrev pub outside : Heap → ℕ → ℕ → Bool
outside h next prev =
    ltb next (mem_heap_lo h)
    || ltb prev (mem_heap_lo h)
    || ltb (mem_heap_hi h) prev
    || ltb (mem_heap_hi h) next

pub check_block : ℕ → Heap → List Message
check_block bp h =
    if (hdrp bp == 0) || (ftrp h bp == 0)
    then []
    else report (not (get_size h bp == size_of (h.mem (ftrp h bp)))) size_mismatch
      ++ (report (differ (get_alloc h bp) (alloc_of (h.mem (ftrp h bp)))) alloc_mismatch
          ++ report (outside h (next_blkp h bp) (prev_blkp h bp)) out_of_bounds)

-- The `while` of `mm_check` on fuel.
pub check_loop : ℕ → ℕ → Heap → Option (List Message)
check_loop zero bp h = none
check_loop (suc fuel) bp h =
    let rest = check_loop fuel (prev_blkp h bp) h in
    if bp == 0 then some [] else elim rest [ none ↦ none | some ms ↦ some (check_block bp h ++ ms) ]

pub mm_check : ℕ → Heap → Option (List Message)
mm_check fuel h = elim (check_loop fuel h.start h) [
  | none ↦ none
  | some ms ↦ some (
      report (not (get_size h h.heap_listp == min_blocksize)) prologue_size
      ++ (report (not (get_alloc h h.heap_listp)) prologue_alloc ++ ms))
]

nonzero : (n : ℕ) → n ≢ 0 → (n == 0) ≡ false
nonzero n h = ground arith

-- The check of the first block of a free list complains about the bounds of the heap, since its
-- next pointer is NULL, although the list is sound.
pub check_block-first :
    (bottom b : ℕ) (bs : List ℕ) (h : Heap)
    → IsFreeList bottom (b ∷ bs) h
    → 0 < mem_heap_lo h
    → 4 < b
    → ftrp h b ≢ 0
    → (ms : List Message) × (check_block b h ≡ ms ++ (out_of_bounds ∷ []))
unfolding check_block
check_block-first bottom b bs h ((s, k, more), separate) low positive footer =
    let header : (hdrp b == 0) ≡ false = ground arith in
    let foot : (ftrp h b == 0) ≡ false = nonzero (ftrp h b) footer in
    let below : ltb (h.mem b) (mem_heap_lo h) ≡ true =
      lt→ltb (h.mem b) (mem_heap_lo h) (rw k low) in
    let sizes = report (not (get_size h b == size_of (h.mem (ftrp h b)))) size_mismatch in
    let allocs = report (differ (get_alloc h b) (alloc_of (h.mem (ftrp h b)))) alloc_mismatch in
    rw (header, foot, below) (sizes ++ allocs, sym (append_assoc sizes allocs (out_of_bounds ∷ [])))
