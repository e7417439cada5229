-- ===== src/Driver.antt =====
-- "Efficient Mallocs"/mdriver.c: the records of a trace, the list of live payloads, and the check of
-- an allocator on a trace. The allocator is a parameter: `mm.h`, with the heap that it works on.
pub mod Ranges
pub mod Trace
pub mod Payloads
pub mod Pairs
pub mod Session
pub mod Run
pub mod Util
pub mod Peak
pub mod Valid
mod Tests
use operating_system_basics.Base.{
  ℕ, zero, suc, ◌+◌, ◌-◌, ◌*◌, ◌/◌, ◌%◌, ◌^◌, Bool, true, false, not, ◌&&◌, ◌||◌, Option, none,
  some, List, [], ◌∷◌, ◌==◌, ltb, leb, if◌then◌else◌, set, get_elem?,
}

-- `range_t`, without its link.
pub record Range : Type 0 where
  pub lo : ℕ
  pub hi : ℕ

abbrev pub alignment : ℕ
alignment = 8

-- The test of a payload against another one.
abbrev pub overlaps : ℕ → ℕ → Range → Bool
overlaps lo hi p = (leb p.lo lo && leb lo p.hi) || (leb p.lo hi && leb hi p.hi)

pub any_overlap : ℕ → ℕ → List Range → Bool
any_overlap lo hi [] = false
any_overlap lo hi (p ∷ ranges) = overlaps lo hi p || any_overlap lo hi ranges

-- `add_range` in a heap from `heap_lo` to `heap_hi`: the result and the list; `none` is the assertion
-- of a positive size.
pub add_range : ℕ → ℕ → List Range → ℕ → ℕ → Option (Bool × List Range)
add_range heap_lo heap_hi ranges lo size =
    let hi = lo + size - 1 in
    if size == 0
    then none
    else if not (lo % alignment == 0)
    then some (false, ranges)
    else if ltb lo heap_lo || ltb heap_hi lo || ltb hi heap_lo || ltb heap_hi hi
    then some (false, ranges)
    else if any_overlap lo hi ranges
    then some (false, ranges)
    else some (true, record { lo = lo; hi = hi } ∷ ranges)

pub remove_range : List Range → ℕ → List Range
remove_range [] lo = []
remove_range (p ∷ ranges) lo =
    let rest = remove_range ranges lo in if p.lo == lo then ranges else p ∷ rest

abbrev pub clear_ranges : List Range → List Range
clear_ranges ranges = []

-- `traceop_t`: the index, and the size of a request for memory.
pub data TraceOp : Type 0 where
  alloc_op : ℕ → ℕ → TraceOp
  free_op : ℕ → TraceOp
  realloc_op : ℕ → ℕ → TraceOp

-- The allocator on a heap of type `S`, and bytes in that heap. A null pointer is 0.
pub record Allocator (S : Type 0) : Type 0 where
  pub mem_reset_brk : S → S
  pub mm_init : S → Bool × S
  pub mm_malloc : ℕ → S → ℕ × S
  pub mm_realloc : ℕ → ℕ → S → ℕ × S
  pub mm_free : ℕ → S → S
  pub heap_lo : S → ℕ
  pub heap_hi : S → ℕ
  pub load : S → ℕ → ℕ
  pub memset : ℕ → ℕ → ℕ → S → S

pub record Eval (S : Type 0) : Type 0 where
  pub heap : S
  pub ranges : List Range
  pub blocks : List ℕ
  pub block_sizes : List ℕ

-- The rest of a computation, if there is a value.
unfoldable pub with_value : {A B : Type 0} → Option A → (A → Option B) → Option B
with_value none f = none
with_value (some a) f = f a

module _ {S : Type 0} (mm : Allocator S) where
  -- The end of a request for memory, after `add_range`: the test of the data, `memset` and the
  -- records of the block.
  pub fill_block : ℕ → ℕ → ℕ → (S → Bool) → Eval S → Bool × List Range → Option (Bool × Eval S)
  fill_block index p size data_kept e (false, ranges) = some (false, record e { ranges = ranges })
  fill_block index p size data_kept e (true, ranges) =
      if not (data_kept e.heap)
      then some (false, record e { ranges = ranges })
      else some (
        true,
        record {
          heap = mm.memset p (index % 256) size e.heap;
          ranges = ranges;
          blocks = set e.blocks index p;
          block_sizes = set e.block_sizes index size;
        },
      )

  pub record_block : ℕ → ℕ → ℕ → (S → Bool) → Eval S → Option (Bool × Eval S)
  record_block index p size data_kept e =
      with_value (add_range (mm.heap_lo e.heap) (mm.heap_hi e.heap) e.ranges p size)
        (fill_block index p size data_kept e)

  -- `newp[j] != (index & 0xFF)` for the first `n` bytes; a `char` is compared by its byte.
  pub holds : ℕ → ℕ → ℕ → S → Bool
  holds p byte zero s = true
  holds p byte (suc n) s = holds p byte n s && (mm.load s (p + n) == byte)

  pub realloc_block : ℕ → ℕ → Eval S → ℕ → ℕ → Option (Bool × Eval S)
  realloc_block index size e oldp oldsize =
      let (newp, heap) = mm.mm_realloc oldp size e.heap in
      let kept = if ltb size oldsize then size else oldsize in
      if newp == 0
      then some (false, record e { heap = heap })
      else record_block index newp size (holds newp (index % 256) kept)
          (record e { heap = heap; ranges = remove_range e.ranges oldp })

  -- A round of `eval_mm_valid`: `some (false, _)` is its result 0, `none` a fault.
  pub eval_op : TraceOp → Eval S → Option (Bool × Eval S)
  eval_op (alloc_op index size) e =
      let (p, heap) = mm.mm_malloc size e.heap in
      if p == 0
      then some (false, record e { heap = heap })
      else record_block index p size (λ s. true) (record e { heap = heap })
  eval_op (realloc_op index size) e =
      with_value (get_elem? e.blocks index)
        (λ oldp. with_value (get_elem? e.block_sizes index) (realloc_block index size e oldp))
  eval_op (free_op index) e =
      with_value (get_elem? e.blocks index) (λ p.
        some (true, record e { ranges = remove_range e.ranges p; heap = mm.mm_free p e.heap }))

  -- The loop goes on after the result 1 of a round.
  pub eval_loop : List TraceOp → Eval S → Option (Bool × Eval S)
  eval_loop [] e = some (true, e)
  eval_loop (op ∷ ops) e =
      with_value (eval_op op e)
        (λ r. let rest = eval_loop ops r.1 in if r.0 then rest else some (false, r.1))

  pub eval_mm_valid : List TraceOp → Eval S → Option (Bool × Eval S)
  eval_mm_valid ops e =
      let (ok, heap) = mm.mm_init (mm.mem_reset_brk e.heap) in
      let begin = record e { heap = heap; ranges = clear_ranges e.ranges } in
      let rest = eval_loop ops begin in if ok then rest else some (false, begin)
