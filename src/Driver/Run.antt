-- ===== src/Driver/Run.antt =====
-- mdriver.c with mm_freeList.c: `eval_mm_valid` on a whole trace.
use operating_system_basics.Base.{
  ◌^◌, ℕ, ◌+◌, ◌%◌, ◌≤◌, ◌<◌, ◌≡◌, ◌⊎◌, refl, ap, ◌∙◌, true, false, some, List, [], ◌∷◌, ◌++◌,
  arith, inl, inr, length,
}
use operating_system_basics.Driver.{
  TraceOp, alloc_op, free_op, realloc_op, Allocator, Eval, with_value, eval_op, eval_loop,
  eval_mm_valid,
}
use operating_system_basics.Driver.Pairs.{close}
use operating_system_basics.Driver.Session.{Bytes, free_list, Valid, Between, alloc_step, free_step}
use operating_system_basics.Malloc.{Heap, mem_reset_brk}
use operating_system_basics.Malloc.FreeList.{newsize_of, max, chunksize, mm_init}
use operating_system_basics.Malloc.FreeList.Init.{mm_init-Whole}

-- The run of a trace from `e` comes to a request for which the heap has no room.
pub record Exhausted (mm : Allocator Heap) (ops : List TraceOp) (e : Eval Heap) : Type 0 where
  pub done : List TraceOp
  pub index : ℕ
  pub size : ℕ
  pub rest : List TraceOp
  pub before : Eval Heap
  pub trace : ops ≡ done ++ (alloc_op index size ∷ rest)
  pub reached : eval_loop mm done e ≡ some (true, before)
  pub full : before.heap.mem_max_addr < before.heap.mem_brk + max (newsize_of size) chunksize

eval_loop-next :
    {S : Type 0} (mm : Allocator S) (op : TraceOp) (ops : List TraceOp) (e e' : Eval S)
    → eval_op mm op e ≡ some (true, e')
    → eval_loop mm (op ∷ ops) e ≡ eval_loop mm ops e'
unfolding eval_loop with_value
eval_loop-next mm op ops e e' step = rw step refl

eval_loop-stop :
    {S : Type 0} (mm : Allocator S) (op : TraceOp) (ops : List TraceOp) (e e' : Eval S)
    → eval_op mm op e ≡ some (false, e')
    → eval_loop mm (op ∷ ops) e ≡ some (false, e')
unfolding eval_loop with_value
eval_loop-stop mm op ops e e' step = rw step refl

module _ (bytes : Bytes) (realloc : ℕ → ℕ → Heap → ℕ × Heap) (bottom ids : ℕ)
    (aligned : bottom % 8 ≡ 0) where
  abbrev Ends : List TraceOp → Eval Heap → Type 0
  Ends ops e =
      ((e' : Eval Heap) × (is : List ℕ) × (eval_loop (free_list bytes realloc) ops e
          ≡ some (true, e'))
        × Between bottom ids is e')
      ⊎ ((e' : Eval Heap) × (eval_loop (free_list bytes realloc) ops e ≡ some (false, e'))
          × Exhausted (free_list bytes realloc) ops e)

  Ends-next :
      (op : TraceOp) (ops : List TraceOp) (e e' : Eval Heap)
      → eval_op (free_list bytes realloc) op e ≡ some (true, e')
      → Ends ops e'
      → Ends (op ∷ ops) e
  Ends-next op ops e e' step (inl (last, is, run, b)) =
      inl (last, is, eval_loop-next (free_list bytes realloc) op ops e e' step ∙ run, b)
  Ends-next op ops e e' step (inr (last, run, x)) = inr (
    last,
    eval_loop-next (free_list bytes realloc) op ops e e' step ∙ run,
    record {
      done = op ∷ x.done;
      index = x.index;
      size = x.size;
      rest = x.rest;
      before = x.before;
      trace = ap (λ xs. op ∷ xs) x.trace;
      reached = eval_loop-next (free_list bytes realloc) op x.done e e' step ∙ x.reached;
      full = x.full;
    },
  )

  eval_loop-Ends :
      (ops : List TraceOp) (is : List ℕ) (e : Eval Heap)
      → Between bottom ids is e
      → Valid ids is ops
      → Ends ops e
  unfolding eval_loop
  eval_loop-Ends [] is e b v = inl (e, is, refl, b)
  eval_loop-Ends (alloc_op i size ∷ ops) is e b (index, positive, small, absent, v) =
      elim (alloc_step bytes realloc bottom ids aligned i size is e b index positive small absent) [
        | inl (e', step, b') ↦
            Ends-next (alloc_op i size) ops e e' step (eval_loop-Ends ops (i ∷ is) e' b' v)
        | inr (e', step, full) ↦ inr (
          e',
          eval_loop-stop (free_list bytes realloc) (alloc_op i size) ops e e' step,
          record {
            done = [];
            index = i;
            size = size;
            rest = ops;
            before = e;
            trace = refl;
            reached = refl;
            full = full;
          },
        )
      ]
  eval_loop-Ends (free_op i ∷ ops) is e b (open_at, v) =
      let (e', step, b') = free_step bytes realloc bottom ids aligned i is e b open_at in
      Ends-next (free_op i) ops e e' step (eval_loop-Ends ops (close i is) e' b' v)
  eval_loop-Ends (realloc_op i size ∷ ops) is e b v = elim v [ ]

-- On a trace without `realloc`, which asks for some bytes, fewer than 2^27 - 5000, for an index of
-- `blocks` that is not open, and frees open ones, from an aligned heap with 80 bytes of room that ends 2^27 bytes below the last 32-bit address whose word
-- 40 bytes above its start is 0, where `memset` writes no word outside of its range: `eval_mm_valid`
-- finds no fault with mm_freeList.c. Its `mm_init` gives 0, and the result is 1, or the run comes after
-- the start to a request for which the heap has no room.
pub eval_mm_valid-free_list :
    (bytes : Bytes) (realloc : ℕ → ℕ → Heap → ℕ × Heap) (ops : List TraceOp) (e : Eval Heap)
    → Valid (length e.blocks) [] ops
    → e.heap.mem_start_brk % 8 ≡ 0
    → 0 < e.heap.mem_start_brk
    → e.heap.mem_start_brk + 80 ≤ e.heap.mem_max_addr
    → e.heap.mem_max_addr + 2 ^ 27 < 2 ^ 32
    → e.heap.mem (e.heap.mem_start_brk + 40) ≡ 0
    → (g : Heap) × (mm_init (mem_reset_brk e.heap) ≡ some (true, g))
      × (((e' : Eval Heap) × (eval_mm_valid (free_list bytes realloc) ops e ≡ some (true, e')))
          ⊎ ((e' : Eval Heap) × (eval_mm_valid (free_list bytes realloc) ops e ≡ some (false, e'))
              × Exhausted (free_list bytes realloc) ops (record e { heap = g; ranges = [] })))
unfolding eval_mm_valid mem_reset_brk
eval_mm_valid-free_list bytes realloc ops e valid aligned positive room top blank =
    let mm = free_list bytes realloc in
    let h0 : Heap = record e.heap { mem_brk = e.heap.mem_start_brk } in
    let (g, fl, init, whole) = mm_init-Whole h0 positive (omega arith) room top blank in
    let begin : Eval Heap = record e { heap = g; ranges = [] } in
    let b : Between (e.heap.mem_start_brk + 8) (length e.blocks) [] begin = record {
      tiles = _;
      free = fl;
      whole = whole;
      paired = tt;
      count = refl;
    } in
    let run : eval_mm_valid mm ops e ≡ eval_loop mm ops begin = rw init refl in
    (
      g,
      init,
      elim (eval_loop-Ends bytes realloc (e.heap.mem_start_brk + 8) (length e.blocks) (omega arith)
          ops [] begin b valid) [
            | inl (e', is, loop, after) ↦ inl (e', run ∙ loop)
            | inr (e', loop, x) ↦ inr (e', run ∙ loop, x)
          ],
    )
