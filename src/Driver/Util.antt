-- ===== src/Driver/Util.antt =====
-- mdriver.c: `eval_mm_util` keeps the total of the payloads and its highest value.

use operating_system_basics.Base.{
  ℕ, Option, none, some, List, [], ◌∷◌, ◌==◌, if◌then◌else◌, set, get_elem?, ℤ, pos, ◌+ℤ◌, ◌-ℤ◌,
  ltb_ℤ,
}
use operating_system_basics.Driver.{TraceOp, alloc_op, free_op, realloc_op, Allocator, with_value}

pub record Util (S : Type 0) : Type 0 where
  pub heap : S
  pub blocks : List ℕ
  pub block_sizes : List ℕ
  pub total_size : ℤ
  pub max_total_size : ℤ

-- `(total_size > max_total_size) ? total_size : max_total_size`
abbrev pub higher : ℤ → ℤ → ℤ
higher total top = if ltb_ℤ top total then total else top

module _ {S : Type 0} (mm : Allocator S) where
  -- The records of a block, and of the total after it.
  abbrev pub count_block : ℕ → ℕ → ℕ → S → ℤ → Util S → Util S
  count_block index p size heap total u = record {
    heap = heap;
    blocks = set u.blocks index p;
    block_sizes = set u.block_sizes index size;
    total_size = total;
    max_total_size = higher total u.max_total_size;
  }

  -- A round of `eval_mm_util`; `none` is the end of the program by `app_error`, or a fault.
  unfoldable pub util_op : TraceOp → Util S → Option (Util S)
  util_op (alloc_op index size) u =
      let (p, heap) = mm.mm_malloc size u.heap in
      if p == 0 then none else some (count_block index p size heap (u.total_size +ℤ pos size) u)
  util_op (realloc_op index newsize) u = with_value (get_elem? u.block_sizes index) (λ oldsize.
      with_value (get_elem? u.blocks index) (λ oldp.
        let (newp, heap) = mm.mm_realloc oldp newsize u.heap in
        if newp == 0
        then none
        else some
            (count_block index newp newsize heap (u.total_size +ℤ (pos newsize -ℤ pos oldsize)) u)))
  util_op (free_op index) u = with_value (get_elem? u.block_sizes index) (λ size.
      with_value (get_elem? u.blocks index) (λ p.
        some (record u { heap = mm.mm_free p u.heap; total_size = u.total_size -ℤ pos size })))

  unfoldable pub util_loop : List TraceOp → Util S → Option (Util S)
  util_loop [] u = some u
  util_loop (op ∷ ops) u = with_value (util_op op u) (util_loop ops)

  -- `eval_mm_util` up to the quotient of its last line.
  unfoldable pub eval_mm_util : List TraceOp → List ℕ → List ℕ → S → Option (Util S)
  eval_mm_util ops blocks block_sizes s =
      let (ok, heap) = mm.mm_init (mm.mem_reset_brk s) in
      let run = util_loop ops (record {
        heap = heap;
        blocks = blocks;
        block_sizes = block_sizes;
        total_size = pos 0;
        max_total_size = pos 0;
      }) in
      if ok then run else none
