-- ===== src/Driver/Tests.antt =====
-- Runs of the checks of "Efficient Mallocs"/mdriver.c, with an allocator that never uses a block twice.
use operating_system_basics.Base.{
  ℕ, ℤ, pos, ◌+ℤ◌, ◌-ℤ◌, ◌+◌, ◌*◌, ◌/◌, ◌-◌, ◌≤◌, ◌≡◌, ◌⊎◌, refl, Bool, true, false, some, inl, inr,
  if◌then◌else◌, leb, ltb, ◌&&◌, List, [], ◌∷◌, arith,
}
use operating_system_basics.Base.CString.{read_digits}
use operating_system_basics.Driver.{
  Range, any_overlap, add_range, remove_range, TraceOp, alloc_op, free_op, realloc_op, Allocator,
  Eval, with_value, fill_block, record_block, holds, realloc_block, eval_op, eval_loop,
  eval_mm_valid,
}
use operating_system_basics.Driver.Ranges.{Checked, Answer, add_range-Answer, add_range-inside}
use operating_system_basics.Driver.Util.{Util, util_op, util_loop, eval_mm_util}
use operating_system_basics.Driver.Peak.{peak, eval_mm_util-peak}
use operating_system_basics.Driver.Trace.{
  Reader, loaded, read_trace, Libc, eval_libc_valid, libc_op,
}
use operating_system_basics.Driver.Trace.Lines.{
  Number, Line, alloc_line, free_line, trace_text, read_trace-lines,
}
use operating_system_basics.Driver.Pairs.{close}
use operating_system_basics.Driver.Session.{Bytes, free_list, Valid}
use operating_system_basics.Driver.Run.{Exhausted, eval_mm_valid-free_list}
use operating_system_basics.Malloc.{Heap, mem_reset_brk}
use operating_system_basics.Malloc.FreeList.{mm_init}
use operating_system_basics.Malloc.FreeList.Tests.{blank}
use operating_system_basics.Driver.Valid.{eval_mm_valid-Checked}

-- The heap is the address of its next byte; every byte reads as 1.
abbrev bump : Allocator ℕ
bump = record {
  mem_reset_brk = λ s. 16;
  mm_init = λ s. (true, s);
  mm_malloc = λ n s. (s, s + (n + 7) / 8 * 8);
  mm_realloc = λ p n s. (s, s + (n + 7) / 8 * 8);
  mm_free = λ p s. s;
  heap_lo = λ s. 16;
  heap_hi = λ s. s - 1;
  load = λ s p. 1;
  memset = λ p v n s. s;
}

abbrev begin : Eval ℕ
begin = record { heap = 0; ranges = []; blocks = 0 ∷ 0 ∷ []; block_sizes = 0 ∷ 0 ∷ [] }

abbrev trace : List TraceOp
trace = alloc_op 0 10 ∷ alloc_op 1 8 ∷ realloc_op 1 20 ∷ free_op 0 ∷ []

abbrev finished : Eval ℕ
finished = record {
  heap = 64;
  ranges = record { lo = 40; hi = 59 } ∷ [];
  blocks = 16 ∷ 40 ∷ [];
  block_sizes = 10 ∷ 20 ∷ [];
}

trace_run : eval_mm_valid bump trace begin ≡ some (true, finished)
unfolding eval_mm_valid eval_loop eval_op with_value record_block fill_block realloc_block holds
    add_range any_overlap remove_range
trace_run = refl

eval_mm_valid-Checked_example : Checked (record { lo = 40; hi = 59 } ∷ [])
eval_mm_valid-Checked_example = eval_mm_valid-Checked bump trace begin true finished trace_run

add_range-Answer_example :
    (ok : Bool) × (after : List Range) × (add_range 16 99 (record { lo = 16; hi = 31 } ∷ []) 24 8
      ≡ some (ok, after))
    × Answer 16 99 (record { lo = 16; hi = 31 } ∷ []) 24 8 ok after
add_range-Answer_example =
    add_range-Answer 16 99 (record { lo = 16; hi = 31 } ∷ []) 24 8 (omega arith)

add_range-inside_example :
    add_range 16 99 (record { lo = 24; hi = 31 } ∷ []) 16 40
    ≡ some (true, record { lo = 16; hi = 55 } ∷ record { lo = 24; hi = 31 } ∷ [])
add_range-inside_example =
    add_range-inside 16 99 (record { lo = 24; hi = 31 } ∷ []) 16 40 (omega arith) refl (omega arith)
      (omega arith) ((omega arith, omega arith), tt)

abbrev measured : Util ℕ
measured = record {
  heap = 64;
  blocks = 16 ∷ 40 ∷ [];
  block_sizes = 10 ∷ 20 ∷ [];
  total_size = pos 20;
  max_total_size = pos 30;
}

measured_run : eval_mm_util bump trace (0 ∷ 0 ∷ []) (0 ∷ 0 ∷ []) 0 ≡ some measured
unfolding eval_mm_util util_loop util_op with_value ◌+ℤ◌ ◌-ℤ◌
measured_run = refl

eval_mm_util-peak_example : ◌≡◌ {A = ℤ} (pos 30) (pos (peak 0 [] trace))
eval_mm_util-peak_example =
    eval_mm_util-peak bump trace (0 ∷ 0 ∷ []) (0 ∷ 0 ∷ []) 0 measured
      (
        omega arith,
        tt,
        (
          omega arith,
          ((λ e. absurd (omega (arith, e))), tt),
          (omega arith, inl refl, (inr (inl refl), tt)),
        ),
      )
      measured_run

-- The trace file with the lines 20000, 1, 2, 1, a 0 512 and f 0.
abbrev zero_digit : Number
zero_digit = record { first = b'0'; others = []; is_number = (refl, tt) }

abbrev one_digit : Number
one_digit = record { first = b'1'; others = []; is_number = (refl, tt) }

abbrev two_digit : Number
two_digit = record { first = b'2'; others = []; is_number = (refl, tt) }

abbrev number_512 : Number
number_512 = record {
  first = b'5';
  others = b'1' ∷ b'2' ∷ [];
  is_number = (refl, (refl, (refl, tt)));
}

abbrev short_trace : List Line
short_trace = alloc_line zero_digit number_512 ∷ free_line zero_digit ∷ []

abbrev unread : Reader
unread = record { num_ids = 7; num_ops = 7; ops = []; index = 7; size = 7; max_index = 7 }

read_trace-lines_example :
    (r : Reader) × (read_trace 3 unread
        (trace_text number_512 one_digit two_digit one_digit short_trace)
      ≡ loaded r)
    × (r.ops ≡ alloc_op 0 512 ∷ free_op 0 ∷ [])
    × (r.num_ids ≡ 1)
    × (r.num_ops ≡ 2)
unfolding read_digits
read_trace-lines_example =
    read_trace-lines 3 unread number_512 one_digit two_digit one_digit short_trace (omega arith)
      refl refl

-- A library whose state is the address of the next block.
abbrev bump_libc : Libc ℕ
bump_libc = record { malloc = λ n s. (s, s + n); realloc = λ p n s. (s, s + n); free = λ p s. s }

eval_libc_valid_run :
    eval_libc_valid bump_libc (alloc_op 0 8 ∷ realloc_op 0 16 ∷ free_op 0 ∷ []) (0 ∷ []) 64
    ≡ some (1, 88)
unfolding eval_libc_valid libc_op
eval_libc_valid_run = refl

unset :
    (r p v n : ℕ) (h : Heap)
    → (r + 4 ≤ p) ⊎ (p + n ≤ r)
    → (if leb p r && ltb r (p + n) then v else h.mem r) ≡ h.mem r
unset r p v n h (inl x) = ground arith
unset r p v n h (inr x) = ground arith

-- `memset` on the words in the range.
abbrev word_bytes : Bytes
word_bytes = record {
  load = λ h p. h.mem p;
  memset = λ p v n h. record h { mem = λ r. if leb p r && ltb r (p + n) then v else h.mem r };
  memset-elsewhere = λ p v n h. ((refl, refl, refl, refl), refl, λ r k. unset r p v n h k);
}

abbrev no_realloc : ℕ → ℕ → Heap → ℕ × Heap
no_realloc p n h = (0, h)

abbrev fresh_eval : Eval Heap
fresh_eval = record { heap = blank; ranges = []; blocks = 0 ∷ 0 ∷ []; block_sizes = 0 ∷ 0 ∷ [] }

abbrev five_ops : List TraceOp
five_ops = alloc_op 0 20 ∷ alloc_op 1 100 ∷ free_op 0 ∷ alloc_op 0 512 ∷ free_op 1 ∷ []

five_ops-Valid : Valid 2 [] five_ops
unfolding close
five_ops-Valid = (
  omega arith,
  omega arith,
  omega arith,
  tt,
  (
    omega arith,
    omega arith,
    omega arith,
    ((λ e. absurd (omega arith)), tt),
    (
      inr (inl refl),
      (
        omega arith,
        omega arith,
        omega arith,
        ((λ e. absurd (omega arith)), tt),
        (inr (inl refl), tt),
      ),
    ),
  ),
)

eval_mm_valid-free_list_example :
    (g : Heap) × (mm_init blank ≡ some (true, g))
    × (((e' : Eval Heap) × (eval_mm_valid (free_list word_bytes no_realloc) five_ops fresh_eval
            ≡ some (true, e')))
        ⊎ ((e' : Eval Heap) × (eval_mm_valid (free_list word_bytes no_realloc) five_ops fresh_eval
              ≡ some (false, e'))
            × Exhausted
                (free_list word_bytes no_realloc)
                five_ops
                (record fresh_eval { heap = g; ranges = [] })))
unfolding mem_reset_brk
eval_mm_valid-free_list_example =
    eval_mm_valid-free_list word_bytes no_realloc five_ops fresh_eval five_ops-Valid refl
      (omega arith) (omega arith) (omega arith) refl
