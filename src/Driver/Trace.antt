-- ===== src/Driver/Trace.antt =====
-- mdriver.c: `read_trace`, on the bytes of a trace file, and the runs of a trace that check nothing,
-- `eval_mm_speed`, `eval_libc_valid` and `eval_libc_speed`.
pub mod Lines
use operating_system_basics.Base.{
  ℕ, zero, suc, ◌+◌, ◌-◌, ◌*◌, ◌%◌, ◌^◌, ◌≤◌, ◌<◌, ◌≡◌, refl, Bool, true, false, not, ◌&&◌, ◌||◌,
  Option, none, some, List, [], ◌∷◌, ◌++◌, ◌==◌, ltb, leb, if◌then◌else◌, length, set, get_elem?,
  ◌⊎◌, inl, inr,
}
use operating_system_basics.Base.CString.{is_space, is_digit, read_digits}
use operating_system_basics.Driver.{TraceOp, alloc_op, free_op, realloc_op, Allocator}

-- The white space that a conversion skips.
unfoldable pub skip_space : List ℕ → List ℕ
skip_space [] = []
skip_space (c ∷ s) = let rest = skip_space s in if is_space c then rest else c ∷ s

-- What is left after the digits at the front.
unfoldable pub drop_digits : List ℕ → List ℕ
drop_digits [] = []
drop_digits (c ∷ s) = let rest = drop_digits s in if is_digit c then rest else c ∷ s

abbrev pub clamp : ℕ → ℕ
clamp n = if ltb n (2 ^ 32) then n else 2 ^ 32 - 1

-- `%u` after the white space and the sign, and `%d` where its value fits: no value where there is no
-- digit. A value that does not fit 32 bits is the largest one.
unfoldable pub scan_unsigned : Bool → List ℕ → Option ℕ × List ℕ
scan_unsigned negative [] = (none, [])
scan_unsigned negative (c ∷ s) =
    let n = clamp (read_digits 0 (c ∷ s)) in
    if is_digit c
    then (some (if negative then (2 ^ 32 - n) % 2 ^ 32 else n), drop_digits (c ∷ s))
    else (none, c ∷ s)

unfoldable pub scan_sign : List ℕ → Option ℕ × List ℕ
scan_sign [] = (none, [])
scan_sign (c ∷ s) =
    if c == b'-'
    then scan_unsigned true s
    else if c == b'+'
    then scan_unsigned false s
    else scan_unsigned false (c ∷ s)

unfoldable pub scan_number : List ℕ → Option ℕ × List ℕ
scan_number s = scan_sign (skip_space s)

-- The bytes of a word, and the rest.
unfoldable pub take_word : List ℕ → List ℕ × List ℕ
take_word [] = ([], [])
take_word (c ∷ s) =
    let rest = take_word s in if is_space c then ([], c ∷ s) else (c ∷ rest.0, rest.1)

-- The variable after a conversion: it keeps its value where nothing is stored.
abbrev pub store_to : ℕ → Option ℕ → ℕ
store_to old none = old
store_to old (some n) = n

-- `trace_t` while it is read, and the variables of `read_trace`.
pub record Reader : Type 0 where
  pub num_ids : ℕ
  pub num_ops : ℕ
  pub ops : List TraceOp
  pub index : ℕ
  pub size : ℕ
  pub max_index : ℕ

-- `bogus`: the exit for an unknown type. `overrun`: a store past the end of `ops`. `failed`: an assertion.
pub data Loaded : Type 0 where
  loaded : Reader → Loaded
  bogus : ℕ → Loaded
  overrun : Loaded
  failed : Loaded
  not_ended : Loaded

-- `%u %u` into `index` and `size`: the second conversion is tried only after the first.
abbrev pub store_two : Option ℕ × List ℕ → Option ℕ × List ℕ → Reader → Reader × List ℕ
store_two (none, s1) second r = (r, s1)
store_two (some i, s1) (size, s2) r = (record r { index = i; size = store_to r.size size }, s2)

unfoldable pub scan_two : List ℕ → Reader → Reader × List ℕ
scan_two s r = store_two (scan_number s) (scan_number (scan_number s).1) r

abbrev pub larger : ℕ → ℕ → ℕ
larger index max_index = if ltb max_index index then index else max_index

-- `%ud` is `%u` and the letter d, which stays where it does not come next.
unfoldable pub skip_letter : Option ℕ → List ℕ → List ℕ
skip_letter none s = s
skip_letter (some n) [] = []
skip_letter (some n) (c ∷ s) = if c == b'd' then s else c ∷ s

-- The request of a line; none for an unknown type.
unfoldable pub read_op : ℕ → List ℕ → Reader → Option (Reader × List ℕ)
read_op type s r =
    let (two, s2) = scan_two s r in
    let (one, s1) = scan_number s in
    let index = store_to r.index one in
    if type == b'a'
    then some (
      record two {
        ops = r.ops ++ (alloc_op two.index two.size ∷ []);
        max_index = larger two.index r.max_index;
      },
      s2,
    )
    else if type == b'r'
    then some (
      record two {
        ops = r.ops ++ (realloc_op two.index two.size ∷ []);
        max_index = larger two.index r.max_index;
      },
      s2,
    )
    else if type == b'f'
    then some (record r { ops = r.ops ++ (free_op index ∷ []); index = index }, skip_letter one s1)
    else none

-- The assertions at the end.
unfoldable pub finish : Reader → Loaded
finish r =
    if (r.max_index == (r.num_ids + 2 ^ 32 - 1) % 2 ^ 32) && (r.num_ops == length r.ops)
    then loaded r
    else failed

-- A request is stored at the next place of `ops`.
unfoldable pub store_op : ℕ → Reader → Option (Reader × List ℕ) → Loaded ⊎ (Reader × List ℕ)
store_op type r none = inl (bogus type)
store_op type r (some (after, s)) =
    if ltb (length r.ops) r.num_ops then inr (after, s) else inl overrun

-- A round of the `while` of `read_trace`, after the white space before a word.
unfoldable pub read_round : List ℕ → Reader → Loaded ⊎ (Reader × List ℕ)
read_round [] r = inl (finish r)
read_round (type ∷ s) r = store_op type r (read_op type (take_word (type ∷ s)).1 r)

-- The `while` on fuel.
unfoldable pub read_loop : ℕ → List ℕ → Reader → Loaded
read_loop zero s r = not_ended
read_loop (suc fuel) s r = elim (read_round (skip_space s) r) [
  | inl result ↦ result
  | inr (after, rest) ↦ read_loop fuel rest after
]

-- The four numbers at the start, into variables that hold what `malloc` left there.
unfoldable pub read_trace : ℕ → Reader → List ℕ → Loaded
read_trace fuel fresh s =
    let (sugg_heapsize, s1) = scan_number s in
    let (num_ids, s2) = scan_number s1 in
    let (num_ops, s3) = scan_number s2 in
    let (weight, s4) = scan_number s3 in
    read_loop fuel s4 (record fresh {
      num_ids = store_to fresh.num_ids num_ids;
      num_ops = store_to fresh.num_ops num_ops;
      ops = [];
      index = 0;
      max_index = 0;
    })

-- The C library's allocator on a state of type `S`. A null pointer is 0.
pub record Libc (S : Type 0) : Type 0 where
  pub malloc : ℕ → S → ℕ × S
  pub realloc : ℕ → ℕ → S → ℕ × S
  pub free : ℕ → S → S

-- The block of a request is stored in `blocks`: none is the exit for a null pointer, or a store outside.
abbrev keep_block : {S : Type 0} → ℕ → ℕ → List ℕ → S → Option (List ℕ × S)
keep_block index p blocks s =
    if p == 0
    then none
    else if ltb index (length blocks)
    then some (set blocks index p, s)
    else none

module _ {S : Type 0} (libc : Libc S) where
  -- A round of `eval_libc_valid`: none is an exit, or a fault outside of `blocks`.
  unfoldable pub libc_op : TraceOp → List ℕ → S → Option (List ℕ × S)
  libc_op (alloc_op index size) blocks s =
      let (p, s1) = libc.malloc size s in keep_block index p blocks s1
  libc_op (realloc_op index size) blocks s = elim (get_elem? blocks index) [
    | none ↦ none
    | some oldp ↦ let (p, s1) = libc.realloc oldp size s in keep_block index p blocks s1
  ]
  libc_op (free_op index) blocks s = elim (get_elem? blocks index) [
    | none ↦ none
    | some p ↦ some (blocks, libc.free p s)
  ]

  unfoldable pub eval_libc_valid : List TraceOp → List ℕ → S → Option (ℕ × S)
  eval_libc_valid [] blocks s = some (1, s)
  eval_libc_valid (op ∷ ops) blocks s = elim (libc_op op blocks s) [
    | none ↦ none
    | some (blocks', s1) ↦ eval_libc_valid ops blocks' s1
  ]

  unfoldable pub eval_libc_speed : List TraceOp → List ℕ → S → Option (List ℕ × S)
  eval_libc_speed [] blocks s = some (blocks, s)
  eval_libc_speed (op ∷ ops) blocks s = elim (libc_op op blocks s) [
    | none ↦ none
    | some (blocks', s1) ↦ eval_libc_speed ops blocks' s1
  ]

module _ {S : Type 0} (mm : Allocator S) where
  -- A round of `eval_mm_speed`: none is an exit, or a fault outside of `blocks`.
  unfoldable pub speed_op : TraceOp → List ℕ → S → Option (List ℕ × S)
  speed_op (alloc_op index size) blocks s =
      let (p, s1) = mm.mm_malloc size s in keep_block index p blocks s1
  speed_op (realloc_op index size) blocks s = elim (get_elem? blocks index) [
    | none ↦ none
    | some oldp ↦ let (p, s1) = mm.mm_realloc oldp size s in keep_block index p blocks s1
  ]
  speed_op (free_op index) blocks s = elim (get_elem? blocks index) [
    | none ↦ none
    | some p ↦ some (blocks, mm.mm_free p s)
  ]

  unfoldable pub speed_loop : List TraceOp → List ℕ → S → Option (List ℕ × S)
  speed_loop [] blocks s = some (blocks, s)
  speed_loop (op ∷ ops) blocks s = elim (speed_op op blocks s) [
    | none ↦ none
    | some (blocks', s1) ↦ speed_loop ops blocks' s1
  ]

  unfoldable pub eval_mm_speed : List TraceOp → List ℕ → S → Option (List ℕ × S)
  eval_mm_speed ops blocks s =
      let (ok, s1) = mm.mm_init (mm.mem_reset_brk s) in
      let rest = speed_loop ops blocks s1 in if ok then rest else none
