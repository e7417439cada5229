-- ===== src/Driver/Trace/Lines.antt =====
-- mdriver.c: what `read_trace` makes of a trace file that has a request on each line.
use mathlib.Core.List.{append_assoc, append-nil}
use operating_system_basics.Base.{
  ℕ, zero, suc, ◌+◌, ◌-◌, ◌*◌, ◌%◌, ◌^◌, ◌≤◌, ◌<◌, ◌≡◌, refl, sym, ap, ◌∙◌, true, false, some, List,
  [], ◌∷◌, ◌++◌, ◌==◌, ltb, length, All, arith, inr, length-append, ==_iff,
}
use operating_system_basics.Base.CString.{is_space, is_digit, read_digits}
use operating_system_basics.Driver.{TraceOp, alloc_op, free_op, realloc_op}
use operating_system_basics.Driver.Trace.{
  skip_space, drop_digits, clamp, scan_unsigned, scan_sign, scan_number, take_word, Reader, loaded,
  scan_two, larger, skip_letter, read_op, finish, store_op, read_round, read_loop, read_trace,
}

-- A decimal number.
pub record Number : Type 0 where
  pub first : ℕ
  pub others : List ℕ
  pub is_number : (is_digit first ≡ true) × All (λ c. is_digit c ≡ true) others

abbrev pub value : Number → ℕ
value n = clamp (read_digits 0 (n.first ∷ n.others))

-- The number before a text.
abbrev pub before : Number → List ℕ → List ℕ
before n s = n.first ∷ (n.others ++ s)

-- The lines of a trace file.
pub data Line : Type 0 where
  alloc_line : Number → Number → Line
  realloc_line : Number → Number → Line
  free_line : Number → Line

abbrev pub line_before : Line → List ℕ → List ℕ
line_before (alloc_line i n) s = b'a' ∷ b' ' ∷ before i (b' ' ∷ before n s)
line_before (realloc_line i n) s = b'r' ∷ b' ' ∷ before i (b' ' ∷ before n s)
line_before (free_line i) s = b'f' ∷ b' ' ∷ before i s

abbrev pub lines_text : List Line → List ℕ
lines_text [] = b'\n' ∷ []
lines_text (l ∷ ls) = b'\n' ∷ line_before l (lines_text ls)

abbrev pub trace_text : Number → Number → Number → Number → List Line → List ℕ
trace_text heapsize ids ops weight ls =
    before heapsize
      (b'\n' ∷ before ids (b'\n' ∷ before ops (b'\n' ∷ before weight (lines_text ls))))

abbrev pub op_of : Line → TraceOp
op_of (alloc_line i n) = alloc_op (value i) (value n)
op_of (realloc_line i n) = realloc_op (value i) (value n)
op_of (free_line i) = free_op (value i)

abbrev pub ops_of : List Line → List TraceOp
ops_of [] = []
ops_of (l ∷ ls) = op_of l ∷ ops_of ls

-- The highest index that is allocated, or `m`.
abbrev pub top_index : ℕ → List Line → ℕ
top_index m [] = m
top_index m (alloc_line i n ∷ ls) = top_index (larger (value i) m) ls
top_index m (realloc_line i n ∷ ls) = top_index (larger (value i) m) ls
top_index m (free_line i ∷ ls) = top_index m ls

read_digits-append :
    (n c : ℕ) (ds s : List ℕ)
    → All (λ d. is_digit d ≡ true) ds
    → is_digit c ≡ false
    → read_digits n (ds ++ (c ∷ s)) ≡ read_digits n ds
unfolding read_digits
read_digits-append n c [] s h e = rw e refl
read_digits-append n c (d ∷ ds) s (k, h) e =
    rw k (read_digits-append (n * 10 + (d - b'0')) c ds s h e)

drop_digits-append :
    (c : ℕ) (ds s : List ℕ)
    → All (λ d. is_digit d ≡ true) ds
    → is_digit c ≡ false
    → drop_digits (ds ++ (c ∷ s)) ≡ c ∷ s
unfolding drop_digits
drop_digits-append c [] s h e = rw e refl
drop_digits-append c (d ∷ ds) s (k, h) e = rw k (drop_digits-append c ds s h e)

is_digit-is_space : (c : ℕ) → is_digit c ≡ true → is_space c ≡ false
is_digit-is_space c h = ground arith

sign_of_digit : (c : ℕ) → is_digit c ≡ true → ((c == b'-') ≡ false) × ((c == b'+') ≡ false)
sign_of_digit c h = (ground arith, ground arith)

scan_number-before :
    (n : Number) (c : ℕ) (s : List ℕ)
    → is_digit c ≡ false
    → scan_number (before n (c ∷ s)) ≡ (some (value n), c ∷ s)
unfolding scan_number skip_space scan_sign scan_unsigned
scan_number-before n c s e =
    let (digit, digits) = n.is_number in
    let space = is_digit-is_space n.first digit in
    let (minus, plus) = sign_of_digit n.first digit in
    let all : All (λ d. is_digit d ≡ true) (n.first ∷ n.others) = (digit, digits) in
    rw
      (
        space,
        minus,
        plus,
        digit,
        read_digits-append 0 c (n.first ∷ n.others) s all e,
        drop_digits-append c (n.first ∷ n.others) s all e,
      )
      refl

-- After a blank or a newline.
scan_number_blank :
    (b : ℕ) (n : Number) (c : ℕ) (s : List ℕ)
    → is_space b ≡ true
    → is_digit c ≡ false
    → scan_number (b ∷ before n (c ∷ s)) ≡ (some (value n), c ∷ s)
unfolding scan_number skip_space
scan_number_blank b n c s k e = rw k (scan_number-before n c s e)

-- What a line does to the reader.
abbrev after_line : Line → Reader → Reader
after_line (alloc_line i n) r = record r {
  ops = r.ops ++ (alloc_op (value i) (value n) ∷ []);
  index = value i;
  size = value n;
  max_index = larger (value i) r.max_index;
}
after_line (realloc_line i n) r = record r {
  ops = r.ops ++ (realloc_op (value i) (value n) ∷ []);
  index = value i;
  size = value n;
  max_index = larger (value i) r.max_index;
}
after_line (free_line i) r = record r { ops = r.ops ++ (free_op (value i) ∷ []); index = value i }

scan_two-before :
    (i n : Number) (s : List ℕ) (r : Reader)
    → scan_two (b' ' ∷ before i (b' ' ∷ before n (b'\n' ∷ s))) r
      ≡ (record r { index = value i; size = value n }, b'\n' ∷ s)
unfolding scan_two
scan_two-before i n s r =
    rw
      (
        scan_number_blank b' ' i b' ' (before n (b'\n' ∷ s)) refl refl,
        scan_number_blank b' ' n b'\n' s refl refl,
      )
      refl

read_op-line :
    (l : Line) (s : List ℕ) (r : Reader)
    → (type : ℕ) × (rest : List ℕ) × (line_before l (b'\n' ∷ s) ≡ type ∷ rest)
      × (is_space type ≡ false)
      × (read_op type (take_word (type ∷ rest)).1 r ≡ some (after_line l r, b'\n' ∷ s))
unfolding read_op take_word skip_letter
read_op-line (alloc_line i n) s r = (
  b'a',
  b' ' ∷ before i (b' ' ∷ before n (b'\n' ∷ s)),
  refl,
  refl,
  rw (scan_two-before i n s r) refl,
)
read_op-line (realloc_line i n) s r = (
  b'r',
  b' ' ∷ before i (b' ' ∷ before n (b'\n' ∷ s)),
  refl,
  refl,
  rw (scan_two-before i n s r) refl,
)
read_op-line (free_line i) s r = (
  b'f',
  b' ' ∷ before i (b'\n' ∷ s),
  refl,
  refl,
  rw (scan_number_blank b' ' i b'\n' s refl refl) refl,
)

-- The text after a line starts with a newline.
read_round-line :
    (l : Line) (s : List ℕ) (r : Reader)
    → length r.ops < r.num_ops
    → read_round (skip_space (b'\n' ∷ line_before l (b'\n' ∷ s))) r
      ≡ inr (after_line l r, b'\n' ∷ s)
unfolding skip_space read_round store_op
read_round-line l s r room =
    let fits : ltb (length r.ops) r.num_ops ≡ true = ground arith in
    let (type, rest, text, letter, op) = read_op-line l s r in rw (text, letter, op, fits) refl

abbrev after_lines : List Line → Reader → Reader
after_lines [] r = r
after_lines (l ∷ ls) r = after_lines ls (after_line l r)

lines_text-newline : (ls : List Line) → (s : List ℕ) × (lines_text ls ≡ b'\n' ∷ s)
lines_text-newline [] = ([], refl)
lines_text-newline (l ∷ ls) = (line_before l (lines_text ls), refl)

ops_after : (l : Line) (r : Reader) → (after_line l r).ops ≡ r.ops ++ (op_of l ∷ [])
ops_after (alloc_line i n) r = refl
ops_after (realloc_line i n) r = refl
ops_after (free_line i) r = refl

kept_after :
    (l : Line) (r : Reader)
    → ((after_line l r).num_ids ≡ r.num_ids) × ((after_line l r).num_ops ≡ r.num_ops)
kept_after (alloc_line i n) r = (refl, refl)
kept_after (realloc_line i n) r = (refl, refl)
kept_after (free_line i) r = (refl, refl)

top_after :
    (l : Line) (ls : List Line) (r : Reader)
    → top_index (after_line l r).max_index ls ≡ top_index r.max_index (l ∷ ls)
top_after (alloc_line i n) ls r = refl
top_after (realloc_line i n) ls r = refl
top_after (free_line i) ls r = refl

read_loop-round :
    (fuel : ℕ) (s rest : List ℕ) (r after : Reader)
    → read_round (skip_space s) r ≡ inr (after, rest)
    → read_loop (suc fuel) s r ≡ read_loop fuel rest after
unfolding read_loop
read_loop-round fuel s rest r after e = rw (e, read_loop) refl

read_loop-lines :
    (ls : List Line) (fuel : ℕ) (r : Reader)
    → length ls < fuel
    → length r.ops + length ls ≤ r.num_ops
    → read_loop fuel (lines_text ls) r ≡ finish (after_lines ls r)
unfolding read_loop skip_space read_round
read_loop-lines ls zero r enough room = absurd (omega arith)
read_loop-lines [] (suc fuel) r enough room = refl
read_loop-lines (l ∷ ls) (suc fuel) r enough room =
    let (s, newline) = lines_text-newline ls in
    let next = read_round-line l s r (omega arith) in
    let (ids, ops) = kept_after l r in
    let longer : length (after_line l r).ops ≡ length r.ops + 1 =
      ap length (ops_after l r) ∙ length-append r.ops (op_of l ∷ []) in
    let rest = read_loop-lines ls fuel (after_line l r) (omega arith) (omega arith) in
    ap (λ t. read_loop (suc fuel) (b'\n' ∷ line_before l t) r) newline
    ∙ read_loop-round fuel (b'\n' ∷ line_before l (b'\n' ∷ s)) (b'\n' ∷ s) r (after_line l r) next
    ∙ ap (λ t. read_loop fuel t (after_line l r)) (sym newline)
    ∙ rest

fields_after :
    (ls : List Line) (r : Reader)
    → ((after_lines ls r).ops ≡ r.ops ++ ops_of ls)
      × ((after_lines ls r).max_index ≡ top_index r.max_index ls)
      × ((after_lines ls r).num_ids ≡ r.num_ids)
      × ((after_lines ls r).num_ops ≡ r.num_ops)
fields_after [] r = (sym (append-nil r.ops), refl, refl, refl)
fields_after (l ∷ ls) r =
    let (ops, top, ids, num) = fields_after ls (after_line l r) in
    let (ids1, num1) = kept_after l r in
    (
      ops
          ∙ ap (λ x. x ++ ops_of ls) (ops_after l r)
          ∙ append_assoc r.ops (op_of l ∷ []) (ops_of ls),
      top ∙ top_after l ls r,
      ids ∙ ids1,
      num ∙ num1,
    )

length-ops_of : (ls : List Line) → length (ops_of ls) ≡ length ls
length-ops_of [] = refl
length-ops_of (l ∷ ls) = let rest = length-ops_of ls in omega arith

clamp_small : (n : ℕ) → clamp n < 2 ^ 32
clamp_small n = ground arith

finish-loaded :
    (r : Reader)
    → r.max_index ≡ (r.num_ids + 2 ^ 32 - 1) % 2 ^ 32
    → r.num_ops ≡ length r.ops
    → finish r ≡ loaded r
unfolding finish
finish-loaded r e f =
    let a : (r.max_index == (r.num_ids + 2 ^ 32 - 1) % 2 ^ 32) ≡ true =
      (==_iff r.max_index ((r.num_ids + 2 ^ 32 - 1) % 2 ^ 32)).1 e in
    let b : (r.num_ops == length r.ops) ≡ true = (==_iff r.num_ops (length r.ops)).1 f in
    rw (a, b) refl

-- A trace file with a request on each line, where the third number is the number of the lines and the
-- second one is one more than the highest index that is allocated: with more fuel than lines
-- `read_trace` ends, and has the requests of the lines, in order.
pub read_trace-lines :
    (fuel : ℕ) (fresh : Reader) (heapsize ids ops weight : Number) (ls : List Line)
    → length ls < fuel
    → value ops ≡ length ls
    → value ids ≡ top_index 0 ls + 1
    → (r : Reader) × (read_trace fuel fresh (trace_text heapsize ids ops weight ls) ≡ loaded r)
      × (r.ops ≡ ops_of ls)
      × (r.num_ids ≡ value ids)
      × (r.num_ops ≡ value ops)
unfolding read_trace
read_trace-lines fuel fresh heapsize ids ops weight ls enough count top =
    let start : Reader = record fresh {
      num_ids = value ids;
      num_ops = value ops;
      ops = [];
      index = 0;
      max_index = 0;
    } in
    let (s, newline) = lines_text-newline ls in
    let (made, highest, same_ids, same_num) = fields_after ls start in
    let text =
      before heapsize
        (b'\n' ∷ before ids (b'\n' ∷ before ops (b'\n' ∷ before weight (b'\n' ∷ s)))) in
    let n1 =
      scan_number-before heapsize b'\n'
        (before ids (b'\n' ∷ before ops (b'\n' ∷ before weight (b'\n' ∷ s)))) refl in
    let n2 =
      scan_number_blank b'\n' ids b'\n' (before ops (b'\n' ∷ before weight (b'\n' ∷ s))) refl
        refl in
    let n3 = scan_number_blank b'\n' ops b'\n' (before weight (b'\n' ∷ s)) refl refl in
    let n4 = scan_number_blank b'\n' weight b'\n' s refl refl in
    let run : read_trace fuel fresh text ≡ read_loop fuel (b'\n' ∷ s) start =
      rw (n1, n2, n3, n4) refl in
    let loop = read_loop-lines ls fuel start enough (omega arith) in
    let end = after_lines ls start in
    let small = clamp_small (read_digits 0 (ids.first ∷ ids.others)) in
    let last : end.max_index ≡ (end.num_ids + 2 ^ 32 - 1) % 2 ^ 32 = omega arith in
    let all : end.num_ops ≡ length end.ops =
      same_num ∙ count ∙ sym (length-ops_of ls) ∙ ap length (sym made) in
    (
      end,
      ap
            (λ t.
              read_trace fuel fresh (
                before heapsize
                  (b'\n' ∷ before ids (b'\n' ∷ before ops (b'\n' ∷ before weight t)))))
            newline
          ∙ run
          ∙ ap (λ t. read_loop fuel t start) (sym newline)
          ∙ loop
          ∙ finish-loaded end last all,
      made,
      same_ids,
      same_num,
    )
