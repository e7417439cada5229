-- ===== src/Grep.antt =====
-- MCGrep/mcgrep.c: the input is cut into chunks (`parse`), a thread searches each (`grep`), and the
-- results are joined (`wrapToFile`, `wrapToStdout`). The children prove what these do.
pub mod Chunks
pub mod Lines
pub mod Search
pub mod Threads
pub mod Joined
mod Tests
use operating_system_basics.Base.{
  ℕ, zero, suc, ◌+◌, ◌-◌, ◌*◌, ◌/◌, ◌%◌, ◌^◌, Bool, true, false, not, ◌&&◌, Option, none, some,
  List, [], ◌∷◌, ◌++◌, ◌==◌, ltb, leb, if◌then◌else◌, length, take, drop,
}

-- The options of `main`: the character, and its replacement if the two differ.
pub record Options : Type 0 where
  pub find_char : ℕ
  pub replace_with : ℕ
  pub replace_flag : Bool

-- The `switch` for `-c` and `-r`; `-r` comes after `-c`.
pub options : ℕ → Option ℕ → Options
options find none = record { find_char = find; replace_with = 0; replace_flag = false }
options find (some with_) = record {
  find_char = find;
  replace_with = with_;
  replace_flag = not (with_ == find);
}

abbrev pub Bytes : Type 0
Bytes = List ℕ

-- The files `k.tmp` and `k.out` of the working directory.
pub record Files : Type 0 where
  pub tmp : ℕ → Option Bytes
  pub out : ℕ → Option Bytes

abbrev pub update : (ℕ → Option Bytes) → ℕ → Bytes → ℕ → Option Bytes
update f k b j = if j == k then some b else f j

abbrev pub buffer_size : ℕ
buffer_size = 100

abbrev first_or : ℕ → Bytes → ℕ
first_or d [] = d
first_or d (c ∷ s) = c

-- `memcpy` of `n` bytes from position `i` of the mapped file; `past` is what the memory holds after
-- the file.
pub copy_from : (ℕ → ℕ) → Bytes → ℕ → ℕ → Bytes
copy_from past src i zero = []
copy_from past src i (suc n) = first_or (past i) (drop i src) ∷ copy_from past src (i + 1) n

-- `running`: `parse` has not ended. `undefined`: an `int` overflows, or `memcpy` gets a negative length.
pub data Parsed : Type 0 where
  running : Parsed
  undefined : Parsed
  parsed : Files → Parsed

-- The `while` of `parse`, on fuel; `i` is an `int`.
pub parse_loop : (ℕ → ℕ) → Bytes → ℕ → ℕ → ℕ → ℕ → Files → Parsed
parse_loop past src chunk zero i k fs = running
parse_loop past src chunk (suc fuel) i k fs =
    let written = record fs { tmp = update fs.tmp k (copy_from past src i chunk) } in
    let rest = parse_loop past src chunk fuel (i + chunk) (k + 1) written in
    if not (ltb i (length src))
    then parsed fs
    else if leb (2 ^ 31) (i + chunk)
    then undefined
    else rest

-- The quotient is stored in an `int`: its last 32 bits, negative from 2^31 on.
pub parse : (ℕ → ℕ) → ℕ → Bytes → ℕ → Files → Parsed
parse past fuel src num_thread fs =
    let chunk = length src / num_thread % 2 ^ 32 in
    let run = parse_loop past src chunk fuel 0 1 fs in if leb (2 ^ 31) chunk then undefined else run

-- `fgets` with room for `room` bytes: the line with its newline, and the rest of the stream.
pub fgets : ℕ → Bytes → Bytes × Bytes
fgets zero s = ([], s)
fgets (suc room) [] = ([], [])
fgets (suc room) (c ∷ s) =
    let (line, rest) = fgets room s in if c == 10 then (c ∷ [], s) else (c ∷ line, rest)

-- A buffer as a C string: up to the first NUL.
pub c_string : Bytes → Bytes
c_string [] = []
c_string (c ∷ s) = let rest = c_string s in if c == 0 then [] else c ∷ rest

-- The `for` of `grep`: `found`, and the line with the replacements.
pub scan : Options → Bytes → Bool × Bytes
scan o [] = (false, [])
scan o (c ∷ s) =
    let (found, rest) = scan o s in
    if c == o.find_char && not o.replace_flag
    then (true, c ∷ s)
    else if c == o.find_char && o.replace_flag
    then (true, o.replace_with ∷ rest)
    else (found, c ∷ rest)

-- `fprintf` is what the stream receives for a format with no further argument.
module _ (fprintf : Bytes → Bytes) (o : Options) where
  -- One round of the `while` of `grep`: what a line adds to the output.
  pub grep_line : Bytes → Bytes
  grep_line line =
      let (found, changed) = scan o (c_string line) in
      if found then fprintf (c_string changed) else []

  -- The `while` of `grep` on fuel: the length of the stream is enough.
  pub grep_loop : ℕ → Bytes → Bytes
  grep_loop fuel [] = []
  grep_loop zero (c ∷ s) = []
  grep_loop (suc fuel) (c ∷ s) =
      let (line, rest) = fgets (buffer_size - 1) (c ∷ s) in grep_line line ++ grep_loop fuel rest

  -- `grep`; `none` is the fault of reading a stream that could not be opened.
  pub grep : ℕ → Files → Option Files
  grep k fs = elim (fs.tmp k) [
    | none ↦ none
    | some s ↦ some (record fs { out = update fs.out k (grep_loop (length s) s) })
  ]

-- `wrapToStdout` from file `k` on; a missing file is a fault.
pub wrap_loop : ℕ → ℕ → Files → Option Bytes
wrap_loop zero k fs = some []
wrap_loop (suc n) k fs = elim (fs.out k) [
  | none ↦ none
  | some s ↦ elim (wrap_loop n (k + 1) fs) [ none ↦ none | some rest ↦ some (s ++ rest) ]
]

-- The sum of the sizes is an `int`.
pub wrap_to_stdout : ℕ → Files → Option Bytes
wrap_to_stdout num_thread fs = elim (wrap_loop num_thread 1 fs) [
  | none ↦ none
  | some s ↦ if ltb (length s) (2 ^ 31) then some s else none
]

abbrev pub zeros : ℕ → Bytes
zeros zero = []
zeros (suc n) = 0 ∷ zeros n

-- `mmap` maps whole pages of `page` bytes.
abbrev pub mapped : ℕ → ℕ → ℕ
mapped page n = (n + page - 1) / page * page

-- The copies of `s` into the mapped file of `file_size` bytes, which holds zeros before: what comes
-- after the file on its last page is lost; a copy past the pages, or to a position that is no `int`,
-- is a fault.
pub copied : ℕ → ℕ → Bytes → Option Bytes
copied page file_size s =
    if not (ltb (length s) (2 ^ 31))
    then none
    else if leb (length s) (mapped page file_size)
    then some (take file_size s ++ zeros (file_size - length s))
    else none

-- `wrapToFile`: the output file is mapped and stretched to the size of the input, and the parts are
-- copied into it from its start.
pub wrap_to_file : ℕ → ℕ → ℕ → Files → Option Bytes
wrap_to_file page file_size num_thread fs = elim (wrap_loop num_thread 1 fs) [
  | none ↦ none
  | some s ↦ copied page file_size s
]
