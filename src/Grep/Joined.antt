-- ===== src/Grep/Joined.antt =====
-- MCGrep/mcgrep.c: `main` after its options, and what the joined outputs hold.
use operating_system_basics.Base.{
  ℕ, zero, suc, ◌+◌, ◌-◌, ◌^◌, Bool, true, false, not, ◌&&◌, none, some, List, [], ◌++◌, ltb, leb,
  if◌then◌else◌, length, take, drop,
}
use operating_system_basics.Grep.{
  Options, Bytes, Files, parse, wrap_to_stdout, wrap_to_file, zeros, running, undefined, parsed,
  mapped,
}
use operating_system_basics.Grep.Threads.{
  Thread, System, started, reading, joined, faulted, interleave,
}

-- What is printed, or written to the file of `-o`. `usage`: the arguments are refused. `waiting`: `parse` or a join has not come back.
pub data Outcome : Type 0 where
  usage : Outcome
  waiting : Outcome
  fault : Outcome
  printed : Bytes → Outcome

has_joined : Thread → Bool
has_joined started = false
has_joined (reading s) = false
has_joined joined = true
has_joined faulted = false

-- The joins, of the threads `1` to `n`.
join_loop : ℕ → System → Bool
join_loop zero sys = true
join_loop (suc n) sys = has_joined (sys.threads (suc n)) && join_loop n sys

module _ (fprintf : Bytes → Bytes) (o : Options) where
  -- `main` after the threads are created: the joins, and the output by `-o` or to the terminal.
  print_all : Bool → ℕ → ℕ → ℕ → System → Outcome
  print_all outfile_flag page file_size num_thread sys =
      if join_loop num_thread sys
      then elim (if outfile_flag
          then wrap_to_file page file_size num_thread sys.files
          else wrap_to_stdout num_thread sys.files) [ none ↦ fault | some s ↦ printed s ]
      else waiting

  -- `main` after its options.
  pub mcgrep : Bool → ℕ → (ℕ → ℕ) → ℕ → List ℕ → ℕ → Bytes → Files → Outcome
  mcgrep outfile_flag page past fuel schedule num_thread src fs =
      if ltb num_thread 1 then usage else elim (parse past fuel src num_thread fs) [
        | running ↦ waiting
        | undefined ↦ fault
        | parsed new ↦
            print_all outfile_flag page (length src) num_thread
              (interleave fprintf o schedule (record { files = new; threads = λ k. started }))
      ]

-- The results of `f` on `n` parts of `chunk` bytes from position `i` on, one after the other.
unfoldable pub collect : (Bytes → Bytes) → ℕ → Bytes → ℕ → ℕ → Bytes
collect f chunk src i zero = []
collect f chunk src i (suc n) = f (take chunk (drop i src)) ++ collect f chunk src (i + chunk) n

abbrev nothing : Bytes
nothing = []

-- The outcome for the results `s` of a file of `size` bytes: they are printed, or with `-o` they are
-- in the file.
unfoldable pub delivered : Bool → ℕ → ℕ → Bytes → Outcome
delivered outfile_flag page size s =
    if not (ltb (length s) (2 ^ 31))
    then fault
    else if not outfile_flag
    then printed s
    else if leb (length s) (mapped page size)
    then printed (take size s ++ zeros (size - length s))
    else fault
