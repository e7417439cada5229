-- ===== src/Grep/Tests.antt =====
-- Runs of MCGrep/mcgrep.c, and each theorem at a small file.
use operating_system_basics.Base.{ℕ, ◌≡◌, refl, true, none, some, List, [], ◌∷◌, arith}
use operating_system_basics.Grep.{Options, options, Bytes, Files, grep_loop, grep, parse, running}
use operating_system_basics.Grep.Chunks.{parse-stuck}
use operating_system_basics.Grep.Lines.{lines, on_first}
use operating_system_basics.Grep.Search.{IsPlain, replaced, contains, matches, grep_loop-matches}
use operating_system_basics.Grep.Threads.{
  System, started, joined, turns, interleave, interleave-grep,
}

-- "ab\ncd\nax\n" and its last five bytes.
abbrev text : Bytes
text = 97 ∷ 98 ∷ 10 ∷ 99 ∷ 100 ∷ 10 ∷ 97 ∷ 120 ∷ 10 ∷ []

abbrev no_files : Files
no_files = record { tmp = λ k. none; out = λ k. none }

abbrev past : ℕ → ℕ
past i = 0

-- A stream that takes each format as it is.
abbrev plain_fprintf : Bytes → Bytes
plain_fprintf s = s

-- `-c a -r b`.
abbrev a_to_b : Options
a_to_b = record { find_char = 97; replace_with = 98; replace_flag = true }

options_run : options 97 (some 98) ≡ a_to_b
unfolding options
options_run = refl

grep_loop-matches_example : grep_loop plain_fprintf a_to_b 9 text ≡ matches a_to_b (lines text)
unfolding lines on_first IsPlain replaced
grep_loop-matches_example =
    grep_loop-matches plain_fprintf (λ s h. refl) a_to_b 9 text (omega arith) (omega arith)
      (omega arith) (omega arith)

-- The lines of `text`.
matches_run : matches a_to_b (lines text) ≡ 98 ∷ 98 ∷ 10 ∷ 98 ∷ 120 ∷ 10 ∷ []
unfolding matches lines on_first replaced contains
matches_run = refl

parse-stuck_example : parse past 1000 (97 ∷ []) 2 no_files ≡ running
parse-stuck_example = parse-stuck past 1000 (97 ∷ []) 2 no_files (omega arith) (omega arith)

abbrev loaded : System
loaded = record { files = record { tmp = λ k. some text; out = λ k. none }; threads = λ k. started }

abbrev turns_2_1 : List ℕ
turns_2_1 = 2 ∷ 1 ∷ 1 ∷ 2 ∷ 2 ∷ 1 ∷ 2 ∷ 1 ∷ 1 ∷ 2 ∷ 2 ∷ 1 ∷ 1 ∷ 1 ∷ 1 ∷ 1 ∷ 1 ∷ []

interleave-grep_example :
    let after = interleave plain_fprintf a_to_b turns_2_1 loaded in
    (alone : Files) × (grep plain_fprintf a_to_b 1 loaded.files ≡ some alone)
    × (after.threads 1 ≡ joined)
    × (after.files.out 1 ≡ alone.out 1)
unfolding turns
interleave-grep_example =
    interleave-grep plain_fprintf a_to_b turns_2_1 loaded 1 text refl refl (omega arith)
