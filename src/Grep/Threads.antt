-- ===== src/Grep/Threads.antt =====
-- MCGrep/mcgrep.c: the threads of `main`, each of which runs `grep` on a file of its own, in any
-- interleaving of their rounds.
use operating_system_basics.Base.{
  ℕ, ◌+◌, ◌-◌, ◌≤◌, ◌≡◌, refl, sym, ap, ◌∙◌, true, false, Option, none, some, List, [], ◌∷◌, ◌++◌,
  arith, ◌==◌, if◌then◌else◌, Bool-cases, inl, inr, length, ==_iff,
}
use operating_system_basics.Grep.{
  Options, Bytes, Files, update, buffer_size, fgets, grep_line, grep_loop, grep,
}
use operating_system_basics.Grep.Lines.{grep_loop-fuel, length-fgets}
use mathlib.Core.List.{append_assoc, append-nil}

-- A thread has not opened its files, is at a position of its stream, has closed the files, or has
-- read a stream that could not be opened.
pub data Thread : Type 0 where
  started : Thread
  reading : Bytes → Thread
  joined : Thread
  faulted : Thread

pub record System : Type 0 where
  pub files : Files
  pub threads : ℕ → Thread

abbrev set_thread : (ℕ → Thread) → ℕ → Thread → ℕ → Thread
set_thread f k t j = if j == k then t else f j

abbrev append_to : Option Bytes → Bytes → Bytes
append_to none s = s
append_to (some w) s = w ++ s

module _ (fprintf : Bytes → Bytes) (o : Options) where
  -- The next step of a thread, on its own two files: where it goes, and the output file then.
  pub advance : Thread → Option Bytes → Option Bytes → Thread × Option Bytes
  advance started none out = (faulted, some [])
  advance started (some s) out = (reading s, some [])
  advance (reading []) tmp out = (joined, out)
  advance (reading (c ∷ s)) tmp out =
      let (line, rest) = fgets (buffer_size - 1) (c ∷ s) in
      (reading rest, some (append_to out (grep_line fprintf o line)))
  advance joined tmp out = (joined, out)
  advance faulted tmp out = (faulted, out)

  -- Thread `k` makes a step.
  pub turn : ℕ → System → System
  turn k sys =
      let (t, out) = advance (sys.threads k) (sys.files.tmp k) (sys.files.out k) in
      record {
        files = record { tmp = sys.files.tmp; out = λ j. if j == k then out else sys.files.out j };
        threads = set_thread sys.threads k t;
      }

  -- The steps that the scheduler chooses, one after the other.
  pub interleave : List ℕ → System → System
  interleave [] sys = sys
  interleave (k ∷ schedule) sys = interleave schedule (turn k sys)

-- How often the scheduler chooses thread `k`.
unfoldable pub turns : ℕ → List ℕ → ℕ
turns k [] = 0
turns k (j ∷ schedule) = (if j == k then 1 else 0) + turns k schedule

-- The steps that a thread has left, for an input of `s`.
abbrev pub left : Thread → Bytes → ℕ
left started s = length s + 2
left (reading r) s = length r + 1
left joined s = 0
left faulted s = 0

update_same : (f : ℕ → Option Bytes) (k : ℕ) (b : Bytes) → update f k b k ≡ some b
update_same f k b = ground arith

append_to_nil : Option Bytes → Bytes
append_to_nil none = []
append_to_nil (some s) = s

module _ (fprintf : Bytes → Bytes) (o : Options) where
  -- What the thread has written is, with what it writes for the rest, what `grep` writes.
  abbrev pub Owes : Bytes → Thread → Option Bytes → Option Bytes → Type 0
  Owes s started tmp out = tmp ≡ some s
  Owes s (reading r) tmp out =
      (w : Bytes) × (out ≡ some w)
      × (w ++ grep_loop fprintf o (length r) r ≡ grep_loop fprintf o (length s) s)
  Owes s joined tmp out = out ≡ some (grep_loop fprintf o (length s) s)
  Owes s faulted tmp out = ⊥

  grep_loop-nil : (w : Bytes) → w ++ grep_loop fprintf o 0 [] ≡ w
  unfolding grep_loop
  grep_loop-nil w = append-nil w

  -- A round of the loop.
  grep_loop-cons :
      (c : ℕ) (r : Bytes)
      → let (line, rest) = fgets (buffer_size - 1) (c ∷ r) in
        grep_loop fprintf o (length (c ∷ r)) (c ∷ r)
        ≡ grep_line fprintf o line ++ grep_loop fprintf o (length rest) rest
  unfolding grep_loop
  grep_loop-cons c r =
      let (line, rest) = fgets 99 (c ∷ r) in
      ap (λ more. grep_line fprintf o line ++ more)
        (grep_loop-fuel fprintf o (length r) (length rest) rest (length-fgets 98 c r) (omega arith))

  advance-Owes :
      (s : Bytes) (t : Thread) (tmp out : Option Bytes)
      → Owes s t tmp out
      → Owes s (advance fprintf o t tmp out).0 tmp (advance fprintf o t tmp out).1
        × left (advance fprintf o t tmp out).0 s ≤ left t s - 1
  unfolding advance append_to_nil
  advance-Owes s started none out h = cc
  advance-Owes s started (some x) out h =
      let e : x ≡ s = ap append_to_nil h in rw e (([], refl, refl), omega arith)
  advance-Owes s (reading []) tmp out (w, e, h) =
      (e ∙ ap some (sym (grep_loop-nil w) ∙ h), omega arith)
  advance-Owes s (reading (c ∷ r)) tmp out (w, e, h) =
      let (line, rest) = fgets 99 (c ∷ r) in
      let shorter = length-fgets 98 c r in
      (
        (
          w ++ grep_line fprintf o line,
          rw e refl,
          append_assoc w (grep_line fprintf o line) (grep_loop fprintf o (length rest) rest)
              ∙ ap (◌++◌ w) (sym (grep_loop-cons c r))
              ∙ h,
        ),
        omega arith,
      )
  advance-Owes s joined tmp out h = (h, omega arith)
  advance-Owes s faulted tmp out h = absurd h

  -- A thread that owes nothing has joined.
  Owes-joined :
      (s : Bytes) (t : Thread) (tmp out : Option Bytes)
      → Owes s t tmp out
      → left t s ≡ 0
      → t ≡ joined × out ≡ some (grep_loop fprintf o (length s) s)
  Owes-joined s started tmp out h e = absurd (omega arith)
  Owes-joined s (reading r) tmp out h e = absurd (omega arith)
  Owes-joined s joined tmp out h e = (refl, h)
  Owes-joined s faulted tmp out h e = absurd h

  -- A turn of any thread keeps the debt, and a turn of thread `k` brings it nearer to its end.
  turn-Owes :
      (j : ℕ) (sys : System) (k : ℕ) (s : Bytes)
      → Owes s (sys.threads k) (sys.files.tmp k) (sys.files.out k)
      → let after = turn fprintf o j sys in
        Owes s (after.threads k) (after.files.tmp k) (after.files.out k)
        × left (after.threads k) s ≤ left (sys.threads k) s - (if j == k then 1 else 0)
  unfolding turn
  turn-Owes j sys k s h = elim (Bool-cases (k == j)) [
    | inl e ↦
        let same : j ≡ k = sym ((==_iff k j).0 e) in
        let itself : (k == k) ≡ true = (==_iff k k).1 refl in
        rw (same, itself) (advance-Owes s (sys.threads k) (sys.files.tmp k) (sys.files.out k) h)
    | inr e ↦ let differs : (j == k) ≡ false = ground arith in rw (e, differs) (h, omega arith)
  ]

  pub interleave-Owes :
      (schedule : List ℕ) (sys : System) (k : ℕ) (s : Bytes)
      → Owes s (sys.threads k) (sys.files.tmp k) (sys.files.out k)
      → left (sys.threads k) s ≤ turns k schedule
      → let after = interleave fprintf o schedule sys in
        after.threads k ≡ joined × after.files.out k ≡ some (grep_loop fprintf o (length s) s)
  unfolding interleave turns
  interleave-Owes [] sys k s h enough = Owes-joined s (sys.threads k) _ _ h (omega arith)
  interleave-Owes (j ∷ schedule) sys k s h enough =
      let (h', less) = turn-Owes j sys k s h in
      interleave-Owes schedule (turn fprintf o j sys) k s h' (omega arith)

  -- However the threads are interleaved, a thread that gets a turn to open its files, one for each
  -- round of its loop and one to close them has joined, and its output is what `grep`, run alone
  -- on the files at the start, writes.
  pub interleave-grep :
      (schedule : List ℕ) (sys : System) (k : ℕ) (s : Bytes)
      → sys.threads k ≡ started
      → sys.files.tmp k ≡ some s
      → length s + 2 ≤ turns k schedule
      → let after = interleave fprintf o schedule sys in
        (alone : Files) × (grep fprintf o k sys.files ≡ some alone)
        × (after.threads k ≡ joined)
        × (after.files.out k ≡ alone.out k)
  unfolding grep
  interleave-grep schedule sys k s e f enough =
      let (ends, same) = interleave-Owes schedule sys k s (rw e f) (rw e enough) in
      rw (f, grep) (_, refl, ends, same ∙ sym (update_same sys.files.out k _))
