-- ===== src/Cpu/Report.antt =====
-- `run_simulator` of "Cpu Scheduling/schedsim.c": the time line and the table that it prints.

use mathlib.Core.Option.{some-injective}
use operating_system_basics.Base.{
  ℕ, zero, suc, ◌+◌, ◌*◌, ◌<◌, ◌≤◌, ◌⊎◌, inl, inr, Bool, true, false, ◌&&◌, leb, if◌then◌else◌, ◌≡◌,
  ◌≢◌, refl, ap, ap₂, ◌∙◌, Option, none, some, List, [], ◌∷◌, ◌++◌, arith, length, length-append,
  get_elem?, ℤ, pos, pos_part, ◌+ℤ◌, ◌-ℤ◌, take, pos-add,
}
use operating_system_basics.LinkedList.{ListHead}
use operating_system_basics.Cpu.{Process, Policy, Sim, task_tick}

-- A row of the table: pid, waiting time and turnaround time.
pub record Row : Type 0 where
  pub pid : ℤ
  pub waiting : ℤ
  pub turnaround : ℤ

-- What is printed: the pid of each tick, and the rows. A row that nobody wrote is what lies in
-- `output` there.
pub record Report : Type 0 where
  pub time_line : List ℤ
  pub rows : List (Option Row)

-- The inner `while`: it runs for each tick of the burst.
abbrev pub repeat : ℕ → ℤ → List ℤ
repeat zero pid = []
repeat (suc n) pid = pid ∷ repeat n pid

-- The loop over the run queue from tick `j`: what is printed, and the rows written to `output`.
pub report_loop : List Process → ℤ → List ℤ × List Row
report_loop [] j = ([], [])
report_loop (e ∷ es) j =
    let n = pos_part e.burst in
    let j' = j +ℤ pos n in
    let (line, rows) = report_loop es j' in
    (
      repeat n e.pid ++ line,
      record { pid = e.pid; waiting = j' -ℤ e.arr -ℤ e.burst; turnaround = j' -ℤ e.arr } ∷ rows,
    )

-- The last loop: the rows 0 to `processes - 1` of `output`.
pub print_rows : ℕ → ℕ → List Row → List (Option Row)
print_rows zero k rows = []
print_rows (suc n) k rows = get_elem? rows k ∷ print_rows n (k + 1) rows

module _ (library : ListHead Process) (fresh : Process) where
  -- With no policy only the table is printed, of which nothing has been written.
  pub reported : Policy → Sim library fresh → List ℤ × List Row
  reported Policy.none_set s = ([], [])
  reported _ s = report_loop (library.entries s.runqueue) (pos 1)

  -- The simulator with `room` bytes at `output`, in which a row takes three `int`s; `none` is an access
  -- outside of them, by the loop that stores the rows or by the one that prints them.
  pub run_simulator : ℕ → Policy → Sim library fresh → Option (Sim library fresh × Report)
  run_simulator room policy s =
      let s' = task_tick library fresh policy s in
      let (line, rows) = reported policy s' in
      if leb (12 * length rows) room && leb (12 * s'.processes) room
      then some (s', record { time_line = line; rows = print_rows s'.processes 0 rows })
      else none

-- The ticks that a list of processes runs.
abbrev pub ticks : List Process → ℕ
ticks [] = 0
ticks (e ∷ es) = pos_part e.burst + ticks es

-- The row of a process that ends at tick `t`.
abbrev pub row_at : Process → ℤ → Row
row_at e t = record { pid = e.pid; waiting = t -ℤ e.arr -ℤ e.burst; turnaround = t -ℤ e.arr }

-- The row of entry `n` of a run queue, which has run when its bursts and those before have passed
-- since tick 1.
abbrev pub row_of : List Process → ℕ → Process → Row
row_of es n e = row_at e (pos (1 + ticks (take (suc n) es)))

report_row :
    (es : List Process) (n before : ℕ) (e : Process)
    → get_elem? es n ≡ some e
    → get_elem? (report_loop es (pos (1 + before))).1 n
      ≡ some (row_at e (pos (1 + (before + ticks (take (suc n) es)))))
unfolding report_loop
report_row [] n before e h = cc
report_row (x ∷ xs) zero before e h =
    ap₂ (λ y t. some (row_at y t)) (some-injective x e h)
      (pos-add (1 + before) (pos_part x.burst) ∙ ap pos (omega arith))
report_row (x ∷ xs) (suc n) before e h =
    ap (λ t. get_elem? (report_loop xs t).1 n)
      (pos-add (1 + before) (pos_part x.burst) ∙ ap pos (omega arith))
    ∙ report_row xs n (before + pos_part x.burst) e h
    ∙ ap (λ t. some (row_at e (pos t))) (omega arith)

rows_length : (es : List Process) (j : ℤ) → length (report_loop es j).1 ≡ length es
unfolding report_loop
rows_length [] j = refl
rows_length (e ∷ es) j = ap suc (rows_length es (j +ℤ pos (pos_part e.burst)))

line_length : (es : List Process) (j : ℤ) → length (report_loop es j).0 ≡ ticks es
unfolding report_loop
line_length [] j = refl
line_length (e ∷ es) j = omega (
  arith,
  length-append (repeat (pos_part e.burst) e.pid) (report_loop es (j +ℤ pos (pos_part e.burst))).0,
  length-repeat (pos_part e.burst) e.pid,
  line_length es (j +ℤ pos (pos_part e.burst)),
)
  where
    length-repeat : (n : ℕ) (pid : ℤ) → length (repeat n pid) ≡ n
    length-repeat zero pid = refl
    length-repeat (suc n) pid = ap suc (length-repeat n pid)

module _ (library : ListHead Process) (fresh : Process) where
  -- The run queue that the policy leaves.
  abbrev pub queue_after : Policy → Sim library fresh → List Process
  queue_after policy s = library.entries (task_tick library fresh policy s).runqueue

  neither : {A : Type 0} (b : Bool) (x : A) → (if b && false then some x else none) ≡ none
  neither true x = refl
  neither false x = refl

  reported_set :
      (policy : Policy) (s : Sim library fresh)
      → policy ≢ Policy.none_set
      → reported library fresh policy s ≡ report_loop (library.entries s.runqueue) (pos (1 + 0))
  unfolding reported
  reported_set Policy.none_set s h = absurd (h refl)
  reported_set _ s h = refl

  -- With a policy set, the loop of `run_simulator` prints a tick for each tick of a burst, and stores a
  -- row for each entry of the run queue that the policy leaves, with the waiting and turnaround times of
  -- the entry counted from tick 1. If `output` has twelve bytes for each of these rows and for each
  -- process, the time line and the first rows are printed, one for each process; otherwise the stores or
  -- the last loop leave the block.
  pub run_simulator_lem :
      (room : ℕ) (policy : Policy) (s : Sim library fresh)
      → policy ≢ Policy.none_set
      → let s' = task_tick library fresh policy s in
        let es = queue_after policy s in
        let (line, rows) = reported library fresh policy s' in
        (length line ≡ ticks es)
        × (length rows ≡ length es)
        × ((n : ℕ) (e : Process)
            → get_elem? es n ≡ some e
            → get_elem? rows n ≡ some (row_of es n e))
        × (12 * length es ≤ room
            → 12 * s'.processes ≤ room
            → run_simulator library fresh room policy s
              ≡ some (s', record { time_line = line; rows = print_rows s'.processes 0 rows }))
        × ((room < 12 * length es) ⊎ (room < 12 * s'.processes)
            → run_simulator library fresh room policy s ≡ none)
  unfolding run_simulator
  run_simulator_lem room policy s h =
      let s' = task_tick library fresh policy s in
      let es = queue_after policy s in
      let rows = (report_loop es (pos (1 + 0))).1 in
      let count = rows_length es (pos (1 + 0)) in
      rw (reported_set policy s' h) (
        line_length es (pos (1 + 0)),
        count,
        (λ n e found.
            report_row es n 0 e found ∙ ap (λ t. some (row_at e (pos (1 + t)))) (omega arith)),
        (λ a b.
            let first : leb (12 * length rows) room ≡ true = ground (arith, count) in
            let second : leb (12 * s'.processes) room ≡ true = ground arith in
            rw (first, second) refl),
        (λ k. elim k [
          | inl a ↦
              let first : leb (12 * length rows) room ≡ false = ground (arith, count) in
              rw first refl
          | inr b ↦
              let second : leb (12 * s'.processes) room ≡ false = ground arith in
              rw second (neither (leb (12 * length rows) room) _)
        ]),
      )

  -- With fewer than twelve bytes for each process the last loop leaves the block, whatever the policy.
  pub run_simulator-short :
      (room : ℕ) (policy : Policy) (s : Sim library fresh)
      → room < 12 * (task_tick library fresh policy s).processes
      → run_simulator library fresh room policy s ≡ none
  unfolding run_simulator
  run_simulator-short room policy s h =
      let s' = task_tick library fresh policy s in
      let second : leb (12 * s'.processes) room ≡ false = ground arith in
      rw second (neither (leb (12 * length (reported library fresh policy s').1) room) _)
