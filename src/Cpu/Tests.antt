-- ===== src/Cpu/Tests.antt =====
-- Runs of "Cpu Scheduling/schedsim.c" on the workload of input_simple2.csv, and each theorem at it.
use mathlib.Core.List.{Perm}
use operating_system_basics.Base.{
  ℕ, ◌*◌, ◌⊎◌, ◌≤◌, ◌<◌, ◌≡◌, refl, none, some, List, [], ◌∷◌, ◌++◌, length, get_elem?, ℤ, pos,
  ◌+ℤ◌, ◌-ℤ◌,
}
use operating_system_basics.Base.CString.{strtok, atoi}
use operating_system_basics.LinkedList.{ListHead}
use operating_system_basics.LinkedList.Reference.{reference}
use operating_system_basics.Cpu.{
  Process, fcfs, Sim, fcfs_tick, sjf_tick, stcf_tick, sjf_loop, sjf_pass, sjf_entry, is_due,
  copy_entry, stcf_loop, stcf_pass, stcf_entry, stcf_admit, preempted,
}
use operating_system_basics.Cpu.FirstCome.{keep, within, copies, IsAscending, fcfs_tick-IsAscending}
use operating_system_basics.Cpu.ShortestJob.{waiting, sjf_tick-perm}
use operating_system_basics.Cpu.Completion.{stcf_tick-count}
use operating_system_basics.Cpu.Report.{
  row_of, ticks, queue_after, reported, print_rows, run_simulator, run_simulator_lem,
}
use operating_system_basics.Cpu.{task_tick}
use operating_system_basics.Cpu.Workload.{
  run, run-overrun, Line, initial, read_process, read_config, processes_of, Loaded,
  read_config-Loaded,
}

abbrev list_h : ListHead Process
list_h = reference Process

abbrev stale : Process
stale = record { pid = pos 0; arr = pos 0; burst = pos 0; prio = pos 0; on_rq = 0; tmp_src = 0 }

abbrev process : ℕ → ℕ → ℕ → ℕ → Process
process p a b r = record stale { pid = pos p; arr = pos a; burst = pos b; prio = pos r }

-- "1,1,10,2\n3,2,2,1\n" and a blank line between.
abbrev workload : List Line
workload =
    (b'1' ∷ b',' ∷ b'1' ∷ b',' ∷ b'1' ∷ b'0' ∷ b',' ∷ b'2' ∷ 10 ∷ [])
    ∷ (10 ∷ [])
    ∷ (b'3' ∷ b',' ∷ b'2' ∷ b',' ∷ b'2' ∷ b',' ∷ b'1' ∷ 10 ∷ [])
    ∷ []

abbrev loaded : Sim list_h stale
loaded = record (initial list_h stale) {
  processes = 2;
  span = pos 12;
  srcrq = process 1 1 10 2 ∷ process 3 2 2 1 ∷ [];
}

abbrev three : Sim list_h stale
three = record loaded {
  processes = 3;
  span = pos 16;
  srcrq = process 1 1 10 2 ∷ process 2 3 4 2 ∷ process 3 2 2 1 ∷ [];
}

show : List Process → List (ℤ × ℤ)
show [] = []
show (e ∷ es) = (e.pid, e.burst) ∷ show es

read_config-workload : read_config list_h stale workload (initial list_h stale) ≡ some loaded
unfolding read_config read_process strtok atoi ◌+ℤ◌
read_config-workload = refl

-- Process 2 runs before process 3, which is shorter and has arrived.
sjf-three :
    show (sjf_tick list_h stale three).runqueue
    ≡ (pos 1, pos 10) ∷ (pos 2, pos 4) ∷ (pos 3, pos 2) ∷ []
unfolding show sjf_tick sjf_loop sjf_pass sjf_entry is_due copy_entry ◌+ℤ◌
sjf-three = refl

-- The bursts add up to 16, and the queue runs for 18 ticks.
stcf-three :
    show (stcf_tick list_h stale three).runqueue
    ≡ (pos 1, pos 3) ∷ (pos 3, pos 2) ∷ (pos 2, pos 4) ∷ (pos 1, pos 7) ∷ (pos 1, pos 2) ∷ []
unfolding show stcf_tick stcf_loop stcf_pass stcf_entry stcf_admit preempted is_due copy_entry ◌+ℤ◌
    ◌-ℤ◌
stcf-three = refl

fcfs_tick-IsAscending_example :
    (order : List Process) × ((fcfs_tick list_h stale three).runqueue
      ≡ [] ++ copies list_h stale order)
    × Perm order (keep (within 0 16) three.srcrq)
    × IsAscending order
fcfs_tick-IsAscending_example = fcfs_tick-IsAscending list_h stale three refl

sjf_tick-perm_example :
    let s' = sjf_tick list_h stale three in
    (queued : List Process) × (s'.runqueue ≡ [] ++ copies list_h stale queued)
    × Perm (queued ++ waiting s'.srcrq) (waiting three.srcrq)
sjf_tick-perm_example = sjf_tick-perm list_h stale three

stcf_tick-count_example :
    let s' = stcf_tick list_h stale three in (s'.processes ≡ length s'.srcrq) × (3 ≤ s'.processes)
stcf_tick-count_example = stcf_tick-count list_h stale three refl

run_simulator_lem_example :
    let s' = task_tick list_h stale fcfs three in
    let es = queue_after list_h stale fcfs three in
    let (line, rows) = reported list_h stale fcfs s' in
    (length line ≡ ticks es)
    × (length rows ≡ length es)
    × ((n : ℕ) (e : Process) → get_elem? es n ≡ some e → get_elem? rows n ≡ some (row_of es n e))
    × (12 * length es ≤ 36
        → 12 * s'.processes ≤ 36
        → run_simulator list_h stale 36 fcfs three
          ≡ some (s', record { time_line = line; rows = print_rows s'.processes 0 rows }))
    × ((36 < 12 * length es) ⊎ (36 < 12 * s'.processes)
        → run_simulator list_h stale 36 fcfs three ≡ none)
run_simulator_lem_example = run_simulator_lem list_h stale 36 fcfs three (λ e. cc)

processes_of-workload :
    processes_of list_h stale workload ≡ some (process 1 1 10 2 ∷ process 3 2 2 1 ∷ [])
unfolding read_process strtok atoi
processes_of-workload = refl

read_config-Loaded_example :
    (s' : Sim list_h stale) × (read_config list_h stale workload (initial list_h stale) ≡ some s')
    × Loaded list_h stale (initial list_h stale) s' (process 1 1 10 2 ∷ process 3 2 2 1 ∷ [])
read_config-Loaded_example =
    read_config-Loaded list_h stale workload (initial list_h stale)
      (process 1 1 10 2 ∷ process 3 2 2 1 ∷ []) processes_of-workload

run-overrun_example : run list_h stale (b'S' ∷ b'J' ∷ b'F' ∷ []) workload ≡ none
run-overrun_example =
    run-overrun list_h stale (b'S' ∷ b'J' ∷ b'F' ∷ []) workload (process 1 1 10 2)
      (process 3 2 2 1 ∷ []) processes_of-workload
