-- ===== src/Disk/Tests.antt =====
-- Runs of "Disk Scheduling/disksim.c" on its sample trace, and each theorem at a trace.

use mathlib.Core.List.{Perm}
use operating_system_basics.Base.{
  false, ℕ, ◌^◌, ◌≢◌, ◌≤ℤ◌, ◌<ℤ◌, ◌≡◌, refl, Option, none, some, List, [], ◌∷◌, arith, All, ℤ, pos,
  ◌+ℤ◌, ◌-ℤ◌, abs, inl, inr,
}
use operating_system_basics.LinkedList.{ListHead}
use operating_system_basics.LinkedList.Reference.{reference}
use operating_system_basics.Disk.{
  cscan_compare, up_or_down, with_ends, copy_all, finish_ends, print_loop, cscan_loop,
  circular_round, Task, Out, text, num, Sim, fcfs_tick, sstf_tick, scan_tick, cscan_tick, look_tick,
  clook_tick, run, sstf_compare,
}
use operating_system_basics.Base.CString.{strtok, atoi}
use operating_system_basics.Disk.Trace.{
  read_config, read_loop, read_task, read_start, tasks_of, read_config_lem,
}
use operating_system_basics.Disk.Travel.{cylinders, travel}
use operating_system_basics.Disk.Queues.{requests, Prints, without_up, seek_total}
use operating_system_basics.Disk.Outcome.{IsLoaded, Serves}
use operating_system_basics.Disk.Ticks.{with_both_ends, fcfs_tick_lem, sstf_tick_lem}
use operating_system_basics.Disk.Geometry.{IsGood, IsPlaced}
use operating_system_basics.Disk.Sweep.{full_sweep, scan_tick-total, look_tick-total}
use operating_system_basics.Disk.Circular.{cscan_tick-total, clook_tick-total}
use operating_system_basics.Disk.{seek_loop, fcfs_loop, cscan_loop, clook_loop}
use operating_system_basics.Disk.Bounds.{totals_fit}
use operating_system_basics.Disk.Run.{Keeps, run_lem}

abbrev list_h : ListHead Task
list_h = reference Task

-- What `malloc` returns holds no request.
abbrev stale : Task
stale = record { cylinder = pos 77; dist = pos 7; up = 3 }

abbrev blank : Sim list_h stale
blank = record {
  start = pos 0;
  processes = 0;
  elevator_up = 0;
  srcrq = [];
  runqueue = [];
  out = [];
}

-- "START:53\n98\n183\n37\n"
abbrev start_line : List ℕ
start_line = b'S' ∷ b'T' ∷ b':' ∷ b'5' ∷ b'3' ∷ 10 ∷ []

abbrev trace : List (List ℕ)
trace =
    (b'9' ∷ b'8' ∷ 10 ∷ [])
    ∷ (10 ∷ [])
    ∷ (b'1' ∷ b'8' ∷ b'3' ∷ 10 ∷ [])
    ∷ (b'3' ∷ b'7' ∷ 10 ∷ [])
    ∷ []

abbrev task : ℕ → ℕ → ℕ → Task
task c d u = record { cylinder = pos c; dist = pos d; up = u }

abbrev loaded : Sim list_h stale
loaded = record blank {
  start = pos 53;
  processes = 3;
  srcrq = task 98 45 1 ∷ task 183 130 1 ∷ task 37 16 0 ∷ [];
}

read_config-trace : read_config list_h stale (start_line ∷ trace) blank ≡ some loaded
unfolding read_config read_loop read_task read_start strtok atoi ◌-ℤ◌ abs
read_config-trace = refl

outputs : Option (Sim list_h stale) → List Out
outputs none = []
outputs (some s) = s.out

-- The head starts at 53 and goes up first: 200 is served, and 0 by a jump back.
cscan-trace :
    outputs (cscan_tick list_h stale 1 loaded)
    ≡ text "CSCAN,"
      ∷ num (pos 784)
      ∷ text ","
      ∷ num (pos 98)
      ∷ text ","
      ∷ num (pos 183)
      ∷ text ","
      ∷ num (pos 200)
      ∷ text ","
      ∷ num (pos 0)
      ∷ text ","
      ∷ num (pos 37)
      ∷ text "\n"
      ∷ []
unfolding outputs cscan_tick cscan_compare up_or_down with_ends copy_all finish_ends print_loop
    cscan_loop circular_round ◌+ℤ◌ ◌-ℤ◌ abs
cscan-trace = refl

loaded-IsGood : All (IsGood (pos 53)) (requests list_h stale loaded)
unfolding ◌-ℤ◌
loaded-IsGood = (
  ((omega arith, omega arith), inl (refl, omega arith, refl)),
  (
    ((omega arith, omega arith), inl (refl, omega arith, refl)),
    (((omega arith, omega arith), inr (refl, omega arith, refl)), tt),
  ),
)

some_request : requests list_h stale loaded ≢ []
some_request = λ e. cc

scan_tick-total_example :
    (s' : Sim list_h stale) × (order : List Task) × (scan_tick list_h stale 0 loaded ≡ some s')
    × Perm order (with_both_ends list_h stale loaded)
    × Prints list_h stale "SCAN," (pos (full_sweep 0 (pos 53))) order loaded s'
scan_tick-total_example = scan_tick-total list_h stale loaded 0 refl (omega arith) loaded-IsGood

look_tick-total_example :
    (s' : Sim list_h stale) × (order : List Task) × (total : ℤ) × (look_tick list_h stale 1 loaded
      ≡ some s')
    × Perm order (requests list_h stale loaded)
    × Prints list_h stale "LOOK," total order loaded s'
    × (total ≡ travel (pos 53) (cylinders order))
    × (total ≤ℤ pos (full_sweep 1 (pos 53)))
look_tick-total_example =
    look_tick-total list_h stale loaded 1 refl some_request (omega arith) loaded-IsGood

cscan_tick-total_example :
    (s' : Sim list_h stale) × (order : List Task) × (cscan_tick list_h stale 1 loaded ≡ some s')
    × Perm order (with_both_ends list_h stale loaded)
    × Prints list_h stale "CSCAN," (travel (pos 53) (cylinders order) +ℤ pos 400) order loaded s'
cscan_tick-total_example = cscan_tick-total list_h stale loaded 1 refl

clook_tick-total_example :
    (s' : Sim list_h stale) × (order : List Task) × (clook_tick list_h stale 0 loaded ≡ some s')
    × Perm order (requests list_h stale loaded)
    × Prints list_h stale "CLOOK," (travel (pos 53) (cylinders order)) order loaded s'
clook_tick-total_example = clook_tick-total list_h stale loaded 0 refl some_request

sstf_tick_lem_example :
    Serves list_h stale sstf_compare "SSTF," seek_total
      (without_up list_h stale (requests list_h stale loaded))
      loaded
      (sstf_tick list_h stale loaded)
sstf_tick_lem_example = sstf_tick_lem list_h stale loaded refl some_request

fcfs_tick_lem_example :
    let s' = fcfs_tick list_h stale loaded in
    Prints list_h stale "FCFS,"
      (travel (pos 53) (pos 98 ∷ pos 183 ∷ pos 37 ∷ []))
      (requests list_h stale loaded)
      loaded
      s'
    × (s'.processes ≡ 3)
    × (s'.srcrq ≡ loaded.srcrq)
fcfs_tick_lem_example = fcfs_tick_lem list_h stale loaded refl

run_lem_example :
    (s' : Sim list_h stale) × (run list_h stale 0 1 2 3 loaded ≡ some s')
    × Keeps list_h stale loaded s'
run_lem_example = run_lem list_h stale 0 1 2 3 loaded refl some_request

read_start-trace : read_start start_line ≡ some (pos 53)
unfolding read_start strtok atoi ◌-ℤ◌
read_start-trace = refl

read_config_lem_example :
    (s' : Sim list_h stale) × (read_config list_h stale (start_line ∷ trace) blank ≡ some s')
    × (s'.start ≡ pos 53)
    × (requests list_h stale s' ≡ tasks_of list_h stale (pos 53) trace)
    × IsLoaded list_h stale s'
    × All (IsPlaced s'.start) (requests list_h stale s')
read_config_lem_example =
    read_config_lem list_h stale start_line trace blank (pos 53) refl read_start-trace refl

totals_fit_example :
    let order = task 37 16 0 ∷ task 0 53 0 ∷ task 98 45 1 ∷ task 200 147 1 ∷ [] in
    (seek_loop order (pos 0) (pos 53) <ℤ pos (2 ^ 31))
    × ((fcfs_loop list_h stale order [] (pos 0) (pos 53)).1 <ℤ pos (2 ^ 31))
    × (cscan_loop order (pos 0, pos 53, false) <ℤ pos (2 ^ 31))
    × (clook_loop order (pos 0, pos 53, false) <ℤ pos (2 ^ 31))
totals_fit_example =
    totals_fit list_h stale [] (pos 53)
      (task 37 16 0 ∷ task 0 53 0 ∷ task 98 45 1 ∷ task 200 147 1 ∷ []) (omega arith) (omega arith)
      (omega arith)
