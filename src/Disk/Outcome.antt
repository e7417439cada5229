-- ===== src/Disk/Outcome.antt =====
-- What a `*_tick` function of "Disk Scheduling/disksim.c" leaves, and its last steps.
use mathlib.Core.List.{Perm}
use Prim.Native.String.{String}
use operating_system_basics.Base.{ℕ, ◌+◌, ◌≡◌, refl, sym, ◌∙◌, Option, some, List, arith, length}
use operating_system_basics.LinkedList.{ListHead, IsSorted}
use operating_system_basics.Disk.{Task, Sim, finish, finish_ends}
use operating_system_basics.Disk.Queues.{Prints, Total, requests, printed_lem, Sorted}

module _ (library : ListHead Task) (fresh : Task) where
  -- What `read_config` establishes and every tick keeps.
  abbrev pub IsLoaded : Sim library fresh → Type 0
  IsLoaded s = s.processes ≡ length (requests library fresh s)

  -- One policy has run: `queued` is served in an order that `cmp` sorts, the line with the name,
  -- the total and the order is printed, and the trace is as it was.
  pub record Served (cmp : Task → Task → ℕ) (name : String) (total : Total) (queued : List Task)
      (s s' : Sim library fresh) : Type 0 where
    pub order : List Task
    pub same_requests : Perm order queued
    pub sorted : IsSorted cmp order
    pub printed : Prints library fresh name (total s.start order) order s s'
    pub same_processes : s'.processes ≡ s.processes
    pub same_source : s'.srcrq ≡ s.srcrq
    pub same_start : s'.start ≡ s.start

module _ (library : ListHead Task) (fresh : Task) (s : Sim library fresh) where
  pub finish-Served :
      {cmp : Task → Task → ℕ} {q : library.Head} {queued : List Task} (name : String)
      (total : Total) (elevator : ℕ)
      → s.processes ≡ length queued
      → (sorted : Sorted library fresh cmp q queued)
      → Served library fresh cmp name total queued s (
          finish library fresh name
            (total s.start (library.entries sorted.rq))
            sorted.rq
            (record s { elevator_up = elevator }))
  unfolding finish
  finish-Served name total elevator e sorted = record {
    order = library.entries sorted.rq;
    same_requests = sorted.same;
    sorted = sorted.ordered;
    printed =
        printed_lem library fresh name _ (record s { runqueue = sorted.rq }) (e ∙ sym sorted.size);
    same_processes = refl;
    same_source = refl;
    same_start = refl;
  }

  pub finish_ends-Served :
      {cmp : Task → Task → ℕ} {q : library.Head} {queued : List Task} (name : String)
      (total : Total) (elevator : ℕ)
      → s.processes + 2 ≡ length queued
      → (sorted : Sorted library fresh cmp q queued)
      → Served library fresh cmp name total queued s (
          finish_ends library fresh name
            (total s.start (library.entries sorted.rq))
            sorted.rq
            (record s { elevator_up = elevator }))
  unfolding finish_ends
  finish_ends-Served name total elevator e sorted = record {
    order = library.entries sorted.rq;
    same_requests = sorted.same;
    sorted = sorted.ordered;
    printed =
        printed_lem library fresh name _
          (record s { runqueue = sorted.rq; processes = s.processes + 1 + 1 })
          (omega (arith, sorted.size));
    same_processes = omega arith;
    same_source = refl;
    same_start = refl;
  }

-- A policy on a trace with a request succeeds and has served its queue.
abbrev pub Serves :
    (library : ListHead Task) (fresh : Task)
    → (Task → Task → ℕ)
    → String
    → Total
    → List Task
    → Sim library fresh
    → Option (Sim library fresh)
    → Type 0
Serves library fresh cmp name total queued s result =
    (s' : Sim library fresh) × (result ≡ some s') × Served library fresh cmp name total queued s s'
