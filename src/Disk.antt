-- ===== src/Disk.antt =====
-- "Disk Scheduling/disksim.c" and disksim.h: the requests, the comparators, the six `*_tick`
-- functions, the output and the reading of the trace. The children prove what these do.
pub mod Travel
pub mod Comparators
pub mod Queues
pub mod Outcome
pub mod Ticks
pub mod Walk
pub mod Geometry
pub mod Sweep
pub mod Run
pub mod Circular
pub mod Trace
pub mod Bounds
mod Tests
use Prim.Native.String.{String}
use operating_system_basics.Base.{
  ℕ, ◌+◌, ◌-◌, ◌%◌, Bool, true, false, not, ◌&&◌, ◌||◌, Option, none, some, List, [], ◌∷◌, ◌++◌,
  ◌==◌, leb, if◌then◌else◌, length, ℤ, pos, ◌+ℤ◌, ◌-ℤ◌, abs, ltb_ℤ, eqb_ℤ,
}
use operating_system_basics.Base.CString.{strtok, atoi}
use operating_system_basics.LinkedList.{ListHead}

-- `struct task_struct`: the fields that disksim.c uses. An `int` is an integer, and a flag a
-- number; the bounds of `int` are kept by Bounds.
pub record Task : Type 0 where
  pub cylinder : ℤ
  pub dist : ℤ
  pub up : ℕ

-- What `fprintf` writes: text, and the decimal numbers of `%d`.
pub data Out : Type 0 where
  text : String → Out
  num : ℤ → Out

abbrev pub lowest_level : ℤ
lowest_level = pos 0

abbrev pub highest_level : ℤ
highest_level = pos 200

-- A number as a truth value, and the other way round.
abbrev pub truth : ℕ → Bool
truth n = not (n == 0)

abbrev pub to_int : Bool → ℕ
to_int b = if b then 1 else 0

-- `Up_or_Down`: `random` is what `rand()` returns, which is not negative; `& 1` is its lowest bit.
pub up_or_down : ℕ → ℕ
up_or_down random = random % 2

pub sstf_compare : Task → Task → ℕ
sstf_compare a b = to_int (ltb_ℤ b.dist a.dist)

pub scan_compare : ℕ → Task → Task → ℕ
scan_compare elevator_up a b =
    if truth a.up && truth b.up
    then to_int (ltb_ℤ b.dist a.dist)
    else if not (truth a.up) && not (truth b.up)
    then to_int (ltb_ℤ b.dist a.dist)
    else if not (truth a.up) && truth b.up
    then elevator_up
    else to_int (not (truth elevator_up))

pub cscan_compare : ℕ → Task → Task → ℕ
cscan_compare elevator_up a b =
    if not (truth elevator_up)
    then (if truth a.up && truth b.up
        then to_int (ltb_ℤ a.dist b.dist)
        else if not (truth a.up) && not (truth b.up)
        then to_int (ltb_ℤ b.dist a.dist)
        else if not (truth a.up) && truth b.up
        then elevator_up
        else to_int (not (truth elevator_up)))
    else (if truth a.up && truth b.up
        then to_int (ltb_ℤ b.dist a.dist)
        else if not (truth a.up) && not (truth b.up)
        then to_int (ltb_ℤ a.dist b.dist)
        else if not (truth a.up) && truth b.up
        then 1
        else 0)

-- The second loop of `sstf_tick`, `scan_tick` and `look_tick`.
pub seek_loop : List Task → ℤ → ℤ → ℤ
seek_loop [] total prev = total
seek_loop (entry ∷ rest) total prev =
    seek_loop rest (total +ℤ abs (prev -ℤ entry.cylinder)) entry.cylinder

-- One round of the second loop of `cscan_tick` and `clook_tick`: `turns` is the middle test. The
-- result is `totalDist`, `prevDist` and `directionChange`.
pub circular_round : Bool → Task → ℤ × ℤ × Bool → ℤ × ℤ × Bool
circular_round turns entry (total, prev, change) =
    let moves = not (eqb_ℤ entry.cylinder (pos 0)) && not change in
    let total₁ = if moves then total +ℤ abs (prev -ℤ entry.cylinder) else total in
    let prev₁ = if moves then entry.cylinder else prev in
    let change₁ = if turns then true else change in
    if change₁
    then (total₁ +ℤ abs (prev₁ +ℤ entry.cylinder), entry.cylinder, false)
    else (total₁, prev₁, change₁)

pub cscan_loop : List Task → ℤ × ℤ × Bool → ℤ
cscan_loop [] (total, prev, change) = total
cscan_loop (entry ∷ rest) s = cscan_loop rest (
    circular_round (eqb_ℤ entry.cylinder lowest_level || eqb_ℤ entry.cylinder highest_level) entry
      s)

pub clook_loop : List Task → ℤ × ℤ × Bool → ℤ
clook_loop [] (total, prev, change) = total
clook_loop (entry ∷ rest) s =
    clook_loop rest (circular_round (eqb_ℤ entry.cylinder (pos 0)) entry s)

-- `print_rq`: `i` counts the entries, and the one that `processes` counts ends the line.
pub print_loop : ℕ → List Task → ℕ → List Out
print_loop processes [] i = []
print_loop processes (entry ∷ rest) i =
    num entry.cylinder
    ∷ text (if i + 1 == processes then "\n" else ",")
    ∷ print_loop processes rest (i + 1)

infixl 5 ◌>>=◌
abbrev pub ◌>>=◌ : {A B : Type 0} → Option A → (A → Option B) → Option B
none >>= f = none
some a >>= f = f a

-- `library` is list.h; `fresh` is what lies in the memory that `malloc` returns.
module _ (library : ListHead Task) (fresh : Task) where
  open library use {Head, entries, init_list_head, list_add_tail, list_sort}

  -- The globals, and what has been written to `fp`.
  pub record Sim : Type 0 where
    pub start : ℤ
    pub processes : ℕ
    pub elevator_up : ℕ
    pub srcrq : Head
    pub runqueue : Head
    pub out : List Out

  pub fprintf : List Out → Sim → Sim
  fprintf o s = record s { out = s.out ++ o }

  pub print_rq : Sim → Sim
  unfolding fprintf
  print_rq s = fprintf (print_loop s.processes (entries s.runqueue) 0) s

  -- The loop of `fcfs_tick`.
  pub fcfs_loop : List Task → Head → ℤ → ℤ → Head × ℤ
  fcfs_loop [] rq total prev = (rq, total)
  fcfs_loop (entry ∷ rest) rq total prev =
      let ts = record fresh { cylinder = entry.cylinder } in
      fcfs_loop rest (list_add_tail ts rq) (total +ℤ abs (prev -ℤ ts.cylinder)) ts.cylinder

  pub fcfs_tick : Sim → Sim
  unfolding print_rq
  fcfs_tick s =
      let (rq, total) = fcfs_loop (entries s.srcrq) init_list_head (pos 0) s.start in
      print_rq (fprintf (text "FCFS," ∷ num total ∷ text "," ∷ []) (record s { runqueue = rq }))

  -- The loops that copy the source queue: `sstf_tick` leaves `up` as `malloc` found it.
  pub copy_dist : List Task → Head → Head
  copy_dist [] rq = rq
  copy_dist (entry ∷ rest) rq =
      copy_dist rest
        (list_add_tail (record fresh { cylinder = entry.cylinder; dist = entry.dist }) rq)

  pub copy_all : List Task → Head → Head
  copy_all [] rq = rq
  copy_all (entry ∷ rest) rq = copy_all rest (
      list_add_tail (record fresh { cylinder = entry.cylinder; dist = entry.dist; up = entry.up })
        rq)

  -- `none` is the fault of sorting an empty list; the rest of a policy runs on the sorted queue.
  abbrev pub after_sort : (Head → Sim) → Option Head → Option Sim
  after_sort rest none = none
  after_sort rest (some rq) = some (rest rq)

  -- `sstf_tick`, `look_tick` and `clook_tick` after `list_sort`.
  pub finish : String → ℤ → Head → Sim → Sim
  unfolding print_rq
  finish name total rq s =
      print_rq (fprintf (text name ∷ num total ∷ text "," ∷ []) (record s { runqueue = rq }))

  -- `scan_tick` and `cscan_tick` after `list_sort`, with the two ends in the queue.
  pub finish_ends : String → ℤ → Head → Sim → Sim
  unfolding finish
  finish_ends name total rq s =
      let printed = finish name total rq (record s { processes = s.processes + 1 + 1 }) in
      record printed { processes = printed.processes - 2 }

  -- The queue with the two ends of the disk, as `scan_tick` and `cscan_tick` build it.
  pub with_ends : Sim → Head
  with_ends s =
      list_add_tail
        (record fresh { cylinder = highest_level; dist = highest_level -ℤ s.start; up = 1 })
        (copy_all (entries s.srcrq) (
          list_add_tail (record fresh { cylinder = lowest_level; dist = s.start; up = 0 })
            init_list_head))

  pub sstf_tick : Sim → Option Sim
  sstf_tick s =
      after_sort (λ rq. finish "SSTF," (seek_loop (entries rq) (pos 0) s.start) rq s)
        (list_sort sstf_compare (copy_dist (entries s.srcrq) init_list_head))

  pub scan_tick : ℕ → Sim → Option Sim
  scan_tick random s =
      let elevator = up_or_down random in
      after_sort
        (λ rq.
          finish_ends "SCAN," (seek_loop (entries rq) (pos 0) s.start) rq
            (record s { elevator_up = elevator }))
        (list_sort (scan_compare elevator) (with_ends s))

  pub cscan_tick : ℕ → Sim → Option Sim
  cscan_tick random s =
      let elevator = up_or_down random in
      after_sort
        (λ rq.
          finish_ends "CSCAN," (cscan_loop (entries rq) (pos 0, s.start, false)) rq
            (record s { elevator_up = elevator }))
        (list_sort (cscan_compare elevator) (with_ends s))

  pub look_tick : ℕ → Sim → Option Sim
  look_tick random s =
      let elevator = up_or_down random in
      after_sort
        (λ rq.
          finish "LOOK," (seek_loop (entries rq) (pos 0) s.start) rq
            (record s { elevator_up = elevator }))
        (list_sort (scan_compare elevator) (copy_all (entries s.srcrq) init_list_head))

  pub clook_tick : ℕ → Sim → Option Sim
  clook_tick random s =
      let elevator = up_or_down random in
      after_sort
        (λ rq.
          finish "CLOOK," (clook_loop (entries rq) (pos 0, s.start, false)) rq
            (record s { elevator_up = elevator }))
        (list_sort (cscan_compare elevator) (copy_all (entries s.srcrq) init_list_head))

  -- The policies in the order of `main`; the numbers are what `rand()` returns in each.
  pub run : ℕ → ℕ → ℕ → ℕ → Sim → Option Sim
  run r₁ r₂ r₃ r₄ s = do
    s₁ ← sstf_tick (fcfs_tick s)
    s₂ ← scan_tick r₁ s₁
    s₃ ← cscan_tick r₂ s₂
    s₄ ← look_tick r₃ s₃
    clook_tick r₄ s₄
