-- ===== src/Cpu.antt =====
-- "Cpu Scheduling/schedsim.c" and schedsim.h: the processes, the three policies, the report and
-- the reading of the workload. The children prove what these do.
pub mod FirstCome
pub mod ShortestJob
pub mod Completion
pub mod Report
pub mod Workload
mod Tests
use operating_system_basics.Base.{
  ℕ, zero, suc, ◌+◌, ◌-◌, ◌*◌, Bool, true, false, not, ◌&&◌, ◌||◌, Option, none, some, List, [],
  ◌∷◌, ◌++◌, ◌==◌, leb, if◌then◌else◌, length, get_elem?, ℤ, pos, pos_part, ◌+ℤ◌, ◌-ℤ◌, ltb_ℤ,
  eqb_ℤ,
}
use operating_system_basics.Base.CString.{strtok, atoi}
use operating_system_basics.LinkedList.{ListHead}

-- `struct task_struct`: the fields that schedsim.c uses. An `int` is an integer, and a flag a
-- number.
pub record Process : Type 0 where
  pub pid : ℤ
  pub arr : ℤ
  pub burst : ℤ
  pub prio : ℤ
  pub on_rq : ℕ
  pub tmp_src : ℕ

-- `task_tick` after `setup_scheduler`; no policy is the null pointer.
pub data Policy : Type 0 where
  fcfs sjf stcf none_set : Policy

-- `strncmp(name, prefix, n) == 0` for a prefix of `n` bytes.
abbrev pub starts_with : List ℕ → List ℕ → Bool
starts_with [] name = true
starts_with (c ∷ prefix) [] = false
starts_with (c ∷ prefix) (d ∷ name) = c == d && starts_with prefix name

pub setup_scheduler : List ℕ → Policy
setup_scheduler name =
    if starts_with (b'F' ∷ b'C' ∷ b'F' ∷ b'S' ∷ []) name
    then fcfs
    else if starts_with (b'S' ∷ b'J' ∷ b'F' ∷ []) name
    then sjf
    else if starts_with (b'S' ∷ b'T' ∷ b'C' ∷ b'F' ∷ []) name
    then stcf
    else none_set

-- The test of `sjf_tick` and `stcf_tick` on an entry: `i` is the round, `j` the bursts seen in it,
-- and `k` those already queued.
pub is_due : Process → ℤ → ℤ → ℤ → Bool
is_due entry i j k =
    ltb_ℤ entry.burst i && not (ltb_ℤ k entry.arr) || eqb_ℤ i j && ltb_ℤ entry.arr i

-- The search of `stcf_tick` in the run queue: whether an entry with a longer burst than `entry` was
-- found, where, and `m` with the bursts before it.
pub preempted : Process → List Process → ℕ → ℤ → Option (ℕ × Process) × ℤ
preempted entry [] q m = (none, m)
preempted entry (entry₂ ∷ rest) q m =
    let further = preempted entry rest (q + 1) (m +ℤ entry₂.burst) in
    if ltb_ℤ entry.burst entry₂.burst && entry.tmp_src == 0 then (some (q, entry₂), m) else further

-- `library` is list.h; `fresh` is what lies in the memory that `malloc` returns.
module _ (library : ListHead Process) (fresh : Process) where
  open library use {Head, entries, init_list_head, list_add_tail, list_add_after, list_add_before}
  open library use {list_store}

  -- The globals.
  pub record Sim : Type 0 where
    pub processes : ℕ
    pub span : ℤ
    pub srcrq : Head
    pub runqueue : Head

  -- The new `ts` of the policies: four fields are copied.
  pub copy_entry : Process → Process
  copy_entry entry = record fresh {
    pid = entry.pid;
    arr = entry.arr;
    burst = entry.burst;
    prio = entry.prio;
  }

  -- The inner loop of `fcfs_tick`: the queue and `processAdded`.
  pub fcfs_pass : ℕ → List Process → Head × ℕ → Head × ℕ
  fcfs_pass i [] s = s
  fcfs_pass i (entry ∷ rest) (rq, added) = fcfs_pass i rest (
      if eqb_ℤ entry.arr (pos i)
      then (list_add_tail (copy_entry entry) rq, added + 1)
      else (rq, added))

  -- The outer loop, with the rounds that are left.
  pub fcfs_loop : ℕ → ℕ → ℕ → List Process → Head × ℕ → Head
  fcfs_loop zero i processes src (rq, added) = rq
  fcfs_loop (suc n) i processes src (rq, added) =
      let rest = fcfs_loop n (i + 1) processes src (fcfs_pass i src (rq, added)) in
      if added == processes then rq else rest

  pub fcfs_tick : Sim → Sim
  fcfs_tick s = record s {
    runqueue = fcfs_loop (pos_part s.span) 0 s.processes (entries s.srcrq) (s.runqueue, 0);
  }

  -- The variables of `sjf_tick` and the queues that it changes.
  pub record Sjf : Type 0 where
    pub src : Head
    pub rq : Head
    pub k : ℤ
    pub added : ℕ

  -- One entry of the inner loop of `sjf_tick`, at position `p`; the first of the pair is `j`.
  pub sjf_entry : ℤ → ℕ → Process → ℤ × Sjf → ℤ × Sjf
  sjf_entry i p entry (j, s) =
      let j' = j +ℤ entry.burst in
      if entry.on_rq == 0
      then (if is_due entry i j' s.k
          then (
            j',
            record {
              src = list_store p (record entry { on_rq = 1 }) s.src;
              rq = list_add_tail (copy_entry entry) s.rq;
              k = s.k +ℤ entry.burst;
              added = s.added + 1;
            },
          )
          else (j', s))
      else (j, s)

  pub sjf_pass : ℤ → ℕ → List Process → ℤ × Sjf → Sjf
  sjf_pass i p [] (j, s) = s
  sjf_pass i p (entry ∷ rest) t = sjf_pass i (p + 1) rest (sjf_entry i p entry t)

  pub sjf_loop : ℕ → ℕ → ℕ → Sjf → Sjf
  sjf_loop zero i processes s = s
  sjf_loop (suc n) i processes s =
      let rest = sjf_loop n (i + 1) processes (sjf_pass (pos i) 0 (entries s.src) (pos 0, s)) in
      if s.added == processes then s else rest

  pub sjf_tick : Sim → Sim
  sjf_tick s =
      let start : Sjf = record { src = s.srcrq; rq = s.runqueue; k = pos 0; added = 0 } in
      let final = sjf_loop (pos_part s.span) 0 s.processes start in
      record s { srcrq = final.src; runqueue = final.rq }

  -- The variables of `stcf_tick` and what it changes; `finished` is its early return.
  pub record Stcf : Type 0 where
    pub src : Head
    pub rq : Head
    pub k : ℤ
    pub m : ℤ
    pub added : ℕ
    pub processes : ℕ
    pub finished : Bool

  -- A due entry at position `p` of the source queue, where the search found `hit`. The second part
  -- is the position of the entry afterwards.
  pub stcf_admit : ℕ → Process → Option (ℕ × Process) → ℤ → Stcf → Stcf × ℕ
  stcf_admit p entry none m s =
      let added = s.added + 1 in
      (
        record s {
          src = list_store p (record entry { on_rq = 1 }) s.src;
          rq = list_add_tail (copy_entry entry) s.rq;
          k = s.k +ℤ entry.burst;
          m = m;
          added = added;
          finished = added == s.processes;
        },
        p,
      )
  stcf_admit p entry (some (q, entry₂)) m s =
      let added = s.added + 1 in
      let src = list_store p (record entry { on_rq = 1 }) s.src in
      let rq = list_add_after q (copy_entry entry) s.rq in
      let k = s.k +ℤ entry.burst in
      if added == s.processes
      then (record s { src = src; rq = rq; k = k; m = m; added = added; finished = true }, p)
      else (
        record s {
          src =
              list_add_before p
                (record entry₂ { burst = entry₂.burst -ℤ m; on_rq = 0; tmp_src = 1 }) src;
          rq = list_store q (record entry₂ { burst = entry.arr +ℤ pos 1 }) rq;
          k = k;
          m = pos 0;
          added = added;
          processes = s.processes + 1;
          finished = false;
        },
        p + 1,
      )

  pub stcf_entry : ℤ → Process → ℤ × Stcf × ℕ → ℤ × Stcf × ℕ
  stcf_entry i entry (j, s, p) =
      let j' = j +ℤ entry.burst in
      let (hit, m₀) = preempted entry (entries s.rq) 0 s.m in
      let m = if ltb_ℤ m₀ entry.arr then entry.arr else m₀ in
      let (s', p') = stcf_admit p entry hit m s in
      if entry.on_rq == 0
      then (if is_due entry i j' s.k then (j', s', p' + 1) else (j', s, p + 1))
      else (j, s, p + 1)

  pub stcf_pass : ℤ → List Process → ℤ × Stcf × ℕ → Stcf
  stcf_pass i [] (j, s, p) = s
  stcf_pass i (entry ∷ rest) t =
      let next = stcf_entry i entry t in
      let more = stcf_pass i rest next in if next.1.finished then next.1 else more

  pub stcf_loop : ℕ → ℕ → Stcf → Stcf
  stcf_loop zero i s = s
  stcf_loop (suc n) i s =
      let s' = stcf_pass (pos i) (entries s.src) (pos 0, s, 0) in
      let rest = stcf_loop n (i + 1) s' in if s'.finished then s' else rest

  pub stcf_tick : Sim → Sim
  stcf_tick s =
      let start : Stcf = record {
        src = s.srcrq;
        rq = s.runqueue;
        k = pos 0;
        m = pos 0;
        added = 0;
        processes = s.processes;
        finished = false;
      } in
      let final = stcf_loop (pos_part s.span) 0 start in
      record s { srcrq = final.src; runqueue = final.rq; processes = final.processes }

  pub task_tick : Policy → Sim → Sim
  task_tick fcfs s = fcfs_tick s
  task_tick sjf s = sjf_tick s
  task_tick stcf s = stcf_tick s
  task_tick none_set s = s
