-- ===== src/Disk/Ticks.antt =====
-- What the six `*_tick` functions of "Disk Scheduling/disksim.c" serve, print and leave alone.

use operating_system_basics.Base.{
  ℕ, ◌≡◌, ◌≢◌, refl, sym, ap, ap₂, ◌∙◌, List, [], ◌∷◌, ◌++◌, arith, length, length-append,
  append-ne-nil, pos, zero_+ℤ,
}
use operating_system_basics.LinkedList.{ListHead}
use operating_system_basics.Disk.{
  Task, text, num, Sim, fcfs_loop, fcfs_tick, copy_dist, copy_all, with_ends, sstf_tick, scan_tick,
  cscan_tick, look_tick, clook_tick, finish, finish_ends, sstf_compare, scan_compare, cscan_compare,
  up_or_down,
}
use operating_system_basics.Disk.Travel.{cylinders, travel, seek_loop-eq-travel}
use operating_system_basics.Disk.Comparators.{
  sstf_compare-IsTotalPreorder, scan_compare-IsTotalPreorder, cscan_compare-IsTotalPreorder,
}
use operating_system_basics.Disk.Queues.{
  listing, Prints, seek_total, cscan_total, clook_total, lowest, highest, without_up, requests,
  printed_lem, fcfs_loop-queue, fcfs_loop-total, copy_all-entries, copy_dist-entries,
  length-without_up, with_ends-entries, sorted_lem, length-cylinders,
}
use operating_system_basics.Disk.Outcome.{IsLoaded, Serves, finish-Served, finish_ends-Served}

-- `fcfs_tick` serves the requests in the order of the trace, prints the distance through them and
-- the order, and leaves the trace as it is; an empty trace does not make it fail.
pub fcfs_tick_lem :
    (library : ListHead Task) (fresh : Task) (s : Sim library fresh)
    → IsLoaded library fresh s
    → let s' = fcfs_tick library fresh s in
      Prints library fresh "FCFS,"
        (travel s.start (cylinders (requests library fresh s)))
        (requests library fresh s)
        s
        s'
      × (s'.processes ≡ s.processes)
      × (s'.srcrq ≡ s.srcrq)
unfolding fcfs_tick
fcfs_tick_lem library fresh s e =
    let reqs = requests library fresh s in
    let rq = (fcfs_loop library fresh reqs library.init_list_head (pos 0) s.start).0 in
    let queue =
      fcfs_loop-queue library fresh reqs library.init_list_head (pos 0) s.start
      ∙ ap (λ l. cylinders l ++ cylinders reqs) library.entries-init in
    let total =
      fcfs_loop-total library fresh reqs library.init_list_head (pos 0) s.start ∙ zero_+ℤ _ in
    let size = e ∙ sym (length-cylinders reqs) ∙ sym (ap length queue) ∙ length-cylinders _ in
    (
      printed_lem library fresh "FCFS," _ (record s { runqueue = rq }) size
          ∙ ap₂ (λ t l. s.out ++ (text "FCFS," ∷ num t ∷ text "," ∷ listing l)) total queue,
      refl,
      refl,
    )

module _ (library : ListHead Task) (fresh : Task) (s : Sim library fresh) where
  without_up-ne-nil : (ts : List Task) → ts ≢ [] → without_up library fresh ts ≢ []
  without_up-ne-nil [] ne = ne
  without_up-ne-nil (t ∷ ts) ne = λ e. cc

  -- The queue of `scan_tick` and `cscan_tick`.
  abbrev pub with_both_ends : List Task
  with_both_ends = (lowest s.start ∷ requests library fresh s) ++ (highest s.start ∷ [])

  -- `sstf_tick` serves the requests sorted by `sstf_compare`, prints the distance through them and
  -- the order, and keeps the trace, on a trace with a request.
  pub sstf_tick_lem :
      IsLoaded library fresh s
      → requests library fresh s ≢ []
      → Serves library fresh sstf_compare "SSTF," seek_total
          (without_up library fresh (requests library fresh s))
          s
          (sstf_tick library fresh s)
  unfolding sstf_tick
  sstf_tick_lem e ne =
      let reqs = requests library fresh s in
      let sorted =
        sorted_lem library fresh sstf_compare (copy_dist library fresh reqs library.init_list_head)
          (without_up library fresh reqs)
          (copy_dist-entries library fresh reqs library.init_list_head
            ∙ ap (λ l. l ++ without_up library fresh reqs) library.entries-init)
          (without_up-ne-nil reqs ne) sstf_compare-IsTotalPreorder in
      (
        finish library fresh "SSTF," (seek_total s.start (library.entries sorted.rq)) sorted.rq s,
        rw (sorted.result, seek_loop-eq-travel),
        finish-Served library fresh s "SSTF," seek_total s.elevator_up
            (e ∙ sym (length-without_up library fresh reqs)) sorted,
      )

  -- `scan_tick` serves the requests and both ends of the disk, sorted by `scan_compare` for the
  -- direction that the random bit chooses; it prints what its loop adds up and the order, and
  -- keeps the trace and `processes`. An empty trace does not make it fail.
  pub scan_tick_lem :
      (random : ℕ)
      → IsLoaded library fresh s
      → Serves library fresh
          (scan_compare (up_or_down random))
          "SCAN,"
          seek_total
          with_both_ends
          s
          (scan_tick library fresh random s)
  unfolding scan_tick
  scan_tick_lem random e =
      let elevator = up_or_down random in
      let sorted =
        sorted_lem library fresh (scan_compare elevator) (with_ends library fresh s) with_both_ends
          (with_ends-entries library fresh s)
          (append-ne-nil (lowest s.start ∷ requests library fresh s) (highest s.start) [])
          (scan_compare-IsTotalPreorder elevator) in
      let size = length-append (lowest s.start ∷ requests library fresh s) (highest s.start ∷ []) in
      (
        finish_ends library fresh "SCAN," (seek_total s.start (library.entries sorted.rq)) sorted.rq
            (record s { elevator_up = elevator }),
        rw (sorted.result, seek_loop-eq-travel),
        finish_ends-Served library fresh s "SCAN," seek_total elevator (omega (arith, size)) sorted,
      )

  -- `cscan_tick` serves the requests and both ends of the disk, sorted by `cscan_compare` for the
  -- direction that the random bit chooses; it prints what its loop adds up and the order, and
  -- keeps the trace and `processes`. An empty trace does not make it fail.
  pub cscan_tick_lem :
      (random : ℕ)
      → IsLoaded library fresh s
      → Serves library fresh
          (cscan_compare (up_or_down random))
          "CSCAN,"
          cscan_total
          with_both_ends
          s
          (cscan_tick library fresh random s)
  unfolding cscan_tick
  cscan_tick_lem random e =
      let elevator = up_or_down random in
      let sorted =
        sorted_lem library fresh (cscan_compare elevator) (with_ends library fresh s) with_both_ends
          (with_ends-entries library fresh s)
          (append-ne-nil (lowest s.start ∷ requests library fresh s) (highest s.start) [])
          (cscan_compare-IsTotalPreorder elevator) in
      let size = length-append (lowest s.start ∷ requests library fresh s) (highest s.start ∷ []) in
      (
        finish_ends library fresh "CSCAN," (cscan_total s.start (library.entries sorted.rq))
            sorted.rq (record s { elevator_up = elevator }),
        rw sorted.result,
        finish_ends-Served library fresh s "CSCAN," cscan_total elevator (omega (arith, size))
            sorted,
      )

  -- `look_tick` serves the requests sorted by `scan_compare` for the direction that the random bit
  -- chooses, prints what its loop adds up and the order, and keeps the trace, on a trace with a
  -- request.
  pub look_tick_lem :
      (random : ℕ)
      → IsLoaded library fresh s
      → requests library fresh s ≢ []
      → Serves library fresh
          (scan_compare (up_or_down random))
          "LOOK,"
          seek_total
          (requests library fresh s)
          s
          (look_tick library fresh random s)
  unfolding look_tick
  look_tick_lem random e ne =
      let elevator = up_or_down random in
      let reqs = requests library fresh s in
      let sorted =
        sorted_lem library fresh (scan_compare elevator)
          (copy_all library fresh reqs library.init_list_head) reqs
          (copy_all-entries library fresh reqs library.init_list_head
            ∙ ap (λ l. l ++ reqs) library.entries-init)
          ne (scan_compare-IsTotalPreorder elevator) in
      (
        finish library fresh "LOOK," (seek_total s.start (library.entries sorted.rq)) sorted.rq
            (record s { elevator_up = elevator }),
        rw (sorted.result, seek_loop-eq-travel),
        finish-Served library fresh s "LOOK," seek_total elevator e sorted,
      )

  -- `clook_tick` serves the requests sorted by `cscan_compare` for the direction that the random bit
  -- chooses, prints what its loop adds up and the order, and keeps the trace, on a trace with a
  -- request.
  pub clook_tick_lem :
      (random : ℕ)
      → IsLoaded library fresh s
      → requests library fresh s ≢ []
      → Serves library fresh
          (cscan_compare (up_or_down random))
          "CLOOK,"
          clook_total
          (requests library fresh s)
          s
          (clook_tick library fresh random s)
  unfolding clook_tick
  clook_tick_lem random e ne =
      let elevator = up_or_down random in
      let reqs = requests library fresh s in
      let sorted =
        sorted_lem library fresh (cscan_compare elevator)
          (copy_all library fresh reqs library.init_list_head) reqs
          (copy_all-entries library fresh reqs library.init_list_head
            ∙ ap (λ l. l ++ reqs) library.entries-init)
          ne (cscan_compare-IsTotalPreorder elevator) in
      (
        finish library fresh "CLOOK," (clook_total s.start (library.entries sorted.rq)) sorted.rq
            (record s { elevator_up = elevator }),
        rw sorted.result,
        finish-Served library fresh s "CLOOK," clook_total elevator e sorted,
      )
