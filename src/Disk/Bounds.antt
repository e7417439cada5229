-- ===== src/Disk/Bounds.antt =====
-- The sums of "Disk Scheduling/disksim.c" fit an `int`: the head moves at most the whole disk for
-- each request.
use operating_system_basics.Base.{
  false, ◌*◌, ◌^◌, ◌≤◌, List, [], ◌∷◌, arith, All, length, ℤ, pos, ◌+ℤ◌, ◌-ℤ◌, ◌≤ℤ◌, ◌<ℤ◌, abs,
  int_laws, +ℤ_parts,
}
use operating_system_basics.LinkedList.{ListHead}
use operating_system_basics.Disk.{Task, seek_loop, fcfs_loop, cscan_loop, clook_loop}
use operating_system_basics.Disk.Travel.{cylinders, travel, seek_loop-travel}
use operating_system_basics.Disk.Queues.{fcfs_loop-total}
use operating_system_basics.Disk.Geometry.{IsOnDisk}
use operating_system_basics.Disk.Circular.{surplus, cscan_loop-travel, clook_loop-travel}

abbrev pub IsTaskOnDisk : Task → Type 0
IsTaskOnDisk t = IsOnDisk t.cylinder

step-le : (p c : ℤ) → IsOnDisk p → IsOnDisk c → abs (p -ℤ c) ≤ℤ pos 200
step-le p c hp hc = omega int_laws

travel-le :
    (p : ℤ) (ts : List Task)
    → IsOnDisk p
    → All IsTaskOnDisk ts
    → travel p (cylinders ts) ≤ℤ pos (200 * length ts)
unfolding travel
travel-le p [] hp h = omega arith
travel-le p (t ∷ ts) hp h = omega (
  arith,
  +ℤ_parts (abs (p -ℤ t.cylinder)) (travel t.cylinder (cylinders ts)),
  step-le p t.cylinder hp h.0,
  travel-le t.cylinder ts h.0 h.1,
)

surplus-le : (ts : List Task) → surplus ts ≤ 400 * length ts
surplus-le [] = omega arith
surplus-le (t ∷ ts) = ground (arith, surplus-le ts)

-- For a start and at most 3_500_000 entries on the disk, the totals of the loops of all six policies
-- fit an `int`: the loop of SSTF, SCAN and LOOK, that of FCFS, which copies the entries, that of CSCAN
-- and that of CLOOK.
pub totals_fit :
    (library : ListHead Task) (fresh : Task) (rq : library.Head) (start : ℤ) (order : List Task)
    → IsOnDisk start
    → All IsTaskOnDisk order
    → length order ≤ 3500000
    → (seek_loop order (pos 0) start <ℤ pos (2 ^ 31))
      × ((fcfs_loop library fresh order rq (pos 0) start).1 <ℤ pos (2 ^ 31))
      × (cscan_loop order (pos 0, start, false) <ℤ pos (2 ^ 31))
      × (clook_loop order (pos 0, start, false) <ℤ pos (2 ^ 31))
totals_fit library fresh rq start order hs h n =
    let bound = travel-le start order hs h in
    let far = travel start (cylinders order) in
    (
      rw (seek_loop-travel order (pos 0) start) (omega (arith, bound, +ℤ_parts (pos 0) far)),
      rw (fcfs_loop-total library fresh order rq (pos 0) start)
          (omega (arith, bound, +ℤ_parts (pos 0) far)),
      rw (cscan_loop-travel order (pos 0) start) (
          omega (
            arith,
            bound,
            surplus-le order,
            +ℤ_parts (pos 0) far,
            +ℤ_parts (pos 0 +ℤ far) (pos (surplus order)),
          )),
      rw (clook_loop-travel order (pos 0) start) (omega (arith, bound, +ℤ_parts (pos 0) far)),
    )
