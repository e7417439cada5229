-- ===== src/Disk/Geometry.antt =====
-- The queue that `scan_compare` of "Disk Scheduling/disksim.c" sorts, seen as a sweep of the head.

use operating_system_basics.Base.{
  ℕ, zero, suc, ◌+◌, ◌-◌, ◌≤◌, ◌<◌, ◌≡◌, ◌⊎◌, inr, refl, ap, Bool, not, List, [], ◌∷◌, arith, All,
  pos-add, count_if, ℤ, pos, pos_part, ◌-ℤ◌, ◌≤ℤ◌, abs, int_laws, -ℤ_parts, eq_of_parts,
}
use operating_system_basics.LinkedList.{IsSorted}
use operating_system_basics.Disk.{Task, truth, scan_compare, highest_level}
use operating_system_basics.Disk.Travel.{cylinders, travel}
use operating_system_basics.Disk.Walk.{
  gap, walk, Precedes, IsSwept, IsBelow, at_top, at_bottom, walk_sweep,
}

-- The cylinder is on the disk.
abbrev pub IsOnDisk : ℤ → Type 0
IsOnDisk c = (pos 0 ≤ℤ c) × (c ≤ℤ highest_level)

-- What `read_config` stores of a request: its side of the start, and its distance from it.
abbrev pub IsPlaced : ℤ → Task → Type 0
IsPlaced start t =
    (t.up ≡ 1) × (start ≤ℤ t.cylinder) × (t.dist ≡ t.cylinder -ℤ start)
    ⊎ (t.up ≡ 0) × (t.cylinder ≤ℤ start) × (t.dist ≡ start -ℤ t.cylinder)

abbrev pub IsGood : ℤ → Task → Type 0
IsGood start t = IsOnDisk t.cylinder × IsPlaced start t

-- The two directions, counted from the end that the head moves to first.
abbrev pub late : ℕ → Task → Bool
late zero t = truth t.up
late (suc e) t = not (truth t.up)

abbrev pub coord_of : ℕ → ℤ → ℕ
coord_of zero c = pos_part c
coord_of (suc e) c = 200 - pos_part c

abbrev pub coord : ℕ → Task → ℕ
coord e t = coord_of e t.cylinder

abs-gap :
    (e : ℕ) (p c : ℤ)
    → IsOnDisk p
    → IsOnDisk c
    → abs (p -ℤ c) ≡ pos (gap (coord_of e p) (coord_of e c))
abs-gap zero p c hp hc = eq_of_parts _ _ (omega int_laws)
abs-gap (suc e) p c hp hc = eq_of_parts _ _ (omega int_laws)

travel-walk :
    (e : ℕ) (p : ℤ) (ts : List Task)
    → IsOnDisk p
    → All (λ t. IsOnDisk t.cylinder) ts
    → travel p (cylinders ts) ≡ pos (walk (coord e) (late e) (coord_of e p) ts)
unfolding travel walk
travel-walk e p [] hp h = refl
travel-walk e p (t ∷ ts) hp h =
    rw (abs-gap e p t.cylinder hp h.0, travel-walk e t.cylinder ts h.0 h.1) (pos-add _ _)

-- `scan_compare` orders each side by the cylinder.
pub compare-Precedes :
    (e : ℕ) (start : ℤ) (a b : Task)
    → e ≤ 1
    → IsGood start a
    → IsGood start b
    → scan_compare e a b ≡ 0
    → Precedes (coord e) (late e) a b
unfolding scan_compare
compare-Precedes zero start a b le ga gb h = ground (
  arith,
  -ℤ_parts a.cylinder start,
  -ℤ_parts start a.cylinder,
  -ℤ_parts b.cylinder start,
  -ℤ_parts start b.cylinder,
)
compare-Precedes (suc e) start a b le ga gb h = ground (
  arith,
  -ℤ_parts a.cylinder start,
  -ℤ_parts start a.cylinder,
  -ℤ_parts b.cylinder start,
  -ℤ_parts start b.cylinder,
)

All-Precedes :
    (e : ℕ) (start : ℤ) (a : Task) (ts : List Task)
    → e ≤ 1
    → IsGood start a
    → All (IsGood start) ts
    → All (λ b. scan_compare e a b ≡ 0) ts
    → All (Precedes (coord e) (late e) a) ts
All-Precedes e start a [] le ga g h = tt
All-Precedes e start a (t ∷ ts) le ga g h =
    (compare-Precedes e start a t le ga g.0 h.0, All-Precedes e start a ts le ga g.1 h.1)

pub sorted-IsSwept :
    (e : ℕ) (start : ℤ) (ts : List Task)
    → e ≤ 1
    → All (IsGood start) ts
    → IsSorted (scan_compare e) ts
    → IsSwept (coord e) (late e) ts
sorted-IsSwept e start [] le g h = tt
sorted-IsSwept e start (t ∷ ts) le g h =
    (All-Precedes e start t ts le g.0 g.1 h.0, sorted-IsSwept e start ts le g.1 h.1)

All-IsOnDisk :
    (start : ℤ) (ts : List Task) → All (IsGood start) ts → All (λ t. IsOnDisk t.cylinder) ts
All-IsOnDisk start [] g = tt
All-IsOnDisk start (t ∷ ts) g = (g.0.0, All-IsOnDisk start ts g.1)

All-within :
    (e : ℕ) (start : ℤ) (ts : List Task) → All (IsGood start) ts → All (λ t. coord e t ≤ 200) ts
All-within e start [] g = tt
All-within zero start (t ∷ ts) g = (ground arith, All-within zero start ts g.1)
All-within (suc e) start (t ∷ ts) g = (omega arith, All-within (suc e) start ts g.1)

All-near :
    (e : ℕ) (start : ℤ) (ts : List Task)
    → All (IsGood start) ts
    → All (IsBelow (coord e) (late e) (coord_of e start)) ts
All-near e start [] g = tt
All-near zero start (t ∷ ts) g = (ground arith, All-near zero start ts g.1)
All-near (suc e) start (t ∷ ts) g = (ground arith, All-near (suc e) start ts g.1)

-- The total of a sorted queue: at most to the first end and over the whole disk, and exactly that
-- if both ends are in the queue.
pub sweep_travel :
    (e : ℕ) (start : ℤ) (ts : List Task)
    → e ≤ 1
    → IsOnDisk start
    → All (IsGood start) ts
    → IsSorted (scan_compare e) ts
    → (travel start (cylinders ts) ≤ℤ pos (coord_of e start + 200))
      × (0 < count_if (at_bottom (coord e) (late e)) ts
          → 0 < count_if (at_top (coord e) (late e) 200) ts
          → travel start (cylinders ts) ≡ pos (coord_of e start + 200))
sweep_travel e start ts le hs g h =
    let (bound, exact) =
      walk_sweep (coord e) (late e) 200 (coord_of e start) ts (coord_of-le e start hs)
        (All-near e start ts g) (All-within e start ts g) (sorted-IsSwept e start ts le g h) in
    rw (travel-walk e start ts hs (All-IsOnDisk start ts g))
      (omega (arith, bound), λ low high. ap pos (exact (inr low) high))
  where
    coord_of-le : (e : ℕ) (c : ℤ) → IsOnDisk c → coord_of e c ≤ 200
    coord_of-le zero c h = ground arith
    coord_of-le (suc e) c h = omega arith
