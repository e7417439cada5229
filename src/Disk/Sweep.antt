-- ===== src/Disk/Sweep.antt =====
-- How far `scan_tick` and `look_tick` of "Disk Scheduling/disksim.c" move the head.
use mathlib.Core.List.{Perm}
use mathlib.Core.List.Perm
use native.Mathlib.Bridge.{le_prop}
use operating_system_basics.Base.{
  ℕ, zero, suc, ◌+◌, ◌-◌, ◌≤◌, ◌<◌, ◌≡◌, ◌≢◌, ◌⊎◌, inl, inr, refl, ap, ◌∙◌, some, List, [], ◌∷◌,
  ◌++◌, arith, All, All-append, ℤ-set, All-perm, if◌then◌else◌, count_if, Perm-count_if,
  count_if-append, ℤ, pos, pos_part, ◌≤ℤ◌, int_laws, eq_of_parts,
}
use operating_system_basics.LinkedList.{ListHead, IsSorted}
use operating_system_basics.Disk.{
  Task, Sim, text, num, truth, scan_compare, scan_tick, look_tick, up_or_down,
}
use operating_system_basics.Disk.Travel.{cylinders, travel}
use operating_system_basics.Disk.Queues.{lowest, highest, requests, seek_total, listing, Prints}
use operating_system_basics.Disk.Outcome.{IsLoaded}
use operating_system_basics.Disk.Ticks.{with_both_ends, scan_tick_lem, look_tick_lem}
use operating_system_basics.Disk.Walk.{at_top, at_bottom}
use operating_system_basics.Disk.Geometry.{IsOnDisk, IsGood, late, coord, coord_of, sweep_travel}

-- From the start to the end that the head moves to first, and over the whole disk to the other.
abbrev pub full_sweep : ℕ → ℤ → ℕ
full_sweep random start =
    (if truth (up_or_down random) then 200 - pos_part start else pos_part start) + 200

up_or_down-cases : (random : ℕ) → (up_or_down random ≡ 0) ⊎ (up_or_down random ≡ 1)
unfolding up_or_down
up_or_down-cases random = omega arith

sweep_total :
    (e : ℕ) (start : ℤ) (order queued : List Task)
    → e ≤ 1
    → IsOnDisk start
    → Perm order queued
    → All (IsGood start) queued
    → IsSorted (scan_compare e) order
    → (travel start (cylinders order) ≤ℤ pos (coord_of e start + 200))
      × (0 < count_if (at_bottom (coord e) (late e)) queued
          → 0 < count_if (at_top (coord e) (late e) 200) queued
          → travel start (cylinders order) ≡ pos (coord_of e start + 200))
sweep_total e start order queued le hs same g sorted = (
  All-perm (IsGood start) le_prop (Perm.symm same) g
      λ good. (sweep_travel e start order le hs good sorted).0,
  λ low high. All-perm (IsGood start) (ℤ-set _ _) (Perm.symm same) g λ good.
      (sweep_travel e start order le hs good sorted).1
        (rw (Perm-count_if (at_bottom (coord e) (late e)) same) low)
        (rw (Perm-count_if (at_top (coord e) (late e) 200) same) high),
)

-- Both ends are in the queue of `scan_tick`.
has_ends :
    (e : ℕ) (start : ℤ) (reqs : List Task)
    → e ≤ 1
    → let queued = (lowest start ∷ reqs) ++ (highest start ∷ []) in
      (0 < count_if (at_bottom (coord e) (late e)) queued)
      × (0 < count_if (at_top (coord e) (late e) 200) queued)
has_ends zero start reqs le = ground (
  arith,
  count_if-append (at_bottom (coord 0) (late 0)) reqs (highest start ∷ []),
  count_if-append (at_top (coord 0) (late 0) 200) reqs (highest start ∷ []),
)
has_ends (suc e) start reqs le = ground (
  arith,
  count_if-append (at_bottom (coord (suc e)) (late (suc e))) reqs (highest start ∷ []),
  count_if-append (at_top (coord (suc e)) (late (suc e)) 200) reqs (highest start ∷ []),
)

ends-IsGood :
    (start : ℤ) (reqs : List Task)
    → IsOnDisk start
    → All (IsGood start) reqs
    → All (IsGood start) ((lowest start ∷ reqs) ++ (highest start ∷ []))
ends-IsGood start reqs hs g =
    All-append (IsGood start) (lowest start ∷ reqs) (highest start ∷ []) (low_good, g)
      (high_good, tt)
  where
    low_good : IsGood start (lowest start)
    low_good = ((omega arith, omega arith), inr (refl, hs.0, eq_of_parts _ _ (omega int_laws)))

    high_good : IsGood start (highest start)
    high_good = ((omega arith, omega arith), inl (refl, hs.1, refl))

coord_of-full_sweep :
    (random : ℕ) (start : ℤ) → coord_of (up_or_down random) start + 200 ≡ full_sweep random start
coord_of-full_sweep random start = elim (up_or_down-cases random) [ inl e ↦ rw e | inr e ↦ rw e ]

up_or_down-le : (random : ℕ) → up_or_down random ≤ 1
unfolding up_or_down
up_or_down-le random = omega arith

module _ (library : ListHead Task) (fresh : Task) (s : Sim library fresh) where
  -- `scan_tick` succeeds and prints a total that does not depend on the requests: the head goes to
  -- the end that the random bit chooses, and from there over the whole disk to the other, if the
  -- trace is loaded and the start and the requests are on the disk.
  pub scan_tick-total :
      (random : ℕ)
      → IsLoaded library fresh s
      → IsOnDisk s.start
      → All (IsGood s.start) (requests library fresh s)
      → (s' : Sim library fresh) × (order : List Task) × (scan_tick library fresh random s
          ≡ some s')
        × Perm order (with_both_ends library fresh s)
        × Prints library fresh "SCAN," (pos (full_sweep random s.start)) order s s'
  scan_tick-total random e hs g =
      let (s', ok, served) = scan_tick_lem library fresh s random e in
      let exact =
        (sweep_total (up_or_down random) s.start served.order _ (up_or_down-le random) hs
          served.same_requests (ends-IsGood s.start _ hs g) served.sorted).1 in
      let (low, high) =
        has_ends (up_or_down random) s.start (requests library fresh s) (up_or_down-le random) in
      let total = exact low high ∙ ap pos (coord_of-full_sweep random s.start) in
      (
        s',
        served.order,
        ok,
        served.same_requests,
        served.printed
            ∙ ap
                (λ t. s.out ++ (text "SCAN," ∷ num t ∷ text "," ∷ listing (cylinders served.order)))
                total,
      )

  -- `look_tick` succeeds and never prints more than `scan_tick` for the same random bit, if the
  -- trace is loaded and has a request, and the start and the requests are on the disk.
  pub look_tick-total :
      (random : ℕ)
      → IsLoaded library fresh s
      → requests library fresh s ≢ []
      → IsOnDisk s.start
      → All (IsGood s.start) (requests library fresh s)
      → (s' : Sim library fresh) × (order : List Task) × (total : ℤ) × (look_tick library fresh
            random s
          ≡ some s')
        × Perm order (requests library fresh s)
        × Prints library fresh "LOOK," total order s s'
        × (total ≡ travel s.start (cylinders order))
        × (total ≤ℤ pos (full_sweep random s.start))
  look_tick-total random e ne hs g =
      let (s', ok, served) = look_tick_lem library fresh s random e ne in
      let bound =
        (sweep_total (up_or_down random) s.start served.order _ (up_or_down-le random) hs
          served.same_requests g served.sorted).0 in
      (
        s',
        served.order,
        seek_total s.start served.order,
        ok,
        served.same_requests,
        served.printed,
        refl,
        omega (arith, bound, coord_of-full_sweep random s.start),
      )
