-- ===== src/Disk/Circular.antt =====
-- What `cscan_tick` and `clook_tick` of "Disk Scheduling/disksim.c" add up.
use mathlib.Core.List.{Perm}
use operating_system_basics.Base.{
  ℕ, ◌+◌, ◌*◌, ◌≡◌, ◌≢◌, refl, sym, ap, ◌∙◌, Bool, true, false, ◌||◌, some, List, [], ◌∷◌, ◌++◌,
  arith, if◌then◌else◌, count_if, Perm-count_if, count_if-append, Bool-cases, inl, inr, ℤ, pos,
  ◌+ℤ◌, ◌-ℤ◌, abs, eqb_ℤ, eqb_ℤ→eq, int_laws, eq_of_parts, +ℤ_assoc, +ℤ_zero, zero_+ℤ,
}
use operating_system_basics.LinkedList.{ListHead}
use operating_system_basics.Disk.{
  Task, Sim, text, num, circular_round, cscan_loop, clook_loop, cscan_tick, clook_tick,
  lowest_level, highest_level,
}
use operating_system_basics.Disk.Travel.{cylinders, travel}
use operating_system_basics.Disk.Queues.{lowest, highest, requests, listing, Prints}
use operating_system_basics.Disk.Outcome.{IsLoaded}
use operating_system_basics.Disk.Ticks.{with_both_ends, cscan_tick_lem, clook_tick_lem}

abbrev pub is_highest : Task → Bool
is_highest t = eqb_ℤ t.cylinder highest_level

-- What `cscan_tick` adds beside the distance: `abs(200 + 200)` at each stop at the highest level.
abbrev pub surplus : List Task → ℕ
surplus ts = 400 * count_if is_highest ts

-- At cylinder 0 the sum that the code adds is the distance.
abs-add-zero : (prev c : ℤ) → eqb_ℤ c (pos 0) ≡ true → abs (prev +ℤ c) ≡ abs (prev -ℤ c)
abs-add-zero prev c e = rw (eqb_ℤ→eq c (pos 0) e) (ap abs (eq_of_parts _ _ (omega int_laws)))

-- At cylinder 200 it is 400.
abs-add-highest : (c : ℤ) → eqb_ℤ c highest_level ≡ true → abs (c +ℤ c) ≡ pos 400
abs-add-highest c e = rw (eqb_ℤ→eq c highest_level e) (eq_of_parts _ _ (omega int_laws))

not_both : (c : ℤ) → eqb_ℤ c (pos 0) ≡ true → eqb_ℤ c highest_level ≡ false
not_both c e = rw (eqb_ℤ→eq c (pos 0) e) refl

-- One round from a state with no turn pending adds the distance, and 400 at the highest level.
cscan_round :
    (t : Task) (total prev : ℤ)
    → circular_round
        (eqb_ℤ t.cylinder lowest_level || eqb_ℤ t.cylinder highest_level)
        t
        (total, prev, false)
      ≡ (
        total +ℤ abs (prev -ℤ t.cylinder) +ℤ pos (if is_highest t then 400 else 0),
        t.cylinder,
        false,
      )
unfolding circular_round
cscan_round t total prev = elim (Bool-cases (eqb_ℤ t.cylinder (pos 0))) [
  | inl e ↦ rw (e, not_both t.cylinder e, abs-add-zero prev t.cylinder e, +ℤ_zero)
  | inr e ↦ elim (Bool-cases (eqb_ℤ t.cylinder highest_level)) [
    | inl f ↦ rw (e, f, abs-add-highest t.cylinder f)
    | inr f ↦ rw (e, f, +ℤ_zero)
  ]
]

clook_round :
    (t : Task) (total prev : ℤ)
    → circular_round (eqb_ℤ t.cylinder (pos 0)) t (total, prev, false)
      ≡ (total +ℤ abs (prev -ℤ t.cylinder), t.cylinder, false)
unfolding circular_round
clook_round t total prev = elim (Bool-cases (eqb_ℤ t.cylinder (pos 0))) [
  | inl e ↦ rw (e, abs-add-zero prev t.cylinder e)
  | inr e ↦ rw e
]

pub cscan_loop-travel :
    (ts : List Task) (total prev : ℤ)
    → cscan_loop ts (total, prev, false) ≡ total +ℤ travel prev (cylinders ts) +ℤ pos (surplus ts)
unfolding cscan_loop travel
cscan_loop-travel [] total prev = eq_of_parts _ _ (omega int_laws)
cscan_loop-travel (t ∷ ts) total prev = rw (cscan_round t total prev) (
    cscan_loop-travel ts _ t.cylinder
    ∙ regroup total (abs (prev -ℤ t.cylinder)) (travel t.cylinder (cylinders ts))
        (if is_highest t then 400 else 0) (surplus ts) (surplus (t ∷ ts)) (ground arith))
  where
    regroup :
        (a b c : ℤ) (k m n : ℕ) → n ≡ k + m → a +ℤ b +ℤ pos k +ℤ c +ℤ pos m ≡ a +ℤ (b +ℤ c) +ℤ pos n
    regroup a b c k m n e = eq_of_parts _ _ (omega int_laws)

pub clook_loop-travel :
    (ts : List Task) (total prev : ℤ)
    → clook_loop ts (total, prev, false) ≡ total +ℤ travel prev (cylinders ts)
unfolding clook_loop travel
clook_loop-travel [] total prev = sym (+ℤ_zero total)
clook_loop-travel (t ∷ ts) total prev = rw (clook_round t total prev) (
    clook_loop-travel ts (total +ℤ abs (prev -ℤ t.cylinder)) t.cylinder
    ∙ +ℤ_assoc total (abs (prev -ℤ t.cylinder)) (travel t.cylinder (cylinders ts)))

surplus-with_ends :
    (start : ℤ) (reqs : List Task)
    → surplus ((lowest start ∷ reqs) ++ (highest start ∷ [])) ≡ 400 + surplus reqs
surplus-with_ends start reqs = ground (arith, count_if-append is_highest reqs (highest start ∷ []))

cscan_loop-surplus :
    (start : ℤ) (order queued : List Task)
    → Perm order queued
    → cscan_loop order (pos 0, start, false)
      ≡ travel start (cylinders order) +ℤ pos (surplus queued)
cscan_loop-surplus start order queued same =
    cscan_loop-travel order (pos 0) start ∙ rw (Perm-count_if is_highest same, zero_+ℤ)

module _ (library : ListHead Task) (fresh : Task) (s : Sim library fresh) where
  -- `cscan_tick` succeeds on a loaded trace, and the total that it prints is the distance through
  -- the order that it prints, and 400 more for the stop at the highest level and for each request
  -- there.
  pub cscan_tick-total :
      (random : ℕ)
      → IsLoaded library fresh s
      → (s' : Sim library fresh) × (order : List Task) × (cscan_tick library fresh random s
          ≡ some s')
        × Perm order (with_both_ends library fresh s)
        × Prints library fresh "CSCAN,"
            (travel s.start (cylinders order) +ℤ pos (400 + surplus (requests library fresh s)))
            order
            s
            s'
  cscan_tick-total random e =
      let (s', ok, served) = cscan_tick_lem library fresh s random e in
      let total =
        cscan_loop-surplus s.start served.order _ served.same_requests
        ∙ ap (λ n. travel s.start (cylinders served.order) +ℤ pos n)
            (surplus-with_ends s.start (requests library fresh s)) in
      (
        s',
        served.order,
        ok,
        served.same_requests,
        served.printed
            ∙ ap
                (λ t.
                  s.out ++ (text "CSCAN," ∷ num t ∷ text "," ∷ listing (cylinders served.order)))
                total,
      )

  -- `clook_tick` succeeds on a loaded trace with a request, and the total that it prints is the
  -- distance through the order that it prints.
  pub clook_tick-total :
      (random : ℕ)
      → IsLoaded library fresh s
      → requests library fresh s ≢ []
      → (s' : Sim library fresh) × (order : List Task) × (clook_tick library fresh random s
          ≡ some s')
        × Perm order (requests library fresh s)
        × Prints library fresh "CLOOK," (travel s.start (cylinders order)) order s s'
  clook_tick-total random e ne =
      let (s', ok, served) = clook_tick_lem library fresh s random e ne in
      let total = clook_loop-travel served.order (pos 0) s.start ∙ zero_+ℤ _ in
      (
        s',
        served.order,
        ok,
        served.same_requests,
        served.printed
            ∙ ap
                (λ t.
                  s.out ++ (text "CLOOK," ∷ num t ∷ text "," ∷ listing (cylinders served.order)))
                total,
      )
