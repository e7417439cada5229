-- ===== src/Disk/Walk.antt =====
-- Sweeps in general, for SCAN and LOOK: first towards coordinate 0 through what is not late, then
-- back towards `top` through what is. The coordinate counts from the end that the head moves to.
use operating_system_basics.Base.{
  ℕ, ◌+◌, ◌-◌, ◌≤◌, ◌<◌, ◌≡◌, ◌⊎◌, inl, inr, refl, Bool, true, false, not, ◌&&◌, List, [], ◌∷◌,
  arith, All, ◌==◌, count_if, Bool-cases,
}

abbrev pub gap : ℕ → ℕ → ℕ
gap p c = (p - c) + (c - p)

module _ {T : Type 0} (coord : T → ℕ) (late : T → Bool) where
  unfoldable pub walk : ℕ → List T → ℕ
  walk p [] = 0
  walk p (t ∷ ts) = gap p (coord t) + walk (coord t) ts

  -- `a` may come before `b`.
  abbrev pub Precedes : T → T → Type 0
  Precedes a b =
      (late a ≡ false → late b ≡ false → coord b ≤ coord a)
      × (late a ≡ true → (late b ≡ true) × (coord a ≤ coord b))

  abbrev pub IsSwept : List T → Type 0
  IsSwept [] = Unit
  IsSwept (t ∷ ts) = All (Precedes t) ts × IsSwept ts

  -- Going back from `p`.
  abbrev IsAhead : ℕ → T → Type 0
  IsAhead p t = (late t ≡ true) × (p ≤ coord t)

  -- Still to be met on the way to 0, or later.
  abbrev pub IsBelow : ℕ → T → Type 0
  IsBelow p t = late t ≡ false → coord t ≤ p

  abbrev pub at_top : ℕ → T → Bool
  at_top top t = late t && coord t == top

  abbrev pub at_bottom : T → Bool
  at_bottom t = not (late t) && coord t == 0

  All-IsAhead :
      (t : T) (ts : List T) → late t ≡ true → All (Precedes t) ts → All (IsAhead (coord t)) ts
  All-IsAhead t [] l h = tt
  All-IsAhead t (u ∷ ts) l h = (h.0.1 l, All-IsAhead t ts l h.1)

  All-IsBelow :
      (t : T) (ts : List T) → late t ≡ false → All (Precedes t) ts → All (IsBelow (coord t)) ts
  All-IsBelow t [] l h = tt
  All-IsBelow t (u ∷ ts) l h = (h.0.0 l, All-IsBelow t ts l h.1)

  no_bottom : (p : ℕ) (ts : List T) → All (IsAhead p) ts → count_if at_bottom ts ≡ 0
  no_bottom p [] h = refl
  no_bottom p (t ∷ ts) h = ground (arith, no_bottom p ts h.1)

  module _ (top : ℕ) where
    walk_back :
        (p : ℕ) (ts : List T)
        → p ≤ top
        → All (IsAhead p) ts
        → All (λ t. coord t ≤ top) ts
        → IsSwept ts
        → (walk p ts ≤ top - p) × ((p ≡ top) ⊎ (0 < count_if (at_top top) ts) → walk p ts ≡ top - p)
    unfolding walk
    walk_back p [] le ahead within swept = omega arith
    walk_back p (t ∷ ts) le ahead within swept =
        let (bound, exact) =
          walk_back (coord t) ts within.0 (All-IsAhead t ts ahead.0.0 swept.0) within.1 swept.1 in
        (ground (arith, bound), λ met. ground (arith, exact))

    pub walk_sweep :
        (p : ℕ) (ts : List T)
        → p ≤ top
        → All (IsBelow p) ts
        → All (λ t. coord t ≤ top) ts
        → IsSwept ts
        → (walk p ts ≤ p + top)
          × ((p ≡ 0) ⊎ (0 < count_if at_bottom ts)
              → 0 < count_if (at_top top) ts
              → walk p ts ≡ p + top)
    unfolding walk
    walk_sweep p [] le below within swept = omega arith
    walk_sweep p (t ∷ ts) le below within swept = elim (Bool-cases (late t)) [
      | inl l ↦
          let ahead = All-IsAhead t ts l swept.0 in
          let (bound, exact) = walk_back (coord t) ts within.0 ahead within.1 swept.1 in
          let none_left = no_bottom (coord t) ts ahead in
          (ground (arith, bound), λ low high. ground (arith, exact, none_left))
      | inr l ↦
          let near = below.0 l in
          let (bound, exact) =
            walk_sweep (coord t) ts within.0 (All-IsBelow t ts l swept.0) within.1 swept.1 in
          (ground (arith, bound), λ low high. ground (arith, exact))
    ]
