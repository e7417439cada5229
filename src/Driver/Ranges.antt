-- ===== src/Driver/Ranges.antt =====
-- mdriver.c: what `add_range` and `remove_range` keep true of the live payloads.
use operating_system_basics.Base.{
  ℕ, zero, suc, subst, ◌+◌, ◌-◌, ◌%◌, ◌≤◌, ◌<◌, ◌≡◌, ◌≢◌, ◌⊎◌, inl, inr, refl, sym, Bool, true,
  false, ◌&&◌, ◌||◌, Option, none, some, List, [], ◌∷◌, arith, ◌==◌, ltb, leb, All, Bool-cases,
  ltb→lt, not-ltb→le, ==_iff, ap, ◌∙◌,
}
use operating_system_basics.Driver.{
  Range, alignment, overlaps, any_overlap, add_range, remove_range,
}

-- A payload that starts at `lo` and ends at `hi` has no byte in common with an older one, or holds
-- it strictly inside: the two tests of `add_range` are on its ends.
abbrev pub ApartOrAround : ℕ → ℕ → Range → Type 0
ApartOrAround lo hi p = (hi < p.lo) ⊎ ((p.hi < lo) ⊎ ((lo < p.lo) × p.hi < hi))

-- The list of payloads, the newest first: each is aligned and has a byte, and has no byte in common
-- with an older one or holds it strictly inside.
abbrev pub Checked : List Range → Type 0
Checked [] = Unit
Checked (r ∷ ranges) =
    (r.lo % alignment ≡ 0) × r.lo ≤ r.hi × All (ApartOrAround r.lo r.hi) ranges × Checked ranges

pub or_false : (a b : Bool) → (a || b) ≡ false → (a ≡ false) × (b ≡ false)
or_false true b e = cc
or_false false b e = (refl, e)

before : (a b c : ℕ) → (leb a b && leb b c) ≡ false → b ≤ c → b < a
before a b c e h = ground arith

after : (a b c : ℕ) → (leb a b && leb b c) ≡ false → a ≤ b → c < b
after a b c e h = ground arith

overlaps-ApartOrAround : (lo hi : ℕ) (p : Range) → overlaps lo hi p ≡ false → ApartOrAround lo hi p
overlaps-ApartOrAround lo hi p e = elim (Bool-cases (ltb hi p.lo)) [
  | inl c ↦ inl (ltb→lt hi p.lo c)
  | inr c ↦ elim (Bool-cases (ltb p.hi lo)) [
    | inl d ↦ inr (inl (ltb→lt p.hi lo d))
    | inr d ↦
        let above = not-ltb→le hi p.lo c in
        let under = not-ltb→le p.hi lo d in
        let (at_lo, at_hi) = or_false (leb p.lo lo && leb lo p.hi) (leb p.lo hi && leb hi p.hi) e in
        inr (inr (before p.lo lo p.hi at_lo under, after p.lo hi p.hi at_hi above))
  ]
]

any_overlap-ApartOrAround :
    (lo hi : ℕ) (ranges : List Range)
    → any_overlap lo hi ranges ≡ false
    → All (ApartOrAround lo hi) ranges
unfolding any_overlap
any_overlap-ApartOrAround lo hi [] e = tt
any_overlap-ApartOrAround lo hi (p ∷ ranges) e =
    let (first, others) = or_false (overlaps lo hi p) (any_overlap lo hi ranges) e in
    (overlaps-ApartOrAround lo hi p first, any_overlap-ApartOrAround lo hi ranges others)

heap_bounds :
    (lo hi heap_lo heap_hi : ℕ)
    → (ltb lo heap_lo || ltb heap_hi lo || ltb hi heap_lo || ltb heap_hi hi) ≡ false
    → heap_lo ≤ lo × hi ≤ heap_hi
heap_bounds lo hi heap_lo heap_hi b = (ground arith, ground arith)

pub in_bounds :
    (lo hi heap_lo heap_hi : ℕ)
    → heap_lo ≤ lo
    → lo ≤ hi
    → hi ≤ heap_hi
    → (ltb lo heap_lo || ltb heap_hi lo || ltb hi heap_lo || ltb heap_hi hi) ≡ false
in_bounds lo hi heap_lo heap_hi a b c = ground arith

-- What `add_range` asks of a payload.
abbrev pub Acceptable : ℕ → ℕ → List Range → ℕ → ℕ → Type 0
Acceptable heap_lo heap_hi ranges lo size =
    (lo % alignment ≡ 0)
    × heap_lo ≤ lo
    × lo + size - 1 ≤ heap_hi
    × All (ApartOrAround lo (lo + size - 1)) ranges

-- The answer of `add_range`, with the list after it.
abbrev pub Answer : ℕ → ℕ → List Range → ℕ → ℕ → Bool → List Range → Type 0
Answer heap_lo heap_hi ranges lo size true after =
    (after ≡ record { lo = lo; hi = lo + size - 1 } ∷ ranges)
    × Acceptable heap_lo heap_hi ranges lo size
Answer heap_lo heap_hi ranges lo size false after =
    (after ≡ ranges) × ¬ Acceptable heap_lo heap_hi ranges lo size

not_both : (b : Bool) → b ≡ true → ¬ (b ≡ false)
not_both b e f = cc

ApartOrAround-overlaps :
    (lo hi : ℕ) (p : Range) → lo ≤ hi → ApartOrAround lo hi p → overlaps lo hi p ≡ false
ApartOrAround-overlaps lo hi p l (inl a) = ground arith
ApartOrAround-overlaps lo hi p l (inr (inl b)) = ground arith
ApartOrAround-overlaps lo hi p l (inr (inr (a, b))) = ground arith

ApartOrAround-any_overlap :
    (lo hi : ℕ) (ranges : List Range)
    → lo ≤ hi
    → All (ApartOrAround lo hi) ranges
    → any_overlap lo hi ranges ≡ false
unfolding any_overlap
ApartOrAround-any_overlap lo hi [] l h = refl
ApartOrAround-any_overlap lo hi (p ∷ ranges) l (first, others) =
    rw (ApartOrAround-overlaps lo hi p l first) (ApartOrAround-any_overlap lo hi ranges l others)

-- `add_range` comes back for a positive size. If the payload is aligned, lies in the heap, and of each
-- older payload has no byte in common with it or holds it strictly inside, `add_range` accepts it and
-- puts it on the list; and only then: otherwise it answers 0 and leaves the list as it is.
pub add_range-Answer :
    (heap_lo heap_hi : ℕ) (ranges : List Range) (lo size : ℕ)
    → 0 < size
    → (ok : Bool) × (after : List Range) × (add_range heap_lo heap_hi ranges lo size
        ≡ some (ok, after))
      × Answer heap_lo heap_hi ranges lo size ok after
unfolding add_range
add_range-Answer heap_lo heap_hi ranges lo size pos =
    let hi = lo + size - 1 in
    let sized : (size == 0) ≡ false = ground arith in
    elim (Bool-cases (lo % alignment == 0)) [
      | inr a ↦
          rw (sized, a)
            (
              false,
              ranges,
              refl,
              (refl, λ k. not_both (lo % alignment == 0) ((==_iff (lo % alignment) 0).1 k.0) a),
            )
      | inl a ↦
          elim (Bool-cases (ltb lo heap_lo || ltb heap_hi lo || ltb hi heap_lo || ltb heap_hi hi)) [
            | inl b ↦
                rw (sized, a, b)
                  (
                    false,
                    ranges,
                    refl,
                    (
                      refl,
                      λ k. not_both _ b (in_bounds lo hi heap_lo heap_hi k.1 (omega arith) k.2),
                    ),
                  )
            | inr b ↦ elim (Bool-cases (any_overlap lo hi ranges)) [
              | inl c ↦
                  rw (sized, a, b, c)
                    (
                      false,
                      ranges,
                      refl,
                      (
                        refl,
                        λ k.
                            not_both _ c (ApartOrAround-any_overlap lo hi ranges (omega arith) k.3),
                      ),
                    )
              | inr c ↦
                  rw (sized, a, b, c)
                    (
                      true,
                      _,
                      refl,
                      (
                        refl,
                        (
                          (==_iff (lo % alignment) 0).0 a,
                          (heap_bounds lo hi heap_lo heap_hi b).0,
                          (heap_bounds lo hi heap_lo heap_hi b).1,
                          any_overlap-ApartOrAround lo hi ranges c,
                        ),
                      ),
                    )
            ]
          ]
    ]

no_hi : (b : Bool) → ((b && false) || false) ≡ false
no_hi true = refl
no_hi false = refl

inside-overlap :
    (lo hi : ℕ) (ranges : List Range)
    → All (λ p. (lo < p.lo) × p.hi < hi) ranges
    → any_overlap lo hi ranges ≡ false
unfolding any_overlap
inside-overlap lo hi [] h = refl
inside-overlap lo hi (p ∷ ranges) ((a, b), h) =
    let c : leb p.lo lo ≡ false = ground arith in
    let d : leb hi p.hi ≡ false = ground arith in
    let e = inside-overlap lo hi ranges h in rw (c, d, e) (no_hi (leb p.lo hi))

-- The test misses a payload that holds each older one strictly inside: where it is aligned and lies
-- in the heap, it is accepted.
pub add_range-inside :
    (heap_lo heap_hi : ℕ) (ranges : List Range) (lo size : ℕ)
    → 0 < size
    → lo % alignment ≡ 0
    → heap_lo ≤ lo
    → lo + size - 1 ≤ heap_hi
    → All (λ p. (lo < p.lo) × p.hi < lo + size - 1) ranges
    → add_range heap_lo heap_hi ranges lo size
      ≡ some (true, record { lo = lo; hi = lo + size - 1 } ∷ ranges)
unfolding add_range
add_range-inside heap_lo heap_hi ranges lo size pos aligned low high inside =
    let hi = lo + size - 1 in
    let sized : (size == 0) ≡ false = ground arith in
    let a : (lo % alignment == 0) ≡ true = (==_iff (lo % alignment) 0).1 aligned in
    let b : (ltb lo heap_lo || ltb heap_hi lo || ltb hi heap_lo || ltb heap_hi hi) ≡ false =
      in_bounds lo hi heap_lo heap_hi low (omega arith) high in
    rw (sized, a, b, inside-overlap lo hi ranges inside) refl

ApartOrAround-kept :
    (lo hi : ℕ) (ranges : List Range) (q : ℕ)
    → All (ApartOrAround lo hi) ranges
    → All (ApartOrAround lo hi) (remove_range ranges q)
unfolding remove_range
ApartOrAround-kept lo hi [] q h = tt
ApartOrAround-kept lo hi (p ∷ ranges) q h = elim (Bool-cases (p.lo == q)) [
  | inl e ↦ rw e h.1
  | inr e ↦ rw e (h.0, ApartOrAround-kept lo hi ranges q h.1)
]

-- `remove_range` keeps the list checked.
pub remove_range-Checked :
    (ranges : List Range) (q : ℕ) → Checked ranges → Checked (remove_range ranges q)
unfolding remove_range
remove_range-Checked [] q h = tt
remove_range-Checked (p ∷ ranges) q (a, l, clear, h) = elim (Bool-cases (p.lo == q)) [
  | inl e ↦ rw e h
  | inr e ↦
      rw e (a, l, ApartOrAround-kept p.lo p.hi ranges q clear, remove_range-Checked ranges q h)
]

Answer-Checked :
    (heap_lo heap_hi : ℕ) (ranges : List Range) (lo size : ℕ) (ok : Bool) (after : List Range)
    → 0 < size
    → Checked ranges
    → Answer heap_lo heap_hi ranges lo size ok after
    → Checked after
Answer-Checked heap_lo heap_hi ranges lo size true after pos h (e, (aligned, low, high, clear)) =
    subst Checked (sym e) (aligned, omega arith, clear, h)
Answer-Checked heap_lo heap_hi ranges lo size false after pos h (e, refused) =
    subst Checked (sym e) h

none-some : (a : Bool × List Range) → none ≢ some a
none-some a e = cc

abbrev list_of : Option (Bool × List Range) → List Range
list_of none = []
list_of (some (ok, ranges)) = ranges

add_range-zero :
    (heap_lo heap_hi : ℕ) (ranges : List Range) (lo : ℕ)
    → add_range heap_lo heap_hi ranges lo 0 ≡ none
unfolding add_range
add_range-zero heap_lo heap_hi ranges lo = refl

-- So does `add_range`, whatever it answers.
pub add_range-Checked :
    (heap_lo heap_hi : ℕ) (ranges : List Range) (lo size : ℕ) (ok : Bool) (after : List Range)
    → Checked ranges
    → add_range heap_lo heap_hi ranges lo size ≡ some (ok, after)
    → Checked after
add_range-Checked heap_lo heap_hi ranges lo zero ok after h e =
    absurd (none-some (ok, after) (sym (add_range-zero heap_lo heap_hi ranges lo) ∙ e))
add_range-Checked heap_lo heap_hi ranges lo (suc size) ok after h e =
    let (ok', after', e', answer) =
      add_range-Answer heap_lo heap_hi ranges lo (suc size) (omega arith) in
    subst Checked (ap list_of (sym e' ∙ e))
      (Answer-Checked heap_lo heap_hi ranges lo (suc size) ok' after' (omega arith) h answer)
