-- ===== src/Driver/Pairs.antt =====
-- mdriver.c: the blocks that a trace has open, each with its entry of the list of payloads.
use mathlib.Core.List.{Permᴰ}
use mathlib.Core.List.Permᴰ
use mathlib.Core.Option.{some-injective}
use operating_system_basics.Base.{
  ℕ, zero, suc, ◌<◌, ◌≡◌, ◌≢◌, ◌⊎◌, refl, sym, ap, ◌∙◌, true, false, some, List, [], ◌∷◌, arith,
  subst, if◌then◌else◌, inl, inr, All, ◌==◌, ==_iff, set, get_elem?, Bool-cases, length,
}
use operating_system_basics.Driver.{Range, remove_range}
use operating_system_basics.Driver.Payloads.{Backed}
use operating_system_basics.Malloc.FreeList.Disjoint.{
  Block, Disjoint, Among, All-Among, Permᴰ-Among,
}

-- The open indices and the list of payloads, the newest first.
abbrev pub Paired : List ℕ → List Block → List ℕ → List Range → Type 0
Paired blocks allocated [] [] = Unit
Paired blocks allocated [] (r ∷ rs) = ⊥
Paired blocks allocated (i ∷ is) [] = ⊥
Paired blocks allocated (i ∷ is) (r ∷ rs) =
    (get_elem? blocks i ≡ some r.lo)
    × Backed allocated r
    × All (λ (s : Range). r.lo ≢ s.lo) rs
    × Paired blocks allocated is rs

abbrev pub Open : ℕ → List ℕ → Type 0
Open i [] = ⊥
Open i (j ∷ js) = (j ≡ i) ⊎ Open i js

unfoldable pub close : ℕ → List ℕ → List ℕ
close i [] = []
close i (j ∷ js) = let rest = close i js in if j == i then js else j ∷ rest

pub get_elem?-set : (xs : List ℕ) (i p j : ℕ) → j ≢ i → get_elem? (set xs i p) j ≡ get_elem? xs j
get_elem?-set [] i p j n = refl
get_elem?-set (x ∷ xs) zero p zero n = absurd (n refl)
get_elem?-set (x ∷ xs) zero p (suc j) n = refl
get_elem?-set (x ∷ xs) (suc i) p zero n = refl
get_elem?-set (x ∷ xs) (suc i) p (suc j) n = get_elem?-set xs i p j (λ e. n (ap suc e))

pub get_elem?-set_same : (xs : List ℕ) (i p : ℕ) → i < length xs → get_elem? (set xs i p) i ≡ some p
get_elem?-set_same [] i p lt = absurd (omega arith)
get_elem?-set_same (x ∷ xs) zero p lt = refl
get_elem?-set_same (x ∷ xs) (suc i) p lt = get_elem?-set_same xs i p (omega arith)

-- After a request for memory.
pub Paired-set :
    (blocks : List ℕ) (i p n : ℕ) (before after : List Block) (is : List ℕ) (rs : List Range)
    → Permᴰ after ((p, n) ∷ before)
    → All (λ j. j ≢ i) is
    → Paired blocks before is rs
    → Paired (set blocks i p) after is rs
Paired-set blocks i p n before after [] [] perm a h = tt
Paired-set blocks i p n before after [] (r ∷ rs) perm a h = elim h [ ]
Paired-set blocks i p n before after (j ∷ js) [] perm a h = elim h [ ]
Paired-set blocks i p n before after (j ∷ js) (r ∷ rs) perm (other, a)
      (e, (k, among, le, lt), d, h) =
    (
      get_elem?-set blocks i p j other ∙ e,
      (k, Permᴰ-Among (r.lo, k) perm (inr among), le, lt),
      d,
      Paired-set blocks i p n before after js rs perm a h,
    )

pub Paired-new :
    (blocks : List ℕ) (p n : ℕ) (before : List Block) (is : List ℕ) (rs : List Range)
    → 0 < n
    → All (Disjoint (p, n)) before
    → Paired blocks before is rs
    → All (λ (s : Range). p ≢ s.lo) rs × All (Backed before) rs
Paired-new blocks p n before [] [] positive d h = (tt, tt)
Paired-new blocks p n before [] (r ∷ rs) positive d h = elim h [ ]
Paired-new blocks p n before (j ∷ js) [] positive d h = elim h [ ]
Paired-new blocks p n before (j ∷ js) (r ∷ rs) positive d (e, (k, among, le, lt), f, h) =
    let apart = All-Among (Disjoint (p, n)) (r.lo, k) before d among in
    let (others, backed) = Paired-new blocks p n before js rs positive d h in
    (
      (λ same. elim apart [ inl x ↦ absurd (omega arith) | inr x ↦ absurd (omega arith) ], others),
      ((k, among, le, lt), backed),
    )

-- The block of an open index.
pub Paired-Open :
    (blocks : List ℕ) (before : List Block) (is : List ℕ) (rs : List Range) (i : ℕ)
    → Paired blocks before is rs
    → Open i is
    → (p : ℕ) × (n : ℕ) × (get_elem? blocks i ≡ some p) × Among (p, n) before
Paired-Open blocks before [] rs i h m = elim m [ ]
Paired-Open blocks before (j ∷ js) [] i h m = elim h [ ]
Paired-Open blocks before (j ∷ js) (r ∷ rs) i (e, (k, among, le, lt), f, h) (inl same) =
    (r.lo, k, ap (λ x. get_elem? blocks x) (sym same) ∙ e, among)
Paired-Open blocks before (j ∷ js) (r ∷ rs) i (e, b, f, h) (inr m) =
    Paired-Open blocks before js rs i h m

-- A payload that starts elsewhere stays in its block when the block at `p` is freed.
Backed-other :
    (p n : ℕ) (before after : List Block) (r : Range)
    → Permᴰ before ((p, n) ∷ after)
    → r.lo ≢ p
    → Backed before r
    → Backed after r
Backed-other p n before after r perm other (k, among, le, lt) =
    elim (Permᴰ-Among {xs = (p, n) ∷ after} (r.lo, k) (Permᴰ.symm perm) among) [
      | inl e ↦ absurd (other (ap (λ (x : Block). x.0) e))
      | inr m ↦ (k, m, le, lt)
    ]

Paired-others :
    (blocks : List ℕ) (p n : ℕ) (before after : List Block) (is : List ℕ) (rs : List Range)
    → Permᴰ before ((p, n) ∷ after)
    → All (λ (s : Range). p ≢ s.lo) rs
    → Paired blocks before is rs
    → Paired blocks after is rs
Paired-others blocks p n before after [] [] perm a h = tt
Paired-others blocks p n before after [] (r ∷ rs) perm a h = elim h [ ]
Paired-others blocks p n before after (j ∷ js) [] perm a h = elim h [ ]
Paired-others blocks p n before after (j ∷ js) (r ∷ rs) perm (other, a) (e, b, f, h) = (
  e,
  Backed-other p n before after r perm (λ x. other (sym x)) b,
  f,
  Paired-others blocks p n before after js rs perm a h,
)

-- The payload of an open index is one of those that differ from `q`.
Open-differs :
    (blocks : List ℕ) (before : List Block) (is : List ℕ) (rs : List Range) (i p q : ℕ)
    → Paired blocks before is rs
    → Open i is
    → get_elem? blocks i ≡ some p
    → All (λ (s : Range). q ≢ s.lo) rs
    → q ≢ p
Open-differs blocks before [] rs i p q h m e a = elim m [ ]
Open-differs blocks before (j ∷ js) [] i p q h m e a = elim h [ ]
Open-differs blocks before (j ∷ js) (r ∷ rs) i p q (k, b, f, h) (inl same) e (other, a) =
    λ x. other (x ∙ some-injective p r.lo (sym e ∙ ap (λ y. get_elem? blocks y) (sym same) ∙ k))
Open-differs blocks before (j ∷ js) (r ∷ rs) i p q (k, b, f, h) (inr m) e (other, a) =
    Open-differs blocks before js rs i p q h m e a

All-remove_range :
    (P : Range → Type 0) (rs : List Range) (p : ℕ) → All P rs → All P (remove_range rs p)
unfolding remove_range
All-remove_range P [] p h = tt
All-remove_range P (r ∷ rs) p (k, h) = elim (Bool-cases (r.lo == p)) [
  | inl e ↦ rw e h
  | inr e ↦ rw e (k, All-remove_range P rs p h)
]

later_index : (i j : ℕ) (js : List ℕ) → (j == i) ≡ false → Open i (j ∷ js) → Open i js
later_index i j js x (inl same) = absurd (grind (arith, x, same))
later_index i j js x (inr m) = m

-- After `free` of an open index.
pub Paired-close :
    (blocks : List ℕ) (p n : ℕ) (before after : List Block) (is : List ℕ) (rs : List Range) (i : ℕ)
    → Permᴰ before ((p, n) ∷ after)
    → Paired blocks before is rs
    → Open i is
    → get_elem? blocks i ≡ some p
    → Paired blocks after (close i is) (remove_range rs p)
unfolding close remove_range
Paired-close blocks p n before after [] rs i perm h m e = elim m [ ]
Paired-close blocks p n before after (j ∷ js) [] i perm h m e = elim h [ ]
Paired-close blocks p n before after (j ∷ js) (r ∷ rs) i perm (k, b, f, h) m e =
    elim (Bool-cases (j == i)) [
      | inl x ↦
          let same : r.lo ≡ p =
            some-injective r.lo p (sym k ∙ ap (λ y. get_elem? blocks y) ((==_iff j i).0 x) ∙ e) in
          let y : (r.lo == p) ≡ true = (==_iff r.lo p).1 same in
          rw (x, y)
            (Paired-others blocks p n before after js rs perm
              (subst (λ q. All (λ (s : Range). q ≢ s.lo) rs) same f) h)
      | inr x ↦
          let later : Open i js = later_index i j js x m in
          let other = Open-differs blocks before js rs i p r.lo h later e f in
          let y : (r.lo == p) ≡ false = grind (arith, other) in
          rw (x, y)
            (
              k,
              Backed-other p n before after r perm other b,
              All-remove_range _ rs p f,
              Paired-close blocks p n before after js rs i perm h later e,
            )
    ]
