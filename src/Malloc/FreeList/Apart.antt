-- ===== src/Malloc/FreeList/Apart.antt =====
-- mm_freeList.c: the pointers in a free block are at no header or footer.
use operating_system_basics.Base.{
  ℕ, ◌+◌, ◌≤◌, ◌<◌, ◌≡◌, ◌≢◌, ◌⊎◌, inl, inr, refl, Bool, true, false, not, ◌&&◌, ◌||◌, List, [],
  ◌∷◌, arith, ◌==◌, ==_iff,
}
use operating_system_basics.Malloc.FreeList.Tiles.{
  Tile, base, Ahead, Behind, free_ahead, free_behind, TagAhead, TagBehind, TagAhead-ge,
  TagBehind-le, base-ge,
}

-- The word at `r` is neither of the pointers of a block at `d`.
abbrev pub Avoids : ℕ → ℕ → Type 0
Avoids r d = r ≢ d × r ≢ d + 8

pub far_below : (r d : ℕ) → r < d → Avoids r d
far_below r d h = (λ e. absurd (omega arith), λ e. absurd (omega arith))

pub far_above : (r d : ℕ) → d + 8 < r → Avoids r d
far_above r d h = (λ e. absurd (omega arith), λ e. absurd (omega arith))

pub or_cases : (a b : Bool) → (a || b) ≡ true → (a ≡ true) ⊎ (b ≡ true)
or_cases true b h = inl refl
or_cases false b h = inr h

pub free_here : (u : Bool) (p d : ℕ) → (not u && (p == d)) ≡ true → p ≡ d
free_here true p d h = cc
free_here false p d h = (==_iff p d).0 h

pub free_ahead-ge : (p : ℕ) (ts : List Tile) (d : ℕ) → free_ahead p ts d ≡ true → p ≤ d
unfolding free_ahead
free_ahead-ge p [] d h = cc
free_ahead-ge p (t ∷ ts) d h =
    elim (or_cases (not t.used && (p == d)) (free_ahead (p + t.size) ts d) h) [
      | inl e ↦ let same = free_here t.used p d e in omega arith
      | inr e ↦ let later = free_ahead-ge (p + t.size) ts d e in omega arith
    ]

pub free_behind-le :
    (m : ℕ → ℕ) (bottom : ℕ) (ls : List Tile) (d : ℕ)
    → Behind m bottom ls
    → free_behind bottom ls d ≡ true
    → d + 24 ≤ base bottom ls × bottom + 40 ≤ d
unfolding free_behind
free_behind-le m bottom [] d b h = cc
free_behind-le m bottom (l ∷ ls) d (b1, b2, (b3, big), more) h =
    elim (or_cases (not l.used && (base bottom ls == d)) (free_behind bottom ls d) h) [
      | inl e ↦
          let same = free_here l.used (base bottom ls) d e in
          let low = base-ge bottom ls in (omega arith, omega arith)
      | inr e ↦ let earlier = free_behind-le m bottom ls d more e in (omega arith, omega arith)
    ]

pub TagAhead-Avoids :
    (m : ℕ → ℕ) (p : ℕ) (ts : List Tile) (r d : ℕ)
    → Ahead m p ts
    → 4 ≤ p
    → TagAhead p ts r
    → free_ahead p ts d ≡ true
    → Avoids r d
unfolding free_ahead
TagAhead-Avoids m p [] r d a low k h = cc
TagAhead-Avoids m p (t ∷ ts) r d (a1, a2, (a3, big), more) low k h =
    elim (or_cases (not t.used && (p == d)) (free_ahead (p + t.size) ts d) h) [
      | inl e ↦
          let same = free_here t.used p d e in
          elim k [
            | inl x ↦ far_below r d (omega (arith, x))
            | inr y ↦ elim y [
              | inl x ↦ far_above r d (omega (arith, x))
              | inr x ↦
                  let later = TagAhead-ge m (p + t.size) ts r more (omega arith) x in
                  far_above r d (omega arith)
            ]
          ]
      | inr e ↦
          let later = free_ahead-ge (p + t.size) ts d e in
          elim k [
            | inl x ↦ far_below r d (omega (arith, x))
            | inr y ↦ elim y [
              | inl x ↦ far_below r d (omega (arith, x))
              | inr x ↦ TagAhead-Avoids m (p + t.size) ts r d more (omega arith) x e
            ]
          ]
    ]

pub TagBehind-Avoids :
    (m : ℕ → ℕ) (bottom : ℕ) (ls : List Tile) (r d : ℕ)
    → Behind m bottom ls
    → TagBehind bottom ls r
    → free_behind bottom ls d ≡ true
    → Avoids r d
unfolding free_behind
TagBehind-Avoids m bottom [] r d b k h = cc
TagBehind-Avoids m bottom (l ∷ ls) r d (b1, b2, (b3, big), more) k h =
    let low = base-ge bottom ls in
    elim (or_cases (not l.used && (base bottom ls == d)) (free_behind bottom ls d) h) [
      | inl e ↦
          let same = free_here l.used (base bottom ls) d e in
          elim k [
            | inl x ↦ far_below r d (omega (arith, x))
            | inr y ↦ elim y [
              | inl x ↦ far_above r d (omega (arith, x))
              | inr x ↦
                  let earlier = TagBehind-le m bottom ls r more x in far_below r d (omega arith)
            ]
          ]
      | inr e ↦
          let earlier = free_behind-le m bottom ls d more e in
          elim k [
            | inl x ↦ far_above r d (omega (arith, x))
            | inr y ↦ elim y [
              | inl x ↦ far_above r d (omega (arith, x))
              | inr x ↦ TagBehind-Avoids m bottom ls r d more x e
            ]
          ]
    ]
