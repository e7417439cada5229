-- ===== src/Malloc/FreeList/Gap.antt =====
-- mm_freeList.c: a heap with a gap, the block that an operation works on. Around it the blocks are
-- sound, and the free list has the free ones among them.
use operating_system_basics.Base.{
  ◌^◌, ℕ, ◌+◌, ◌-◌, ◌≤◌, ◌<◌, ◌≡◌, ◌⊎◌, inl, inr, refl, ◌∙◌, Bool, true, false, ◌&&◌, ◌||◌, List,
  [], ◌∷◌, arith, ◌==◌, Bool-cases, All, ==_iff, subst,
}
use operating_system_basics.Malloc.{Heap}
use operating_system_basics.Malloc.FreeList.Chain.{IsFreeList}
use operating_system_basics.Malloc.FreeList.Tiles.{
  Tile, total, base, base-ge, Ahead, Behind, Ahead-frame, Behind-frame, free_ahead, free_behind,
  TagAhead, TagBehind, TagAhead-ge, TagBehind-le,
}
use operating_system_basics.Malloc.FreeList.Apart.{
  Avoids, far_below, far_above, or_cases, free_ahead-ge, free_behind-le, TagAhead-Avoids,
  TagBehind-Avoids,
}
use operating_system_basics.Malloc.FreeList.Outside.{SameStatics}

-- The gap from the header before `base bottom ls` to the header before `q`.
pub record Around (bottom : ℕ) (ls : List Tile) (q : ℕ) (ts : List Tile) (h : Heap) : Type 0 where
  pub behind : Behind h.mem bottom ls
  pub ahead : Ahead h.mem q ts
  pub gap : base bottom ls + 24 ≤ q
  pub prologue : h.mem (bottom - 4) ≡ 25
  pub low : 8 ≤ bottom
  pub origin : h.mem_start_brk ≤ bottom
  pub brk : h.mem_brk ≡ q + total ts
  pub room : h.mem_brk ≤ h.mem_max_addr
  pub top : h.mem_max_addr + 2 ^ 27 < 2 ^ 32

unfoldable pub has : ℕ → List ℕ → Bool
has d [] = false
has d (b ∷ bs) = (b == d) || has d bs

-- A free block around the gap, or the block of the gap itself.
abbrev pub is_free : ℕ → List Tile → ℕ → List Tile → Bool → ℕ → Bool
is_free bottom ls q ts inside d =
    (free_behind bottom ls d || free_ahead q ts d) || (inside && (base bottom ls == d))

-- `inside`: the block of the gap is in the list, too.
pub record Gap (bottom : ℕ) (ls : List Tile) (q : ℕ) (ts : List Tile) (inside : Bool) (fl : List ℕ)
    (h : Heap) : Type 0 where
  pub around : Around bottom ls q ts h
  pub chain : IsFreeList bottom fl h
  pub covers : (d : ℕ) → has d fl ≡ is_free bottom ls q ts inside d

pub here : (b : ℕ) (bs : List ℕ) → ((b == b) || has b bs) ≡ true
here b bs = let e : (b == b) ≡ true = (==_iff b b).1 refl in rw e refl

pub there : (b d : ℕ) (bs : List ℕ) → has d bs ≡ true → ((b == d) || has d bs) ≡ true
there b d bs e = elim (Bool-cases (b == d)) [ inl k ↦ rw k refl | inr k ↦ rw (k, e) refl ]

pub All-has : (P : ℕ → Type 0) (fl : List ℕ) → ((d : ℕ) → has d fl ≡ true → P d) → All P fl
unfolding has
All-has P [] h = tt
All-has P (b ∷ bs) h = (h b (here b bs), All-has P bs (λ d e. h d (there b d bs e)))

inside_here : (i : Bool) (p d : ℕ) → (i && (p == d)) ≡ true → p ≡ d
inside_here true p d h = (==_iff p d).0 h
inside_here false p d h = cc

-- The words that the operations of the list leave alone.
abbrev pub Spared : ℕ → List Tile → ℕ → List Tile → ℕ → Type 0
Spared bottom ls q ts r =
    TagBehind bottom ls r
    ⊎ ((base bottom ls ≤ r + 8 × r < q × Avoids r (base bottom ls))
        ⊎ (TagAhead q ts r ⊎ (r ≡ bottom - 4)))

-- The tags around the gap.
abbrev pub Tagged : ℕ → List Tile → ℕ → List Tile → ℕ → Type 0
Tagged bottom ls q ts r = TagBehind bottom ls r ⊎ (TagAhead q ts r ⊎ (r ≡ bottom - 4))

pub Tagged-Spared :
    (bottom : ℕ) (ls : List Tile) (q : ℕ) (ts : List Tile) (r : ℕ)
    → Tagged bottom ls q ts r
    → Spared bottom ls q ts r
Tagged-Spared bottom ls q ts r (inl k) = inl k
Tagged-Spared bottom ls q ts r (inr k) = inr (inr k)

module _ {bottom : ℕ} {ls : List Tile} {q : ℕ} {ts : List Tile} {h : Heap}
    (a : Around bottom ls q ts h) where
  -- A free block lies before the gap, behind it, or starts with it.
  pub free_place :
      (inside : Bool) (d : ℕ)
      → is_free bottom ls q ts inside d ≡ true
      → (d + 24 ≤ base bottom ls × bottom + 40 ≤ d) ⊎ ((q ≤ d) ⊎ (base bottom ls ≡ d))
  free_place inside d e =
      elim (or_cases (free_behind bottom ls d || free_ahead q ts d)
        (inside && (base bottom ls == d)) e) [
          | inl f ↦ elim (or_cases (free_behind bottom ls d) (free_ahead q ts d) f) [
            | inl k ↦ inl (free_behind-le h.mem bottom ls d a.behind k)
            | inr k ↦ inr (inl (free_ahead-ge q ts d k))
          ]
          | inr f ↦ inr (inr (inside_here inside (base bottom ls) d f))
        ]

  pub Spared-bottom : (r : ℕ) → Spared bottom ls q ts r → Avoids r bottom
  Spared-bottom r s =
      let start = base-ge bottom ls in
      let gap = a.gap in
      let low = a.low in
      elim s [
        | inl k ↦
            let place = TagBehind-le h.mem bottom ls r a.behind k in
            far_above r bottom (omega arith)
        | inr t ↦ elim t [
          | inl k ↦ far_above r bottom (omega arith)
          | inr u ↦ elim u [
            | inl k ↦
                let place = TagAhead-ge h.mem q ts r a.ahead (omega arith) k in
                far_above r bottom (omega arith)
            | inr k ↦ far_below r bottom (omega (arith, k))
          ]
        ]
      ]

  Spared-behind : (r d : ℕ) → Spared bottom ls q ts r → free_behind bottom ls d ≡ true → Avoids r d
  Spared-behind r d s f =
      let start = base-ge bottom ls in
      let gap = a.gap in
      let place = free_behind-le h.mem bottom ls d a.behind f in
      elim s [
        | inl k ↦ TagBehind-Avoids h.mem bottom ls r d a.behind k f
        | inr t ↦ elim t [
          | inl k ↦ far_above r d (omega arith)
          | inr u ↦ elim u [
            | inl k ↦
                let there = TagAhead-ge h.mem q ts r a.ahead (omega arith) k in
                far_above r d (omega arith)
            | inr k ↦ far_below r d (omega (arith, k))
          ]
        ]
      ]

  Spared-ahead : (r d : ℕ) → Spared bottom ls q ts r → free_ahead q ts d ≡ true → Avoids r d
  Spared-ahead r d s f =
      let start = base-ge bottom ls in
      let gap = a.gap in
      let place = free_ahead-ge q ts d f in
      elim s [
        | inl k ↦
            let there = TagBehind-le h.mem bottom ls r a.behind k in far_below r d (omega arith)
        | inr t ↦ elim t [
          | inl k ↦ far_below r d (omega arith)
          | inr u ↦ elim u [
            | inl k ↦ TagAhead-Avoids h.mem q ts r d a.ahead (omega arith) k f
            | inr k ↦ far_below r d (omega (arith, k))
          ]
        ]
      ]

  pub Spared-inside : (r : ℕ) → Spared bottom ls q ts r → Avoids r (base bottom ls)
  Spared-inside r s =
      let start = base-ge bottom ls in
      let gap = a.gap in
      elim s [
        | inl k ↦
            let there = TagBehind-le h.mem bottom ls r a.behind k in
            far_below r (base bottom ls) (omega arith)
        | inr t ↦ elim t [
          | inl k ↦ k.2
          | inr u ↦ elim u [
            | inl k ↦
                let there = TagAhead-ge h.mem q ts r a.ahead (omega arith) k in
                far_above r (base bottom ls) (omega arith)
            | inr k ↦ far_below r (base bottom ls) (omega (arith, k))
          ]
        ]
      ]

  pub Spared-Avoids :
      (inside : Bool) (r d : ℕ)
      → Spared bottom ls q ts r
      → is_free bottom ls q ts inside d ≡ true
      → Avoids r d
  Spared-Avoids inside r d s e =
      elim (or_cases (free_behind bottom ls d || free_ahead q ts d)
        (inside && (base bottom ls == d)) e) [
          | inl t ↦ elim (or_cases (free_behind bottom ls d) (free_ahead q ts d) t) [
            | inl f ↦ Spared-behind r d s f
            | inr f ↦ Spared-ahead r d s f
          ]
          | inr f ↦ subst (Avoids r) (inside_here inside (base bottom ls) d f) (Spared-inside r s)
        ]

  -- A change that spares the tags keeps what lies around the gap.
  pub Around-frame :
      (g : Heap)
      → SameStatics h g
      → ((r : ℕ) → Tagged bottom ls q ts r → g.mem r ≡ h.mem r)
      → Around bottom ls q ts g
  Around-frame g (s1, s2, s3, s4) same = record {
    behind = Behind-frame h.mem g.mem bottom ls (λ r k. same r (inl k)) a.behind;
    ahead = Ahead-frame h.mem g.mem q ts (λ r k. same r (inr (inl k))) a.ahead;
    gap = a.gap;
    prologue = same (bottom - 4) (inr (inr refl)) ∙ a.prologue;
    low = a.low;
    origin = rw s1 a.origin;
    brk = s2 ∙ a.brk;
    room = rw (s2, s3) a.room;
    top = rw s3 a.top;
  }
