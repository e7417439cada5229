-- ===== src/Malloc/FreeList/Tiles.antt =====
-- mm_freeList.c: the blocks of the heap, which lie side by side from the first one after the prologue
-- to the epilogue, each with its size and its allocated bit in its header and its footer.

use operating_system_basics.Base.{
  ℕ, ◌+◌, ◌-◌, ◌%◌, ◌≤◌, ◌≡◌, ◌⊎◌, inl, inr, refl, ◌∙◌, Bool, false, not, ◌&&◌, ◌||◌, List, [], ◌∷◌,
  arith, ◌==◌, if◌then◌else◌,
}

pub record Tile : Type 0 where
  pub size : ℕ
  pub used : Bool

-- The word of its header and footer.
abbrev pub tag : Tile → ℕ
tag t = if t.used then t.size + 1 else t.size

abbrev pub IsTile : Tile → Type 0
IsTile t = (t.size % 8 ≡ 0) × 24 ≤ t.size

abbrev pub total : List Tile → ℕ
total [] = 0
total (t ∷ ts) = t.size + total ts

-- The first block of a heap with its prologue at `bottom`, and the block behind `ls`, the nearest of
-- them first.
abbrev pub base : ℕ → List Tile → ℕ
base bottom [] = bottom + 40
base bottom (l ∷ ls) = base bottom ls + l.size

-- From the block at `p` on to the epilogue.
abbrev pub Ahead : (ℕ → ℕ) → ℕ → List Tile → Type 0
Ahead m p [] = m (p - 4) ≡ 1
Ahead m p (t ∷ ts) =
    (m (p - 4) ≡ tag t) × (m (p + t.size - 8) ≡ tag t) × IsTile t × Ahead m (p + t.size) ts

-- Back from a block to the start of the heap; the word before the first header is 0.
abbrev pub Behind : (ℕ → ℕ) → ℕ → List Tile → Type 0
Behind m bottom [] = m (bottom + 32) ≡ 0
Behind m bottom (l ∷ ls) =
    (m (base bottom ls - 4) ≡ tag l)
    × (m (base bottom ls + l.size - 8) ≡ tag l)
    × IsTile l
    × Behind m bottom ls

-- Is there a free block at `d`?
unfoldable pub free_ahead : ℕ → List Tile → ℕ → Bool
free_ahead p [] d = false
free_ahead p (t ∷ ts) d = (not t.used && (p == d)) || free_ahead (p + t.size) ts d

unfoldable pub free_behind : ℕ → List Tile → ℕ → Bool
free_behind bottom [] d = false
free_behind bottom (l ∷ ls) d = (not l.used && (base bottom ls == d)) || free_behind bottom ls d

-- The addresses of headers and footers, and the word before the first one.
abbrev pub TagAhead : ℕ → List Tile → ℕ → Type 0
TagAhead p [] r = r ≡ p - 4
TagAhead p (t ∷ ts) r = (r ≡ p - 4) ⊎ ((r ≡ p + t.size - 8) ⊎ TagAhead (p + t.size) ts r)

abbrev pub TagBehind : ℕ → List Tile → ℕ → Type 0
TagBehind bottom [] r = r ≡ bottom + 32
TagBehind bottom (l ∷ ls) r =
    (r ≡ base bottom ls - 4) ⊎ ((r ≡ base bottom ls + l.size - 8) ⊎ TagBehind bottom ls r)

-- A change of the memory that spares the tags keeps the blocks.
pub Ahead-frame :
    (m n : ℕ → ℕ) (p : ℕ) (ts : List Tile)
    → ((r : ℕ) → TagAhead p ts r → n r ≡ m r)
    → Ahead m p ts
    → Ahead n p ts
Ahead-frame m n p [] same h = same (p - 4) refl ∙ h
Ahead-frame m n p (t ∷ ts) same (a, b, c, more) = (
  same (p - 4) (inl refl) ∙ a,
  same (p + t.size - 8) (inr (inl refl)) ∙ b,
  c,
  Ahead-frame m n (p + t.size) ts (λ r k. same r (inr (inr k))) more,
)

pub Behind-frame :
    (m n : ℕ → ℕ) (bottom : ℕ) (ls : List Tile)
    → ((r : ℕ) → TagBehind bottom ls r → n r ≡ m r)
    → Behind m bottom ls
    → Behind n bottom ls
Behind-frame m n bottom [] same h = same (bottom + 32) refl ∙ h
Behind-frame m n bottom (l ∷ ls) same (a, b, c, more) = (
  same (base bottom ls - 4) (inl refl) ∙ a,
  same (base bottom ls + l.size - 8) (inr (inl refl)) ∙ b,
  c,
  Behind-frame m n bottom ls (λ r k. same r (inr (inr k))) more,
)

-- Where the tags can be.
pub TagAhead-ge :
    (m : ℕ → ℕ) (p : ℕ) (ts : List Tile) (r : ℕ)
    → Ahead m p ts
    → 4 ≤ p
    → TagAhead p ts r
    → p ≤ r + 4
TagAhead-ge m p [] r h low k = omega (arith, k)
TagAhead-ge m p (t ∷ ts) r (a, b, (c, big), more) low (inl k) = omega (arith, k)
TagAhead-ge m p (t ∷ ts) r (a, b, (c, big), more) low (inr (inl k)) = omega (arith, k)
TagAhead-ge m p (t ∷ ts) r (a, b, (c, big), more) low (inr (inr k)) =
    let rest = TagAhead-ge m (p + t.size) ts r more (omega arith) k in omega arith

pub base-ge : (bottom : ℕ) (ls : List Tile) → bottom + 40 ≤ base bottom ls
base-ge bottom [] = omega arith
base-ge bottom (l ∷ ls) = let rest = base-ge bottom ls in omega arith

pub TagBehind-le :
    (m : ℕ → ℕ) (bottom : ℕ) (ls : List Tile) (r : ℕ)
    → Behind m bottom ls
    → TagBehind bottom ls r
    → r + 8 ≤ base bottom ls × bottom + 32 ≤ r
TagBehind-le m bottom [] r h k = (omega (arith, k), omega (arith, k))
TagBehind-le m bottom (l ∷ ls) r (a, b, (c, big), more) (inl k) =
    let low = base-ge bottom ls in (omega (arith, k), omega (arith, k))
TagBehind-le m bottom (l ∷ ls) r (a, b, (c, big), more) (inr (inl k)) =
    let low = base-ge bottom ls in (omega (arith, k), omega (arith, k))
TagBehind-le m bottom (l ∷ ls) r (a, b, (c, big), more) (inr (inr k)) =
    let rest = TagBehind-le m bottom ls r more k in (omega arith, omega arith)
