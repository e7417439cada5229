-- ===== src/Malloc/FreeList/Disjoint.antt =====
-- mm_freeList.c: the allocated blocks do not overlap, in whatever order they are listed.
use mathlib.Core.List.{Permᴰ}
use operating_system_basics.Base.{
  ℕ, ◌+◌, ◌%◌, ◌≤◌, ◌≡◌, ◌⊎◌, sym, ◌∙◌, List, [], ◌∷◌, arith, subst, Bool-cases, inl, inr, All,
  Permᴰ-All,
}
use operating_system_basics.Malloc.FreeList.Tiles.{Tile, Ahead}
use operating_system_basics.Malloc.FreeList.Live.{live, Spaced}

abbrev pub Block : Type 0
Block = ℕ × ℕ

abbrev pub Disjoint : Block → Block → Type 0
Disjoint x y = (x.0 + x.1 ≤ y.0) ⊎ (y.0 + y.1 ≤ x.0)

abbrev pub AllDisjoint : List Block → Type 0
AllDisjoint [] = Unit
AllDisjoint (x ∷ xs) = All (Disjoint x) xs × AllDisjoint xs

Disjoint-comm : (x y : Block) → Disjoint x y → Disjoint y x
Disjoint-comm x y (inl h) = inr h
Disjoint-comm x y (inr h) = inl h

pub Permᴰ-AllDisjoint : {xs ys : List Block} → Permᴰ xs ys → AllDisjoint xs → AllDisjoint ys
Permᴰ-AllDisjoint Permᴰ.nil h = h
Permᴰ-AllDisjoint (Permᴰ.cons {l₂ = ys} e p) (h, hs) =
    (subst (λ x. All (Disjoint x) ys) e (Permᴰ-All _ p h), Permᴰ-AllDisjoint p hs)
Permᴰ-AllDisjoint (Permᴰ.swap {a = a} {b = b} {a' = a'} {b' = b'} {l = l} e f)
      ((n, hs), (ks, more)) =
    subst (λ x. AllDisjoint (x ∷ b' ∷ l)) f
      (subst (λ y. AllDisjoint (b ∷ y ∷ l)) e ((Disjoint-comm a b n, ks), (hs, more)))
Permᴰ-AllDisjoint (Permᴰ.trans p q) h = Permᴰ-AllDisjoint q (Permᴰ-AllDisjoint p h)

Spaced-le : (lo hi : ℕ) (xs : List Block) → Spaced lo hi xs → lo ≤ hi
Spaced-le lo hi [] s = s
Spaced-le lo hi ((p, n) ∷ xs) (k, s) = let rest = Spaced-le (p + n) hi xs s in omega arith

pub Spaced-bounds :
    (lo mid hi : ℕ) (xs : List Block)
    → lo ≤ mid
    → Spaced mid hi xs
    → All (λ b. (lo ≤ b.0) × b.0 + b.1 ≤ hi) xs
Spaced-bounds lo mid hi [] le s = tt
Spaced-bounds lo mid hi ((p, n) ∷ xs) le (k, s) =
    let rest = Spaced-le (p + n) hi xs s in
    ((omega arith, rest), Spaced-bounds lo (p + n) hi xs (omega arith) s)

All-right :
    (p n hi : ℕ) (xs : List Block)
    → All (λ b. (p + n ≤ b.0) × b.0 + b.1 ≤ hi) xs
    → All (Disjoint (p, n)) xs
All-right p n hi [] h = tt
All-right p n hi (x ∷ xs) ((k, l), h) = (inl k, All-right p n hi xs h)

pub Spaced-AllDisjoint : (lo hi : ℕ) (xs : List Block) → Spaced lo hi xs → AllDisjoint xs
Spaced-AllDisjoint lo hi [] s = tt
Spaced-AllDisjoint lo hi ((p, n) ∷ xs) (k, s) = (
  All-right p n hi xs (Spaced-bounds (p + n) (p + n) hi xs (omega arith) s),
  Spaced-AllDisjoint (p + n) hi xs s,
)

-- The blocks of a heap whose first one is aligned.
pub live-aligned :
    (m : ℕ → ℕ) (p : ℕ) (ts : List Tile)
    → Ahead m p ts
    → p % 8 ≡ 0
    → All (λ b. b.0 % 8 ≡ 0) (live p ts)
unfolding live
live-aligned m p [] a e = tt
live-aligned m p (t ∷ ts) (a1, a2, (a3, big), more) e =
    let rest = live-aligned m (p + t.size) ts more (omega arith) in
    elim (Bool-cases t.used) [ inl u ↦ rw u (e, rest) | inr u ↦ rw u rest ]

-- One of the blocks.
abbrev pub Among : Block → List Block → Type 0
Among x [] = ⊥
Among x (y ∷ ys) = (x ≡ y) ⊎ Among x ys

pub All-Among : (P : Block → Type 0) (x : Block) (xs : List Block) → All P xs → Among x xs → P x
All-Among P x [] h m = elim m [ ]
All-Among P x (y ∷ ys) (h, hs) (inl e) = subst P (sym e) h
All-Among P x (y ∷ ys) (h, hs) (inr m) = All-Among P x ys hs m

pub Permᴰ-Among : {xs ys : List Block} (x : Block) → Permᴰ xs ys → Among x ys → Among x xs
Permᴰ-Among x Permᴰ.nil m = m
Permᴰ-Among x (Permᴰ.cons e p) (inl k) = inl (k ∙ sym e)
Permᴰ-Among x (Permᴰ.cons e p) (inr m) = inr (Permᴰ-Among x p m)
Permᴰ-Among x (Permᴰ.swap e f) (inl k) = inr (inl (k ∙ sym f))
Permᴰ-Among x (Permᴰ.swap e f) (inr (inl k)) = inl (k ∙ sym e)
Permᴰ-Among x (Permᴰ.swap e f) (inr (inr m)) = inr (inr m)
Permᴰ-Among x (Permᴰ.trans p q) m = Permᴰ-Among x p (Permᴰ-Among x q m)
