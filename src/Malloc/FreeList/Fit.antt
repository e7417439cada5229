-- ===== src/Malloc/FreeList/Fit.antt =====
-- mm_freeList.c: the block that `find_freeblock` finds is a free block of the heap.
use operating_system_basics.Base.{
  ℕ, ◌+◌, ◌≤◌, ◌<◌, ◌≡◌, ◌≢◌, inl, inr, refl, sym, ap, ◌∙◌, Bool, true, false, not, ◌||◌, ◌&&◌,
  List, [], ◌∷◌, arith, subst, leb, ◌==◌, Bool-cases, leb→le, ==_iff, some, length,
}
use operating_system_basics.Malloc.{Heap}
use operating_system_basics.Malloc.FreeList.{get_size, get_alloc, find_freeblock}
use operating_system_basics.Malloc.FreeList.Chain.{Separate}
use operating_system_basics.Malloc.FreeList.Tiles.{Tile, base, free_ahead, free_behind}
use operating_system_basics.Malloc.FreeList.Apart.{or_cases}
use operating_system_basics.Malloc.FreeList.Gap.{has, All-has, here, there}
use operating_system_basics.Malloc.FreeList.Whole.{Whole, over, joined}
use operating_system_basics.Malloc.FreeList.Join.{get_size-tag, alloc_of-tag}
use operating_system_basics.Malloc.FreeList.Coalesce.{free_tile}
use operating_system_basics.Malloc.FreeList.FirstFit.{first_fit, find_freeblock-first_fit}

or_first : (b f : Bool) → (b || ((not false && true) || f)) ≡ true
or_first true f = refl
or_first false f = refl

not-leb→lt : (a b : ℕ) → leb a b ≡ false → b < a
not-leb→lt a b e = ground arith

and_cases : (u c : Bool) → (not u && c) ≡ true → (u ≡ false) × (c ≡ true)
and_cases true c e = cc
and_cases false c e = (refl, e)

-- The heap cut at a free block.
pub record FreeAt (bottom : ℕ) (tiles : List Tile) (fl : List ℕ) (h : Heap) (d : ℕ) : Type 0 where
  pub ls : List Tile
  pub size : ℕ
  pub ts : List Tile
  pub whole : Whole bottom ls (free_tile size ∷ ts) fl h
  pub place : base bottom ls ≡ d
  pub same : tiles ≡ joined ls (free_tile size ∷ ts)

free_at :
    {bottom : ℕ} {fl : List ℕ} {h : Heap} (ls ts : List Tile) (d : ℕ)
    → Whole bottom ls ts fl h
    → free_ahead (base bottom ls) ts d ≡ true
    → FreeAt bottom (joined ls ts) fl h d
unfolding free_ahead joined
free_at ls [] d w e = cc
free_at {bottom} {fl} {h} ls (t ∷ ts) d w e =
    elim (or_cases (not t.used && (base bottom ls == d)) (free_ahead (base bottom ls + t.size) ts d)
      e) [
        | inl k ↦
            let (free, here) = and_cases t.used (base bottom ls == d) k in
            let tile : t ≡ free_tile t.size = ap (λ x. record { size = t.size; used = x }) free in
            record {
              ls = ls;
              size = t.size;
              ts = ts;
              whole = subst (λ x. Whole bottom ls (x ∷ ts) fl h) tile w;
              place = (==_iff (base bottom ls) d).0 here;
              same = ap (λ x. joined ls (x ∷ ts)) tile;
            }
        | inr k ↦ free_at (t ∷ ls) ts d (over w) k
      ]

-- A block of the free list.
pub listed :
    {bottom : ℕ} {tiles : List Tile} {fl : List ℕ} {h : Heap} (d : ℕ)
    → Whole bottom [] tiles fl h
    → has d fl ≡ true
    → FreeAt bottom tiles fl h d
unfolding free_behind joined
listed {bottom} {tiles} d w e = free_at [] tiles d w (sym (w.covers d) ∙ e)

pub first_fit-has :
    (h : Heap) (a : ℕ) (fl : List ℕ)
    → first_fit h a fl ≢ 0
    → (has (first_fit h a fl) fl ≡ true) × a ≤ get_size h (first_fit h a fl)
unfolding first_fit has
first_fit-has h a [] n = absurd (n refl)
first_fit-has h a (b ∷ bs) n = elim (Bool-cases (leb a (get_size h b))) [
  | inl e ↦
      let this : first_fit h a (b ∷ bs) ≡ b = rw e refl in
      subst (λ x. (has x (b ∷ bs) ≡ true) × a ≤ get_size h x) (sym this)
        (here b bs, leb→le a (get_size h b) e)
  | inr e ↦
      let skip : first_fit h a (b ∷ bs) ≡ first_fit h a bs = rw e refl in
      let (k, big) = first_fit-has h a bs (λ x. n (skip ∙ x)) in
      subst (λ x. (has x (b ∷ bs) ≡ true) × a ≤ get_size h x) (sym skip)
        (there b (first_fit h a bs) bs k, big)
]

-- In a sound heap `find_freeblock` comes back, with NULL or with a free block that is large enough.
pub find_freeblock-Whole :
    {bottom : ℕ} {tiles : List Tile} {fl : List ℕ} {h : Heap} (a fuel : ℕ)
    → Whole bottom [] tiles fl h
    → length fl < fuel
    → find_freeblock fuel a h ≡ some (first_fit h a fl)
find_freeblock-Whole {bottom} {tiles} {fl} {h} a fuel w enough =
    find_freeblock-first_fit h a bottom fl fuel w.chain
      (All-has (λ b. get_alloc h b ≡ false) fl
        (λ d e.
          let f = listed d w e in
          let (a1, a2, a3, more) = f.whole.ahead in
          subst (λ x. get_alloc h x ≡ false) f.place (rw a1 (alloc_of-tag (free_tile f.size) a3))))
      (rw w.prologue refl) enough

-- No free block has `a` bytes.
abbrev pub NoFit : ℕ → List Tile → Type 0
NoFit a [] = Unit
NoFit a (t ∷ ts) = (t.used ≡ false → t.size < a) × NoFit a ts

first_fit-none :
    (h : Heap) (a bottom : ℕ) (fl : List ℕ) (d : ℕ)
    → Separate bottom fl
    → first_fit h a fl ≡ 0
    → has d fl ≡ true
    → get_size h d < a
unfolding first_fit has
first_fit-none h a bottom [] d sep none k = cc
first_fit-none h a bottom (b ∷ bs) d (pos, apart, end, sep) none k =
    elim (Bool-cases (leb a (get_size h b))) [
      | inl e ↦
          let this : first_fit h a (b ∷ bs) ≡ b = rw e refl in absurd (omega (arith, this, none))
      | inr e ↦
          let skip : first_fit h a (b ∷ bs) ≡ first_fit h a bs = rw e refl in
          elim (or_cases (b == d) (has d bs) k) [
            | inl same ↦
                subst (λ x. get_size h x < a) ((==_iff b d).0 same) (not-leb→lt a (get_size h b) e)
            | inr later ↦ first_fit-none h a bottom bs d sep (sym skip ∙ none) later
          ]
    ]

no_fit :
    {bottom : ℕ} {fl : List ℕ} {h : Heap} (a : ℕ) (ls ts : List Tile)
    → Whole bottom ls ts fl h
    → first_fit h a fl ≡ 0
    → NoFit a ts
unfolding free_ahead
no_fit a ls [] w none = tt
no_fit {bottom} {fl} {h} a ls (t ∷ ts) w none =
    let (a1, a2, a3, more) = w.ahead in
    let low = base bottom ls in
    (
      λ free.
          let here : (low == low) ≡ true = (==_iff low low).1 refl in
          let in_list : has low fl ≡ true =
            w.covers low
            ∙ rw (free, here)
                (or_first (free_behind bottom ls low) (free_ahead (low + t.size) ts low)) in
          subst (λ x. x < a) (get_size-tag h low t a1 a3)
            (first_fit-none h a bottom fl low w.chain.1 none in_list),
      no_fit a (t ∷ ls) ts (over w) none,
    )

pub first_fit-NoFit :
    {bottom : ℕ} {tiles : List Tile} {fl : List ℕ} {h : Heap} (a : ℕ)
    → Whole bottom [] tiles fl h
    → first_fit h a fl ≡ 0
    → NoFit a tiles
first_fit-NoFit {bottom} {tiles} a w none = no_fit a [] tiles w none
