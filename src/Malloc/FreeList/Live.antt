-- ===== src/Malloc/FreeList/Live.antt =====
-- mm_freeList.c: what a program sees of the heap, its allocated blocks in no order.
use mathlib.Core.List.{Perm, Permᴰ}
use mathlib.Core.List.Permᴰ
use operating_system_basics.Base.{
  ℕ, ◌+◌, ◌-◌, ◌≤◌, ◌<◌, ◌^◌, ◌≡◌, ◌⊎◌, refl, sym, ap, ◌∙◌, List, [], ◌∷◌, arith, subst,
  if◌then◌else◌, Bool-cases, inl, inr, leb, some, length,
}
use operating_system_basics.Malloc.{Heap}
use operating_system_basics.Malloc.FreeList.{
  mm_malloc, mm_free, newsize_of, max, chunksize, min_blocksize,
}
use operating_system_basics.Malloc.FreeList.Tiles.{Tile, base, base-ge, total}
use operating_system_basics.Malloc.FreeList.Whole.{Whole, joined}
use operating_system_basics.Malloc.FreeList.Join.{edge_used, edge_size, keep_edge}
use operating_system_basics.Malloc.FreeList.Coalesce.{
  free_tile, used_tile, unmerged, merged_size, base-keep_edge,
}
use operating_system_basics.Malloc.FreeList.Place.{placed}
use operating_system_basics.Malloc.FreeList.Free.{mm_free-Whole}
use operating_system_basics.Malloc.FreeList.Alloc.{Malloced, mm_malloc-Served, newsize_lem, max_lem}

-- The allocated blocks, each with its address and its size.
unfoldable pub live : ℕ → List Tile → List (ℕ × ℕ)
live p [] = []
live p (t ∷ ts) = let rest = live (p + t.size) ts in if t.used then (p, t.size) ∷ rest else rest

-- The blocks behind, before those of `more`.
unfoldable lives : ℕ → List Tile → List (ℕ × ℕ) → List (ℕ × ℕ)
lives bottom [] more = more
lives bottom (l ∷ ls) more =
    lives bottom ls (if l.used then (base bottom ls, l.size) ∷ more else more)

live-joined :
    (bottom : ℕ) (ls ts : List Tile)
    → live (bottom + 40) (joined ls ts) ≡ lives bottom ls (live (base bottom ls) ts)
unfolding joined lives live
live-joined bottom [] ts = refl
live-joined bottom (l ∷ ls) ts = live-joined bottom ls (l ∷ ts)

lives-unmerged :
    (bottom : ℕ) (ls : List Tile) (more : List (ℕ × ℕ))
    → lives bottom (unmerged ls) more ≡ lives bottom ls more
unfolding lives edge_used keep_edge
lives-unmerged bottom [] more = refl
lives-unmerged bottom (l ∷ ls) more = elim (Bool-cases l.used) [
  | inl e ↦ rw e refl
  | inr e ↦ rw e refl
]

live-unmerged :
    (p : ℕ) (ts : List Tile) → live (p + edge_size (edge_used ts) ts) (unmerged ts) ≡ live p ts
unfolding live edge_used keep_edge edge_size
live-unmerged p [] = refl
live-unmerged p (t ∷ ts) = elim (Bool-cases t.used) [
  | inl e ↦
      let same : p + 0 ≡ p = omega arith in rw e (ap (λ x. (x, t.size) ∷ live (x + t.size) ts) same)
  | inr e ↦ rw e refl
]

middle :
    (bottom : ℕ) (ls : List Tile) (x : ℕ × ℕ) (more : List (ℕ × ℕ))
    → Permᴰ (lives bottom ls (x ∷ more)) (x ∷ lives bottom ls more)
unfolding lives
middle bottom [] x more = Permᴰ.refl (x ∷ more)
middle bottom (l ∷ ls) x more = elim (Bool-cases l.used) [
  | inl e ↦
      let y : ℕ × ℕ = (base bottom ls, l.size) in
      rw e (
        Permᴰ.trans (middle bottom ls y (x ∷ more)) (
          Permᴰ.trans (Permᴰ.cons refl (middle bottom ls x more)) (
            Permᴰ.trans (Permᴰ.swap refl refl)
              (Permᴰ.cons refl (Permᴰ.symm (middle bottom ls y more))))))
  | inr e ↦ rw e (middle bottom ls x more)
]

-- The blocks of a request, from the address of the free block on.
live-placed :
    (p n a : ℕ) (ts : List Tile)
    → a ≤ n
    → (k : ℕ) × a ≤ k × (live p (placed n a ts) ≡ (p, k) ∷ live (p + n) ts)
unfolding live placed
live-placed p n a ts fits = elim (Bool-cases (leb min_blocksize (n - a))) [
  | inl e ↦
      let at : p + a + (n - a + edge_size (edge_used ts) ts) ≡ p + n + edge_size (edge_used ts) ts =
        omega arith in
      (
        a,
        omega arith,
        rw e
            (ap (λ xs. (p, a) ∷ xs) (ap (λ x. live x (unmerged ts)) at ∙ live-unmerged (p + n) ts)),
      )
  | inr e ↦ (n, fits, rw e refl)
]

live-free :
    (bottom : ℕ) (ls : List Tile) (n : ℕ) (ts : List Tile)
    → live (bottom + 40) (joined (unmerged ls) (free_tile (merged_size ls n ts) ∷ unmerged ts))
      ≡ lives bottom ls (live (base bottom ls + n) ts)
unfolding live
live-free bottom ls n ts =
    let same = base-keep_edge bottom (edge_used ls) ls in
    let at : base bottom (unmerged ls) + merged_size ls n ts
        ≡ base bottom ls + n + edge_size (edge_used ts) ts =
      omega arith in
    live-joined bottom (unmerged ls) (free_tile (merged_size ls n ts) ∷ unmerged ts)
    ∙ ap (λ x. lives bottom (unmerged ls) (live x (unmerged ts))) at
    ∙ ap (λ xs. lives bottom (unmerged ls) xs) (live-unmerged (base bottom ls + n) ts)
    ∙ lives-unmerged bottom ls (live (base bottom ls + n) ts)

-- The allocated blocks, before and after, with how they are rearranged.
abbrev pub Rearranged : ℕ → ℕ → List Tile → ℕ → List Tile → Type 0
Rearranged bottom a tiles p after =
    ((p ≡ 0) × (live (bottom + 40) after ≡ live (bottom + 40) tiles))
    ⊎ ((0 < p)
        × ((n : ℕ) × (a ≤ n
              × Permᴰ (live (bottom + 40) after) ((p, n) ∷ live (bottom + 40) tiles))))

pub Malloced-Rearranged :
    (bottom a : ℕ) (h : Heap) (tiles : List Tile) (p : ℕ) (after : List Tile)
    → Malloced bottom a h tiles p after
    → Rearranged bottom a tiles p after
unfolding live
Malloced-Rearranged bottom a h tiles p after (Malloced.refused xs none full) = inl (refl, refl)
Malloced-Rearranged bottom a h tiles p after (Malloced.reused ls n ts fits) =
    let start = base-ge bottom ls in
    let low = base bottom ls in
    let (k, enough, e) = live-placed low n a ts fits in
    let before = live-joined bottom ls (free_tile n ∷ ts) in
    let now = live-joined bottom ls (placed n a ts) ∙ ap (λ xs. lives bottom ls xs) e in
    inr
      (omega arith, (k, (enough, rw (before, now) (middle bottom ls (low, k) (live (low + n) ts)))))
Malloced-Rearranged bottom a h tiles p after (Malloced.extended ls none) =
    let m = merged_size ls (max a chunksize) [] in
    let start = base-ge bottom (unmerged ls) in
    let low = base bottom (unmerged ls) in
    let bound : a ≤ max a chunksize = elim (max_lem a chunksize) [
      | inl k ↦ omega arith
      | inr k ↦ omega arith
    ] in
    let (k, enough, e) = live-placed low m a [] (omega arith) in
    let before = live-joined bottom ls [] in
    let now =
      live-joined bottom (unmerged ls) (placed m a [])
      ∙ ap (λ xs. lives bottom (unmerged ls) xs) e
      ∙ lives-unmerged bottom ls ((low, k) ∷ []) in
    inr (omega arith, (k, (enough, rw (before, now) (middle bottom ls (low, k) []))))

-- The allocated blocks, before and after, in no order.
abbrev pub Handed : ℕ → ℕ → List Tile → ℕ → List Tile → Type 0
Handed bottom a tiles p after =
    ((p ≡ 0) × (live (bottom + 40) after ≡ live (bottom + 40) tiles))
    ⊎ ((0 < p)
        × ((n : ℕ) × (a ≤ n × Perm (live (bottom + 40) after) ((p, n) ∷ live (bottom + 40) tiles))))

-- The blocks lie one after another from `lo` on, up to `hi`.
abbrev pub Spaced : ℕ → ℕ → List (ℕ × ℕ) → Type 0
Spaced lo hi [] = lo ≤ hi
Spaced lo hi ((p, n) ∷ rest) = lo ≤ p × Spaced (p + n) hi rest

Spaced-lower : (lo mid hi : ℕ) (xs : List (ℕ × ℕ)) → lo ≤ mid → Spaced mid hi xs → Spaced lo hi xs
Spaced-lower lo mid hi [] le s = omega arith
Spaced-lower lo mid hi ((p, n) ∷ rest) le (k, s) = (omega arith, s)

pub live-Spaced : (p : ℕ) (ts : List Tile) → Spaced p (p + total ts) (live p ts)
unfolding live
live-Spaced p [] = omega arith
live-Spaced p (t ∷ ts) =
    let same : p + t.size + total ts ≡ p + (t.size + total ts) = omega arith in
    let rest =
      subst (λ x. Spaced (p + t.size) x (live (p + t.size) ts)) same
        (live-Spaced (p + t.size) ts) in
    elim (Bool-cases t.used) [
      | inl e ↦ rw e (omega arith, rest)
      | inr e ↦ rw e (
          Spaced-lower p (p + t.size) (p + (t.size + total ts)) (live (p + t.size) ts) (omega arith)
            rest)
    ]

-- In a sound heap, `mm_malloc` of some bytes, fewer than 2^27 - 5000, comes back, with NULL and the allocated blocks as they
-- were, or with one more allocated block, which has room for the bytes, a header and a footer. The
-- heap is sound again, and its allocated blocks lie one after another up to the break.
pub mm_malloc-live :
    (bottom : ℕ) (tiles : List Tile) (fl : List ℕ) (h : Heap) (size : ℕ)
    → Whole bottom [] tiles fl h
    → 0 < size
    → size + 5000 < 2 ^ 27
    → (p : ℕ) × (g : Heap) × (after : List Tile) × (rest : List ℕ) × (mm_malloc
          (length fl + 1)
          size
          h
        ≡ some (p, g))
      × Whole bottom [] after rest g
      × Handed bottom (size + 8) tiles p after
      × Spaced (bottom + 40) g.mem_brk (live (bottom + 40) after)
mm_malloc-live bottom tiles fl h size w some_bytes small =
    let s = mm_malloc-Served size w some_bytes small in
    let room = newsize_lem size (omega arith) in
    let brk = s.whole.brk in
    let spaced =
      subst (λ x. Spaced (bottom + 40) x (live (bottom + 40) s.after)) (sym brk)
        (live-Spaced (bottom + 40) s.after) in
    let handed : Handed bottom (size + 8) tiles s.p s.after =
      elim (Malloced-Rearranged bottom (newsize_of size) h tiles s.p s.after s.step) [
        | inl k ↦ inl k
        | inr (pos, (n, (enough, perm))) ↦ inr (pos, (n, (omega arith, ∣ perm ∣₁)))
      ] in
    (s.p, s.heap, s.after, s.rest, s.returns, s.whole, handed, spaced)

pub mm_free-Rearranged :
    (bottom : ℕ) (ls : List Tile) (n : ℕ) (ts : List Tile) (fl : List ℕ) (h : Heap)
    → Whole bottom [] (joined ls (used_tile n ∷ ts)) fl h
    → (after : List Tile) × (rest : List ℕ) × Whole bottom [] after rest
        (mm_free (base bottom ls) h)
      × Permᴰ
          (live (bottom + 40) (joined ls (used_tile n ∷ ts)))
          ((base bottom ls, n) ∷ live (bottom + 40) after)
unfolding live
mm_free-Rearranged bottom ls n ts fl h w =
    let (rest, whole) = mm_free-Whole bottom ls n ts fl h w in
    let before = live-joined bottom ls (used_tile n ∷ ts) in
    let now = live-free bottom ls n ts in
    (
      joined (unmerged ls) (free_tile (merged_size ls n ts) ∷ unmerged ts),
      rest,
      whole,
      rw (before, now) (middle bottom ls (base bottom ls, n) (live (base bottom ls + n) ts)),
    )

-- In a sound heap, `mm_free` of one of the allocated blocks leaves a sound heap with the others as its
-- allocated blocks.
pub mm_free-live :
    (bottom : ℕ) (ls : List Tile) (n : ℕ) (ts : List Tile) (fl : List ℕ) (h : Heap)
    → Whole bottom [] (joined ls (used_tile n ∷ ts)) fl h
    → (after : List Tile) × (rest : List ℕ) × Whole bottom [] after rest
        (mm_free (base bottom ls) h)
      × Perm
          (live (bottom + 40) (joined ls (used_tile n ∷ ts)))
          ((base bottom ls, n) ∷ live (bottom + 40) after)
mm_free-live bottom ls n ts fl h w =
    let (after, rest, whole, perm) = mm_free-Rearranged bottom ls n ts fl h w in
    (after, rest, whole, ∣ perm ∣₁)
