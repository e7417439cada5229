-- ===== src/Malloc/FreeList/Grown.antt =====
-- mm_freeList.c: `mm_realloc` of a block that is too small, which takes memory of the C library.
use operating_system_basics.Base.{
  ℕ, ◌+◌, ◌-◌, ◌*◌, ◌%◌, ◌^◌, ◌≤◌, ◌<◌, ◌≡◌, ◌≢◌, ◌⊎◌, inl, inr, refl, sym, ◌∙◌, false, true, List,
  [], ◌∷◌, arith, ◌==◌, ltb, ==_iff, if◌then◌else◌,
}
use operating_system_basics.Malloc.{Heap}
use operating_system_basics.Malloc.FreeList.{get_size, newsize_of}
use operating_system_basics.Malloc.FreeList.Chain.{Chain-Same, Same}
use operating_system_basics.Malloc.FreeList.Tiles.{
  Tile, base, total, free_ahead, free_behind, Ahead, TagAhead, Ahead-frame, TagAhead-ge,
}
use operating_system_basics.Malloc.FreeList.Apart.{or_cases, free_here, free_ahead-ge}
use operating_system_basics.Malloc.FreeList.Gap.{All-has}
use operating_system_basics.Malloc.FreeList.Whole.{Whole, joined, cut-Whole}
use operating_system_basics.Malloc.FreeList.Join.{get_size-tag}
use operating_system_basics.Malloc.FreeList.Coalesce.{free_tile, used_tile, unmerged, merged_size}
use operating_system_basics.Malloc.FreeList.Free.{mm_free-Whole}
use operating_system_basics.Malloc.FreeList.Realloc.{grow, mm_realloc}

TagAhead-le :
    (m : ℕ → ℕ) (p : ℕ) (ts : List Tile) (r : ℕ)
    → Ahead m p ts
    → 4 ≤ p
    → TagAhead p ts r
    → r + 4 ≤ p + total ts
TagAhead-le m p [] r h low k = omega (arith, k)
TagAhead-le m p (t ∷ ts) r (a, b, (c, big), more) low (inl k) = omega (arith, k)
TagAhead-le m p (t ∷ ts) r (a, b, (c, big), more) low (inr (inl k)) = omega (arith, k)
TagAhead-le m p (t ∷ ts) r (a, b, (c, big), more) low (inr (inr k)) =
    let rest = TagAhead-le m (p + t.size) ts r more (omega arith) k in omega arith

free_ahead-le :
    (m : ℕ → ℕ) (p : ℕ) (ts : List Tile) (d : ℕ)
    → Ahead m p ts
    → free_ahead p ts d ≡ true
    → d + 24 ≤ p + total ts
unfolding free_ahead
free_ahead-le m p [] d h k = cc
free_ahead-le m p (t ∷ ts) d (a, b, (c, big), more) k =
    elim (or_cases _ (free_ahead (p + t.size) ts d) k) [
      | inl e ↦ let same = free_here t.used p d e in omega arith
      | inr e ↦ let later = free_ahead-le m (p + t.size) ts d more e in omega arith
    ]

-- A heap depends on its words from the prologue to the break.
outside-Whole :
    {bottom : ℕ} {ts : List Tile} {fl : List ℕ} {h : Heap} (m : ℕ → ℕ)
    → Whole bottom [] ts fl h
    → ((r : ℕ) → bottom ≤ r + 4 → r + 4 ≤ h.mem_brk → m r ≡ h.mem r)
    → Whole bottom [] ts fl (record h { mem = m })
unfolding free_behind
outside-Whole {bottom} {ts} {fl} {h} m w same =
    let low = w.low in
    let brk = w.brk in
    record {
      behind = same (bottom + 32) (omega arith) (omega arith) ∙ w.behind;
      ahead =
          Ahead-frame h.mem m (bottom + 40) ts
            (λ r k.
              let above = TagAhead-ge h.mem (bottom + 40) ts r w.ahead (omega arith) k in
              let under = TagAhead-le h.mem (bottom + 40) ts r w.ahead (omega arith) k in
              same r (omega arith) (omega arith))
            w.ahead;
      prologue = same (bottom - 4) (omega arith) (omega arith) ∙ w.prologue;
      low = w.low;
      origin = w.origin;
      brk = w.brk;
      room = w.room;
      top = w.top;
      chain = (
        Chain-Same h.mem m bottom 0 h.start fl
            (All-has (Same h.mem m) fl (λ d e.
              let k = sym (w.covers d) ∙ e in
              let above = free_ahead-ge (bottom + 40) ts d k in
              let under = free_ahead-le h.mem (bottom + 40) ts d w.ahead k in
              (same d (omega arith) (omega arith), same (d + 8) (omega arith) (omega arith))))
            (same bottom (omega arith) (omega arith)) w.chain.0,
        w.chain.1,
      );
      covers = w.covers;
    }

-- `memcpy` writes no word outside of the bytes that it copies to.
abbrev pub WritesOnly : (ℕ → ℕ → ℕ → (ℕ → ℕ) → ℕ → ℕ) → Type 0
WritesOnly memcpy =
    (d s n : ℕ) (m : ℕ → ℕ) (r : ℕ) → (r + 4 ≤ d) ⊎ (d + n ≤ r) → memcpy d s n m r ≡ m r

module _ (libc_malloc : ℕ → ℕ) (memcpy : ℕ → ℕ → ℕ → (ℕ → ℕ) → ℕ → ℕ) where
  mm_realloc-grow :
      (ptr size n : ℕ) (h : Heap)
      → get_size h ptr ≡ n
      → n < newsize_of size
      → mm_realloc libc_malloc memcpy ptr size h ≡ grow libc_malloc memcpy ptr size n h
  unfolding mm_realloc
  mm_realloc-grow ptr size n h e less =
      let a : (newsize_of size == n) ≡ false = ground arith in
      let b : ltb (newsize_of size) n ≡ false = ground arith in rw (e, a, b) refl

  -- The bytes that are copied.
  abbrev pub copied_bytes : ℕ → ℕ → ℕ
  copied_bytes size n = if ltb size n then size else n

  -- In a sound heap, an allocated block of `n` bytes that are too few for `size`. If the C library's
  -- `malloc` gives NULL for twice the size, so does `mm_realloc`, and changes nothing. If it gives a
  -- block and the bytes that are copied to it lie outside of the heap, the result is that block, and
  -- the heap is sound again: the old block is free, joined with its neighbours that were free, and all
  -- other blocks are as they were.
  pub mm_realloc-grown :
      (bottom : ℕ) (ls : List Tile) (n : ℕ) (ts : List Tile) (fl : List ℕ) (size : ℕ) (h : Heap)
      → WritesOnly memcpy
      → Whole bottom [] (joined ls (used_tile n ∷ ts)) fl h
      → n < newsize_of size
      → let ptr = base bottom ls in
        let newptr = libc_malloc (size * 2 % 2 ^ 32) in
        let result = mm_realloc libc_malloc memcpy ptr size h in
        (newptr ≡ 0 → result ≡ (0, h))
        × (newptr ≢ 0
            → (newptr + copied_bytes size n + 4 ≤ bottom) ⊎ (h.mem_brk ≤ newptr)
            → (result.0 ≡ newptr)
              × (rest : List ℕ) × Whole bottom []
                  (joined (unmerged ls) (free_tile (merged_size ls n ts) ∷ unmerged ts))
                  rest
                  result.1)
  unfolding grow
  mm_realloc-grown bottom ls n ts fl size h only sound less =
      let ptr = base bottom ls in
      let newptr = libc_malloc (size * 2 % 2 ^ 32) in
      let w = cut-Whole ls (used_tile n ∷ ts) sound in
      let (a1, a2, a3, more) = w.ahead in
      let e : get_size h ptr ≡ n = get_size-tag h ptr (used_tile n) a1 a3 in
      let m = memcpy newptr ptr (copied_bytes size n) h.mem in
      rw (mm_realloc-grow ptr size n h e less) (
        (λ z. let null : (newptr == 0) ≡ true = (==_iff newptr 0).1 z in rw null refl),
        (λ z apart.
            let null : (newptr == 0) ≡ false = grind (arith, z) in
            let kept = outside-Whole m sound (λ r low high.
              only newptr ptr (copied_bytes size n) h.mem r
                (elim apart [ inl x ↦ inr (omega arith) | inr x ↦ inl (omega arith) ])) in
            let (rest, whole) = mm_free-Whole bottom ls n ts fl (record h { mem = m }) kept in
            rw null (refl, rest, whole)),
      )
