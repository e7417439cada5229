-- ===== src/Malloc/FreeList/Extend.antt =====
-- mm_freeList.c: `extend_heap` on the blocks of the heap.
use operating_system_basics.Base.{
  ℕ, ◌+◌, ◌-◌, ◌*◌, ◌%◌, ◌^◌, ◌≤◌, ◌<◌, ◌≡◌, ◌⊎◌, inl, inr, refl, sym, ap, ◌∙◌, Bool, true, false,
  ◌||◌, List, [], arith, subst, ltb, ◌==◌, Bool-cases, ltb→lt, not-ltb→le,
}
use operating_system_basics.Malloc.{Heap, minus_one, write, put}
use operating_system_basics.Malloc.Brk.{mem_sbrk-small}
use operating_system_basics.Malloc.FreeList.{put_both, coalesce, extend_heap, right_blkp, size_of}
use operating_system_basics.Malloc.FreeList.Chain.{Chain-Same, Same, IsFreeList}
use operating_system_basics.Malloc.FreeList.Tiles.{
  Tile, base, base-ge, free_behind, free_ahead, TagBehind-le, Behind, Behind-frame,
}
use operating_system_basics.Malloc.FreeList.Apart.{free_behind-le}
use operating_system_basics.Malloc.FreeList.Gap.{Around, Gap, All-has, has}
use operating_system_basics.Malloc.FreeList.Insert.{put_both-put}
use operating_system_basics.Malloc.FreeList.Whole.{Whole}
use operating_system_basics.Malloc.FreeList.Join.{Filled}
use operating_system_basics.Malloc.FreeList.Coalesce.{Coalesced, coalesce_sized}

-- The memory after the tags of a new block of `n` bytes at `bp` and the epilogue after it.
abbrev grown : (ℕ → ℕ) → ℕ → ℕ → ℕ → ℕ
grown m bp n = write (write (write m (bp - 4) n) (bp + n - 8) n) (bp + n - 4) 1

below_grown : (m : ℕ → ℕ) (bp n r : ℕ) → r + 4 < bp → 24 ≤ n → grown m bp n r ≡ m r
below_grown m bp n r lt big = ground arith

or_nothing : (x b : Bool) → x ≡ (b || false) → x ≡ ((b || false) || false)
or_nothing x true e = e
or_nothing x false e = e

drop_nothing : (b : Bool) → (b || false) ≡ true → b ≡ true
drop_nothing true e = e
drop_nothing false e = e

-- The heap up to its break, where nothing is said of the word before the break.
pub record Edge (bottom : ℕ) (ls : List Tile) (fl : List ℕ) (h : Heap) : Type 0 where
  pub behind : Behind h.mem bottom ls
  pub prologue : h.mem (bottom - 4) ≡ 25
  pub low : 8 ≤ bottom
  pub origin : h.mem_start_brk ≤ bottom
  pub brk : h.mem_brk ≡ base bottom ls
  pub room : h.mem_brk ≤ h.mem_max_addr
  pub top : h.mem_max_addr + 2 ^ 27 < 2 ^ 32
  pub chain : IsFreeList bottom fl h
  pub covers : (d : ℕ) → has d fl ≡ (free_behind bottom ls d || false)

pub Whole-Edge :
    {bottom : ℕ} {ls : List Tile} {fl : List ℕ} {h : Heap}
    → Whole bottom ls [] fl h
    → Edge bottom ls fl h
unfolding free_ahead
Whole-Edge w = record {
  behind = w.behind;
  prologue = w.prologue;
  low = w.low;
  origin = w.origin;
  brk = let brk = w.brk in omega arith;
  room = w.room;
  top = w.top;
  chain = w.chain;
  covers = w.covers;
}

module _ {bottom : ℕ} {ls : List Tile} {fl : List ℕ} {h : Heap} (w : Edge bottom ls fl h) (n : ℕ)
    (big : 24 ≤ n) (multiple : n % 8 ≡ 0) (fits : h.mem_brk + n ≤ h.mem_max_addr) where
  abbrev extended : Heap
  extended = record h { mem = grown h.mem (base bottom ls) n; mem_brk = h.mem_brk + n }

  extended-Around : Around bottom ls (base bottom ls + n) [] extended
  extended-Around =
      let low = base bottom ls in
      let start = base-ge bottom ls in
      let brk = w.brk in
      let bound = w.low in
      record {
        behind =
            Behind-frame h.mem (grown h.mem low n) bottom ls
              (λ r k.
                let place = TagBehind-le h.mem bottom ls r w.behind k in
                below_grown h.mem low n r (omega arith) big)
              w.behind;
        ahead = ground arith;
        gap = omega arith;
        prologue = below_grown h.mem low n (bottom - 4) (omega arith) big ∙ w.prologue;
        low = w.low;
        origin = w.origin;
        brk = omega arith;
        room = fits;
        top = w.top;
      }

  extended-Gap : Gap bottom ls (base bottom ls + n) [] false fl extended
  unfolding free_ahead
  extended-Gap =
      let low = base bottom ls in
      let start = base-ge bottom ls in
      record {
        around = extended-Around;
        chain = (
          Chain-Same h.mem (grown h.mem low n) bottom 0 h.start fl
              (All-has (Same h.mem (grown h.mem low n)) fl (λ d e.
                let place =
                  free_behind-le h.mem bottom ls d w.behind
                    (drop_nothing (free_behind bottom ls d) (sym (w.covers d) ∙ e)) in
                (
                  below_grown h.mem low n d (omega arith) big,
                  below_grown h.mem low n (d + 8) (omega arith) big,
                )))
              (below_grown h.mem low n bottom (omega arith) big) w.chain.0,
          w.chain.1,
        );
        covers = λ d. or_nothing (has d fl) (free_behind bottom ls d) (w.covers d);
      }

  extended-Filled : Filled bottom ls (base bottom ls + n) [] fl extended
  extended-Filled =
      let low = base bottom ls in
      let start = base-ge bottom ls in
      record {
        gap = extended-Gap;
        header = ground arith;
        footer = ground arith;
        multiple = omega arith;
      }

  -- The stores of `extend_heap` before `coalesce`.
  extended_stores :
      let h2 = put_both (base bottom ls) n (record h { mem_brk = h.mem_brk + n }) in
      put (right_blkp h2 (base bottom ls) - 4) 1 h2 ≡ extended
  extended_stores =
      let low = base bottom ls in
      let start = base-ge bottom ls in
      let h1 : Heap = record h { mem_brk = h.mem_brk + n } in
      let even : size_of n ≡ n = omega arith in
      let h2 : put_both low n h1 ≡ put (low + n - 8) n (put (low - 4) n h1) =
        put_both-put low n h1 ∙ ap (λ x. put (low + x - 8) n (put (low - 4) n h1)) even in
      let header : write (write h.mem (low - 4) n) (low + n - 8) n (low - 4) ≡ n = ground arith in
      ap (λ (g : Heap). put (right_blkp g low - 4) 1 g) h2
      ∙ ap (λ x. put (low + size_of x - 4) 1 (put (low + n - 8) n (put (low - 4) n h1))) header
      ∙ ap (λ x. put (low + x - 4) 1 (put (low + n - 8) n (put (low - 4) n h1))) even

abbrev marked : ℕ → ℕ → Heap → Heap
marked bp n h =
    let h2 = put_both bp n (record h { mem_brk = h.mem_brk + n }) in put (right_blkp h2 bp - 4) 1 h2

extend_heap-coalesce :
    (words : ℕ) (h : Heap)
    → words % 2 ≡ 0
    → words * 4 < 2 ^ 27
    → h.mem_brk + words * 4 < 2 ^ 32
    → ltb h.mem_max_addr (h.mem_brk + words * 4) ≡ false
    → (h.mem_brk == minus_one) ≡ false
    → extend_heap words h ≡ coalesce h.mem_brk (marked h.mem_brk (words * 4) h)
unfolding extend_heap
extend_heap-coalesce words h even small sum e valid =
    let odd : (words % 2 == 1) ≡ false = ground arith in
    let size : words * 4 % 2 ^ 32 ≡ words * 4 = omega arith in
    rw (odd, size, mem_sbrk-small (words * 4) h (omega arith) sum, e, valid) refl

-- `extend_heap` by an even number of words gives NULL and leaves the heap where there is no room, and
-- otherwise a new free block at the end, joined with the last block where that is free.
pub extend_heap-Coalesced :
    {bottom : ℕ} {ls : List Tile} {fl : List ℕ} {h : Heap} (words : ℕ)
    → Edge bottom ls fl h
    → words % 2 ≡ 0
    → 24 ≤ words * 4
    → words * 4 < 2 ^ 27
    → ((h.mem_max_addr < h.mem_brk + words * 4) × (extend_heap words h ≡ (0, h)))
      ⊎ Coalesced bottom ls (words * 4) [] (extend_heap words h)
unfolding extend_heap
extend_heap-Coalesced {bottom} {ls} {fl} {h} words w even big small =
    let odd : (words % 2 == 1) ≡ false = ground arith in
    let size : words * 4 % 2 ^ 32 ≡ words * 4 = omega arith in
    let brk = w.brk in
    let room = w.room in
    let top = w.top in
    let at : h.mem_brk ≡ base bottom ls = omega arith in
    let valid : (h.mem_brk == minus_one) ≡ false = ground arith in
    let sbrk = mem_sbrk-small (words * 4) h (omega arith) (omega arith) in
    elim (Bool-cases (ltb h.mem_max_addr (h.mem_brk + words * 4))) [
      | inl e ↦ inl (ltb→lt h.mem_max_addr (h.mem_brk + words * 4) e, rw (odd, size, sbrk, e) refl)
      | inr e ↦
          let fits = not-ltb→le h.mem_max_addr (h.mem_brk + words * 4) e in
          let run =
            extend_heap-coalesce words h even small (omega arith) e valid
            ∙ ap (λ x. coalesce x (marked x (words * 4) h)) at
            ∙ ap (λ g. coalesce (base bottom ls) g)
                (extended_stores w (words * 4) big (omega arith) fits) in
          inr (
            subst (Coalesced bottom ls (words * 4) []) (sym run) (
              coalesce_sized (words * 4) refl
                (extended-Filled w (words * 4) big (omega arith) fits)))
    ]
