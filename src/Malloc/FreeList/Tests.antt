-- ===== src/Malloc/FreeList/Tests.antt =====
-- mm_freeList.c: heaps with one block, and the theorems on the whole heap at them.
use mathlib.Core.List.{Perm}
use operating_system_basics.Base.{
  ℕ, ◌+◌, ◌-◌, ◌≤◌, ◌<◌, ◌≡◌, ◌≢◌, ◌⊎◌, refl, ◌==◌, leb, ltb, ◌&&◌, if◌then◌else◌, Bool, true,
  false, some, List, [], ◌∷◌, arith, inl, inr,
}
use operating_system_basics.Malloc.{Heap}
use operating_system_basics.Malloc.FreeList.Realloc.{mm_realloc}
use operating_system_basics.Malloc.FreeList.Grown.{WritesOnly, mm_realloc-grown}
use operating_system_basics.Malloc.FreeList.{align, mm_malloc, mm_free, mm_init, newsize_of}
use operating_system_basics.Malloc.FreeList.Tiles.{Tile, free_ahead, free_behind}
use operating_system_basics.Malloc.FreeList.Gap.{has}
use operating_system_basics.Malloc.FreeList.Whole.{Whole, joined}
use operating_system_basics.Malloc.FreeList.Join.{edge_used, edge_size, keep_edge}
use operating_system_basics.Malloc.FreeList.Coalesce.{free_tile, used_tile}
use operating_system_basics.Malloc.FreeList.Free.{mm_free-Whole}
use operating_system_basics.Malloc.FreeList.Alloc.{Served, mm_malloc-Served}
use operating_system_basics.Malloc.FreeList.Init.{mm_init-Whole}
use operating_system_basics.Malloc.FreeList.Live.{
  live, Handed, Spaced, mm_malloc-live, mm_free-live,
}

-- A heap at 1024 before `mm_init`.
abbrev pub blank : Heap
blank = record {
  mem = λ p. 0;
  mem_start_brk = 1024;
  mem_brk = 1024;
  mem_max_addr = 20972544;
  heap_listp = 0;
  start = 0;
}

-- The words of a heap with one block of 32 bytes with tag `w`, at 1072.
abbrev pub words : ℕ → ℕ → ℕ
words w p =
    if p == 1028
    then 25
    else if p == 1068
    then w
    else if p == 1096
    then w
    else if p == 1100
    then 1
    else 0

abbrev pub one_used : Heap
one_used = record blank { mem = words 33; mem_brk = 1104; start = 1032 }

abbrev pub one_free : Heap
one_free = record blank {
  mem = λ p. if p == 1032 then 1072 else if p == 1080 then 1032 else words 32 p;
  mem_brk = 1104;
  start = 1072;
}

pub one_used-Whole : Whole 1032 [] (used_tile 32 ∷ []) [] one_used
unfolding free_ahead free_behind has
one_used-Whole = record {
  behind = refl;
  ahead = (refl, refl, (refl, omega arith), refl);
  prologue = refl;
  low = omega arith;
  origin = omega arith;
  brk = refl;
  room = omega arith;
  top = omega arith;
  chain = ((refl, refl), tt);
  covers = λ d. refl;
}

pub one_free-Whole : Whole 1032 [] (free_tile 32 ∷ []) (1072 ∷ []) one_free
unfolding free_ahead free_behind has
one_free-Whole = record {
  behind = refl;
  ahead = (refl, refl, (refl, omega arith), refl);
  prologue = refl;
  low = omega arith;
  origin = omega arith;
  brk = refl;
  room = omega arith;
  top = omega arith;
  chain = ((refl, refl, (refl, refl)), (omega arith, tt, inr (omega arith), tt));
  covers = λ d. refl;
}

mm_init-Whole_example :
    (g : Heap) × (fl : List ℕ) × (mm_init blank ≡ some (true, g))
    × Whole 1032 [] (free_tile 32 ∷ []) fl g
mm_init-Whole_example =
    mm_init-Whole blank (omega arith) (omega arith) (omega arith) (omega arith) refl

mm_malloc-Served_example :
    Served 1032 (newsize_of 20) (free_tile 32 ∷ []) one_free (mm_malloc 2 20 one_free)
mm_malloc-Served_example = mm_malloc-Served 20 one_free-Whole (omega arith) (omega arith)

mm_malloc-live_example :
    (p : ℕ) × (g : Heap) × (after : List Tile) × (rest : List ℕ) × (mm_malloc 2 20 one_free
      ≡ some (p, g))
    × Whole 1032 [] after rest g
    × Handed 1032 28 (free_tile 32 ∷ []) p after
    × Spaced 1072 g.mem_brk (live 1072 after)
mm_malloc-live_example =
    mm_malloc-live 1032 (free_tile 32 ∷ []) (1072 ∷ []) one_free 20 one_free-Whole (omega arith)
      (omega arith)

mm_free-Whole_example :
    (rest : List ℕ) × Whole 1032 [] (free_tile 32 ∷ []) rest (mm_free 1072 one_used)
unfolding joined edge_used edge_size keep_edge
mm_free-Whole_example = mm_free-Whole 1032 [] 32 [] [] one_used one_used-Whole

mm_free-live_example :
    (after : List Tile) × (rest : List ℕ) × Whole 1032 [] after rest (mm_free 1072 one_used)
    × Perm ((1072, 32) ∷ []) ((1072, 32) ∷ live 1072 after)
unfolding joined live
mm_free-live_example = mm_free-live 1032 [] 32 [] [] one_used one_used-Whole

-- The C library's `malloc` at a heap of its own, and a copy of words.
abbrev libc_malloc : ℕ → ℕ
libc_malloc n = 40000000

abbrev copy_words : ℕ → ℕ → ℕ → (ℕ → ℕ) → ℕ → ℕ
copy_words d s n m r = if leb d r && ltb r (d + n) then m (s + (r - d)) else m r

if_neither : (b : Bool) (x y : ℕ) → (if b && false then x else y) ≡ y
if_neither true x y = refl
if_neither false x y = refl

copy_words-WritesOnly : WritesOnly copy_words
copy_words-WritesOnly d s n m r (inl k) = let e : leb d r ≡ false = ground arith in rw e refl
copy_words-WritesOnly d s n m r (inr k) =
    let e : ltb r (d + n) ≡ false = ground arith in rw e (if_neither (leb d r) _ _)

one_used-small : 32 < newsize_of 100
unfolding newsize_of align
one_used-small = omega arith

mm_realloc-grown_example :
    let newptr = libc_malloc 200 in
    let result = mm_realloc libc_malloc copy_words 1072 100 one_used in
    (newptr ≡ 0 → result ≡ (0, one_used))
    × (newptr ≢ 0
        → (newptr + 32 + 4 ≤ 1032) ⊎ (1104 ≤ newptr)
        → (result.0 ≡ newptr) × (rest : List ℕ) × Whole 1032 [] (free_tile 32 ∷ []) rest result.1)
unfolding joined edge_used edge_size keep_edge
mm_realloc-grown_example =
    mm_realloc-grown libc_malloc copy_words 1032 [] 32 [] [] 100 one_used copy_words-WritesOnly
      one_used-Whole one_used-small
