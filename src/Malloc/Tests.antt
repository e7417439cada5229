-- ===== src/Malloc/Tests.antt =====
-- Runs of the allocator, and each theorem at a small heap.
use operating_system_basics.Base.{
  inl, ℕ, ◌++◌, ◌≡◌, refl, ◌==◌, if◌then◌else◌, Bool, Option, none, some, List, [], ◌∷◌, arith, inr,
}
use operating_system_basics.Malloc.{Heap, mem_init, mem_sbrk, mem_heap_lo}
use operating_system_basics.Malloc.Brk.{Follow, areas, areas-Follow}
use operating_system_basics.Malloc.Original
use operating_system_basics.Malloc.Original.{Placed, payloads-Placed}
use operating_system_basics.Malloc.FreeList.Check.{
  Message, out_of_bounds, check_block, check_block-first,
}
use operating_system_basics.Malloc.FreeList.{
  get_size, align, newsize_of, insert_block, remove_block, join_blocks, coalesce, extend_heap,
  put_prologue, mm_init, mm_malloc, find_loop, find_freeblock, place,
}
use operating_system_basics.Malloc.FreeList.Chain.{IsFreeList, insert_block-IsFreeList}
use operating_system_basics.Malloc.FreeList.Removal.{remove_block-IsFreeList}

-- Memory that holds zeros, at address 1024.
abbrev no_heap : Heap
no_heap = record {
  mem = λ p. 0;
  mem_start_brk = 0;
  mem_brk = 0;
  mem_max_addr = 0;
  heap_listp = 0;
  start = 0;
}

abbrev fresh : Heap
fresh = record {
  mem = λ p. 0;
  mem_start_brk = 1024;
  mem_brk = 1024;
  mem_max_addr = 20972544;
  heap_listp = 0;
  start = 0;
}

fresh_run : mem_init 1024 no_heap ≡ fresh
unfolding mem_init
fresh_run = refl

-- What a program sees of an allocation: the pointer, and the size of its block.
got : Option (ℕ × Heap) → Option (ℕ × ℕ)
got none = none
got (some (p, h)) = some (p, get_size h p)

after_init : Option (Bool × Heap) → Option (ℕ × ℕ)
after_init none = none
after_init (some (ok, h)) = some (h.start, get_size h h.start)

-- `CHUNKSIZE/WSIZE` is eight words: the first free block has 32 bytes.
mm_init_run : after_init (mm_init fresh) ≡ some (1072, 32)
unfolding mm_init after_init extend_heap put_prologue coalesce join_blocks insert_block mem_sbrk
mm_init_run = refl

malloc_twice : Option (Bool × Heap) → Option (ℕ × ℕ)
malloc_twice none = none
malloc_twice (some (ok, h)) = elim (mm_malloc 9 20 h) [
  | none ↦ none
  | some (p, h1) ↦ got (mm_malloc 9 100 h1)
]

malloc_run : malloc_twice (mm_init fresh) ≡ some (1104, 112)
unfolding malloc_twice got mm_malloc newsize_of align find_freeblock find_loop place remove_block
    mm_init extend_heap put_prologue coalesce join_blocks insert_block mem_sbrk
malloc_run = refl

areas-Follow_example : Follow 1024 20972544 ((1024, 8) ∷ (1032, 24) ∷ [])
unfolding areas mem_sbrk
areas-Follow_example =
    areas-Follow (8 ∷ 4294967288 ∷ 30000000 ∷ 24 ∷ []) fresh
      (inr (omega arith), (inl (omega arith), (inr (omega arith), (inr (omega arith), tt))))
      (omega arith) (omega arith)

-- A prologue at 1032 and a free block at 1072.
abbrev one_free : Heap
one_free = record fresh {
  mem = λ p.
      if p == 1028
      then 25
      else if p == 1032
      then 1072
      else if p == 1068
      then 32
      else if p == 1080
      then 1032
      else 0;
  start = 1072;
}

one_free-IsFreeList : IsFreeList 1032 (1072 ∷ []) one_free
one_free-IsFreeList = ((refl, refl, (refl, refl)), (omega arith, tt, inr (omega arith), tt))

remove_block-IsFreeList_example :
    IsFreeList 1032 (1104 ∷ []) (remove_block 1072 (insert_block 1104 one_free))
remove_block-IsFreeList_example =
    remove_block-IsFreeList 1032 (1104 ∷ []) 1072 [] (insert_block 1104 one_free) (
      insert_block-IsFreeList 1032 1104 (1072 ∷ []) one_free one_free-IsFreeList (omega arith)
        (inr (omega arith), tt) (inr (omega arith)))

payloads-Placed_example : Placed 1024 20972544 ((1032, 10) ∷ (1056, 8) ∷ [])
unfolding Original.payloads Original.mm_malloc Original.align_size mem_sbrk
payloads-Placed_example =
    payloads-Placed (10 ∷ 30000000 ∷ 8 ∷ []) fresh
      ((omega arith, omega arith), ((omega arith, omega arith), ((omega arith, omega arith), tt)))
      (omega arith) (omega arith) (omega arith)

check_block-first_example :
    (ms : List Message) × (check_block 1072 one_free ≡ ms ++ (out_of_bounds ∷ []))
unfolding mem_heap_lo
check_block-first_example =
    check_block-first 1032 1072 [] one_free one_free-IsFreeList (omega arith) (omega arith)
      (omega arith)
