-- ===== src/Malloc.antt =====
-- "Efficient Mallocs"/memlib.c: the heap that the allocators extend, and the words that they read
-- and write in it. A build with `-m32` has pointers and sizes of 32 bits.
pub mod Brk
pub mod FreeList
pub mod Original
pub mod Run
pub mod Segregated
mod Tests
use operating_system_basics.Base.{
  ℕ, ◌+◌, ◌-◌, ◌*◌, ◌/◌, ◌%◌, ◌^◌, Bool, ◌||◌, ◌==◌, ltb, leb, if◌then◌else◌,
}

-- The words of the memory, by address, and the static variables `mem_start_brk`, `mem_brk` and
-- `mem_max_addr`; those of an allocator are `heap_listp` and `start`.
pub record Heap : Type 0 where
  pub mem : ℕ → ℕ
  pub mem_start_brk : ℕ
  pub mem_brk : ℕ
  pub mem_max_addr : ℕ
  pub heap_listp : ℕ
  pub start : ℕ

-- `(void *)-1`.
abbrev pub minus_one : ℕ
minus_one = 2 ^ 32 - 1

abbrev pub max_heap : ℕ
max_heap = 20 * (1024 * 1024)

-- `mem_init`, where the library's `malloc` returned `p`.
unfoldable pub mem_init : ℕ → Heap → Heap
mem_init p h = record h { mem_start_brk = p; mem_max_addr = p + max_heap; mem_brk = p }

unfoldable pub mem_reset_brk : Heap → Heap
mem_reset_brk h = record h { mem_brk = h.mem_start_brk }

-- `mem_sbrk`: the old break, or `(void *)-1`. The increment is the pattern of an `int`, which is
-- negative from 2^31 on; the sum of a pointer and an increment has 32 bits.
unfoldable pub mem_sbrk : ℕ → Heap → ℕ × Heap
mem_sbrk incr h =
    let brk = (h.mem_brk + incr) % 2 ^ 32 in
    if leb (2 ^ 31) incr || ltb h.mem_max_addr brk
    then (minus_one, h)
    else (h.mem_brk, record h { mem_brk = brk })

unfoldable pub mem_heap_lo : Heap → ℕ
mem_heap_lo h = h.mem_start_brk

unfoldable pub mem_heap_hi : Heap → ℕ
mem_heap_hi h = h.mem_brk - 1

unfoldable pub mem_heapsize : Heap → ℕ
mem_heapsize h = h.mem_brk - h.mem_start_brk

-- A store of a word.
abbrev pub write : (ℕ → ℕ) → ℕ → ℕ → ℕ → ℕ
write m p v q = if q == p then v else m q

abbrev pub put : ℕ → ℕ → Heap → Heap
put p v h = record h { mem = write h.mem p v }
