-- ===== src/Malloc/FreeList/Realloc.antt =====
-- mm_freeList.c: `mm_realloc`. The C library's `malloc` and `memcpy` are parameters.
use operating_system_basics.Base.{ℕ, ◌-◌, ◌*◌, ◌%◌, ◌^◌, ◌==◌, ltb, leb, if◌then◌else◌}
use operating_system_basics.Malloc.{Heap, put}
use operating_system_basics.Malloc.FreeList.{
  min_blocksize, hdrp, get_size, next_blkp, pack_alloc, put_both, newsize_of, mm_free,
}

-- The shrunk block, and the block at the pointer that its payload starts with.
pub shrink : ℕ → ℕ → ℕ → Heap → Heap
shrink ptr size ptr_size h =
    let h1 = put_both ptr (pack_alloc size) h in
    let h2 = put (hdrp (next_blkp h1 ptr)) (pack_alloc (ptr_size - size)) h1 in
    mm_free (next_blkp h2 ptr) h2

module _ (libc_malloc : ℕ → ℕ) (memcpy : ℕ → ℕ → ℕ → (ℕ → ℕ) → ℕ → ℕ) where
  unfoldable pub grow : ℕ → ℕ → ℕ → Heap → ℕ × Heap
  grow ptr size ptr_size h =
      let newptr = libc_malloc (size * 2 % 2 ^ 32) in
      let n = if ltb size ptr_size then size else ptr_size in
      if newptr == 0
      then (0, h)
      else (newptr, mm_free ptr (record h { mem = memcpy newptr ptr n h.mem }))

  unfoldable pub mm_realloc : ℕ → ℕ → Heap → ℕ × Heap
  mm_realloc ptr size h =
      let asize = newsize_of size in
      let ptr_size = get_size h ptr in
      if asize == ptr_size
      then (ptr, h)
      else if ltb asize ptr_size
      then (if leb (ptr_size - asize) min_blocksize
          then (ptr, h)
          else (ptr, shrink ptr asize ptr_size h))
      else grow ptr size ptr_size h
