-- ===== src/Malloc/Segregated/Requests.antt =====
-- mm_seggregatedLists.c: `mm_init`, `mm_malloc`, `mm_free`, `mm_realloc` and what they call. The local
-- variables `left_alloc` and `right_alloc` of `coalesce` are never set: what they hold is `left` and
-- `right`.
use operating_system_basics.Base.{
  ℕ, zero, suc, ◌+◌, ◌-◌, ◌*◌, ◌/◌, ◌%◌, ◌^◌, Bool, true, false, not, ◌&&◌, ◌||◌, ◌==◌, ltb, leb,
  if◌then◌else◌,
}
use operating_system_basics.Malloc.{minus_one}
use operating_system_basics.Malloc.FreeList.{wsize, dsize, max, align, pack_free, pack_alloc}
use operating_system_basics.Malloc.Run.{
  Cmd, ok, out_of_fuel, pure, ◌>>=◌, ◌>>◌, load, store, get_list, sbrk,
}
use operating_system_basics.Malloc.Segregated.{
  list_count, chunk_bytes, plus, minus, header_size, get_size, ftrp, left_blkp, right_blkp,
  list_prev, put_header, put_footer, put_both, insert_block, remove_block,
}

module _ (mapped : ℕ → Bool) where
  -- The cases of `coalesce`, by whether the two variables are not zero: the block and its size.
  unfoldable pub merge : Bool → Bool → ℕ → ℕ → Cmd (ℕ × ℕ)
  merge true true ptr size = pure (ptr, size)
  merge false true ptr size = do
    l ← left_blkp mapped ptr
    remove_block mapped l
    l1 ← left_blkp mapped ptr
    n ← header_size mapped l1
    let total = (size + n) % 2 ^ 32
    put_footer mapped ptr (pack_free total)
    l2 ← left_blkp mapped ptr
    put_header mapped l2 (pack_free total)
    l3 ← left_blkp mapped ptr
    pure (l3, total)
  merge true false ptr size = do
    r ← right_blkp mapped ptr
    remove_block mapped r
    l ← left_blkp mapped ptr
    n ← header_size mapped l
    let total = (size + n) % 2 ^ 32
    put_both mapped ptr (pack_free total)
    pure (ptr, total)
  merge false false ptr size = do
    l ← left_blkp mapped ptr
    remove_block mapped l
    r ← right_blkp mapped ptr
    remove_block mapped r
    l1 ← left_blkp mapped ptr
    n ← header_size mapped l1
    r1 ← right_blkp mapped ptr
    f ← ftrp mapped r1
    m ← get_size mapped f
    let total = (size + n + m) % 2 ^ 32
    l2 ← left_blkp mapped ptr
    put_header mapped l2 (pack_free total)
    r2 ← right_blkp mapped ptr
    put_footer mapped r2 (pack_free total)
    l3 ← left_blkp mapped ptr
    pure (l3, total)

  unfoldable pub coalesce : ℕ → ℕ → ℕ → ℕ → Cmd ℕ
  coalesce fuel left right ptr = do
    size ← header_size mapped ptr
    block ← merge (not (left == 0)) (not (right == 0)) ptr size
    insert_block mapped fuel block.0 block.1
    pure block.0

  -- The tags of a new block, and the epilogue after it.
  unfoldable pub tag_new : ℕ → ℕ → Cmd (Unit {0})
  tag_new bp size = do
    put_both mapped bp (pack_free size)
    r ← right_blkp mapped bp
    put_header mapped r (pack_alloc 0)

  unfoldable pub extend_heap : ℕ → ℕ → ℕ → ℕ → Cmd ℕ
  extend_heap fuel left right words = do
    let size = (if words % 2 == 1 then words + 1 else words) * wsize % 2 ^ 32
    bp ← sbrk size
    if bp == minus_one then pure 0 else (tag_new bp size >> coalesce fuel left right bp)

  -- The stores of `mm_init` before it extends the heap at `start`.
  unfoldable pub put_start : ℕ → Cmd (Unit {0})
  put_start start = do
    store mapped start 0
    (λ s. ok tt (record s { seglist = λ i. 0; heap = record s.heap { start = start } }))
    store mapped (plus start (21 * wsize)) (pack_alloc dsize)
    store mapped (plus start (22 * wsize)) (pack_alloc dsize)
    store mapped (plus start (23 * wsize)) (pack_alloc 0)

  -- `true` is the result 0, `false` is -1.
  unfoldable pub mm_init : ℕ → ℕ → ℕ → Cmd Bool
  mm_init fuel left right = do
    start ← sbrk (24 * wsize)
    if start == minus_one
        then pure false
        else (put_start start
            >> (extend_heap fuel left right (chunk_bytes / wsize) >>= λ bp. pure (not (bp == 0))))

  -- The inner `while` of `mm_malloc`, on fuel.
  unfoldable pub fit_walk : ℕ → ℕ → ℕ → Cmd ℕ
  fit_walk zero newsize bp = λ s. out_of_fuel
  fit_walk (suc fuel) newsize bp = if bp == 0 then pure bp else do
    n ← header_size mapped bp
    if ltb n newsize then (list_prev mapped bp >>= λ prev. fit_walk fuel newsize prev) else pure bp

  -- The outer `while`, on the lists that are left.
  unfoldable pub search_lists : ℕ → ℕ → ℕ → ℕ → ℕ → Cmd ℕ
  search_lists zero fuel count size newsize = pure 0
  search_lists (suc rounds) fuel count size newsize = do
    first ← get_list count
    if (count == list_count - 1) || (leb size 1 && not (first == 0))
        then (fit_walk fuel newsize first >>= λ bp.
            if bp == 0 then search_lists rounds fuel (count + 1) (size / 2) newsize else pure bp)
        else search_lists rounds fuel (count + 1) (size / 2) newsize

  unfoldable pub place : ℕ → ℕ → ℕ → Cmd (Unit {0})
  place fuel bp asize = do
    csize ← header_size mapped bp
    let rest = (csize + 2 ^ 32 - asize) % 2 ^ 32
    if leb (2 * dsize) rest
        then (do
          put_both mapped bp (pack_alloc asize)
          remove_block mapped bp
          r ← right_blkp mapped bp
          put_both mapped r (pack_free rest)
          insert_block mapped fuel r rest)
        else (do put_both mapped bp (pack_alloc csize); remove_block mapped bp)

unfoldable pub newsize_of : ℕ → ℕ
newsize_of size =
    if leb size dsize
    then 2 * dsize
    else dsize * ((size + dsize + (dsize - 1)) % 2 ^ 32 / dsize) % 2 ^ 32

module _ (mapped : ℕ → Bool) where
  -- `extend_heap` takes words: it is asked for four times the bytes.
  unfoldable pub mm_malloc : ℕ → ℕ → ℕ → ℕ → Cmd ℕ
  mm_malloc fuel left right size = if size == 0 then pure 0 else do
    let newsize = newsize_of size
    found ← search_lists mapped list_count fuel 0 size newsize
    bp ←
        (if found == 0
          then extend_heap mapped fuel left right (max newsize chunk_bytes)
          else pure found)
    if bp == 0 then pure 0 else (place mapped fuel bp newsize >> pure bp)

  unfoldable pub mm_free : ℕ → ℕ → ℕ → ℕ → Cmd (Unit {0})
  mm_free fuel left right ptr = do
    size ← header_size mapped ptr
    put_both mapped ptr (pack_free size)
    coalesce mapped fuel left right ptr
    pure tt

  -- `copy dst src n` is `memcpy`.
  unfoldable pub mm_realloc : (ℕ → ℕ → ℕ → (ℕ → ℕ) → ℕ → ℕ) → ℕ → ℕ → ℕ → ℕ → ℕ → Cmd ℕ
  mm_realloc copy fuel left right ptr size = do
    newptr ← mm_malloc fuel left right size
    if newptr == 0 then pure 0 else (do
      old ← load mapped (minus ptr (align 4))
      let n = if ltb size old then size else old
      (λ s. ok tt (record s { heap = record s.heap { mem = copy newptr ptr n s.heap.mem } }))
      mm_free fuel left right ptr
      pure newptr)
