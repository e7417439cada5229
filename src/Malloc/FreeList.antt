-- ===== src/Malloc/FreeList.antt =====
-- "Efficient Mallocs"/mm_freeList.c: the allocator with an explicit list of free blocks. A block
-- pointer `bp` has its header four bytes before it; a free block holds at `bp` the pointer to the
-- block after it in the list and at `bp + 8` the one before.
pub mod Chain
pub mod Removal
pub mod FirstFit
pub mod Tiles
pub mod Apart
pub mod Outside
pub mod Gap
pub mod TakeOut
pub mod Whole
pub mod Absorb
pub mod Insert
pub mod Join
pub mod Coalesce
pub mod Free
pub mod Place
pub mod Extend
pub mod Fit
pub mod Alloc
pub mod Init
pub mod Live
pub mod Disjoint
pub mod Payload
pub mod Fuel
pub mod Tests
pub mod Realloc
pub mod Grown
pub mod Check
use operating_system_basics.Base.{
  ℕ, zero, suc, ◌+◌, ◌-◌, ◌*◌, ◌/◌, ◌%◌, ◌^◌, Bool, true, false, not, ◌&&◌, ◌||◌, Option, none,
  some, List, [], ◌∷◌, ◌++◌, ◌==◌, ltb, leb, if◌then◌else◌,
}
use operating_system_basics.Malloc.{Heap, minus_one, mem_sbrk, mem_heap_lo, mem_heap_hi, put}

abbrev pub wsize : ℕ
wsize = 4

abbrev pub dsize : ℕ
dsize = 8

abbrev pub min_blocksize : ℕ
min_blocksize = 24

-- `CHUNKSIZE/WSIZE`: the macro has no parentheses, so this is `1 << (12/4)`.
abbrev pub chunk_words : ℕ
chunk_words = 2 ^ (12 / 4)

abbrev pub chunksize : ℕ
chunksize = 2 ^ 12

abbrev pub max : ℕ → ℕ → ℕ
max x y = if ltb y x then x else y

unfoldable pub align : ℕ → ℕ
align p = let q = (p + (dsize - 1)) % 2 ^ 32 in q - q % 8

-- `PACK` for an allocated bit that is not set, and for one that is.
abbrev pub pack_free : ℕ → ℕ
pack_free size = size

abbrev pub pack_alloc : ℕ → ℕ
pack_alloc size = size - size % 2 + 1

abbrev pub size_of : ℕ → ℕ
size_of w = w - w % 8

abbrev pub alloc_of : ℕ → Bool
alloc_of w = not (w % 2 == 0)

abbrev pub hdrp : ℕ → ℕ
hdrp bp = bp - wsize

abbrev pub get_size : Heap → ℕ → ℕ
get_size h bp = size_of (h.mem (hdrp bp))

abbrev pub get_alloc : Heap → ℕ → Bool
get_alloc h bp = alloc_of (h.mem (hdrp bp))

abbrev pub ftrp : Heap → ℕ → ℕ
ftrp h bp = bp + get_size h bp - dsize

abbrev pub right_blkp : Heap → ℕ → ℕ
right_blkp h bp = bp + get_size h bp

abbrev pub left_blkp : Heap → ℕ → ℕ
left_blkp h bp = bp - size_of (h.mem (hdrp bp - wsize))

abbrev pub prev_blkp : Heap → ℕ → ℕ
prev_blkp h bp = h.mem (bp + dsize)

abbrev pub next_blkp : Heap → ℕ → ℕ
next_blkp h bp = h.mem bp

abbrev pub setprev : ℕ → ℕ → Heap → Heap
setprev bp p h = put (bp + dsize) p h

abbrev pub setnext : ℕ → ℕ → Heap → Heap
setnext bp p h = put bp p h

-- Header, then footer: the footer is found by the header.
abbrev pub put_both : ℕ → ℕ → Heap → Heap
put_both bp w h = let h1 = put (hdrp bp) w h in put (ftrp h1 bp) w h1

unfoldable pub insert_block : ℕ → Heap → Heap
insert_block bp h =
    let h1 = setprev bp h.start h in
    let h2 = setnext h1.start bp h1 in let h3 = setnext bp 0 h2 in record h3 { start = bp }

unfoldable pub remove_block : ℕ → Heap → Heap
remove_block bp h =
    let h1 =
      if not (next_blkp h bp == 0)
      then setprev (next_blkp h bp) (prev_blkp h bp) h
      else record h { start = prev_blkp h bp } in
    setnext (prev_blkp h1 bp) (next_blkp h1 bp) h1

-- The three cases of `coalesce` that join blocks, by the two tests.
unfoldable pub join_blocks : Bool → Bool → ℕ → Heap → ℕ × Heap
join_blocks true true bp h = (bp, h)
join_blocks true false bp h =
    let size = (get_size h bp + get_size h (right_blkp h bp)) % 2 ^ 32 in
    let h1 = remove_block (right_blkp h bp) h in (bp, put_both bp (pack_free size) h1)
join_blocks false true bp h =
    let size = (get_size h bp + get_size h (left_blkp h bp)) % 2 ^ 32 in
    let left = left_blkp h bp in (left, put_both left (pack_free size) (remove_block left h))
join_blocks false false bp h =
    let h1 = remove_block (left_blkp h bp) h in
    let h2 = remove_block (right_blkp h1 bp) h1 in
    let size =
      (get_size h bp + get_size h2 (left_blkp h2 bp) + get_size h2 (right_blkp h2 bp)) % 2 ^ 32 in
    let left = left_blkp h2 bp in (left, put_both left (pack_free size) h2)

unfoldable pub coalesce : ℕ → Heap → ℕ × Heap
coalesce bp h =
    let left = left_blkp h bp in
    let left_alloc = alloc_of (h.mem (ftrp h left)) || (left == bp) in
    let right_alloc = get_alloc h (right_blkp h bp) in
    let (p, h1) = join_blocks left_alloc right_alloc bp h in (p, insert_block p h1)

-- `NULL` is 0.
unfoldable pub extend_heap : ℕ → Heap → ℕ × Heap
extend_heap words h =
    let size = (if words % 2 == 1 then words + 1 else words) * wsize % 2 ^ 32 in
    let (bp, h1) = mem_sbrk size h in
    if bp == minus_one
    then (0, h1)
    else let h2 = put_both bp (pack_free size) h1 in
      coalesce bp (put (hdrp (right_blkp h2 bp)) (pack_alloc 0) h2)

-- The stores of `mm_init` at the start of its first request.
unfoldable pub put_prologue : ℕ → Heap → Heap
put_prologue p h =
    let h1 = put (p + wsize) (pack_alloc min_blocksize) (put p 0 h) in
    let h2 = put (p + dsize + wsize) 0 (put (p + dsize) 0 h1) in
    let h3 =
      put (p + wsize + min_blocksize) (pack_alloc 0)
        (put (p + min_blocksize) (pack_alloc min_blocksize) h2) in
    record h3 { heap_listp = p; start = p + dsize }

-- `some true` is the result 0, `some false` is -1; `none` is the fault of a store through
-- `(void *)-1`, which the test for `NULL` lets pass.
unfoldable pub mm_init : Heap → Option (Bool × Heap)
mm_init h =
    let (p, h1) = mem_sbrk (2 * min_blocksize) h in
    if p == 0
    then some (false, record h1 { heap_listp = p })
    else if p == minus_one
    then none
    else let (bp, h2) = extend_heap chunk_words (put_prologue p h1) in some (not (bp == 0), h2)

-- The `while` of `find_freeblock` on fuel; `none` means that it has not ended.
unfoldable pub find_loop : ℕ → ℕ → ℕ → Heap → Option ℕ
find_loop zero asize bp h = none
find_loop (suc fuel) asize bp h =
    let rest = find_loop fuel asize (prev_blkp h bp) h in
    if get_alloc h bp then some 0 else if leb asize (get_size h bp) then some bp else rest

unfoldable pub find_freeblock : ℕ → ℕ → Heap → Option ℕ
find_freeblock fuel asize h = find_loop fuel asize h.start h

unfoldable pub place : ℕ → ℕ → Heap → Heap
place bp asize h =
    let size = get_size h bp in
    let remblock_size = (size + 2 ^ 32 - asize) % 2 ^ 32 in
    let h1 = remove_block bp (put_both bp (pack_alloc asize) h) in
    let rest = right_blkp h1 bp in
    if leb min_blocksize remblock_size
    then (coalesce rest (put_both rest (pack_free remblock_size) h1)).1
    else remove_block bp (put_both bp (pack_alloc size) h)

unfoldable pub newsize_of : ℕ → ℕ
newsize_of size = max ((align size + dsize) % 2 ^ 32) min_blocksize

unfoldable pub mm_malloc : ℕ → ℕ → Heap → Option (ℕ × Heap)
mm_malloc fuel size h =
    let newsize = newsize_of size in
    if size == 0 then some (0, h) else elim (find_freeblock fuel newsize h) [
      | none ↦ none
      | some bp ↦
          if not (bp == 0)
          then some (bp, place bp newsize h)
          else let (p, h1) = extend_heap (max newsize chunksize / wsize) h in
            if p == 0 then some (0, h1) else some (p, place p newsize h1)
    ]

unfoldable pub mm_free : ℕ → Heap → Heap
mm_free bp h = (coalesce bp (put_both bp (pack_free (get_size h bp)) h)).1
