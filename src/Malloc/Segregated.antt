-- ===== src/Malloc/Segregated.antt =====
-- "Efficient Mallocs"/mm_seggregatedLists.c: the allocator with a list of free blocks for each power
-- of two. Addresses and sizes wrap at 2^32; `NULL` is 0. A block pointer `bp` has its header four bytes
-- before it, `PREV_BLKP` at `bp` and `NEXT_BLKP` at `bp + 8`.
pub mod Requests
pub mod Check
pub mod Faults
pub mod Start
pub mod Lost
mod Tests
use operating_system_basics.Base.{
  ℕ, zero, suc, ◌+◌, ◌-◌, ◌*◌, ◌/◌, ◌%◌, ◌^◌, Bool, true, false, not, ◌&&◌, ◌||◌, ◌==◌, ltb, leb,
  if◌then◌else◌,
}
use operating_system_basics.Malloc.{Heap, minus_one}
use operating_system_basics.Malloc.FreeList.{
  wsize, dsize, max, align, pack_free, pack_alloc, size_of, alloc_of,
}
use operating_system_basics.Malloc.Run.{
  State, Cmd, ok, out_of_fuel, pure, ◌>>=◌, ◌>>◌, load, store, get_list, set_list, sbrk,
}

abbrev pub list_count : ℕ
list_count = 20

abbrev pub chunk_bytes : ℕ
chunk_bytes = 2 ^ 12

abbrev pub plus : ℕ → ℕ → ℕ
plus p n = (p + n) % 2 ^ 32

abbrev pub minus : ℕ → ℕ → ℕ
minus p n = (p + 2 ^ 32 - n) % 2 ^ 32

abbrev pub hdrp : ℕ → ℕ
hdrp bp = minus bp wsize

module _ (mapped : ℕ → Bool) where
  -- `GET_SIZE`.
  abbrev pub get_size : ℕ → Cmd ℕ
  get_size p = do w ← load mapped p; pure (size_of w)

  abbrev pub header_size : ℕ → Cmd ℕ
  header_size bp = get_size (hdrp bp)

  abbrev pub ftrp : ℕ → Cmd ℕ
  ftrp bp = do n ← header_size bp; pure (minus (plus bp n) dsize)

  abbrev pub right_blkp : ℕ → Cmd ℕ
  right_blkp bp = do n ← header_size bp; pure (plus bp n)

  abbrev pub left_blkp : ℕ → Cmd ℕ
  left_blkp bp = do n ← get_size (minus bp dsize); pure (minus bp n)

  abbrev pub prev_blkp : ℕ → Cmd ℕ
  prev_blkp bp = load mapped bp

  abbrev pub next_blkp : ℕ → Cmd ℕ
  next_blkp bp = load mapped (plus bp dsize)

  -- `LIST_PREV` is what `PREV_BLKP` is; `LIST_NEXT` reads through the pointer once more.
  abbrev pub list_prev : ℕ → Cmd ℕ
  list_prev bp = load mapped bp

  abbrev pub list_next : ℕ → Cmd ℕ
  list_next bp = do p ← next_blkp bp; load mapped p

  -- `SET(PREV_BLKP(bp), v)` stores at the address that `bp` holds, not at `bp`.
  abbrev pub set_prev : ℕ → ℕ → Cmd (Unit {0})
  set_prev bp v = do p ← prev_blkp bp; store mapped p v

  abbrev pub set_next : ℕ → ℕ → Cmd (Unit {0})
  set_next bp v = do p ← next_blkp bp; store mapped p v

  abbrev pub put_header : ℕ → ℕ → Cmd (Unit {0})
  put_header bp w = store mapped (hdrp bp) w

  abbrev pub put_footer : ℕ → ℕ → Cmd (Unit {0})
  put_footer bp w = do f ← ftrp bp; store mapped f w

  abbrev pub put_both : ℕ → ℕ → Cmd (Unit {0})
  put_both bp w = do put_header bp w; put_footer bp w

-- The loop that finds the list for a size, on the rounds that are left: the list, and what is left of
-- the size.
unfoldable pub class_loop : ℕ → ℕ → ℕ → ℕ × ℕ
class_loop zero count size = (count, size)
class_loop (suc rounds) count size =
    let more = class_loop rounds (count + 1) (size / 2) in
    if ltb 1 size then more else (count, size)

unfoldable pub class_of : ℕ → ℕ × ℕ
class_of size = class_loop (list_count - 1) 0 size

module _ (mapped : ℕ → Bool) where
  -- The `while` of `insertBlock` from `tmp` with `pos` before it, on fuel.
  unfoldable pub insert_walk : ℕ → ℕ → ℕ → ℕ → Cmd (ℕ × ℕ)
  insert_walk zero size tmp pos = λ s. out_of_fuel
  insert_walk (suc fuel) size tmp pos = if tmp == 0 then pure (tmp, pos) else do
    n ← header_size mapped tmp
    if ltb n size
        then (do next ← list_prev mapped tmp; insert_walk fuel size next tmp)
        else pure (tmp, pos)

  -- The stores of `insertBlock`, by whether there is a block `tmp` and a block `pos`.
  unfoldable pub link_block : Bool → Bool → ℕ → ℕ → ℕ → ℕ → Cmd (Unit {0})
  link_block true true ptr tmp pos count = do
    set_prev mapped ptr tmp
    set_next mapped tmp ptr
    set_next mapped ptr pos
    set_prev mapped pos ptr
  link_block true false ptr tmp pos count = do
    set_prev mapped ptr tmp
    set_next mapped tmp ptr
    set_next mapped ptr 0
    set_list count ptr
  link_block false true ptr tmp pos count = do
    set_prev mapped ptr 0
    set_next mapped ptr pos
    set_prev mapped pos ptr
  link_block false false ptr tmp pos count = do set_prev mapped ptr 0; set_next mapped ptr 0

  unfoldable pub insert_block : ℕ → ℕ → ℕ → Cmd (Unit {0})
  insert_block fuel ptr size = do
    let (count, rest) = class_of size
    first ← get_list count
    at ← insert_walk fuel rest first 0
    link_block (not (at.0 == 0)) (not (at.1 == 0)) ptr at.0 at.1 count

  -- The stores of `removeBlock`, by its tests of the two neighbours.
  unfoldable pub unlink_block : Bool → Bool → ℕ → ℕ → Cmd (Unit {0})
  unlink_block true true bp count = do
    p ← list_prev mapped bp
    n ← list_next mapped bp
    set_prev mapped p n
    n1 ← list_next mapped bp
    p1 ← list_prev mapped bp
    set_prev mapped n1 p1
  unlink_block true false bp count = do
    p ← list_prev mapped bp
    set_next mapped p 0
    p1 ← list_prev mapped bp
    set_list count p1
  unlink_block false true bp count = do n ← list_next mapped bp; set_prev mapped n 0
  unlink_block false false bp count = set_list count 0

  unfoldable pub remove_block : ℕ → Cmd (Unit {0})
  remove_block bp = do
    size ← header_size mapped bp
    prev ← list_prev mapped bp
    next ← list_next mapped bp
    unlink_block (not (prev == 0)) (not (next == 0)) bp (class_of size).0
