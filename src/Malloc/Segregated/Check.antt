-- ===== src/Malloc/Segregated/Check.antt =====
-- mm_seggregatedLists.c: `checkheap`, `checkblock` and `printblock`, as the lines that they print.
use operating_system_basics.Base.{
  ℕ, zero, suc, ◌%◌, Bool, true, false, ◌&&◌, ◌==◌, ltb, if◌then◌else◌, List, [], ◌∷◌, ◌++◌,
}
use operating_system_basics.Malloc.FreeList.{dsize, alloc_of, size_of}
use operating_system_basics.Malloc.Run.{Cmd, ok, out_of_fuel, pure, ◌>>=◌, load}
use operating_system_basics.Malloc.Segregated.{hdrp, header_size, ftrp, next_blkp}

pub data Line : Type 0 where
  heap_at : ℕ → Line
  not_aligned : ℕ → Line
  no_match : Line
  bad_prologue : Line
  bad_epilogue : Line
  end_of_heap : ℕ → Line
  block : ℕ → ℕ → Bool → ℕ → Bool → Line

module _ (mapped : ℕ → Bool) where
  unfoldable pub checkblock : ℕ → Cmd (List Line)
  checkblock bp = do
    header ← load mapped (hdrp bp)
    f ← ftrp mapped bp
    footer ← load mapped f
    pure (
        (if bp % dsize == 0 then [] else not_aligned bp ∷ [])
        ++ (if header == footer then [] else no_match ∷ []))

  -- Is the word before `bp` the tag of a block of `size` bytes that is allocated?
  unfoldable pub is_end : ℕ → ℕ → Cmd Bool
  is_end size bp = do w ← load mapped (hdrp bp); pure ((size_of w == size) && alloc_of w)

  -- The loop of `checkheap` on fuel, with what it prints of each block: the last pointer, and the lines.
  unfoldable pub check_loop : (ℕ → Cmd (List Line)) → ℕ → ℕ → Cmd (ℕ × List Line)
  check_loop print zero bp = λ s. out_of_fuel
  check_loop print (suc fuel) bp = do
    n ← header_size mapped bp
    if ltb 0 n
        then (do
          printed ← print bp
          checked ← checkblock bp
          next ← next_blkp mapped bp
          rest ← check_loop print fuel next
          pure (rest.0, printed ++ checked ++ rest.1))
        else pure (bp, [])

  -- `checkheap`, with what it prints first and of each block.
  unfoldable pub check_with : List Line → (ℕ → Cmd (List Line)) → ℕ → Cmd (List Line)
  check_with first print fuel = do
    start ← (λ s. ok s.heap.start s)
    prologue ← is_end dsize start
    checked ← checkblock start
    walk ← check_loop print fuel start
    last ← print walk.0
    epilogue ← is_end 0 walk.0
    pure (
        first
        ++ (if prologue then [] else bad_prologue ∷ [])
        ++ checked
        ++ walk.1
        ++ last
        ++ (if epilogue then [] else bad_epilogue ∷ []))

  unfoldable pub check_quiet : ℕ → Cmd (List Line)
  check_quiet fuel = check_with [] (λ bp. pure []) fuel

  unfoldable pub printblock : ℕ → ℕ → Cmd (List Line)
  printblock fuel bp = do
    checked ← check_quiet fuel
    header ← load mapped (hdrp bp)
    f ← ftrp mapped bp
    footer ← load mapped f
    pure (
        checked
        ++ ((if size_of header == 0
              then end_of_heap bp
              else block bp (size_of header) (alloc_of header) (size_of footer) (alloc_of footer))
            ∷ []))

  unfoldable pub checkheap : ℕ → Bool → Cmd (List Line)
  checkheap fuel false = check_quiet fuel
  checkheap fuel true = λ s. check_with (heap_at s.heap.start ∷ []) (printblock fuel) fuel s
