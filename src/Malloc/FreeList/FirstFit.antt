-- ===== src/Malloc/FreeList/FirstFit.antt =====
-- mm_freeList.c: `find_freeblock` takes the first block of the list that is large enough.
use operating_system_basics.Base.{
  ℕ, zero, suc, ◌<◌, ◌≡◌, refl, true, false, some, List, [], ◌∷◌, arith, leb, if◌then◌else◌,
  Bool-cases, inl, inr, length, All, ◌+◌,
}
use operating_system_basics.Malloc.{Heap}
use operating_system_basics.Malloc.FreeList.{find_loop, find_freeblock, get_alloc, get_size, dsize}
use operating_system_basics.Malloc.FreeList.Chain.{Chain, IsFreeList}

-- The first block of at least `asize` bytes, or NULL.
unfoldable pub first_fit : Heap → ℕ → List ℕ → ℕ
first_fit h asize [] = 0
first_fit h asize (b ∷ bs) = if leb asize (get_size h b) then b else first_fit h asize bs

find_loop-first_fit :
    (h : Heap) (asize bottom back p : ℕ) (bs : List ℕ) (fuel : ℕ)
    → Chain h.mem bottom back p bs
    → All (λ b. get_alloc h b ≡ false) bs
    → get_alloc h bottom ≡ true
    → length bs < fuel
    → find_loop fuel asize p h ≡ some (first_fit h asize bs)
unfolding find_loop first_fit
find_loop-first_fit h asize bottom back p bs zero chain clear end enough = absurd (omega arith)
find_loop-first_fit h asize bottom back p [] (suc fuel) (s, k) clear end enough = rw (s, end) refl
find_loop-first_fit h asize bottom back p (b ∷ bs) (suc fuel) (s, k, more) (c, clear) end enough =
    let rest =
      find_loop-first_fit h asize bottom b (h.mem (b + dsize)) bs fuel more clear end
        (omega arith) in
    rw (s, c, rest)
      (elim (Bool-cases (leb asize (get_size h b))) [ inl e ↦ rw e refl | inr e ↦ rw e refl ])

-- Where the blocks of the free list are not allocated and the prologue is, `find_freeblock` comes
-- back with the first block of the list that has `asize` bytes, or with NULL if there is none.
pub find_freeblock-first_fit :
    (h : Heap) (asize bottom : ℕ) (bs : List ℕ) (fuel : ℕ)
    → IsFreeList bottom bs h
    → All (λ b. get_alloc h b ≡ false) bs
    → get_alloc h bottom ≡ true
    → length bs < fuel
    → find_freeblock fuel asize h ≡ some (first_fit h asize bs)
unfolding find_freeblock
find_freeblock-first_fit h asize bottom bs fuel (chain, separate) clear end enough =
    find_loop-first_fit h asize bottom 0 h.start bs fuel chain clear end enough
