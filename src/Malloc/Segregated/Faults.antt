-- ===== src/Malloc/Segregated/Faults.antt =====
-- mm_seggregatedLists.c: stores and loads through the pointers that a block holds.
use operating_system_basics.Base.{ℕ, suc, ◌≡◌, refl, Bool, true, false}
use operating_system_basics.Malloc.Run.{State, fault, ok, load, store}
use operating_system_basics.Malloc.Segregated.{
  plus, hdrp, class_of, insert_block, insert_walk, link_block, remove_block,
}

module _ (mapped : ℕ → Bool) (s : State) (null : mapped 0 ≡ false) where
  load_mapped : (p : ℕ) → mapped p ≡ true → load mapped p s ≡ ok (s.heap.mem p) s
  unfolding load
  load_mapped p e = rw e refl

  load_null : load mapped 0 s ≡ fault
  unfolding load
  load_null = rw null refl

  store_null : (v : ℕ) → store mapped 0 v s ≡ fault
  unfolding store
  store_null v = rw null refl

  -- `removeBlock` of a block whose next pointer is NULL reads through it.
  pub remove_block-null :
      (bp : ℕ)
      → mapped (hdrp bp) ≡ true
      → mapped bp ≡ true
      → mapped (plus bp 8) ≡ true
      → s.heap.mem (plus bp 8) ≡ 0
      → remove_block mapped bp s ≡ fault
  unfolding remove_block
  remove_block-null bp m1 m2 m3 e =
      rw (load_mapped (hdrp bp) m1, load_mapped bp m2, load_mapped (plus bp 8) m3, e, load_null)
        refl

  -- `insertBlock` of a block whose first word is 0 before an empty list stores through it.
  pub insert_block-null :
      (fuel ptr size : ℕ)
      → mapped ptr ≡ true
      → s.heap.mem ptr ≡ 0
      → s.seglist (class_of size).0 ≡ 0
      → insert_block mapped (suc fuel) ptr size s ≡ fault
  unfolding insert_block insert_walk link_block
  insert_block-null fuel ptr size m e empty = rw (empty, load_mapped ptr m, e, store_null 0) refl
