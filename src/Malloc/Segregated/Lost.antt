-- ===== src/Malloc/Segregated/Lost.antt =====
-- mm_seggregatedLists.c: `insertBlock` never starts a list, so a freed block is not found again.
use operating_system_basics.Base.{
  ℕ, zero, suc, ◌+◌, ◌-◌, ◌/◌, ◌%◌, ◌≡◌, ◌≢◌, ◌⊎◌, refl, Bool, false, ◌==◌, ◌||◌, ◌&&◌, leb,
  if◌then◌else◌, arith, inl, inr, Bool-cases,
}
use operating_system_basics.Malloc.FreeList.{dsize}
use operating_system_basics.Malloc.Run.{State, Cmd, Run, fault, ok, and_then, load, store}
use operating_system_basics.Malloc.Segregated.{
  list_count, plus, minus, hdrp, class_of, insert_block, insert_walk, link_block, get_size,
  put_both,
}
use operating_system_basics.Malloc.Segregated.Requests.{
  search_lists, fit_walk, mm_free, coalesce, merge,
}

-- All lists are empty.
abbrev pub Empty : State → Type 0
Empty s = (i : ℕ) → s.seglist i ≡ 0

-- The run ends, in a fault or with empty lists.
data Harmless {A : Type 0} : Run A → Type 0 where
  faulted : Harmless fault
  returned : (a : A) (t : State) → Empty t → Harmless (ok a t)

then-Harmless :
    {A B : Type 0} {r : Run A} {k : A → Cmd B}
    → Harmless r
    → ((a : A) (t : State) → Empty t → Harmless (k a t))
    → Harmless (and_then r k)
then-Harmless faulted next = faulted
then-Harmless (returned a t e) next = next a t e

outcome :
    {A : Type 0} {r : Run A}
    → Harmless r
    → (r ≡ fault) ⊎ ((a : A) × (t : State) × (r ≡ ok a t) × Empty t)
outcome faulted = inl refl
outcome (returned a t e) = inr (a, t, refl, e)

module _ (mapped : ℕ → Bool) where
  load-Harmless : (p : ℕ) (s : State) → Empty s → Harmless (load mapped p s)
  unfolding load
  load-Harmless p s e = elim (Bool-cases (mapped p)) [
    | inl k ↦ rw k (returned (s.heap.mem p) s e)
    | inr k ↦ rw k faulted
  ]

  store-Harmless : (p v : ℕ) (s : State) → Empty s → Harmless (store mapped p v s)
  unfolding store
  store-Harmless p v s e = elim (Bool-cases (mapped p)) [
    | inl k ↦ rw k (
        returned tt
          (record s { heap = record s.heap { mem = λ q. if q == p then v else s.heap.mem q } }) e)
    | inr k ↦ rw k faulted
  ]

  size-Harmless : (p : ℕ) (s : State) → Empty s → Harmless (get_size mapped p s)
  size-Harmless p s e = then-Harmless (load-Harmless p s e) (λ w t f. returned (w - w % 8) t f)

  set-Harmless :
      (p v : ℕ) (s : State)
      → Empty s
      → Harmless (and_then (load mapped p s) (λ q. store mapped q v))
  set-Harmless p v s e = then-Harmless (load-Harmless p s e) (λ q t f. store-Harmless q v t f)

  tags-Harmless : (bp w : ℕ) (s : State) → Empty s → Harmless (put_both mapped bp w s)
  tags-Harmless bp w s e = then-Harmless (store-Harmless (hdrp bp) w s e) (λ u t f.
      then-Harmless
        (then-Harmless (size-Harmless (hdrp bp) t f)
          (λ n t1 g. returned (minus (plus bp n) dsize) t1 g))
        (λ at t2 g. store-Harmless at w t2 g))

  insert-Harmless :
      (fuel ptr size : ℕ) (s : State)
      → Empty s
      → Harmless (insert_block mapped (suc fuel) ptr size s)
  unfolding insert_block insert_walk link_block
  insert-Harmless fuel ptr size s e =
      rw (e (class_of size).0)
        (then-Harmless (set-Harmless ptr 0 s e) (λ u t f. set-Harmless (plus ptr dsize) 0 t f))

  coalesce-Harmless :
      (fuel left right ptr : ℕ) (s : State)
      → left ≢ 0
      → right ≢ 0
      → Empty s
      → Harmless (coalesce mapped (suc fuel) left right ptr s)
  unfolding coalesce merge
  coalesce-Harmless fuel left right ptr s l r e =
      let a : (left == 0) ≡ false = grind (arith, l) in
      let b : (right == 0) ≡ false = grind (arith, r) in
      rw (a, b)
        (then-Harmless (size-Harmless (hdrp ptr) s e) (λ size t f.
          then-Harmless (insert-Harmless fuel ptr size t f) (λ u t1 g. returned ptr t1 g)))

  free-Harmless :
      (fuel left right ptr : ℕ) (s : State)
      → left ≢ 0
      → right ≢ 0
      → Empty s
      → Harmless (mm_free mapped (suc fuel) left right ptr s)
  unfolding mm_free
  free-Harmless fuel left right ptr s l r e =
      then-Harmless (size-Harmless (hdrp ptr) s e) (λ size t f.
        then-Harmless (tags-Harmless ptr size t f) (λ u t1 g.
          then-Harmless (coalesce-Harmless fuel left right ptr t1 l r g)
            (λ p t2 k. returned tt t2 k)))

  -- The search of empty lists comes back with NULL.
  search_lists-Empty :
      (rounds fuel count size newsize : ℕ) (s : State)
      → Empty s
      → search_lists mapped rounds (suc fuel) count size newsize s ≡ ok 0 s
  unfolding search_lists fit_walk
  search_lists-Empty zero fuel count size newsize s e = refl
  search_lists-Empty (suc rounds) fuel count size newsize s e =
      let rest = search_lists-Empty rounds fuel (count + 1) (size / 2) newsize s e in
      elim (Bool-cases ((count == list_count - 1) || (leb size 1 && false))) [
        | inl k ↦ rw (e count, k) rest
        | inr k ↦ rw (e count, k) rest
      ]

-- Where all lists are empty and the two variables of `coalesce` that are never set are not 0, `mm_free`
-- ends in a fault or leaves all lists empty: a search for a block of any size then gives NULL.
pub mm_free-lost :
    (mapped : ℕ → Bool) (fuel left right ptr : ℕ) (s : State)
    → ((i : ℕ) → s.seglist i ≡ 0)
    → left ≢ 0
    → right ≢ 0
    → (mm_free mapped (suc fuel) left right ptr s ≡ fault)
      ⊎ ((t : State) × (mm_free mapped (suc fuel) left right ptr s ≡ ok tt t)
          × ((size newsize : ℕ)
              → search_lists mapped list_count (suc fuel) 0 size newsize t ≡ ok 0 t))
mm_free-lost mapped fuel left right ptr s e l r =
    elim (outcome (free-Harmless mapped fuel left right ptr s l r e)) [
      | inl k ↦ inl k
      | inr (u, t, k, f) ↦
          inr (t, k, λ size newsize. search_lists-Empty mapped list_count fuel 0 size newsize t f)
    ]
