-- ===== src/Driver/Valid.antt =====
-- mdriver.c: `eval_mm_valid` keeps what it tests of the list of live payloads, whatever the allocator does.
use operating_system_basics.Base.{
  ℕ, ◌≡◌, refl, Bool, true, false, Option, none, some, List, [], ◌∷◌, ◌==◌, if◌then◌else◌,
  Bool-cases, inl, inr, get_elem?, subst,
}
use operating_system_basics.Driver.{
  Range, add_range, clear_ranges, TraceOp, alloc_op, free_op, realloc_op, Allocator, Eval,
  fill_block, record_block, realloc_block, with_value, eval_op, eval_loop, eval_mm_valid,
}
use operating_system_basics.Driver.Ranges.{Checked, remove_range-Checked, add_range-Checked}

module _ {S : Type 0} (mm : Allocator S) where
  -- What a result says of the list.
  abbrev Leaves : Option (Bool × Eval S) → Type 0
  Leaves none = Unit {0}
  Leaves (some (ok, e)) = Checked e.ranges

  -- A computation goes on from checked lists.
  with_value-Leaves :
      {A : Type 0} (P : A → Type 0) (o : Option A) (f : A → Option (Bool × Eval S))
      → ((a : A) → o ≡ some a → P a)
      → ((a : A) → P a → Leaves (f a))
      → Leaves (with_value o f)
  unfolding with_value
  with_value-Leaves P none f h k = tt
  with_value-Leaves P (some a) f h k = k a (h a refl)

  fill_block-Leaves :
      (index p size : ℕ) (kept : S → Bool) (e : Eval S) (ok : Bool) (ranges : List Range)
      → Checked ranges
      → Leaves (fill_block mm index p size kept e (ok, ranges))
  unfolding fill_block
  fill_block-Leaves index p size kept e false ranges h = h
  fill_block-Leaves index p size kept e true ranges h = elim (Bool-cases (kept e.heap)) [
    | inl k ↦ rw k h
    | inr k ↦ rw k h
  ]

  record_block-Leaves :
      (index p size : ℕ) (kept : S → Bool) (e : Eval S)
      → Checked e.ranges
      → Leaves (record_block mm index p size kept e)
  unfolding record_block
  record_block-Leaves index p size kept e h =
      with_value-Leaves (λ r. Checked r.1)
        (add_range (mm.heap_lo e.heap) (mm.heap_hi e.heap) e.ranges p size) _
        (λ r s.
          add_range-Checked (mm.heap_lo e.heap) (mm.heap_hi e.heap) e.ranges p size r.0 r.1 h s)
        (λ r c. fill_block-Leaves index p size kept e r.0 r.1 c)

  realloc_block-Leaves :
      (index size : ℕ) (e : Eval S) (oldp oldsize : ℕ)
      → Checked e.ranges
      → Leaves (realloc_block mm index size e oldp oldsize)
  unfolding realloc_block
  realloc_block-Leaves index size e oldp oldsize h =
      elim (Bool-cases ((mm.mm_realloc oldp size e.heap).0 == 0)) [
        | inl z ↦ rw z h
        | inr z ↦ rw z (record_block-Leaves index _ size _ _ (remove_range-Checked e.ranges oldp h))
      ]

  eval_op-Leaves : (op : TraceOp) (e : Eval S) → Checked e.ranges → Leaves (eval_op mm op e)
  unfolding eval_op
  eval_op-Leaves (alloc_op index size) e h = elim (Bool-cases ((mm.mm_malloc size e.heap).0 == 0)) [
    | inl z ↦ rw z h
    | inr z ↦ rw z (record_block-Leaves index _ size _ _ h)
  ]
  eval_op-Leaves (realloc_op index size) e h =
      with_value-Leaves (λ p. Unit {0}) (get_elem? e.blocks index) _ (λ p s. tt)
        (λ oldp u.
          with_value-Leaves (λ p. Unit {0}) (get_elem? e.block_sizes index) _ (λ p s. tt)
            (λ oldsize v. realloc_block-Leaves index size e oldp oldsize h))
  eval_op-Leaves (free_op index) e h =
      with_value-Leaves (λ p. Unit {0}) (get_elem? e.blocks index) _ (λ p s. tt)
        (λ p u. remove_range-Checked e.ranges p h)

  after_op :
      (ops : List TraceOp) (ok : Bool) (e : Eval S)
      → Checked e.ranges
      → Leaves (eval_loop mm ops e)
      → Leaves (if ok then eval_loop mm ops e else some (false, e))
  after_op ops true e h k = k
  after_op ops false e h k = h

  eval_loop-Leaves :
      (ops : List TraceOp) (e : Eval S) → Checked e.ranges → Leaves (eval_loop mm ops e)
  unfolding eval_loop
  eval_loop-Leaves [] e h = h
  eval_loop-Leaves (op ∷ ops) e h =
      with_value-Leaves (λ r. Checked r.1.ranges) (eval_op mm op e) _
        (λ r s. subst Leaves s (eval_op-Leaves op e h))
        (λ r c. after_op ops r.0 r.1 c (eval_loop-Leaves ops r.1 c))

  -- Whatever the allocator returns: when `eval_mm_valid` comes back, with 1 or with 0, each payload
  -- on the list is aligned, and of each payload that was on the list before it, it has no byte in
  -- common with it or holds it strictly inside.
  pub eval_mm_valid-Checked :
      (ops : List TraceOp) (e : Eval S) (ok : Bool) (after : Eval S)
      → eval_mm_valid mm ops e ≡ some (ok, after)
      → Checked after.ranges
  unfolding eval_mm_valid
  eval_mm_valid-Checked ops e ok after s =
      let (started, heap) = mm.mm_init (mm.mem_reset_brk e.heap) in
      let begin : Eval S = record e { heap = heap; ranges = clear_ranges e.ranges } in
      subst Leaves s (after_op ops started begin tt (eval_loop-Leaves ops begin tt))
