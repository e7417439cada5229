-- ===== src/Malloc/Segregated/Start.antt =====
-- mm_seggregatedLists.c: `mm_init` on memory that holds zeros.
use operating_system_basics.Base.{
  ℕ, suc, ◌+◌, ◌^◌, ◌≤◌, ◌<◌, ◌≡◌, refl, ap, ◌∙◌, Bool, true, false, not, ◌==◌, ltb, arith,
}
use operating_system_basics.Malloc.{Heap, minus_one, write, put}
use operating_system_basics.Malloc.FreeList.{size_of}
use operating_system_basics.Malloc.Run.{State, pure, ◌>>◌, fault, ok, and_then, load, store, sbrk}
use operating_system_basics.Malloc.Brk.{mem_sbrk-small}
use operating_system_basics.Malloc.Segregated.{
  plus, minus, hdrp, class_of, insert_block, remove_block,
}
use operating_system_basics.Malloc.Segregated.Requests.{
  mm_init, put_start, extend_heap, tag_new, coalesce, merge,
}
use operating_system_basics.Malloc.Segregated.Faults.{remove_block-null, insert_block-null}

-- The memory after the stores of `mm_init` at `b` and those of `extend_heap`.
abbrev init_mem : (ℕ → ℕ) → ℕ → ℕ → ℕ
init_mem m b = write (write (write (write m b 0) (b + 84) 9) (b + 88) 9) (b + 92) 1

abbrev grown_mem : (ℕ → ℕ) → ℕ → ℕ → ℕ
grown_mem m b = write (write (write m (b + 92) 4096) (b + 4184) 4096) (b + 4188) 1

module _ (mapped : ℕ → Bool) (reach : (p : ℕ) → 4096 ≤ p → mapped p ≡ true) (b : ℕ) (low : 4096 ≤ b)
    (high : b + 5000 < 2 ^ 32) where
  store_at :
      (p v : ℕ) (s : State)
      → 4096 ≤ p
      → store mapped p v s ≡ ok tt (record s { heap = put p v s.heap })
  unfolding store
  store_at p v s le = rw (reach p le) refl

  put_start-ok :
      (s : State)
      → put_start mapped b s
        ≡ ok tt (record s {
          seglist = λ i. 0;
          heap = record s.heap { mem = init_mem s.heap.mem b; start = b };
        })
  unfolding put_start
  put_start-ok s =
      let e1 : plus b 84 ≡ b + 84 = omega arith in
      let e2 : plus b 88 ≡ b + 88 = omega arith in
      let e3 : plus b 92 ≡ b + 92 = omega arith in
      let s1 : State = record s { heap = put b 0 s.heap } in
      let s2 : State = record s1 { seglist = λ i. 0; heap = record s1.heap { start = b } } in
      let s3 : State = record s2 { heap = put (b + 84) 9 s2.heap } in
      let s4 : State = record s3 { heap = put (b + 88) 9 s3.heap } in
      rw
        (
          store_at b 0 s low,
          e1,
          e2,
          e3,
          store_at (b + 84) 9 s2 (omega arith),
          store_at (b + 88) 9 s3 (omega arith),
          store_at (b + 92) 1 s4 (omega arith),
        )
        refl

  load_at : (p : ℕ) (s : State) → 4096 ≤ p → load mapped p s ≡ ok (s.heap.mem p) s
  unfolding load
  load_at p s le = rw (reach p le) refl

  tag_new-ok :
      (s : State)
      → tag_new mapped (b + 96) 4096 s
        ≡ ok tt (record s { heap = record s.heap { mem = grown_mem s.heap.mem b } })
  unfolding tag_new
  tag_new-ok s =
      let m = s.heap.mem in
      let e1 : minus (b + 96) 4 ≡ b + 92 = omega arith in
      let e2 : minus (plus (b + 96) 4096) 8 ≡ b + 4184 = omega arith in
      let e3 : plus (b + 96) 4096 ≡ b + 4192 = omega arith in
      let e4 : minus (b + 4192) 4 ≡ b + 4188 = omega arith in
      let s1 : State = record s { heap = put (b + 92) 4096 s.heap } in
      let s2 : State = record s1 { heap = put (b + 4184) 4096 s1.heap } in
      let v1 : write m (b + 92) 4096 (b + 92) ≡ 4096 = ground arith in
      let v2 : write (write m (b + 92) 4096) (b + 4184) 4096 (b + 92) ≡ 4096 = ground arith in
      rw
        (
          e1,
          store_at (b + 92) 4096 s (omega arith),
          load_at (b + 92) s1 (omega arith),
          v1,
          e2,
          store_at (b + 4184) 4096 s1 (omega arith),
          load_at (b + 92) s2 (omega arith),
          v2,
          e3,
          e4,
          store_at (b + 4188) 1 s2 (omega arith),
        )
        refl

  -- The words that `coalesce` reads around the first block, at `b + 96`.
  record Ready (s : State) : Type 0 where
    prologue : s.heap.mem (b + 88) ≡ 9
    header : s.heap.mem (b + 92) ≡ 4096
    first : s.heap.mem (b + 96) ≡ 0
    epilogue : s.heap.mem (b + 4188) ≡ 1
    beyond : s.heap.mem (b + 4200) ≡ 0
    empty : (i : ℕ) → s.seglist i ≡ 0

  module _ (null : mapped 0 ≡ false) (s : State) (r : Ready s) where
    left_gone : remove_block mapped (b + 88) s ≡ fault
    left_gone =
        let e1 : hdrp (b + 88) ≡ b + 84 = omega arith in
        let e2 : plus (b + 88) 8 ≡ b + 96 = omega arith in
        remove_block-null mapped s null (b + 88) (ap mapped e1 ∙ reach (b + 84) (omega arith))
          (reach (b + 88) (omega arith)) (ap mapped e2 ∙ reach (b + 96) (omega arith))
          (ap s.heap.mem e2 ∙ r.first)

    right_gone : remove_block mapped (b + 4192) s ≡ fault
    right_gone =
        let e1 : hdrp (b + 4192) ≡ b + 4188 = omega arith in
        let e2 : plus (b + 4192) 8 ≡ b + 4200 = omega arith in
        remove_block-null mapped s null (b + 4192) (ap mapped e1 ∙ reach (b + 4188) (omega arith))
          (reach (b + 4192) (omega arith)) (ap mapped e2 ∙ reach (b + 4200) (omega arith))
          (ap s.heap.mem e2 ∙ r.beyond)

    merge-left : (c : Bool) → merge mapped false c (b + 96) 4096 s ≡ fault
    unfolding merge
    merge-left true =
        let e1 : minus (b + 96) 8 ≡ b + 88 = omega arith in
        let e2 : minus (b + 96) (size_of 9) ≡ b + 88 = omega arith in
        rw (e1, load_at (b + 88) s (omega arith), r.prologue, e2, left_gone) refl
    merge-left false =
        let e1 : minus (b + 96) 8 ≡ b + 88 = omega arith in
        let e2 : minus (b + 96) (size_of 9) ≡ b + 88 = omega arith in
        rw (e1, load_at (b + 88) s (omega arith), r.prologue, e2, left_gone) refl

    merge-right : merge mapped true false (b + 96) 4096 s ≡ fault
    unfolding merge
    merge-right =
        let e1 : minus (b + 96) 4 ≡ b + 92 = omega arith in
        let e2 : plus (b + 96) 4096 ≡ b + 4192 = omega arith in
        rw (e1, load_at (b + 92) s (omega arith), r.header, e2, right_gone) refl

    both_used : (fuel : ℕ) → insert_block mapped (suc fuel) (b + 96) 4096 s ≡ fault
    both_used fuel =
        insert_block-null mapped s null fuel (b + 96) 4096 (reach (b + 96) (omega arith)) r.first
          (r.empty (class_of 4096).0)

    after_merge :
        (fuel : ℕ) (c d : Bool)
        → and_then
            (merge mapped c d (b + 96) 4096 s)
            (λ p. insert_block mapped (suc fuel) p.0 p.1 >> pure p.0)
          ≡ fault
    unfolding merge
    after_merge fuel true true = rw (both_used fuel) refl
    after_merge fuel true false = rw merge-right refl
    after_merge fuel false d = rw (merge-left d) refl

    coalesce-fault :
        (fuel left right : ℕ) → coalesce mapped (suc fuel) left right (b + 96) s ≡ fault
    unfolding coalesce
    coalesce-fault fuel left right =
        let e1 : minus (b + 96) 4 ≡ b + 92 = omega arith in
        rw (e1, load_at (b + 92) s (omega arith), r.header)
          (after_merge fuel (not (left == 0)) (not (right == 0)))

  ready :
      (m : ℕ → ℕ) (h : Heap)
      → ((p : ℕ) → m p ≡ 0)
      → Ready (record { heap = record h { mem = grown_mem (init_mem m b) b }; seglist = λ i. 0 })
  ready m h blank =
      let z1 = blank (b + 96) in
      let z2 = blank (b + 4200) in
      record {
        prologue = ground arith;
        header = ground arith;
        first = ground arith;
        epilogue = ground arith;
        beyond = ground arith;
        empty = λ i. refl;
      }

-- On memory that holds zeros, where the process can access every address outside of the first page,
-- `mm_init` ends in a fault, whatever the two variables of `coalesce` hold that are never set.
pub mm_init-fault :
    (mapped : ℕ → Bool) (fuel left right : ℕ) (s : State)
    → mapped 0 ≡ false
    → ((p : ℕ) → 4096 ≤ p → mapped p ≡ true)
    → ((p : ℕ) → s.heap.mem p ≡ 0)
    → 4096 ≤ s.heap.mem_brk
    → s.heap.mem_brk + 5000 < s.heap.mem_max_addr
    → s.heap.mem_max_addr < minus_one
    → mm_init mapped (suc fuel) left right s ≡ fault
unfolding mm_init extend_heap sbrk
mm_init-fault mapped fuel left right s null reach blank low room top =
    let b = s.heap.mem_brk in
    let fits : ltb s.heap.mem_max_addr (b + 96) ≡ false = ground arith in
    let got : (b == minus_one) ≡ false = ground arith in
    let s1 : State = record s { heap = record s.heap { mem_brk = b + 96 } } in
    let fits2 : ltb s.heap.mem_max_addr (b + 96 + 4096) ≡ false = ground arith in
    let got2 : (b + 96 == minus_one) ≡ false = ground arith in
    let s2 : State = record s1 {
      seglist = λ i. 0;
      heap = record s1.heap { mem = init_mem s.heap.mem b; start = b };
    } in
    let s3 : State = record s2 { heap = record s2.heap { mem_brk = b + 96 + 4096 } } in
    let done = tag_new-ok mapped reach b low (omega arith) s3 in
    let gone =
      coalesce-fault mapped reach b low (omega arith) null
        (record s3 { heap = record s3.heap { mem = grown_mem s2.heap.mem b } })
        (ready mapped reach b low (omega arith) s.heap.mem s3.heap blank) fuel left right in
    rw
      (
        mem_sbrk-small 96 s.heap (omega arith) (omega arith),
        fits,
        got,
        put_start-ok mapped reach b low (omega arith) s1,
        mem_sbrk-small 4096 s2.heap (omega arith) (omega arith),
        fits2,
        got2,
        done,
        gone,
      )
      refl
