-- ===== src/Driver/Peak.antt =====
-- mdriver.c: the highest total that `eval_mm_util` keeps, against the sizes that are open in the trace.
use mathlib.Core.Option.{some-injective}
use operating_system_basics.Base.{
  ℕ, ◌+◌, ◌≤◌, ◌<◌, ◌≡◌, ◌≢◌, ◌⊎◌, inl, inr, refl, sym, ap, ◌∙◌, subst, Bool, true, false, Option,
  none, some, List, [], ◌∷◌, arith, ◌==◌, ltb, if◌then◌else◌, set, get_elem?, length, length-set,
  All, Bool-cases, ==_iff, ℤ, pos, ◌+ℤ◌, ◌-ℤ◌, eq_of_parts, int_laws, Option-cases,
}
use operating_system_basics.Driver.{TraceOp, alloc_op, free_op, realloc_op, Allocator, with_value}
use operating_system_basics.Driver.Pairs.{get_elem?-set, get_elem?-set_same}
use operating_system_basics.Driver.Util.{
  Util, higher, count_block, util_op, util_loop, eval_mm_util,
}

-- The payloads that are open, each by its index and size.
abbrev pub Sizes : Type 0
Sizes = List (ℕ × ℕ)

unfoldable pub sum : Sizes → ℕ
sum [] = 0
sum ((i, n) ∷ s) = n + sum s

abbrev pub without : ℕ → Sizes → Sizes
without i [] = []
without i ((j, n) ∷ s) = let rest = without i s in if j == i then s else (j, n) ∷ rest

-- What a request does to the open payloads.
abbrev pub opened : TraceOp → Sizes → Sizes
opened (alloc_op i n) s = (i, n) ∷ s
opened (realloc_op i n) s = (i, n) ∷ without i s
opened (free_op i) s = without i s

abbrev pub IsIn : ℕ → Sizes → Type 0
IsIn i [] = ⊥
IsIn i ((j, n) ∷ s) = (j ≡ i) ⊎ IsIn i s

abbrev pub IsNew : ℕ → Sizes → Type 0
IsNew i s = All (λ (b : ℕ × ℕ). b.0 ≢ i) s

-- A trace on `ids` blocks asks for memory for an index that is not open, and resizes and frees open
-- ones.
abbrev pub Proper : ℕ → Sizes → List TraceOp → Type 0
Proper ids s [] = Unit
Proper ids s (alloc_op i n ∷ ops) = i < ids × IsNew i s × Proper ids ((i, n) ∷ s) ops
Proper ids s (realloc_op i n ∷ ops) = i < ids × IsIn i s × Proper ids ((i, n) ∷ without i s) ops
Proper ids s (free_op i ∷ ops) = IsIn i s × Proper ids (without i s) ops

abbrev pub greater : ℕ → ℕ → ℕ
greater a b = if ltb a b then b else a

-- The highest sum of open payloads on the way, from `top` on.
unfoldable pub peak : ℕ → Sizes → List TraceOp → ℕ
peak top s [] = top
peak top s (op ∷ ops) = peak (greater top (sum (opened op s))) (opened op s) ops

abbrev Recorded : List ℕ → Sizes → Type 0
Recorded sizes [] = Unit
Recorded sizes ((i, n) ∷ s) = (get_elem? sizes i ≡ some n) × IsNew i s × Recorded sizes s

Recorded-set :
    (sizes : List ℕ) (i n : ℕ) (s : Sizes)
    → IsNew i s
    → Recorded sizes s
    → Recorded (set sizes i n) s
Recorded-set sizes i n [] a r = tt
Recorded-set sizes i n ((j, m) ∷ s) (other, a) (e, d, r) =
    (get_elem?-set sizes i n j other ∙ e, d, Recorded-set sizes i n s a r)

without-IsNew : (i k : ℕ) (s : Sizes) → IsNew k s → IsNew k (without i s)
without-IsNew i k [] a = tt
without-IsNew i k ((j, n) ∷ s) (other, a) = elim (Bool-cases (j == i)) [
  | inl e ↦ rw e a
  | inr e ↦ rw e (other, without-IsNew i k s a)
]

-- An open payload: its size is on record, and without it the others are, none of which has its index.
without-Recorded :
    (sizes : List ℕ) (i : ℕ) (s : Sizes)
    → IsIn i s
    → Recorded sizes s
    → (n : ℕ) × (get_elem? sizes i ≡ some n)
      × (sum s ≡ n + sum (without i s))
      × IsNew i (without i s)
      × Recorded sizes (without i s)
unfolding sum
without-Recorded sizes i [] k r = elim k [ ]
without-Recorded sizes i ((j, n) ∷ s) k (e, d, r) = elim (Bool-cases (j == i)) [
  | inl q ↦
      let same = (==_iff j i).0 q in
      rw q
        (n, subst (λ x. get_elem? sizes x ≡ some n) same e, refl, subst (λ x. IsNew x s) same d, r)
  | inr q ↦ elim k [
    | inl same ↦ absurd (grind (arith, q, same))
    | inr deeper ↦
        let (m, at, total, new, others) = without-Recorded sizes i s deeper r in
        rw q (
          m,
          at,
          omega (arith, total),
          ((λ same. absurd (grind (arith, q, same))), new),
          (e, without-IsNew i j s d, others),
        )
  ]
]

higher-pos : (t m : ℕ) → higher (pos t) (pos m) ≡ pos (greater m t)
higher-pos t m = ground arith

add_size : (t n : ℕ) → pos t +ℤ pos n ≡ pos (n + t)
add_size t n = eq_of_parts _ _ (omega int_laws)

sub_size : (t n r : ℕ) → t ≡ n + r → pos t -ℤ pos n ≡ pos r
sub_size t n r e = eq_of_parts _ _ (omega int_laws)

change_size : (t m n r : ℕ) → t ≡ n + r → pos t +ℤ (pos m -ℤ pos n) ≡ pos (m + r)
change_size t m n r e = eq_of_parts _ _ (omega int_laws)

module _ {S : Type 0} (mm : Allocator S) (ids : ℕ) where
  -- The records of the driver agree with the open payloads, of which the highest sum was `top`.
  pub record Measured (s : Sizes) (top : ℕ) (u : Util S) : Type 0 where
    pub recorded : Recorded u.block_sizes s
    pub count : length u.block_sizes ≡ ids
    pub total : u.total_size ≡ pos (sum s)
    pub highest : u.max_total_size ≡ pos top
    pub below : sum s ≤ top

  abbrev Brought : Sizes → ℕ → Option (Util S) → Type 0
  Brought s top none = Unit {0}
  Brought s top (some u) = Measured s top u

  with_value-Brought :
      {A : Type 0} (s : Sizes) (top : ℕ) (o : Option A) (f : A → Option (Util S))
      → ((a : A) → o ≡ some a → Brought s top (f a))
      → Brought s top (with_value o f)
  unfolding with_value
  with_value-Brought s top none f h = tt
  with_value-Brought s top (some a) f h = h a refl

  -- A block of `n` bytes for index `i`, which is not open.
  counted-Brought :
      (null : Bool) (i p n : ℕ) (heap : S) (total : ℤ) (s : Sizes) (top : ℕ) (u : Util S)
      → i < ids
      → length u.block_sizes ≡ ids
      → IsNew i s
      → Recorded u.block_sizes s
      → u.max_total_size ≡ pos top
      → total ≡ pos (n + sum s)
      → Brought
          ((i, n) ∷ s)
          (greater top (n + sum s))
          (if null then none else some (count_block mm i p n heap total u))
  unfolding sum
  counted-Brought true i p n heap total s top u l c a r m t = tt
  counted-Brought false i p n heap total s top u l c a r m t = record {
    recorded = (
      get_elem?-set_same u.block_sizes i n (omega arith),
      a,
      Recorded-set u.block_sizes i n s a r,
    );
    count = length-set u.block_sizes i n ∙ c;
    total = t;
    highest = rw (t, m) (higher-pos (n + sum s) top);
    below = ground arith;
  }

  util_op-alloc :
      (i n : ℕ) (s : Sizes) (top : ℕ) (u : Util S)
      → Measured s top u
      → i < ids
      → IsNew i s
      → Brought ((i, n) ∷ s) (greater top (n + sum s)) (util_op mm (alloc_op i n) u)
  unfolding util_op
  util_op-alloc i n s top u w l a =
      let t = w.total in
      counted-Brought _ i _ n _ _ s top u l w.count a w.recorded w.highest
        (rw t (add_size (sum s) n))

  util_op-realloc :
      (i n : ℕ) (s : Sizes) (top : ℕ) (u : Util S)
      → Measured s top u
      → i < ids
      → IsIn i s
      → Brought
          ((i, n) ∷ without i s)
          (greater top (n + sum (without i s)))
          (util_op mm (realloc_op i n) u)
  unfolding util_op
  util_op-realloc i n s top u w l k =
      let t = w.total in
      let (m, at, total, new, others) = without-Recorded u.block_sizes i s k w.recorded in
      with_value-Brought _ _ (get_elem? u.block_sizes i) _ (λ old e.
        with_value-Brought _ _ (get_elem? u.blocks i) _ (λ oldp q.
          let same = some-injective m old (sym at ∙ e) in
          counted-Brought _ i _ n _ _ (without i s) top u l w.count new others w.highest
            (rw t (change_size (sum s) n old (sum (without i s)) (omega (arith, same, total))))))

  util_op-free :
      (i : ℕ) (s : Sizes) (top : ℕ) (u : Util S)
      → Measured s top u
      → IsIn i s
      → Brought (without i s) (greater top (sum (without i s))) (util_op mm (free_op i) u)
  unfolding util_op
  util_op-free i s top u w k =
      let t = w.total in
      let (m, at, total, new, others) = without-Recorded u.block_sizes i s k w.recorded in
      with_value-Brought _ _ (get_elem? u.block_sizes i) _ (λ old e.
        with_value-Brought _ _ (get_elem? u.blocks i) _ (λ p q.
          let same = some-injective m old (sym at ∙ e) in
          let under = w.below in
          let kept : greater top (sum (without i s)) ≡ top = ground (arith, total, under) in
          record {
            recorded = others;
            count = w.count;
            total = rw t (sub_size (sum s) old (sum (without i s)) (omega (arith, same, total)));
            highest = w.highest ∙ ap pos (sym kept);
            below = ground (arith, total, under);
          }))

  util_op-Brought :
      (op : TraceOp) (ops : List TraceOp) (s : Sizes) (top : ℕ) (u : Util S)
      → Measured s top u
      → Proper ids s (op ∷ ops)
      → Brought (opened op s) (greater top (sum (opened op s))) (util_op mm op u)
        × Proper ids (opened op s) ops
  unfolding sum
  util_op-Brought (alloc_op i n) ops s top u w (l, a, p) = (util_op-alloc i n s top u w l a, p)
  util_op-Brought (realloc_op i n) ops s top u w (l, k, p) = (util_op-realloc i n s top u w l k, p)
  util_op-Brought (free_op i) ops s top u w (k, p) = (util_op-free i s top u w k, p)

  none-some : (u : Util S) → none ≢ some u
  none-some u e = cc

  util_loop-next :
      (op : TraceOp) (ops : List TraceOp) (u v : Util S)
      → util_op mm op u ≡ some v
      → util_loop mm (op ∷ ops) u ≡ util_loop mm ops v
  unfolding util_loop with_value
  util_loop-next op ops u v n = rw (n, with_value) refl

  util_loop-none :
      (op : TraceOp) (ops : List TraceOp) (u : Util S)
      → util_op mm op u ≡ none
      → util_loop mm (op ∷ ops) u ≡ none
  unfolding util_loop with_value
  util_loop-none op ops u n = rw (n, with_value) refl

  util_loop-nil : (u : Util S) → util_loop mm [] u ≡ some u
  unfolding util_loop
  util_loop-nil u = refl

  util_loop-peak :
      (ops : List TraceOp) (s : Sizes) (top : ℕ) (u after : Util S)
      → Measured s top u
      → Proper ids s ops
      → util_loop mm ops u ≡ some after
      → after.max_total_size ≡ pos (peak top s ops)
  unfolding peak
  util_loop-peak [] s top u after w p e =
      let same = some-injective u after (sym (util_loop-nil u) ∙ e) in
      ap (λ (x : Util S). x.max_total_size) (sym same) ∙ w.highest
  util_loop-peak (op ∷ ops) s top u after w p e =
      let (step, others) = util_op-Brought op ops s top u w p in
      elim (Option-cases (util_op mm op u)) [
        | inl n ↦ absurd (none-some after (sym (util_loop-none op ops u n) ∙ e))
        | inr (v, n) ↦
            util_loop-peak ops (opened op s) (greater top (sum (opened op s))) v after
              (subst (Brought (opened op s) (greater top (sum (opened op s)))) n step) others
              (sym (util_loop-next op ops u v n) ∙ e)
      ]

  was_ok :
      (ok : Bool) (run : Option (Util S)) (u : Util S)
      → (if ok then run else none) ≡ some u
      → run ≡ some u
  was_ok true run u e = e
  was_ok false run u e = absurd (none-some u e)

module _ {S : Type 0} (mm : Allocator S) where
  -- On a trace that asks for memory for an index of `block_sizes` that is not open, and resizes and
  -- frees open ones, whatever the allocator returns: when `eval_mm_util` comes to its last line,
  -- `max_total_size` is the highest sum of the sizes that were open in the trace at the same time.
  pub eval_mm_util-peak :
      (ops : List TraceOp) (blocks block_sizes : List ℕ) (s : S) (after : Util S)
      → Proper (length block_sizes) [] ops
      → eval_mm_util mm ops blocks block_sizes s ≡ some after
      → after.max_total_size ≡ pos (peak 0 [] ops)
  unfolding eval_mm_util sum
  eval_mm_util-peak ops blocks block_sizes s after p e =
      util_loop-peak mm (length block_sizes) ops [] 0 _ after
        (record { recorded = tt; count = refl; total = refl; highest = refl; below = omega arith })
        p (was_ok mm (length block_sizes) (mm.mm_init (mm.mem_reset_brk s)).0 _ after e)
