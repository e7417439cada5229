-- ===== src/Malloc/FreeList/Fuel.antt =====
-- mm_freeList.c: the bytes below the break are enough fuel for a walk along the free list.
use operating_system_basics.Base.{
  ℕ, zero, suc, ◌+◌, ◌-◌, ◌≤◌, ◌<◌, ◌≡◌, ◌≢◌, inl, inr, refl, sym, ap, ◌∙◌, Bool, true, false, not,
  ◌&&◌, List, [], ◌∷◌, ◌++◌, arith, subst, ◌==◌, Bool-cases, ==_iff, length, length-append,
}
use operating_system_basics.Malloc.{Heap}
use operating_system_basics.Malloc.FreeList.{mm_malloc, find_freeblock, newsize_of}
use operating_system_basics.Malloc.FreeList.Chain.{Separate}
use operating_system_basics.Malloc.FreeList.Tiles.{Tile}
use operating_system_basics.Malloc.FreeList.Gap.{has, here}
use operating_system_basics.Malloc.FreeList.Removal.{Separate-removed}
use operating_system_basics.Malloc.FreeList.TakeOut.{split_at, has-removed}
use operating_system_basics.Malloc.FreeList.Whole.{Whole}
use operating_system_basics.Malloc.FreeList.Fit.{listed, find_freeblock-Whole}

contradiction : (a : Bool) → a ≡ true → not a ≡ true → ⊥
contradiction true e f = cc
contradiction false e f = cc

and_cases : (a b : Bool) → (a && b) ≡ true → (a ≡ true) × (b ≡ true)
and_cases true b e = (refl, e)
and_cases false b e = cc

differs : (n d : ℕ) (fl : List ℕ) → has n fl ≡ false → has d fl ≡ true → d ≢ n
differs n d fl e k same = let both = sym k ∙ ap (λ x. has x fl) same ∙ e in cc

smaller :
    (n bottom : ℕ) (xs ys : List ℕ) (d : ℕ)
    → Separate bottom (xs ++ (n ∷ ys))
    → ((a : ℕ) → has a (xs ++ (n ∷ ys)) ≡ true → a < suc n)
    → has d (xs ++ ys) ≡ true
    → d < n
smaller n bottom xs ys d s below k =
    let (listed, other) =
      and_cases (has d (xs ++ (n ∷ ys))) (not (n == d))
        (sym (has-removed bottom xs n ys d s) ∙ k) in
    let lt = below d listed in
    let apart : d ≢ n = λ same.
      let own : (n == d) ≡ true = (==_iff n d).1 (sym same) in
      absurd (contradiction (n == d) own other) in
    omega arith

-- Blocks below `n` that do not overlap.
pub length-le :
    (n bottom : ℕ) (fl : List ℕ)
    → Separate bottom fl
    → ((d : ℕ) → has d fl ≡ true → d < n)
    → length fl ≤ n
unfolding has
length-le zero bottom [] s below = omega arith
length-le zero bottom (b ∷ bs) s below = absurd (omega (arith, below b (here b bs)))
length-le (suc n) bottom fl s below = elim (Bool-cases (has n fl)) [
  | inl e ↦
      let (xs, ys, same) = split_at n fl e in
      let s1 = subst (Separate bottom) same s in
      let rest = length-le n bottom (xs ++ ys) (Separate-removed bottom xs n ys s1) (λ d k.
        smaller n bottom xs ys d s1 (subst (λ x. (a : ℕ) → has a x ≡ true → a < suc n) same below)
          k) in
      let l1 = length-append xs ys in
      let l2 = length-append xs (n ∷ ys) in let l3 = ap length same in omega arith
  | inr e ↦
      let rest : length fl ≤ n =
        length-le n bottom fl s
          (λ d k. let lt = below d k in let other = differs n d fl e k in omega arith) in
      omega arith
]

module _ {bottom : ℕ} {tiles : List Tile} {fl : List ℕ} {h : Heap}
    (w : Whole bottom [] tiles fl h) where
  pub length-lt : length fl < h.mem_brk
  length-lt =
      let brk = w.brk in
      let low = w.low in
      let bound = length-le (h.mem_brk - 1) bottom fl w.chain.1 (λ d k.
        let f = listed d w k in
        let (a1, a2, (a3, big), more) = f.whole.ahead in
        let end = f.whole.brk in let at = f.place in omega arith) in
      omega arith

  find_enough :
      (fuel a : ℕ) → length fl < fuel → find_freeblock fuel a h ≡ find_freeblock (length fl + 1) a h
  find_enough fuel a enough =
      find_freeblock-Whole a fuel w enough
      ∙ sym (find_freeblock-Whole a (length fl + 1) w (omega arith))

  -- More fuel changes nothing.
  pub mm_malloc-fuel :
      (fuel size : ℕ) → length fl < fuel → mm_malloc fuel size h ≡ mm_malloc (length fl + 1) size h
  unfolding mm_malloc
  mm_malloc-fuel fuel size enough = rw (find_enough fuel (newsize_of size) enough) refl
