-- ===== src/Malloc/FreeList/Outside.antt =====
-- mm_freeList.c: `removeBlock` and `insertBlock` change the pointers of free blocks only.
use operating_system_basics.Base.{
  ℕ, ◌+◌, ◌<◌, ◌≡◌, ◌≢◌, inl, inr, refl, sym, ap, ◌∙◌, true, false, List, [], ◌∷◌, ◌++◌, arith,
  ◌==◌, Bool-cases, All, subst, ==_iff,
}
use operating_system_basics.Malloc.{Heap, write}
use operating_system_basics.Malloc.FreeList.{insert_block, remove_block, dsize}
use operating_system_basics.Malloc.FreeList.Chain.{Chain, Apart, IsFreeList}
use operating_system_basics.Malloc.FreeList.Removal.{
  All-split, next_of, prev_of, cut_later, remove_later, Separate-before,
}
use operating_system_basics.Malloc.FreeList.Apart.{Avoids}

-- The static variables but `start` stay as they are.
abbrev pub SameStatics : Heap → Heap → Type 0
SameStatics h g =
    (g.mem_start_brk ≡ h.mem_start_brk)
    × (g.mem_brk ≡ h.mem_brk)
    × (g.mem_max_addr ≡ h.mem_max_addr)
    × (g.heap_listp ≡ h.heap_listp)

pub write_elsewhere : (m : ℕ → ℕ) (q v r : ℕ) → r ≢ q → write m q v r ≡ m r
write_elsewhere m q v r h = ground arith

-- The list starts at one of its blocks or at the prologue.
head_of :
    (m : ℕ → ℕ) (bottom back p r : ℕ) (fl : List ℕ)
    → Chain m bottom back p fl
    → All (Avoids r) fl
    → Avoids r bottom
    → r ≢ p
head_of m bottom back p r [] (s, k) avoids (n, n8) = λ e. n (e ∙ s)
head_of m bottom back p r (b ∷ fl) (s, k, more) ((n, n8), avoids) low = λ e. n (e ∙ s)

pub insert_block-outside :
    (bottom b : ℕ) (fl : List ℕ) (h : Heap) (r : ℕ)
    → IsFreeList bottom fl h
    → All (Avoids r) fl
    → Avoids r bottom
    → Avoids r b
    → (insert_block b h).mem r ≡ h.mem r
unfolding insert_block
insert_block-outside bottom b fl h r (chain, separate) avoids low (n1, n2) =
    let start : r ≢ h.start = head_of h.mem bottom 0 h.start r fl chain avoids low in
    write_elsewhere (write (write h.mem (b + dsize) h.start) h.start b) b 0 r n1
    ∙ write_elsewhere (write h.mem (b + dsize) h.start) h.start b r start
    ∙ write_elsewhere h.mem (b + dsize) h.start r n2

pub insert_block-SameStatics : (b : ℕ) (h : Heap) → SameStatics h (insert_block b h)
unfolding insert_block
insert_block-SameStatics b h = (refl, refl, refl, refl)

pub remove_block-outside :
    (bottom : ℕ) (xs : List ℕ) (b : ℕ) (ys : List ℕ) (h : Heap) (r : ℕ)
    → IsFreeList bottom (xs ++ (b ∷ ys)) h
    → All (Avoids r) (xs ++ (b ∷ ys))
    → Avoids r bottom
    → (remove_block b h).mem r ≡ h.mem r
unfolding remove_block
remove_block-outside bottom [] b ys h r ((s, k, more), separate) (at, avoids) low =
    let e : (h.mem b == 0) ≡ true = (==_iff (h.mem b) 0).1 k in
    let prev = prev_of (Avoids r) h.mem bottom 0 h.start [] b ys (s, k, more) avoids low in
    rw e (write_elsewhere h.mem (h.mem (b + dsize)) (h.mem b) r prev.0)
remove_block-outside bottom (x ∷ xs) b ys h r (chain, separate) avoids low =
    let before = Separate-before bottom (x ∷ xs) b ys separate in
    let (pos, apart) =
      next_of (λ d. (0 < d) × Apart d b) h.mem bottom 0 h.start x xs b ys chain before.0 before.1 in
    let e : (h.mem b == 0) ≡ false = ground arith in
    let (near, at, far) = All-split (Avoids r) (x ∷ xs) b ys avoids in
    let next = next_of (Avoids r) h.mem bottom 0 h.start x xs b ys chain near.0 near.1 in
    let prev = prev_of (Avoids r) h.mem bottom 0 h.start (x ∷ xs) b ys chain far low in
    let m1 = write h.mem (h.mem b + dsize) (h.mem (b + dsize)) in
    subst (λ (g : Heap). g.mem r ≡ h.mem r) (sym (remove_later b h e))
      (ap (λ (n : ℕ → ℕ). n r) (cut_later h.mem (h.mem b) (h.mem (b + dsize)) b apart)
        ∙ write_elsewhere m1 (h.mem (b + dsize)) (h.mem b) r prev.0
        ∙ write_elsewhere h.mem (h.mem b + dsize) (h.mem (b + dsize)) r next.1)

pub remove_block-SameStatics : (b : ℕ) (h : Heap) → SameStatics h (remove_block b h)
unfolding remove_block
remove_block-SameStatics b h = elim (Bool-cases (h.mem b == 0)) [
  | inl e ↦ rw e (refl, refl, refl, refl)
  | inr e ↦ rw e (refl, refl, refl, refl)
]
