-- ===== src/Malloc/FreeList/Removal.antt =====
-- mm_freeList.c: `removeBlock` takes a block out of the free list.
use operating_system_basics.Base.{
  ℕ, ◌+◌, ◌<◌, ◌≡◌, inl, inr, refl, sym, ap, ap₂, ◌∙◌, true, false, List, [], ◌∷◌, ◌++◌, arith,
  ◌==◌, All, ==_iff, subst,
}
use operating_system_basics.Malloc.{Heap, write}
use operating_system_basics.Malloc.FreeList.{remove_block, dsize}
use operating_system_basics.Malloc.FreeList.Chain.{
  Chain, Apart, Same, Chain-Same, Separate, IsFreeList,
}

pub All-split :
    (P : ℕ → Type 0) (xs : List ℕ) (b : ℕ) (ys : List ℕ)
    → All P (xs ++ (b ∷ ys))
    → All P xs × P b × All P ys
All-split P [] b ys (h, k) = (tt, h, k)
All-split P (x ∷ xs) b ys (h, k) = let (l, m, r) = All-split P xs b ys k in ((h, l), m, r)

pub All-join : (P : ℕ → Type 0) (xs : List ℕ) (ys : List ℕ) → All P xs → All P ys → All P (xs ++ ys)
All-join P [] ys h k = k
All-join P (x ∷ xs) ys (h, l) k = (h, All-join P xs ys l k)

-- What holds of the blocks before `b` holds of its next pointer, which is the nearest of them.
pub next_of :
    (P : ℕ → Type 0) (mem : ℕ → ℕ) (bottom back p a : ℕ) (xs : List ℕ) (b : ℕ) (ys : List ℕ)
    → Chain mem bottom back p (a ∷ (xs ++ (b ∷ ys)))
    → P a
    → All P xs
    → P (mem b)
next_of P mem bottom back p a [] b ys (s, k, (s', k', more)) h l = subst P (sym k') h
next_of P mem bottom back p a (x ∷ xs) b ys (s, k, more) h (hx, l) =
    next_of P mem bottom a (mem (a + dsize)) x xs b ys more hx l

-- What holds of the blocks after `b` and of the prologue holds of its previous pointer.
pub prev_of :
    (P : ℕ → Type 0) (mem : ℕ → ℕ) (bottom back p : ℕ) (xs : List ℕ) (b : ℕ) (ys : List ℕ)
    → Chain mem bottom back p (xs ++ (b ∷ ys))
    → All P ys
    → P bottom
    → P (mem (b + dsize))
prev_of P mem bottom back p [] b [] (s, k, (s', k')) h l = subst P (sym s') l
prev_of P mem bottom back p [] b (y ∷ ys) (s, k, (s', k', more)) (hy, h) l = subst P (sym s') hy
prev_of P mem bottom back p (x ∷ xs) b ys (s, k, more) h l =
    prev_of P mem bottom x (mem (x + dsize)) xs b ys more h l

kept :
    (m n : ℕ → ℕ) (q : ℕ) (zs : List ℕ)
    → All (λ d. Apart q d → Same m n d) zs
    → All (Apart q) zs
    → All (Same m n) zs
kept m n q [] h k = tt
kept m n q (z ∷ zs) (h, h') (k, k') = (h k, kept m n q zs h' k')

-- Another block before the rest `ys` of a chain.
rehead :
    (m n : ℕ → ℕ) (bottom b a q : ℕ) (ys : List ℕ)
    → Chain m bottom b q ys
    → Separate bottom ys
    → n q ≡ a
    → n (q + dsize) ≡ m (q + dsize)
    → All (λ d. Apart q d → Same m n d) ys
    → (Apart q bottom → Same m n bottom)
    → Chain n bottom a q ys
rehead m n bottom b a q [] (s, k) separate e f keep keep_bottom = (s, ap n (sym s) ∙ e)
rehead m n bottom b a q (y ∷ ys) (s, k, more) (pos, apart, end, separate) e f (keep_y, keep)
      keep_bottom =
    let e' : n y ≡ a = ap n (sym s) ∙ e in
    let f' : n (y + dsize) ≡ m (y + dsize) =
      ap (λ d. n (d + dsize)) (sym s) ∙ f ∙ ap (λ d. m (d + dsize)) s in
    let same = kept m n y ys (subst (λ r. All (λ d. Apart r d → Same m n d) ys) s keep) apart in
    let below = (keep_bottom (subst (λ r. Apart r bottom) (sym s) end)).0 in
    (s, e', rw f' (Chain-Same m n bottom y (m (y + dsize)) ys same below more))

-- The stores of `removeBlock` for a block between `next` and `prev`.
abbrev cut : (ℕ → ℕ) → ℕ → ℕ → ℕ → ℕ
cut m next prev = write (write m (next + dsize) prev) prev next

cut_cells :
    (m : ℕ → ℕ) (next prev : ℕ)
    → Apart next prev
    → (cut m next prev prev ≡ next)
      × (cut m next prev (prev + dsize) ≡ m (prev + dsize))
      × (cut m next prev next ≡ m next)
      × (cut m next prev (next + dsize) ≡ prev)
cut_cells m next prev h = (ground arith, ground arith, ground arith, ground arith)

cut_other : (m : ℕ → ℕ) (next prev d : ℕ) → Apart d next → Apart d prev → Same m (cut m next prev) d
cut_other m next prev d h k = (ground arith, ground arith)

Apart-comm : (a b : ℕ) → Apart a b → Apart b a
Apart-comm a b (inl h) = inr h
Apart-comm a b (inr h) = inl h

keep_all :
    (m : ℕ → ℕ) (next prev : ℕ) (ds : List ℕ)
    → All (Apart next) ds
    → All (λ d. Apart prev d → Same m (cut m next prev) d) ds
keep_all m next prev [] h = tt
keep_all m next prev (d ∷ ds) (h, hs) = (
  λ k. cut_other m next prev d (Apart-comm next d h) (Apart-comm prev d k),
  keep_all m next prev ds hs,
)

write_same : (m : ℕ → ℕ) (q v : ℕ) → write m q v q ≡ v
write_same m q v = ground arith

write_other : (m : ℕ → ℕ) (q v d : ℕ) → Apart q d → Same m (write m q v) d
write_other m q v d h = (ground arith, ground arith)

keep_one : (m : ℕ → ℕ) (q v : ℕ) (ds : List ℕ) → All (λ d. Apart q d → Same m (write m q v) d) ds
keep_one m q v [] = tt
keep_one m q v (d ∷ ds) = (write_other m q v d, keep_one m q v ds)

unlink :
    (m : ℕ → ℕ) (bottom back p a : ℕ) (xs : List ℕ) (b : ℕ) (ys : List ℕ)
    → Chain m bottom back p (a ∷ (xs ++ (b ∷ ys)))
    → Separate bottom (a ∷ (xs ++ (b ∷ ys)))
    → Chain (cut m (m b) (m (b + dsize))) bottom back p (a ∷ (xs ++ ys))
unlink m bottom back p a [] b ys (s, k, (s2, k2, more))
      (pos, apart, end, (pos_b, apart_b, end_b, separate)) =
    let q = m (b + dsize) in
    let far : Apart a q =
      prev_of (Apart a) m bottom a (m (a + dsize)) [] b ys (s2, k2, more) apart.1 end in
    let (c1, c2, c3, c4) = cut_cells m a q far in
    let rest =
      rehead m (cut m a q) bottom b a q ys more separate c1 c2 (keep_all m a q ys apart.1)
        (λ l. cut_other m a q bottom (Apart-comm a bottom end) (Apart-comm q bottom l)) in
    subst (λ next. Chain (cut m next q) bottom back p (a ∷ ys)) (sym k2) (s, c3 ∙ k, rw c4 rest)
unlink m bottom back p a (x ∷ xs) b ys (s, k, more) (pos, apart, end, separate) =
    let q = m (b + dsize) in
    let (near, at, far) = All-split (Apart a) (x ∷ xs) b ys apart in
    let to_next = next_of (Apart a) m bottom a (m (a + dsize)) x xs b ys more near.0 near.1 in
    let to_prev = prev_of (Apart a) m bottom a (m (a + dsize)) (x ∷ xs) b ys more far end in
    let (same, same8) = cut_other m (m b) q a to_next to_prev in
    (s, same ∙ k, rw same8 (unlink m bottom a (m (a + dsize)) x xs b ys more separate))

pub Separate-removed :
    (bottom : ℕ) (xs : List ℕ) (b : ℕ) (ys : List ℕ)
    → Separate bottom (xs ++ (b ∷ ys))
    → Separate bottom (xs ++ ys)
Separate-removed bottom [] b ys (pos, apart, end, separate) = separate
Separate-removed bottom (x ∷ xs) b ys (pos, apart, end, separate) =
    let (near, at, far) = All-split (Apart x) xs b ys apart in
    (pos, All-join (Apart x) xs ys near far, end, Separate-removed bottom xs b ys separate)

-- What a separate list says of a block and of what lies behind it.
Separate-behind :
    (bottom : ℕ) (xs : List ℕ) (b : ℕ) (ys : List ℕ)
    → Separate bottom (xs ++ (b ∷ ys))
    → All (Apart b) ys × Apart b bottom × Separate bottom ys
Separate-behind bottom [] b ys (pos, apart, end, separate) = (apart, end, separate)
Separate-behind bottom (x ∷ xs) b ys (pos, apart, end, separate) =
    Separate-behind bottom xs b ys separate

-- What it says of the blocks before it.
pub Separate-before :
    (bottom : ℕ) (xs : List ℕ) (b : ℕ) (ys : List ℕ)
    → Separate bottom (xs ++ (b ∷ ys))
    → All (λ d. (0 < d) × Apart d b) xs
Separate-before bottom [] b ys separate = tt
Separate-before bottom (x ∷ xs) b ys (pos, apart, end, separate) =
    ((pos, (All-split (Apart x) xs b ys apart).1), Separate-before bottom xs b ys separate)

-- The first block has no next pointer: one store.
unlink_first :
    (m : ℕ → ℕ) (bottom b : ℕ) (ys : List ℕ)
    → m b ≡ 0
    → Chain m bottom b (m (b + dsize)) ys
    → Separate bottom ys
    → Chain (write m (m (b + dsize)) (m b)) bottom 0 (m (b + dsize)) ys
unlink_first m bottom b ys k more separate =
    let q = m (b + dsize) in
    rehead m (write m q (m b)) bottom b 0 q ys more separate (write_same m q (m b) ∙ k)
      (ground arith) (keep_one m q (m b) ys) (write_other m q (m b) bottom)

-- The stores of `removeBlock` where there is a next pointer.
pub cut_later :
    (m : ℕ → ℕ) (next prev b : ℕ)
    → Apart next b
    → let m1 = write m (next + dsize) prev in
      write m1 (m1 (b + dsize)) (m1 b) ≡ write m1 (m (b + dsize)) (m b)
cut_later m next prev b h =
    let m1 = write m (next + dsize) prev in
    let e : m1 (b + dsize) ≡ m (b + dsize) = ground arith in
    let f : m1 b ≡ m b = ground arith in ap₂ (λ (u v : ℕ). write m1 u v) e f

pub remove_later :
    (b : ℕ) (h : Heap)
    → (h.mem b == 0) ≡ false
    → let m1 = write h.mem (h.mem b + dsize) (h.mem (b + dsize)) in
      remove_block b h ≡ record h { mem = write m1 (m1 (b + dsize)) (m1 b) }
unfolding remove_block
remove_later b h e = rw e refl

-- In a doubly linked free list whose blocks do not overlap `removeBlock` takes the block out, and
-- leaves the order of the others: the result is such a list again.
pub remove_block-IsFreeList :
    (bottom : ℕ) (xs : List ℕ) (b : ℕ) (ys : List ℕ) (h : Heap)
    → IsFreeList bottom (xs ++ (b ∷ ys)) h
    → IsFreeList bottom (xs ++ ys) (remove_block b h)
unfolding remove_block
remove_block-IsFreeList bottom [] b ys h ((s, k, more), separate) =
    let e : (h.mem b == 0) ≡ true = (==_iff (h.mem b) 0).1 k in
    let (apart, end, behind) = Separate-behind bottom [] b ys separate in
    rw e (unlink_first h.mem bottom b ys k more behind, behind)
remove_block-IsFreeList bottom (x ∷ xs) b ys h (chain, separate) =
    let before = Separate-before bottom (x ∷ xs) b ys separate in
    let (pos, apart) =
      next_of (λ d. (0 < d) × Apart d b) h.mem bottom 0 h.start x xs b ys chain before.0 before.1 in
    let e : (h.mem b == 0) ≡ false = ground arith in
    let chain' =
      subst (λ n. Chain n bottom 0 h.start (x ∷ (xs ++ ys)))
        (sym (cut_later h.mem (h.mem b) (h.mem (b + dsize)) b apart))
        (unlink h.mem bottom 0 h.start x xs b ys chain separate) in
    subst (IsFreeList bottom (x ∷ (xs ++ ys))) (sym (remove_later b h e))
      (chain', Separate-removed bottom (x ∷ xs) b ys separate)
