-- ===== src/Malloc/FreeList/Chain.antt =====
-- mm_freeList.c: the free list as a sequence of block pointers, and `insertBlock`.
use operating_system_basics.Base.{
  ℕ, ◌+◌, ◌≤◌, ◌<◌, ◌≡◌, ◌⊎◌, refl, sym, ◌∙◌, List, [], ◌∷◌, arith, All, subst,
}
use operating_system_basics.Malloc.{Heap, write}
use operating_system_basics.Malloc.FreeList.{insert_block, dsize}

-- The blocks `bs` are linked from `p` by their previous pointers down to the prologue `bottom`;
-- the next pointer of each, and of the prologue, leads back, the first one to `back`.
abbrev pub Chain : (ℕ → ℕ) → ℕ → ℕ → ℕ → List ℕ → Type 0
Chain mem bottom back p [] = (p ≡ bottom) × (mem bottom ≡ back)
Chain mem bottom back p (b ∷ bs) =
    (p ≡ b) × (mem b ≡ back) × Chain mem bottom b (mem (b + dsize)) bs

-- The pointers of two blocks do not overlap.
abbrev pub Apart : ℕ → ℕ → Type 0
Apart a b = (a + 12 ≤ b) ⊎ (b + 12 ≤ a)

-- Two memories agree on the pointers of the block.
abbrev pub Same : (ℕ → ℕ) → (ℕ → ℕ) → ℕ → Type 0
Same m n b = (n b ≡ m b) × (n (b + dsize) ≡ m (b + dsize))

-- A chain depends on the pointers of its blocks and on the next pointer of the prologue.
pub Chain-Same :
    (m n : ℕ → ℕ) (bottom back p : ℕ) (bs : List ℕ)
    → All (Same m n) bs
    → n bottom ≡ m bottom
    → Chain m bottom back p bs
    → Chain n bottom back p bs
Chain-Same m n bottom back p [] same e (s, b) = (s, e ∙ b)
Chain-Same m n bottom back p (b ∷ bs) ((e1, e2), same) e (s, k, more) =
    (s, e1 ∙ k, rw e2 (Chain-Same m n bottom b (m (b + dsize)) bs same e more))

-- The blocks of the list are no null pointers, and neither they nor the prologue overlap.
abbrev pub Separate : ℕ → List ℕ → Type 0
Separate bottom [] = Unit
Separate bottom (b ∷ bs) = 0 < b × All (Apart b) bs × Apart b bottom × Separate bottom bs

-- The free list of a heap with prologue `bottom`.
abbrev pub IsFreeList : ℕ → List ℕ → Heap → Type 0
IsFreeList bottom bs h = Chain h.mem bottom 0 h.start bs × Separate bottom bs

-- The stores of `insertBlock`, before a list that starts at `c`.
abbrev linked : (ℕ → ℕ) → ℕ → ℕ → ℕ → ℕ
linked m b c = write (write (write m (b + dsize) c) c b) b 0

-- A block that overlaps neither keeps its pointers.
unwritten : (m : ℕ → ℕ) (b c d : ℕ) → Apart b d → Apart c d → Same m (linked m b c) d
unwritten m b c d h k = (ground arith, ground arith)

linked-Same :
    (m : ℕ → ℕ) (b c : ℕ) (bs : List ℕ)
    → All (Apart b) bs
    → All (Apart c) bs
    → All (Same m (linked m b c)) bs
linked-Same m b c [] h k = tt
linked-Same m b c (d ∷ bs) h k = ((unwritten m b c d h.0 k.0), linked-Same m b c bs h.1 k.1)

linked_cells :
    (m : ℕ → ℕ) (b c : ℕ)
    → Apart b c
    → (linked m b c b ≡ 0)
      × (linked m b c (b + dsize) ≡ c)
      × (linked m b c c ≡ b)
      × (linked m b c (c + dsize) ≡ m (c + dsize))
linked_cells m b c h = (ground arith, ground arith, ground arith, ground arith)

linked-Chain :
    (m : ℕ → ℕ) (bottom b p : ℕ) (bs : List ℕ)
    → Chain m bottom 0 p bs
    → Separate bottom bs
    → All (Apart b) bs
    → Apart b bottom
    → Chain (linked m b p) bottom 0 b (b ∷ bs)
linked-Chain m bottom b p [] (s, k) separate apart end =
    let (c1, c2, c3, c4) = linked_cells m b bottom end in
    subst (λ x. Chain (linked m b x) bottom 0 b (b ∷ [])) (sym s) (refl, c1, (c2, c3))
linked-Chain m bottom b p (c ∷ bs) (s, k, more) separate apart end =
    let (c1, c2, c3, c4) = linked_cells m b c apart.0 in
    let rest : Chain (linked m b c) bottom c (linked m b c (c + dsize)) bs = rw c4 (
      Chain-Same m (linked m b c) bottom c (m (c + dsize)) bs
        (linked-Same m b c bs apart.1 separate.1) (unwritten m b c bottom end separate.2).0 more) in
    subst (λ x. Chain (linked m b x) bottom 0 b (b ∷ c ∷ bs)) (sym s) (refl, c1, (c2, c3, rest))

-- `insertBlock` puts a block that is not NULL and overlaps no other before a doubly linked free list
-- whose blocks do not overlap: the result is such a list again.
pub insert_block-IsFreeList :
    (bottom b : ℕ) (bs : List ℕ) (h : Heap)
    → IsFreeList bottom bs h
    → 0 < b
    → All (Apart b) bs
    → Apart b bottom
    → IsFreeList bottom (b ∷ bs) (insert_block b h)
unfolding insert_block
insert_block-IsFreeList bottom b bs h (chain, separate) positive apart end = (
  linked-Chain h.mem bottom b h.start bs chain separate apart end,
  (positive, apart, end, separate),
)
