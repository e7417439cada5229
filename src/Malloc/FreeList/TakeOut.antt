-- ===== src/Malloc/FreeList/TakeOut.antt =====
-- mm_freeList.c: a heap with a gap takes a store into the gap, and a neighbour of the gap that
-- leaves the free list.
use operating_system_basics.Base.{
  ℕ, ◌+◌, ◌≤◌, ◌≡◌, ◌≢◌, ◌⊎◌, inl, inr, refl, sym, ap, ◌∙◌, Bool, true, false, not, ◌&&◌, ◌||◌,
  List, [], ◌∷◌, ◌++◌, arith, ◌==◌, Bool-cases, All, ==_iff, subst,
}
use operating_system_basics.Malloc.{Heap, write, put}
use operating_system_basics.Malloc.FreeList.{remove_block}
use operating_system_basics.Malloc.FreeList.Chain.{Chain-Same, Same, Apart, Separate, IsFreeList}
use operating_system_basics.Malloc.FreeList.Removal.{All-split, remove_block-IsFreeList}
use operating_system_basics.Malloc.FreeList.Tiles.{Tile, base, base-ge, TagAhead-ge, TagBehind-le}
use operating_system_basics.Malloc.FreeList.Apart.{Avoids}
use operating_system_basics.Malloc.FreeList.Outside.{
  write_elsewhere, remove_block-outside, remove_block-SameStatics,
}
use operating_system_basics.Malloc.FreeList.Gap.{
  Around, Around-frame, Gap, has, is_free, All-has, Spared, Spared-bottom, Spared-Avoids, Tagged,
  Tagged-Spared, free_place,
}

module _ {bottom : ℕ} {ls : List Tile} {q : ℕ} {ts : List Tile} {inside : Bool} {fl : List ℕ}
    {h : Heap} (g : Gap bottom ls q ts inside fl h) where
  -- A tag around the gap is not in it.
  Tagged-outside : (r k : ℕ) → base bottom ls ≤ r + 4 → r + 8 ≤ q → Tagged bottom ls q ts k → k ≢ r
  Tagged-outside r k lo hi t =
      let start = base-ge bottom ls in
      let gap = g.around.gap in
      λ e. elim t [
        | inl b ↦
            let place = TagBehind-le h.mem bottom ls k g.around.behind b in absurd (omega arith)
        | inr u ↦ elim u [
          | inl b ↦
              let place = TagAhead-ge h.mem q ts k g.around.ahead (omega arith) b in
              absurd (omega arith)
          | inr b ↦ absurd (omega (arith, b))
        ]
      ]

  pointers_outside :
      (r v d : ℕ)
      → base bottom ls ≤ r + 4
      → r + 8 ≤ q
      → Avoids r (base bottom ls)
      → is_free bottom ls q ts inside d ≡ true
      → Same h.mem (write h.mem r v) d
  pointers_outside r v d lo hi (n, n8) e = elim (free_place g.around inside d e) [
    | inl k ↦ (ground arith, ground arith)
    | inr t ↦ elim t [ inl k ↦ (ground arith, ground arith) | inr k ↦ (ground arith, ground arith) ]
  ]

  -- A store of a header or footer in the gap.
  pub Gap-put :
      (r v : ℕ)
      → base bottom ls ≤ r + 4
      → r + 8 ≤ q
      → Avoids r (base bottom ls)
      → Gap bottom ls q ts inside fl (put r v h)
  Gap-put r v lo hi out =
      let start = base-ge bottom ls in
      record {
        around =
            Around-frame g.around (put r v h) (refl, refl, refl, refl)
              (λ k t. write_elsewhere h.mem r v k (Tagged-outside r k lo hi t));
        chain = (
          Chain-Same h.mem (write h.mem r v) bottom 0 h.start fl
              (All-has (Same h.mem (write h.mem r v)) fl
                (λ d e. pointers_outside r v d lo hi out (sym (g.covers d) ∙ e)))
              (ground arith) g.chain.0,
          g.chain.1,
        );
        covers = g.covers;
      }

  pub Avoids-all : (r : ℕ) → Spared bottom ls q ts r → All (Avoids r) fl
  Avoids-all r s =
      All-has (Avoids r) fl (λ d e. Spared-Avoids g.around inside r d s (sym (g.covers d) ∙ e))

or_later : (a b : Bool) → a ≡ false → (a || b) ≡ true → b ≡ true
or_later true b e h = cc
or_later false b e h = h

pub split_at :
    (b : ℕ) (fl : List ℕ) → has b fl ≡ true → (xs : List ℕ) × (ys : List ℕ) × (fl ≡ xs ++ (b ∷ ys))
unfolding has
split_at b [] h = cc
split_at b (c ∷ fl) h = elim (Bool-cases (c == b)) [
  | inl e ↦ ([], fl, ap (λ x. x ∷ fl) ((==_iff c b).0 e))
  | inr e ↦
      let (xs, ys, k) = split_at b fl (or_later (c == b) (has b fl) e h) in
      (c ∷ xs, ys, ap (λ zs. c ∷ zs) k)
]

not_has : (b : ℕ) (ys : List ℕ) → All (Apart b) ys → has b ys ≡ false
unfolding has
not_has b [] h = refl
not_has b (y ∷ ys) (k, h) = let e : (y == b) ≡ false = ground arith in rw (e, not_has b ys h) refl

-- Without the element that `n` leaves out.
keep_or : (u v w n : Bool) → v ≡ (w && n) → (u ≡ false) ⊎ (n ≡ true) → (u || v) ≡ ((u || w) && n)
keep_or false v w n e h = e
keep_or true v w true e h = refl
keep_or true v w false e (inl h) = cc
keep_or true v w false e (inr h) = cc

drop_here : (u v : Bool) → (u ≡ true → v ≡ false) → v ≡ ((u || v) && not u)
drop_here true v h = h refl
drop_here false true h = refl
drop_here false false h = refl

pub has-removed :
    (bottom : ℕ) (xs : List ℕ) (b : ℕ) (ys : List ℕ) (d : ℕ)
    → Separate bottom (xs ++ (b ∷ ys))
    → has d (xs ++ ys) ≡ (has d (xs ++ (b ∷ ys)) && not (b == d))
unfolding has
has-removed bottom [] b ys d (pos, apart, end, separate) =
    drop_here (b == d) (has d ys)
      (λ e. subst (λ x. has x ys ≡ false) ((==_iff b d).0 e) (not_has b ys apart))
has-removed bottom (x ∷ xs) b ys d (pos, apart, end, separate) =
    let (near, at, far) = All-split (Apart x) xs b ys apart in
    keep_or (x == d) (has d (xs ++ ys)) (has d (xs ++ (b ∷ ys))) (not (b == d))
      (has-removed bottom xs b ys d separate)
      (elim (Bool-cases (b == d)) [ inl e ↦ inl (ground arith) | inr e ↦ inr (rw e refl) ])

-- The heap after `removeBlock` of a free block: the gap as before, and the list without the block.
pub record Taken (bottom : ℕ) (ls : List Tile) (q : ℕ) (ts : List Tile) (inside : Bool) (b : ℕ)
    (h g : Heap) : Type 0 where
  pub rest : List ℕ
  pub around : Around bottom ls q ts g
  pub chain : IsFreeList bottom rest g
  pub covers : (d : ℕ) → has d rest ≡ (is_free bottom ls q ts inside d && not (b == d))
  pub same : (r : ℕ) → Spared bottom ls q ts r → g.mem r ≡ h.mem r

module _ {bottom : ℕ} {ls : List Tile} {q : ℕ} {ts : List Tile} {inside : Bool} {fl : List ℕ}
    {h : Heap} (g : Gap bottom ls q ts inside fl h) where
  pub take_out :
      (b : ℕ)
      → is_free bottom ls q ts inside b ≡ true
      → Taken bottom ls q ts inside b h (remove_block b h)
  take_out b free =
      let (xs, ys, e) = split_at b fl (g.covers b ∙ free) in
      let chain : IsFreeList bottom (xs ++ (b ∷ ys)) h =
        subst (λ x. IsFreeList bottom x h) e g.chain in
      let same = λ (r : ℕ) (s : Spared bottom ls q ts r).
        remove_block-outside bottom xs b ys h r chain (subst (All (Avoids r)) e (Avoids-all g r s))
          (Spared-bottom g.around r s) in
      record {
        rest = xs ++ ys;
        around =
            Around-frame g.around (remove_block b h) (remove_block-SameStatics b h)
              (λ r t. same r (Tagged-Spared bottom ls q ts r t));
        chain = remove_block-IsFreeList bottom xs b ys h chain;
        covers = λ d.
            has-removed bottom xs b ys d chain.1
            ∙ ap (λ x. has d x && not (b == d)) (sym e)
            ∙ ap (λ x. x && not (b == d)) (g.covers d);
        same = same;
      }
