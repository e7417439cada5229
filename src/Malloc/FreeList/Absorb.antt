-- ===== src/Malloc/FreeList/Absorb.antt =====
-- mm_freeList.c: `removeBlock` of a free neighbour makes the gap larger.
use operating_system_basics.Base.{
  ℕ, ◌+◌, ◌<◌, ◌≡◌, inl, inr, refl, ap, ◌∙◌, Bool, true, false, not, ◌&&◌, ◌||◌, List, ◌∷◌, arith,
  ◌==◌, Bool-cases, ==_iff,
}
use operating_system_basics.Malloc.{Heap}
use operating_system_basics.Malloc.FreeList.Tiles.{Tile, base, Behind, free_ahead, free_behind}
use operating_system_basics.Malloc.FreeList.Apart.{free_ahead-ge, free_behind-le}
use operating_system_basics.Malloc.FreeList.Gap.{Gap, is_free}
use operating_system_basics.Malloc.FreeList.TakeOut.{Taken}

-- `e`: the block is at the address; then no other block is, and without it the others remain.
without_right :
    (b e f : Bool)
    → (e ≡ true → (b ≡ false) × (f ≡ false))
    → (((b || (e || f)) || false) && not e) ≡ ((b || f) || false)
without_right b true f k = let (k1, k2) = k refl in rw (k1, k2) refl
without_right true false f k = refl
without_right false false true k = refl
without_right false false false k = refl

without_left :
    (b e f : Bool)
    → (e ≡ true → (b ≡ false) × (f ≡ false))
    → ((((e || b) || f) || false) && not e) ≡ ((b || f) || false)
without_left b true f k = let (k1, k2) = k refl in rw (k1, k2) refl
without_left true false f k = refl
without_left false false true k = refl
without_left false false false k = refl

without_own : (c e : Bool) → (e ≡ true → c ≡ false) → ((c || (true && e)) && not e) ≡ (c || false)
without_own c true k = let k1 = k refl in rw k1 refl
without_own true false k = refl
without_own false false k = refl

or_last : (c e : Bool) → e ≡ true → (c || (true && e)) ≡ true
or_last true e k = refl
or_last false e k = k

or_mid : (b f : Bool) → ((b || ((not false && true) || f)) || false) ≡ true
or_mid true f = refl
or_mid false f = refl

after_false : (q : ℕ) (ts : List Tile) (d : ℕ) → d < q → free_ahead q ts d ≡ false
after_false q ts d lt = elim (Bool-cases (free_ahead q ts d)) [
  | inl e ↦ let k = free_ahead-ge q ts d e in absurd (omega arith)
  | inr e ↦ e
]

before_false :
    (m : ℕ → ℕ) (bottom : ℕ) (ls : List Tile) (d : ℕ)
    → Behind m bottom ls
    → base bottom ls < d + 24
    → free_behind bottom ls d ≡ false
before_false m bottom ls d b lt = elim (Bool-cases (free_behind bottom ls d)) [
  | inl e ↦ let k = free_behind-le m bottom ls d b e in absurd (omega arith)
  | inr e ↦ e
]

pub own_free :
    (bottom : ℕ) (ls : List Tile) (q : ℕ) (ts : List Tile)
    → is_free bottom ls q ts true (base bottom ls) ≡ true
own_free bottom ls q ts =
    let e : (base bottom ls == base bottom ls) ≡ true =
      (==_iff (base bottom ls) (base bottom ls)).1 refl in
    or_last (free_behind bottom ls (base bottom ls) || free_ahead q ts (base bottom ls))
      (base bottom ls == base bottom ls) e

pub right_free :
    (bottom : ℕ) (ls : List Tile) (q : ℕ) (r : Tile) (ts : List Tile)
    → r.used ≡ false
    → is_free bottom ls q (r ∷ ts) false q ≡ true
unfolding free_ahead
right_free bottom ls q r ts u =
    let e : (q == q) ≡ true = (==_iff q q).1 refl in
    rw (u, e) (or_mid (free_behind bottom ls q) (free_ahead (q + r.size) ts q))

pub left_free :
    (bottom : ℕ) (l : Tile) (ls : List Tile) (q : ℕ) (ts : List Tile)
    → l.used ≡ false
    → is_free bottom (l ∷ ls) q ts false (base bottom ls) ≡ true
unfolding free_behind
left_free bottom l ls q ts u =
    let e : (base bottom ls == base bottom ls) ≡ true =
      (==_iff (base bottom ls) (base bottom ls)).1 refl in
    rw (u, e) refl

module _ {bottom : ℕ} {ls : List Tile} {q : ℕ} {ts : List Tile} {h g : Heap} where
  -- The block of the gap itself has left the list.
  pub absorb_own :
      Taken bottom ls q ts true (base bottom ls) h g
      → (rest : List ℕ) × Gap bottom ls q ts false rest g
  absorb_own t =
      let gap = t.around.gap in
      let others : (d : ℕ)
          → (base bottom ls == d) ≡ true
          → (free_behind bottom ls d || free_ahead q ts d) ≡ false =
        λ d e.
          let same = (==_iff (base bottom ls) d).0 e in
          let b = before_false g.mem bottom ls d t.around.behind (omega arith) in
          let f = after_false q ts d (omega arith) in rw (b, f) refl in
      (
        t.rest,
        record {
          around = t.around;
          chain = t.chain;
          covers = λ d.
              t.covers d
              ∙ without_own (free_behind bottom ls d || free_ahead q ts d) (base bottom ls == d)
                  (others d);
        },
      )

  -- The free block that starts where the gap ends.
  pub absorb_right :
      (r : Tile)
      → r.used ≡ false
      → Taken bottom ls q (r ∷ ts) false q h g
      → (rest : List ℕ) × Gap bottom ls (q + r.size) ts false rest g
  unfolding free_ahead
  absorb_right r u t =
      let gap = t.around.gap in
      let brk = t.around.brk in
      let (a1, a2, (a3, big), more) = t.around.ahead in
      let others : (d : ℕ)
          → (q == d) ≡ true
          → (free_behind bottom ls d ≡ false) × (free_ahead (q + r.size) ts d ≡ false) =
        λ d e.
          let same = (==_iff q d).0 e in
          let b = before_false g.mem bottom ls d t.around.behind (omega arith) in
          let f = after_false (q + r.size) ts d (omega arith) in (b, f) in
      (
        t.rest,
        record {
          around = record {
            behind = t.around.behind;
            ahead = more;
            gap = omega arith;
            prologue = t.around.prologue;
            low = t.around.low;
            origin = t.around.origin;
            brk = omega arith;
            room = t.around.room;
            top = t.around.top;
          };
          chain = t.chain;
          covers = λ d.
              t.covers d
              ∙ ap
                  (λ x.
                    ((free_behind bottom ls d
                        || ((not x && (q == d)) || free_ahead (q + r.size) ts d))
                      || false)
                    && not (q == d))
                  u
              ∙ without_right (free_behind bottom ls d) (q == d) (free_ahead (q + r.size) ts d)
                  (others d);
        },
      )

  -- The free block that ends where the gap starts.
  pub absorb_left :
      (l : Tile)
      → l.used ≡ false
      → Taken bottom (l ∷ ls) q ts false (base bottom ls) h g
      → (rest : List ℕ) × Gap bottom ls q ts false rest g
  unfolding free_behind
  absorb_left l u t =
      let gap = t.around.gap in
      let brk = t.around.brk in
      let (a1, a2, (a3, big), more) = t.around.behind in
      let others : (d : ℕ)
          → (base bottom ls == d) ≡ true
          → (free_behind bottom ls d ≡ false) × (free_ahead q ts d ≡ false) =
        λ d e.
          let same = (==_iff (base bottom ls) d).0 e in
          let b = before_false g.mem bottom ls d more (omega arith) in
          let f = after_false q ts d (omega arith) in (b, f) in
      (
        t.rest,
        record {
          around = record {
            behind = more;
            ahead = t.around.ahead;
            gap = omega arith;
            prologue = t.around.prologue;
            low = t.around.low;
            origin = t.around.origin;
            brk = omega arith;
            room = t.around.room;
            top = t.around.top;
          };
          chain = t.chain;
          covers = λ d.
              t.covers d
              ∙ ap
                  (λ x.
                    ((((not x && (base bottom ls == d)) || free_behind bottom ls d)
                        || free_ahead q ts d)
                      || false)
                    && not (base bottom ls == d))
                  u
              ∙ without_left (free_behind bottom ls d) (base bottom ls == d) (free_ahead q ts d)
                  (others d);
        },
      )
