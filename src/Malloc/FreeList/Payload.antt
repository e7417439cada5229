-- ===== src/Malloc/FreeList/Payload.antt =====
-- mm_freeList.c: stores of the program into the payload of an allocated block.
use operating_system_basics.Base.{
  ℕ, ◌+◌, ◌-◌, ◌≤◌, ◌≡◌, ◌⊎◌, inl, inr, sym, ap, ◌∙◌, List, [], ◌∷◌, arith, subst, Bool-cases,
  if◌then◌else◌,
}
use operating_system_basics.Malloc.{Heap}
use operating_system_basics.Malloc.FreeList.Chain.{Chain-Same, Same}
use operating_system_basics.Malloc.FreeList.Tiles.{
  Tile, base, base-ge, free_ahead, free_behind, Ahead-frame, Behind-frame, TagAhead-ge,
  TagBehind-le,
}
use operating_system_basics.Malloc.FreeList.Apart.{or_cases, free_ahead-ge, free_behind-le}
use operating_system_basics.Malloc.FreeList.Outside.{SameStatics}
use operating_system_basics.Malloc.FreeList.Gap.{All-has}
use operating_system_basics.Malloc.FreeList.Whole.{Whole, over, joined, joined-Whole}
use operating_system_basics.Malloc.FreeList.Coalesce.{used_tile}
use operating_system_basics.Malloc.FreeList.Live.{live}
use operating_system_basics.Malloc.FreeList.Disjoint.{Among}

-- Outside of the payload of a block of `n` bytes at `p`.
abbrev pub Beyond : ℕ → ℕ → ℕ → Type 0
Beyond p n r = (r + 4 ≤ p) ⊎ (p + n ≤ r + 8)

-- Only the payload of the block is written.
abbrev pub FilledIn : ℕ → ℕ → Heap → Heap → Type 0
FilledIn p n h g =
    SameStatics h g × (g.start ≡ h.start) × ((r : ℕ) → Beyond p n r → g.mem r ≡ h.mem r)

pub payload-Whole :
    {bottom : ℕ} {ls : List Tile} {n : ℕ} {ts : List Tile} {fl : List ℕ} {h : Heap} (g : Heap)
    → Whole bottom ls (used_tile n ∷ ts) fl h
    → FilledIn (base bottom ls) n h g
    → Whole bottom ls (used_tile n ∷ ts) fl g
unfolding free_ahead
payload-Whole {bottom} {ls} {n} {ts} {fl} {h} g w ((s1, s2, s3, s4), start, same) =
    let low = base bottom ls in
    let origin = base-ge bottom ls in
    let bound = w.low in
    let (a1, a2, (a3, big), more) = w.ahead in
    record {
      behind =
          Behind-frame h.mem g.mem bottom ls
            (λ r k.
              let place = TagBehind-le h.mem bottom ls r w.behind k in same r (inl (omega arith)))
            w.behind;
      ahead = (
        same (low - 4) (inl (omega arith)) ∙ a1,
        same (low + n - 8) (inr (omega arith)) ∙ a2,
        (a3, big),
        Ahead-frame h.mem g.mem (low + n) ts
            (λ r k.
              let place = TagAhead-ge h.mem (low + n) ts r more (omega arith) k in
              same r (inr (omega arith)))
            more,
      );
      prologue = same (bottom - 4) (inl (omega arith)) ∙ w.prologue;
      low = w.low;
      origin = rw s1 w.origin;
      brk = s2 ∙ w.brk;
      room = rw (s2, s3) w.room;
      top = rw s3 w.top;
      chain = (
        rw start (
            Chain-Same h.mem g.mem bottom 0 h.start fl
              (All-has (Same h.mem g.mem) fl (λ d e.
                elim (or_cases (free_behind bottom ls d) (free_ahead (low + n) ts d)
                  (sym (w.covers d) ∙ e)) [
                    | inl k ↦
                        let place = free_behind-le h.mem bottom ls d w.behind k in
                        (same d (inl (omega arith)), same (d + 8) (inl (omega arith)))
                    | inr k ↦
                        let place = free_ahead-ge (low + n) ts d k in
                        (same d (inr (omega arith)), same (d + 8) (inr (omega arith)))
                  ]))
              (same bottom (inl (omega arith))) w.chain.0),
        w.chain.1,
      );
      covers = w.covers;
    }

-- The heap cut at an allocated block.
pub record UsedAt (bottom : ℕ) (tiles : List Tile) (fl : List ℕ) (h : Heap) (d n : ℕ) : Type 0 where
  pub ls : List Tile
  pub ts : List Tile
  pub whole : Whole bottom ls (used_tile n ∷ ts) fl h
  pub place : base bottom ls ≡ d
  pub same : tiles ≡ joined ls (used_tile n ∷ ts)

used_at :
    {bottom : ℕ} {fl : List ℕ} {h : Heap} (ls ts : List Tile) (d n : ℕ)
    → Whole bottom ls ts fl h
    → Among (d, n) (live (base bottom ls) ts)
    → UsedAt bottom (joined ls ts) fl h d n
unfolding live joined
used_at ls [] d n w m = elim m [ ]
used_at {bottom} {fl} {h} ls (t ∷ ts) d n w m = elim (Bool-cases t.used) [
  | inl u ↦
      let here : Among (d, n) ((base bottom ls, t.size) ∷ live (base bottom ls + t.size) ts) =
        subst
          (λ x.
            Among (d, n)
              (if x
                then (base bottom ls, t.size) ∷ live (base bottom ls + t.size) ts
                else live (base bottom ls + t.size) ts))
          u m in
      elim here [
        | inl k ↦
            let tile : t ≡ used_tile n =
              ap (λ x. record { size = t.size; used = x }) u
              ∙ ap (λ x. used_tile x) (sym (ap (λ (x : ℕ × ℕ). x.1) k)) in
            record {
              ls = ls;
              ts = ts;
              whole = subst (λ x. Whole bottom ls (x ∷ ts) fl h) tile w;
              place = sym (ap (λ (x : ℕ × ℕ). x.0) k);
              same = ap (λ x. joined ls (x ∷ ts)) tile;
            }
        | inr k ↦ used_at (t ∷ ls) ts d n (over w) k
      ]
  | inr u ↦
      let later : Among (d, n) (live (base bottom ls + t.size) ts) =
        subst
          (λ x.
            Among (d, n)
              (if x
                then (base bottom ls, t.size) ∷ live (base bottom ls + t.size) ts
                else live (base bottom ls + t.size) ts))
          u m in
      used_at (t ∷ ls) ts d n (over w) later
]

pub allocated :
    {bottom : ℕ} {tiles : List Tile} {fl : List ℕ} {h : Heap} (d n : ℕ)
    → Whole bottom [] tiles fl h
    → Among (d, n) (live (bottom + 40) tiles)
    → UsedAt bottom tiles fl h d n
unfolding joined
allocated {bottom} {tiles} d n w m = used_at [] tiles d n w m

-- A sound heap stays sound when a payload is written.
pub FilledIn-Whole :
    {bottom : ℕ} {tiles : List Tile} {fl : List ℕ} {h : Heap} (g : Heap) (p n : ℕ)
    → Whole bottom [] tiles fl h
    → Among (p, n) (live (bottom + 40) tiles)
    → FilledIn p n h g
    → Whole bottom [] tiles fl g
FilledIn-Whole {bottom} {tiles} {fl} {h} g p n w m filled =
    let u = allocated p n w m in
    let at = subst (λ x. FilledIn x n h g) (sym u.place) filled in
    subst (λ x. Whole bottom [] x fl g) (sym u.same)
      (joined-Whole u.ls (used_tile n ∷ u.ts) (payload-Whole g u.whole at))
