-- ===== src/Malloc/FreeList/Whole.antt =====
-- mm_freeList.c: the whole heap, cut in two at a block.
use operating_system_basics.Base.{
  ◌^◌, ℕ, ◌+◌, ◌-◌, ◌≤◌, ◌<◌, ◌≡◌, refl, sym, ◌∙◌, Bool, true, false, not, ◌&&◌, ◌||◌, List, [],
  ◌∷◌, arith, ◌==◌,
}
use operating_system_basics.Malloc.{Heap}
use operating_system_basics.Malloc.FreeList.Chain.{IsFreeList}
use operating_system_basics.Malloc.FreeList.Tiles.{
  Tile, tag, IsTile, total, base, Ahead, Behind, free_ahead, free_behind,
}
use operating_system_basics.Malloc.FreeList.Gap.{Gap, has}

-- The blocks `ls`, the last one first, then the blocks `ts`. The free list has the free ones.
pub record Whole (bottom : ℕ) (ls ts : List Tile) (fl : List ℕ) (h : Heap) : Type 0 where
  pub behind : Behind h.mem bottom ls
  pub ahead : Ahead h.mem (base bottom ls) ts
  pub prologue : h.mem (bottom - 4) ≡ 25
  pub low : 8 ≤ bottom
  pub origin : h.mem_start_brk ≤ bottom
  pub brk : h.mem_brk ≡ base bottom ls + total ts
  pub room : h.mem_brk ≤ h.mem_max_addr
  pub top : h.mem_max_addr + 2 ^ 27 < 2 ^ 32
  pub chain : IsFreeList bottom fl h
  pub covers : (d : ℕ) → has d fl ≡ (free_behind bottom ls d || free_ahead (base bottom ls) ts d)

or_over : (b e f : Bool) → (b || (e || f)) ≡ ((e || b) || f)
or_over true true f = refl
or_over true false f = refl
or_over false true f = refl
or_over false false f = refl

pub over :
    {bottom : ℕ} {ls : List Tile} {t : Tile} {ts : List Tile} {fl : List ℕ} {h : Heap}
    → Whole bottom ls (t ∷ ts) fl h
    → Whole bottom (t ∷ ls) ts fl h
unfolding free_ahead free_behind
over {bottom} {ls} {t} {ts} w =
    let (a1, a2, a3, more) = w.ahead in
    let brk = w.brk in
    record {
      behind = (a1, a2, a3, w.behind);
      ahead = more;
      prologue = w.prologue;
      low = w.low;
      origin = w.origin;
      brk = omega arith;
      room = w.room;
      top = w.top;
      chain = w.chain;
      covers = λ d.
          w.covers d
          ∙ or_over (free_behind bottom ls d) (not t.used && (base bottom ls == d))
              (free_ahead (base bottom ls + t.size) ts d);
    }

pub back :
    {bottom : ℕ} {ls : List Tile} {t : Tile} {ts : List Tile} {fl : List ℕ} {h : Heap}
    → Whole bottom (t ∷ ls) ts fl h
    → Whole bottom ls (t ∷ ts) fl h
unfolding free_ahead free_behind
back {bottom} {ls} {t} {ts} w =
    let (a1, a2, a3, more) = w.behind in
    let brk = w.brk in
    record {
      behind = more;
      ahead = (a1, a2, a3, w.ahead);
      prologue = w.prologue;
      low = w.low;
      origin = w.origin;
      brk = omega arith;
      room = w.room;
      top = w.top;
      chain = w.chain;
      covers = λ d.
          w.covers d
          ∙ sym (
              or_over (free_behind bottom ls d) (not t.used && (base bottom ls == d))
                (free_ahead (base bottom ls + t.size) ts d));
    }

-- The blocks in the order of their addresses.
unfoldable pub joined : List Tile → List Tile → List Tile
joined [] ts = ts
joined (l ∷ ls) ts = joined ls (l ∷ ts)

pub joined-Whole :
    {bottom : ℕ} (ls ts : List Tile) {fl : List ℕ} {h : Heap}
    → Whole bottom ls ts fl h
    → Whole bottom [] (joined ls ts) fl h
unfolding joined
joined-Whole [] ts w = w
joined-Whole (l ∷ ls) ts w = joined-Whole ls (l ∷ ts) (back w)

pub cut-Whole :
    {bottom : ℕ} (ls ts : List Tile) {fl : List ℕ} {h : Heap}
    → Whole bottom [] (joined ls ts) fl h
    → Whole bottom ls ts fl h
unfolding joined
cut-Whole [] ts w = w
cut-Whole (l ∷ ls) ts w = over (cut-Whole ls (l ∷ ts) w)

or_gap : (b e f : Bool) → (b || (e || f)) ≡ ((b || f) || e)
or_gap true e f = refl
or_gap false true true = refl
or_gap false true false = refl
or_gap false false true = refl
or_gap false false false = refl

-- A block of the heap as a gap.
pub opened :
    {bottom : ℕ} {ls : List Tile} {t : Tile} {ts : List Tile} {fl : List ℕ} {h : Heap}
    → Whole bottom ls (t ∷ ts) fl h
    → Gap bottom ls (base bottom ls + t.size) ts (not t.used) fl h
unfolding free_ahead
opened {bottom} {ls} {t} {ts} w =
    let (a1, a2, (a3, big), more) = w.ahead in
    let brk = w.brk in
    record {
      around = record {
        behind = w.behind;
        ahead = more;
        gap = omega arith;
        prologue = w.prologue;
        low = w.low;
        origin = w.origin;
        brk = omega arith;
        room = w.room;
        top = w.top;
      };
      chain = w.chain;
      covers = λ d.
          w.covers d
          ∙ or_gap (free_behind bottom ls d) (not t.used && (base bottom ls == d))
              (free_ahead (base bottom ls + t.size) ts d);
    }

pub closed :
    {bottom : ℕ} {ls : List Tile} (t : Tile) {ts : List Tile} {fl : List ℕ} {h : Heap}
    → Gap bottom ls (base bottom ls + t.size) ts (not t.used) fl h
    → h.mem (base bottom ls - 4) ≡ tag t
    → h.mem (base bottom ls + t.size - 8) ≡ tag t
    → IsTile t
    → Whole bottom ls (t ∷ ts) fl h
unfolding free_ahead
closed {bottom} {ls} t {ts} g header footer sizes =
    let brk = g.around.brk in
    record {
      behind = g.around.behind;
      ahead = (header, footer, sizes, g.around.ahead);
      prologue = g.around.prologue;
      low = g.around.low;
      origin = g.around.origin;
      brk = omega arith;
      room = g.around.room;
      top = g.around.top;
      chain = g.chain;
      covers = λ d.
          g.covers d
          ∙ sym (
              or_gap (free_behind bottom ls d) (not t.used && (base bottom ls == d))
                (free_ahead (base bottom ls + t.size) ts d));
    }
