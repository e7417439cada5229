-- ===== src/Disk/Travel.antt =====
-- The distance that the head travels through a sequence of cylinders, and the loops of
-- "Disk Scheduling/disksim.c" that add it up.
use operating_system_basics.Base.{
  ◌≡◌, refl, ◌∙◌, List, [], ◌∷◌, ℤ, pos, neg_part, ◌+ℤ◌, ◌-ℤ◌, abs, abs_parts, zero_+ℤ, +ℤ_zero,
  sym, +ℤ_assoc, nonneg-add,
}
use operating_system_basics.Disk.{Task, seek_loop}

abbrev pub cylinders : List Task → List ℤ
cylinders [] = []
cylinders (t ∷ ts) = t.cylinder ∷ cylinders ts

-- From cylinder `p` through the cylinders in order.
unfoldable pub travel : ℤ → List ℤ → ℤ
travel p [] = pos 0
travel p (c ∷ cs) = abs (p -ℤ c) +ℤ travel c cs

pub travel-cons : (p c : ℤ) (cs : List ℤ) → travel p (c ∷ cs) ≡ abs (p -ℤ c) +ℤ travel c cs
unfolding travel
travel-cons p c cs = refl

pub seek_loop-travel :
    (ts : List Task) (total prev : ℤ)
    → seek_loop ts total prev ≡ total +ℤ travel prev (cylinders ts)
unfolding seek_loop travel
seek_loop-travel [] total prev = sym (+ℤ_zero total)
seek_loop-travel (t ∷ ts) total prev =
    seek_loop-travel ts (total +ℤ abs (prev -ℤ t.cylinder)) t.cylinder
    ∙ +ℤ_assoc total (abs (prev -ℤ t.cylinder)) (travel t.cylinder (cylinders ts))

pub seek_loop-eq-travel :
    (ts : List Task) (start : ℤ) → seek_loop ts (pos 0) start ≡ travel start (cylinders ts)
seek_loop-eq-travel ts start = seek_loop-travel ts (pos 0) start ∙ zero_+ℤ _

-- A total distance is never negative.
pub travel-nonneg : (p : ℤ) (cs : List ℤ) → neg_part (travel p cs) ≡ 0
unfolding travel
travel-nonneg p [] = refl
travel-nonneg p (c ∷ cs) =
    nonneg-add (abs (p -ℤ c)) (travel c cs) (abs_parts (p -ℤ c)).0 (travel-nonneg c cs)
