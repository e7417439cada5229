-- ===== src/Base/Perm.antt =====
-- What a permutation keeps, over the native numbers.
use Prim.Native.Nat.{ℕ, suc, ◌+◌}
use mathlib.Core.Path.{◌≡◌, refl, ap, ◌∙◌, subst}
use mathlib.Core.Bool.{Bool}
use mathlib.Core.List.{List, [], ◌∷◌, ◌++◌, Perm, Permᴰ}
use mathlib.Core.Logic.{∥∥₁_elim}
use native.Mathlib.Omega.{arith}
use native.Mathlib.Nat.{ℕ_set}
use operating_system_basics.Base.Tests.{if◌then◌else◌}
use operating_system_basics.Base.Lists.{length, All}

module _ {ℓ} {A : Type ℓ} where
  Permᴰ-length : {xs ys : List A} → Permᴰ xs ys → length xs ≡ length ys
  Permᴰ-length Permᴰ.nil = refl
  Permᴰ-length (Permᴰ.cons e p) = ap suc (Permᴰ-length p)
  Permᴰ-length (Permᴰ.swap e f) = refl
  Permᴰ-length (Permᴰ.trans p q) = Permᴰ-length p ∙ Permᴰ-length q

  pub Perm-length : {xs ys : List A} → Perm xs ys → length xs ≡ length ys
  Perm-length p = ∥∥₁_elim p (ℕ_set _ _) Permᴰ-length

  -- How many elements pass a test.
  abbrev pub count_if : (A → Bool) → List A → ℕ
  count_if p [] = 0
  count_if p (x ∷ xs) = (if p x then 1 else 0) + count_if p xs

  pub count_if-append :
      (p : A → Bool) (xs ys : List A) → count_if p (xs ++ ys) ≡ count_if p xs + count_if p ys
  count_if-append p [] ys = omega arith
  count_if-append p (x ∷ xs) ys = omega (arith, count_if-append p xs ys)

  Permᴰ-count_if : (p : A → Bool) {xs ys : List A} → Permᴰ xs ys → count_if p xs ≡ count_if p ys
  Permᴰ-count_if p Permᴰ.nil = refl
  Permᴰ-count_if p (Permᴰ.cons {b = b} e q) =
      rw e (ap (λ k. (if p b then 1 else 0) + k) (Permᴰ-count_if p q))
  Permᴰ-count_if p (Permᴰ.swap {a = a} {b = b} {l = xs} e f) = rw (← e, ← f) (omega arith)
  Permᴰ-count_if p (Permᴰ.trans q r) = Permᴰ-count_if p q ∙ Permᴰ-count_if p r

  pub Perm-count_if : (p : A → Bool) {xs ys : List A} → Perm xs ys → count_if p xs ≡ count_if p ys
  Perm-count_if p q = ∥∥₁_elim q (ℕ_set _ _) (Permᴰ-count_if p)

module _ {ℓ κ} {A : Type ℓ} (P : A → Type κ) where
  pub Permᴰ-All : {xs ys : List A} → Permᴰ xs ys → All P xs → All P ys
  Permᴰ-All Permᴰ.nil h = h
  Permᴰ-All (Permᴰ.cons e p) h = (subst P e h.0, Permᴰ-All p h.1)
  Permᴰ-All (Permᴰ.swap e f) h = (subst P f h.1.0, (subst P e h.0, h.1.1))
  Permᴰ-All (Permᴰ.trans p q) h = Permᴰ-All q (Permᴰ-All p h)

  -- What holds of every element still does after a rearrangement, in the proof of a proposition.
  pub All-perm {μ} :
      {Q : Type μ} {xs ys : List A} → IsProp Q → Perm xs ys → All P xs → (All P ys → Q) → Q
  All-perm prop p h k = ∥∥₁_elim p prop (λ q. k (Permᴰ-All q h))
