-- ===== src/LinkedList/Reference.antt =====
-- A list head as the sequence itself, sorted by insertion: it shows that the laws can hold.
use mathlib.Core.List.{Perm}
use mathlib.Core.List.Perm
use operating_system_basics.Base.{
  ℕ, suc, ◌≡◌, refl, ◌≢◌, inl, inr, Option, none, some, List, [], ◌∷◌, ◌++◌, All, take, drop, set,
  arith, if◌then◌else◌, ◌==◌, Bool-cases, ==_iff,
}
use operating_system_basics.LinkedList.Defs.{ListHead, IsTotalPreorder, IsSorted}

module _ {T : Type 0} (cmp : T → T → ℕ) where
  abbrev pub insert : T → List T → List T
  insert x [] = x ∷ []
  insert x (y ∷ ys) = if cmp x y == 0 then x ∷ y ∷ ys else y ∷ insert x ys

  abbrev pub insertion_sort : List T → List T
  insertion_sort [] = []
  insertion_sort (x ∷ xs) = insert x (insertion_sort xs)

  insert-perm : (x : T) (ys : List T) → Perm (insert x ys) (x ∷ ys)
  insert-perm x [] = Perm.rfl
  insert-perm x (y ∷ ys) = elim (Bool-cases (cmp x y == 0)) [
    | inl e ↦ rw e Perm.rfl
    | inr e ↦ rw e (Perm.trans (Perm.cons y (insert-perm x ys)) (Perm.swap x y ys))
  ]

  insertion_sort-perm : (xs : List T) → Perm (insertion_sort xs) xs
  insertion_sort-perm [] = Perm.rfl
  insertion_sort-perm (x ∷ xs) =
      Perm.trans (insert-perm x (insertion_sort xs)) (Perm.cons x (insertion_sort-perm xs))

  All-insert : (P : T → Type 0) (x : T) (ys : List T) → P x → All P ys → All P (insert x ys)
  All-insert P x [] p h = (p, tt)
  All-insert P x (y ∷ ys) p h = elim (Bool-cases (cmp x y == 0)) [
    | inl e ↦ rw e (p, h)
    | inr e ↦ rw e (h.0, All-insert P x ys p h.1)
  ]

  module _ (pre : IsTotalPreorder cmp) where
    All-trans :
        (x y : T) (ys : List T)
        → cmp x y ≡ 0
        → All (λ z. cmp y z ≡ 0) ys
        → All (λ z. cmp x z ≡ 0) ys
    All-trans x y [] e h = tt
    All-trans x y (z ∷ ys) e h = (pre.1 x y z e h.0, All-trans x y ys e h.1)

    insert-IsSorted : (x : T) (ys : List T) → IsSorted cmp ys → IsSorted cmp (insert x ys)
    insert-IsSorted x [] s = (tt, tt)
    insert-IsSorted x (y ∷ ys) s = elim (Bool-cases (cmp x y == 0)) [
      | inl e ↦ let le = (==_iff (cmp x y) 0).0 e in rw e ((le, All-trans x y ys le s.0), s)
      | inr e ↦ rw e (
        All-insert (λ z. cmp y z ≡ 0) x ys (ground (arith, pre.0 x y)) s.0,
        insert-IsSorted x ys s.1,
      )
    ]

    insertion_sort-IsSorted : (xs : List T) → IsSorted cmp (insertion_sort xs)
    insertion_sort-IsSorted [] = tt
    insertion_sort-IsSorted (x ∷ xs) =
        insert-IsSorted x (insertion_sort xs) (insertion_sort-IsSorted xs)

abbrev pub sort_nonempty : {T : Type 0} → (T → T → ℕ) → List T → Option (List T)
sort_nonempty cmp [] = none
sort_nonempty cmp (x ∷ xs) = some (insertion_sort cmp (x ∷ xs))

pub sort_nonempty_lem :
    {T : Type 0} (cmp : T → T → ℕ) (xs : List T)
    → xs ≢ []
    → IsTotalPreorder cmp
    → (ys : List T) × (sort_nonempty cmp xs ≡ some ys) × Perm ys xs × IsSorted cmp ys
sort_nonempty_lem cmp [] ne pre = absurd (ne refl)
sort_nonempty_lem cmp (x ∷ xs) ne pre = (
  insertion_sort cmp (x ∷ xs),
  refl,
  insertion_sort-perm cmp (x ∷ xs),
  insertion_sort-IsSorted cmp pre (x ∷ xs),
)

abbrev pub reference : (T : Type 0) → ListHead T
reference T = record {
  Head = List T;
  entries = λ h. h;
  init_list_head = [];
  list_add_tail = λ x h. h ++ (x ∷ []);
  list_add_after = λ i x h. take (suc i) h ++ (x ∷ drop (suc i) h);
  list_add_before = λ i x h. take i h ++ (x ∷ drop i h);
  list_store = λ i x h. set h i x;
  list_sort = sort_nonempty;
  entries-init = refl;
  entries-add_tail = λ x h. refl;
  entries-add_after = λ i x h. refl;
  entries-add_before = λ i x h. refl;
  entries-store = λ i x h. refl;
  sorts = sort_nonempty_lem;
}
