-- ===== src/LinkedList/Defs.antt =====
-- The interface of list.h.
use mathlib.Core.List.{Perm}
use operating_system_basics.Base.{
  ℕ, suc, ◌≡◌, ◌≢◌, ◌⊎◌, Option, some, List, [], ◌∷◌, ◌++◌, All, take, drop, set,
}

module _ {T : Type 0} where
  -- A comparator `cmp(a, b) <= 0` that a merge sort can use.
  abbrev pub IsTotalPreorder : (T → T → ℕ) → Type 0
  IsTotalPreorder cmp =
      ((a b : T) → (cmp a b ≡ 0) ⊎ (cmp b a ≡ 0))
      × ((a b c : T) → cmp a b ≡ 0 → cmp b c ≡ 0 → cmp a c ≡ 0)

  -- No entry is after one that it should precede.
  abbrev pub IsSorted : (T → T → ℕ) → List T → Type 0
  IsSorted cmp [] = Unit
  IsSorted cmp (x ∷ xs) = All (λ y. cmp x y ≡ 0) xs × IsSorted cmp xs

-- `list_sort` is used on lists with an entry only: it reads through the poisoned pointers of an
-- empty head (none: a fault).
pub record ListHead (T : Type 0) : Type 1 where
  pub Head : Type 0
  pub entries : Head → List T
  pub init_list_head : Head
  pub list_add_tail : T → Head → Head
  -- `list_add(new, p)` where `p` is the entry at a position.
  pub list_add_after : ℕ → T → Head → Head
  -- `list_add_tail(new, p)`, likewise: it adds before `p`.
  pub list_add_before : ℕ → T → Head → Head
  -- A store into the entry at a position, through the pointer that `list_entry` gives.
  pub list_store : ℕ → T → Head → Head
  pub list_sort : (T → T → ℕ) → Head → Option Head
  pub entries-init : entries init_list_head ≡ []
  pub entries-add_tail : (x : T) (h : Head) → entries (list_add_tail x h) ≡ entries h ++ (x ∷ [])
  pub entries-add_after :
      (i : ℕ) (x : T) (h : Head)
      → entries (list_add_after i x h) ≡ take (suc i) (entries h) ++ (x ∷ drop (suc i) (entries h))
  pub entries-add_before :
      (i : ℕ) (x : T) (h : Head)
      → entries (list_add_before i x h) ≡ take i (entries h) ++ (x ∷ drop i (entries h))
  pub entries-store : (i : ℕ) (x : T) (h : Head) → entries (list_store i x h) ≡ set (entries h) i x
  pub sorts :
      (cmp : T → T → ℕ) (h : Head)
      → entries h ≢ []
      → IsTotalPreorder cmp
      → (h' : Head) × (list_sort cmp h ≡ some h')
        × Perm (entries h') (entries h)
        × IsSorted cmp (entries h')
