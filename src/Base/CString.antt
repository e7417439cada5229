-- ===== src/Base/CString.antt =====
-- What the programs use of string.h and stdlib.h, over the bytes of a C string without its NUL.
use operating_system_basics.Base.Tests.{Bool-cases, leb, ◌==◌, if◌then◌else◌}
use operating_system_basics.Base.Int.{ℤ, pos, ◌-ℤ◌}
use Prim.Native.Nat.{ℕ, ◌+◌, ◌-◌, ◌*◌, ◌≤◌, ◌<◌}
use mathlib.Core.Bool.{Bool, true, false, ◌&&◌, ◌||◌}
use mathlib.Core.Option.{Option, none, some, some-injective}
use mathlib.Core.Path.{◌≡◌, refl, sym, ap, ◌∙◌}
use mathlib.Core.Logic.{◌≢◌, inl, inr}
use operating_system_basics.Base.Lists.{length}
use native.Mathlib.Omega.{arith}
use mathlib.Core.List.{List, [], ◌∷◌}

-- `isspace`
abbrev pub is_space : ℕ → Bool
is_space c = c == 32 || leb 9 c && leb c 13

abbrev pub is_digit : ℕ → Bool
is_digit c = leb b'0' c && leb c b'9'

-- The digits from the front, most significant first.
unfoldable pub read_digits : ℕ → List ℕ → ℕ
read_digits n [] = n
read_digits n (c ∷ s) =
    let more = read_digits (n * 10 + (c - b'0')) s in if is_digit c then more else n

read_sign : List ℕ → ℤ
read_sign [] = pos 0
read_sign (c ∷ s) =
    if c == b'-'
    then pos 0 -ℤ pos (read_digits 0 s)
    else pos (if c == b'+' then read_digits 0 s else read_digits 0 (c ∷ s))

-- `atoi`, where the value fits an `int`.
unfoldable pub atoi : List ℕ → ℤ
unfolding read_digits read_sign
atoi [] = pos 0
atoi (c ∷ s) = let rest = atoi s in if is_space c then rest else read_sign (c ∷ s)

pub elem : ℕ → List ℕ → Bool
elem c [] = false
elem c (d ∷ ds) = c == d || elem c ds

-- Up to the next delimiter, which is dropped.
pub until : List ℕ → List ℕ → List ℕ × List ℕ
unfolding elem
until delim [] = ([], [])
until delim (c ∷ s) =
    let (token, rest) = until delim s in if elem c delim then ([], s) else (c ∷ token, rest)

-- One call of `strtok`: the token, and where the next call goes on.
unfoldable pub strtok : List ℕ → List ℕ → Option (List ℕ × List ℕ)
unfolding elem until
strtok delim [] = none
strtok delim (c ∷ s) =
    let rest = strtok delim s in if elem c delim then rest else some (until delim (c ∷ s))

length-until : (delim s : List ℕ) → length (until delim s).1 ≤ length s
unfolding until
length-until delim [] = omega arith
length-until delim (c ∷ s) =
    let rest = length-until delim s in
    elim (Bool-cases (elem c delim)) [ inl e ↦ rw e (omega arith) | inr e ↦ rw e (omega arith) ]

strtok-skip :
    (delim : List ℕ) (c : ℕ) (s : List ℕ)
    → elem c delim ≡ true
    → strtok delim (c ∷ s) ≡ strtok delim s
unfolding strtok
strtok-skip delim c s e = rw e refl

strtok-take :
    (delim : List ℕ) (c : ℕ) (s : List ℕ)
    → elem c delim ≡ false
    → strtok delim (c ∷ s) ≡ some (c ∷ (until delim s).0, (until delim s).1)
unfolding strtok until
strtok-take delim c s e = rw e refl

strtok-nil : (delim : List ℕ) → strtok delim [] ≡ none
unfolding strtok
strtok-nil delim = refl

none-some : (r : List ℕ × List ℕ) → none ≢ some r
none-some r e = cc

-- A call that finds a token goes on with a shorter text.
pub length-strtok :
    (delim s w rest : List ℕ) → strtok delim s ≡ some (w, rest) → length rest < length s
length-strtok delim [] w rest h = absurd (none-some (w, rest) (sym (strtok-nil delim) ∙ h))
length-strtok delim (c ∷ s) w rest h = elim (Bool-cases (elem c delim)) [
  | inl e ↦
      let shorter = length-strtok delim s w rest (sym (strtok-skip delim c s e) ∙ h) in omega arith
  | inr e ↦
      let same =
        some-injective (c ∷ (until delim s).0, (until delim s).1) (w, rest)
          (sym (strtok-take delim c s e) ∙ h) in
      let bound = length-until delim s in
      let kept : length rest ≡ length (until delim s).1 =
        ap (λ (r : List ℕ × List ℕ). length r.1) (sym same) in
      omega arith
]
