-- ===== src/Grep/Lines.antt =====
-- MCGrep/mcgrep.c: the lines that `fgets` hands to `grep`.
use operating_system_basics.Base.{
  ℕ, zero, suc, ◌-◌, ◌≤◌, ◌<◌, ◌≡◌, refl, sym, ap, ◌∙◌, true, false, List, [], ◌∷◌, ◌++◌, map,
  arith, ◌==◌, if◌then◌else◌, Bool-cases, inl, inr, length, All, ==_iff, subst,
}
use operating_system_basics.Grep.{Options, Bytes, buffer_size, fgets, grep_line, grep_loop}

-- The lines of a text, each with its newline, read off the text itself.
unfoldable pub on_first : ℕ → List Bytes → List Bytes
on_first c [] = (c ∷ []) ∷ []
on_first c (l ∷ ls) = (c ∷ l) ∷ ls

unfoldable pub lines : Bytes → List Bytes
lines [] = []
lines (c ∷ s) = let rest = lines s in if c == 10 then (10 ∷ []) ∷ rest else on_first c rest

abbrev pub flatten : List Bytes → Bytes
flatten [] = []
flatten (l ∷ ls) = l ++ flatten ls

-- A line ends with the first newline, or with the text.
lines-newline : (s : Bytes) → lines (10 ∷ s) ≡ (10 ∷ []) ∷ lines s
unfolding lines
lines-newline s = refl

lines-other : (c : ℕ) (s : Bytes) → (c == 10) ≡ false → lines (c ∷ s) ≡ on_first c (lines s)
unfolding lines
lines-other c s e = rw e refl

abbrev pub headed : List Bytes → Bytes
headed [] = []
headed (l ∷ ls) = l

length-headed :
    (c : ℕ) (ls : List Bytes) → length (headed (on_first c ls)) ≡ suc (length (headed ls))
unfolding on_first
length-headed c [] = refl
length-headed c (l ∷ ls) = refl

on_first-cons : (c : ℕ) (l : Bytes) (ls : List Bytes) → on_first c (l ∷ ls) ≡ (c ∷ l) ∷ ls
unfolding on_first
on_first-cons c l ls = refl

lines-last : (c : ℕ) → on_first c (lines []) ≡ (c ∷ []) ∷ lines []
unfolding lines on_first
lines-last c = refl

fgets-newline : (room : ℕ) (s : Bytes) → fgets (suc room) (10 ∷ s) ≡ (10 ∷ [], s)
unfolding fgets
fgets-newline room s = refl

fgets-other :
    (room c : ℕ) (s : Bytes)
    → (c == 10) ≡ false
    → fgets (suc room) (c ∷ s) ≡ (c ∷ (fgets room s).0, (fgets room s).1)
unfolding fgets
fgets-other room c s e = rw e refl

fgets-end : (room : ℕ) → fgets room [] ≡ ([], [])
unfolding fgets
fgets-end zero = refl
fgets-end (suc room) = refl

headed-pos : (c : ℕ) (s : Bytes) → 0 < length (headed (lines (c ∷ s)))
unfolding lines
headed-pos c s = elim (Bool-cases (c == 10)) [
  | inl e ↦ rw e (omega arith)
  | inr e ↦ rw (lines-other c s e) (omega (arith, length-headed c (lines s)))
]

fgets-lines-newline :
    (room c : ℕ) (s : Bytes)
    → (c == 10) ≡ true
    → lines (c ∷ s) ≡ (fgets (suc room) (c ∷ s)).0 ∷ lines (fgets (suc room) (c ∷ s)).1
fgets-lines-newline room c s e =
    let ten : c ≡ 10 = (==_iff c 10).0 e in rw (ten, fgets-newline room s) (lines-newline s)

-- `fgets` takes the first line if it has room for it.
pub fgets-lines :
    (room c : ℕ) (s : Bytes)
    → length (headed (lines (c ∷ s))) ≤ room
    → lines (c ∷ s) ≡ (fgets room (c ∷ s)).0 ∷ lines (fgets room (c ∷ s)).1
fgets-lines zero c s h = absurd (omega (arith, headed-pos c s))
fgets-lines (suc room) c [] h = elim (Bool-cases (c == 10)) [
  | inl e ↦ fgets-lines-newline room c [] e
  | inr e ↦ rw (lines-other c [] e, fgets-other room c [] e, fgets-end room) (lines-last c)
]
fgets-lines (suc room) c (d ∷ t) h = elim (Bool-cases (c == 10)) [
  | inl e ↦ fgets-lines-newline room c (d ∷ t) e
  | inr e ↦
      let tail : length (headed (lines (d ∷ t))) ≤ room = omega (
        arith,
        length-headed c (lines (d ∷ t)),
        ap (λ ls. length (headed ls)) (lines-other c (d ∷ t) e),
      ) in
      lines-other c (d ∷ t) e
      ∙ ap (on_first c) (fgets-lines room d t tail)
      ∙ rw (fgets-other room c (d ∷ t) e) (on_first-cons c _ _)
]

-- A call with room takes at least a byte.
pub fgets-length : (room : ℕ) (s : Bytes) → length (fgets room s).1 ≤ length s
unfolding fgets
fgets-length zero s = omega arith
fgets-length (suc room) [] = omega arith
fgets-length (suc room) (c ∷ s) = let ih = fgets-length room s in ground arith

pub length-fgets : (room c : ℕ) (s : Bytes) → length (fgets (suc room) (c ∷ s)).1 ≤ length s
unfolding fgets
length-fgets room c s = let rest = fgets-length room s in ground arith

All-headed : (k : ℕ) (ls : List Bytes) → All (λ l. length l ≤ k) ls → length (headed ls) ≤ k
All-headed k [] h = omega arith
All-headed k (l ∷ ls) h = h.0

module _ (fprintf : Bytes → Bytes) (o : Options) where
  grep_loop-nil : (fuel : ℕ) → grep_loop fprintf o fuel [] ≡ []
  unfolding grep_loop
  grep_loop-nil zero = refl
  grep_loop-nil (suc fuel) = refl

  -- More fuel than bytes changes nothing.
  pub grep_loop-fuel :
      (a b : ℕ) (s : Bytes)
      → length s ≤ a
      → length s ≤ b
      → grep_loop fprintf o a s ≡ grep_loop fprintf o b s
  unfolding grep_loop
  grep_loop-fuel a b [] h k = grep_loop-nil a ∙ sym (grep_loop-nil b)
  grep_loop-fuel zero b (c ∷ s) h k = absurd (omega arith)
  grep_loop-fuel (suc a) zero (c ∷ s) h k = absurd (omega arith)
  grep_loop-fuel (suc a) (suc b) (c ∷ s) h k =
      let rest = (fgets (buffer_size - 1) (c ∷ s)).1 in
      let shorter : length rest ≤ length s = length-fgets 98 c s in
      ap (λ more. grep_line fprintf o (fgets (buffer_size - 1) (c ∷ s)).0 ++ more)
        (grep_loop-fuel a b rest (omega arith) (omega arith))

  -- Where each line fits into the buffer, the loop searches the lines one by one.
  pub grep_loop-lines :
      (fuel : ℕ) (s : Bytes)
      → length s ≤ fuel
      → All (λ l. length l ≤ buffer_size - 1) (lines s)
      → grep_loop fprintf o fuel s ≡ flatten (map (grep_line fprintf o) (lines s))
  unfolding grep_loop lines
  grep_loop-lines fuel [] h fits = grep_loop-nil fuel
  grep_loop-lines zero (c ∷ s) h fits = absurd (omega arith)
  grep_loop-lines (suc fuel) (c ∷ s) h fits =
      let (line, rest) = fgets 99 (c ∷ s) in
      let first : lines (c ∷ s) ≡ line ∷ lines rest = fgets-lines 99 c s (All-headed 99 _ fits) in
      let shorter : length rest ≤ length s = length-fgets 98 c s in
      let later = (subst (All (λ (l : Bytes). length l ≤ 99)) first fits).1 in
      ap (◌++◌ (grep_line fprintf o line)) (grep_loop-lines fuel rest (omega arith) later)
      ∙ ap (λ ls. flatten (map (grep_line fprintf o) ls)) (sym first)
