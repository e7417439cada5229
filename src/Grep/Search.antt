-- ===== src/Grep/Search.antt =====
-- MCGrep/mcgrep.c: what `grep` writes for a line.
use operating_system_basics.Base.{
  ℕ, ◌-◌, ◌≤◌, ◌≡◌, ◌≢◌, refl, ap, ◌∙◌, Bool, false, ◌||◌, List, [], ◌∷◌, ◌++◌, map, ◌==◌,
  if◌then◌else◌, Bool-cases, inl, inr, length, All, ==_iff,
}
use operating_system_basics.Grep.{Options, Bytes, buffer_size, c_string, scan, grep_line, grep_loop}
use operating_system_basics.Grep.Lines.{lines, flatten, grep_loop-lines}

-- Does the line hold the character?
unfoldable pub contains : ℕ → Bytes → Bool
contains c [] = false
contains c (b ∷ s) = (b == c) || contains c s

-- The line with each such character replaced, if the option asks for it.
unfoldable pub replaced : Options → Bytes → Bytes
replaced o s =
    if o.replace_flag then map (λ b. if b == o.find_char then o.replace_with else b) s else s

-- The lines with the character, replaced.
unfoldable pub matches : Options → List Bytes → Bytes
matches o [] = []
matches o (l ∷ ls) = (if contains o.find_char l then replaced o l else []) ++ matches o ls

-- A text that `fprintf` takes as a format with nothing to fill in.
unfoldable pub IsPlain : Bytes → Type 0
IsPlain s = All (λ b. (b ≢ 0) × (b ≢ 37)) s

scan_lem : (o : Options) (s : Bytes) → scan o s ≡ (contains o.find_char s, replaced o s)
unfolding scan contains replaced
scan_lem o [] = elim (Bool-cases o.replace_flag) [ inl f ↦ rw f refl | inr f ↦ rw f refl ]
scan_lem o (c ∷ s) =
    let ih = scan_lem o s in
    elim (Bool-cases o.replace_flag) [
      | inl f ↦ elim (Bool-cases (c == o.find_char)) [
        | inl e ↦ rw (f, e, ih, f) refl
        | inr e ↦ rw (f, e, ih, f) refl
      ]
      | inr f ↦ elim (Bool-cases (c == o.find_char)) [
        | inl e ↦ rw (f, e) refl
        | inr e ↦ rw (f, e, ih, f) refl
      ]
    ]

c_string-plain : (s : Bytes) → IsPlain s → c_string s ≡ s
unfolding c_string IsPlain
c_string-plain [] h = refl
c_string-plain (c ∷ s) h = elim (Bool-cases (c == 0)) [
  | inl e ↦ absurd (h.0.0 ((==_iff c 0).0 e))
  | inr e ↦ rw e (ap (◌∷◌ c) (c_string-plain s h.1))
]

-- `fprintf` writes a plain text as it is.
module _ (fprintf : Bytes → Bytes) (literal : (s : Bytes) → IsPlain s → fprintf s ≡ s)
    (o : Options) where
  grep_line_lem :
      (l : Bytes)
      → IsPlain l
      → IsPlain (replaced o l)
      → grep_line fprintf o l ≡ (if contains o.find_char l then replaced o l else [])
  unfolding grep_line
  grep_line_lem l h k =
      rw
        (
          c_string-plain l h,
          scan_lem o l,
          c_string-plain (replaced o l) k,
          literal (replaced o l) k,
        )
        refl

  matches_lem :
      (ls : List Bytes)
      → All IsPlain ls
      → All (λ l. IsPlain (replaced o l)) ls
      → flatten (map (grep_line fprintf o) ls) ≡ matches o ls
  unfolding matches
  matches_lem [] h k = refl
  matches_lem (l ∷ ls) h k = rw (grep_line_lem l h.0 k.0, matches_lem ls h.1 k.1) refl

  -- On a part of the file whose lines fit into the buffer and hold, before and after the
  -- replacement, no NUL and no `%`, `grep` writes the lines with the character, in order, each
  -- with its replacements.
  pub grep_loop-matches :
      (fuel : ℕ) (s : Bytes)
      → length s ≤ fuel
      → All (λ l. length l ≤ buffer_size - 1) (lines s)
      → All IsPlain (lines s)
      → All (λ l. IsPlain (replaced o l)) (lines s)
      → grep_loop fprintf o fuel s ≡ matches o (lines s)
  grep_loop-matches fuel s h fits plain after =
      grep_loop-lines fprintf o fuel s h fits ∙ matches_lem (lines s) plain after
