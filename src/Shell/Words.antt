-- ===== src/Shell/Words.antt =====
-- xssh.c: the loop over the words of a line ends.
use operating_system_basics.Base.{
  ℕ, zero, suc, ◌+◌, ◌≤◌, ◌≡◌, refl, sym, ◌∙◌, Option, none, some, List, [], ◌∷◌, length, arith,
  Option-cases, inl, inr,
}
use operating_system_basics.Base.CString.{strtok, length-strtok}
use operating_system_basics.Shell.{Word, HashTable, System}
use operating_system_basics.Shell.Commands.{State, mark_token, store_token, token_loop}

module _ (hash : HashTable) (sys : System) where
  pub token_loop-end :
      (fuel : ℕ) (line : Word) (i : ℕ) (args : List (Option Word)) (s : State hash.Table)
      → strtok (b' ' ∷ b' ' ∷ 10 ∷ []) line ≡ none
      → token_loop hash sys fuel line i args s ≡ (args, (i, s))
  unfolding token_loop
  token_loop-end zero line i args s e = refl
  token_loop-end (suc fuel) line i args s e = rw (e, token_loop) refl

  pub token_loop-next :
      (fuel : ℕ) (line : Word) (i : ℕ) (args : List (Option Word)) (s : State hash.Table)
      (w rest : Word)
      → strtok (b' ' ∷ b' ' ∷ 10 ∷ []) line ≡ some (w, rest)
      → let (token, marked) = mark_token hash sys w i s in
        let (stored, after) = store_token hash sys token i args marked in
        token_loop hash sys (suc fuel) line i args s
        ≡ token_loop hash sys fuel rest (i + 1) stored after
  unfolding token_loop
  token_loop-next fuel line i args s w rest e = rw (e, token_loop) refl

  more_fuel :
      (a b : ℕ) (line : Word) (i : ℕ) (args : List (Option Word)) (s : State hash.Table)
      → length line ≤ a
      → length line ≤ b
      → token_loop hash sys a line i args s ≡ token_loop hash sys b line i args s
  more_fuel zero b line i args s h k = elim (Option-cases (strtok (b' ' ∷ b' ' ∷ 10 ∷ []) line)) [
    | inl n ↦ token_loop-end 0 line i args s n ∙ sym (token_loop-end b line i args s n)
    | inr ((w, rest), n) ↦
        absurd (omega (arith, length-strtok (b' ' ∷ b' ' ∷ 10 ∷ []) line w rest n))
  ]
  more_fuel (suc a) zero line i args s h k =
      elim (Option-cases (strtok (b' ' ∷ b' ' ∷ 10 ∷ []) line)) [
        | inl n ↦ token_loop-end (suc a) line i args s n ∙ sym (token_loop-end 0 line i args s n)
        | inr ((w, rest), n) ↦
            absurd (omega (arith, length-strtok (b' ' ∷ b' ' ∷ 10 ∷ []) line w rest n))
      ]
  more_fuel (suc a) (suc b) line i args s h k =
      elim (Option-cases (strtok (b' ' ∷ b' ' ∷ 10 ∷ []) line)) [
        | inl n ↦
            token_loop-end (suc a) line i args s n ∙ sym (token_loop-end (suc b) line i args s n)
        | inr ((w, rest), n) ↦
            let (token, marked) = mark_token hash sys w i s in
            let (stored, after) = store_token hash sys token i args marked in
            let shorter = length-strtok (b' ' ∷ b' ' ∷ 10 ∷ []) line w rest n in
            token_loop-next a line i args s w rest n
            ∙ more_fuel a b rest (i + 1) stored after (omega arith) (omega arith)
            ∙ sym (token_loop-next b line i args s w rest n)
      ]

  -- The length of a line is enough fuel for its words: with more of it the loop comes to the same
  -- end.
  pub token_loop-length :
      (fuel : ℕ) (line : Word) (i : ℕ) (args : List (Option Word)) (s : State hash.Table)
      → length line ≤ fuel
      → token_loop hash sys fuel line i args s ≡ token_loop hash sys (length line) line i args s
  token_loop-length fuel line i args s h =
      more_fuel fuel (length line) line i args s h (omega arith)
