-- ===== src/Shell/Startup.antt =====
-- xssh.c: what the shell does from an empty table of variables.
use operating_system_basics.Base.{
  ℕ, ◌<◌, zero, suc, ◌+◌, ◌-◌, ◌≡◌, refl, sym, Bool, true, false, not, Option, none, some, List, [],
  ◌∷◌, ◌++◌, if◌then◌else◌, length, get_elem?, ℤ, pos, All, All-append, arith, Bool-cases,
  Option-cases, inl, inr, subst, drop, set,
}
use operating_system_basics.Base.CString.{strtok}
use operating_system_basics.Shell.{
  Word, HashTable, System, Event, opened, displayed, line_displayed, shown, exported, unexported,
  changed_dir, waited, executed, command_failed, returned,
}
use operating_system_basics.Shell.Table.{find, get_val}
use operating_system_basics.Shell.Commands.{
  State, emit, show_stored, end_display, special, at_pos, look_up, mark_token, store_token,
  token_loop, words, terminate, dispatch, run_line, main_loop,
}
use operating_system_basics.Shell.Words.{token_loop-end, token_loop-next}

-- The shell opened a file for its input, printed a word for `-x`, or complained.
unfoldable pub IsIdle : Event → Type 0
IsIdle (opened w) = Unit
IsIdle (displayed w) = Unit
IsIdle line_displayed = Unit
IsIdle (shown ws) = ⊥
IsIdle (exported k v) = ⊥
IsIdle (unexported k) = ⊥
IsIdle (changed_dir d) = ⊥
IsIdle waited = ⊥
IsIdle (executed ws) = ⊥
IsIdle command_failed = Unit

abbrev AfterStart : Option ℕ → Type 0
AfterStart none = Unit
AfterStart (some p) = 0 < p

module _ (hash : HashTable) (sys : System) where
  -- No variable is set, and no redirection is at the first word.
  abbrev pub IsEmpty : State hash.Table → Type 0
  IsEmpty s =
      ((k : Word) → find hash k s.env ≡ none)
      × AfterStart s.in_pos
      × AfterStart s.out_pos
      × All IsIdle s.events

  get_val-none :
      (w : Word) (t : hash.Table) → ((k : Word) → find hash k t ≡ none) → get_val hash w t ≡ none
  unfolding get_val
  get_val-none w t h = h (drop 1 (set w 0 b'$'))

  mark_token-IsEmpty :
      (w : Word) (i : ℕ) (s : State hash.Table) → IsEmpty s → IsEmpty (mark_token hash sys w i s).1
  unfolding mark_token
  mark_token-IsEmpty w i s (e, a, b, q) = elim (Bool-cases (special hash sys b'&' w)) [
    | inl c ↦ rw c (e, a, b, q)
    | inr c ↦ elim (Bool-cases (special hash sys b'<' w)) [
      | inl d ↦ rw (c, d) (e, omega arith, b, q)
      | inr d ↦ elim (Bool-cases (special hash sys b'>' w)) [
        | inl f ↦ rw (c, d, f) (e, a, omega arith, q)
        | inr f ↦ rw (c, d, f) (e, a, b, q)
      ]
    ]
  ]

  show_stored-IsEmpty :
      (i : ℕ) (stored : List (Option Word)) (s : State hash.Table)
      → IsEmpty s
      → IsEmpty (show_stored hash sys i stored s)
  unfolding IsIdle
  show_stored-IsEmpty i stored s (e, a, b, q) = elim (Bool-cases s.displayflag) [
    | inl c ↦
        rw c (e, a, b, All-append IsIdle s.events (displayed (get_elem? stored i) ∷ []) q (tt, tt))
    | inr c ↦ rw c (e, a, b, q)
  ]

  end_display-IsEmpty : (s : State hash.Table) → IsEmpty s → IsEmpty (end_display hash sys s)
  unfolding IsIdle
  end_display-IsEmpty s (e, a, b, q) = elim (Bool-cases s.displayflag) [
    | inl c ↦ rw c (e, a, b, All-append IsIdle s.events (line_displayed ∷ []) q (tt, tt))
    | inr c ↦ rw c (e, a, b, q)
  ]

  store_token-IsEmpty :
      (token : Option Word) (i : ℕ) (args : List (Option Word)) (s : State hash.Table)
      → IsEmpty s
      → IsEmpty (store_token hash sys token i args s).1
  unfolding store_token IsIdle
  store_token-IsEmpty token i args s (e, a, b, q) = elim (Bool-cases (at_pos hash sys s.in_pos i)) [
    | inl c ↦ rw c (e, a, b, All-append IsIdle s.events (opened token ∷ []) q (tt, tt))
    | inr c ↦ elim (Bool-cases (at_pos hash sys s.out_pos i)) [
      | inl d ↦ rw (c, d) (e, a, b, q)
      | inr d ↦
          rw (c, d)
            (show_stored-IsEmpty i (args ++ (look_up hash sys token s.env ∷ [])) s (e, a, b, q))
    ]
  ]

  -- The array starts with NULL.
  abbrev Starts : List (Option Word) → Type 0
  Starts [] = ⊥
  Starts (none ∷ args) = Unit
  Starts (some w ∷ args) = ⊥

  Starts-append : (args more : List (Option Word)) → Starts args → Starts (args ++ more)
  Starts-append [] more h = absurd h
  Starts-append (none ∷ args) more h = tt
  Starts-append (some w ∷ args) more h = absurd h

  store_token-Starts :
      (token : Option Word) (i : ℕ) (args : List (Option Word)) (s : State hash.Table)
      → Starts args
      → Starts (store_token hash sys token i args s).0
  unfolding store_token
  store_token-Starts token i args s h = elim (Bool-cases (at_pos hash sys s.in_pos i)) [
    | inl c ↦ rw c h
    | inr c ↦ elim (Bool-cases (at_pos hash sys s.out_pos i)) [
      | inl d ↦ rw (c, d) h
      | inr d ↦ rw (c, d) (Starts-append args (look_up hash sys token s.env ∷ []) h)
    ]
  ]

  not_first : (p : Option ℕ) → AfterStart p → at_pos hash sys p 0 ≡ false
  not_first none h = refl
  not_first (some p) h = ground arith

  look_up-none :
      (token : Option Word) (t : hash.Table)
      → ((k : Word) → find hash k t ≡ none)
      → look_up hash sys token t ≡ none
  look_up-none none t h = refl
  look_up-none (some w) t h = get_val-none w t h

  first_token :
      (token : Option Word) (s : State hash.Table)
      → IsEmpty s
      → Starts (store_token hash sys token 0 [] s).0
  unfolding store_token
  first_token token s (e, a, b, q) =
      rw (not_first s.in_pos a, not_first s.out_pos b, look_up-none token s.env e) tt

  token_loop-zero :
      (line : Word) (i : ℕ) (args : List (Option Word)) (s : State hash.Table)
      → token_loop hash sys zero line i args s ≡ (args, (i, s))
  unfolding token_loop
  token_loop-zero line i args s = refl

  -- After the words of a line the array starts with NULL.
  abbrev Good : List (Option Word) × (ℕ × State hash.Table) → Type 0
  Good (args, (i, s)) = Starts args × IsEmpty s

  later_tokens :
      (fuel : ℕ) (line : Word) (i : ℕ) (args : List (Option Word)) (s : State hash.Table)
      → Starts args
      → IsEmpty s
      → Good (token_loop hash sys fuel line i args s)
  later_tokens zero line i args s h e = subst Good (sym (token_loop-zero line i args s)) (h, e)
  later_tokens (suc fuel) line i args s h e =
      elim (Option-cases (strtok (b' ' ∷ b' ' ∷ 10 ∷ []) line)) [
        | inl n ↦ subst Good (sym (token_loop-end hash sys (suc fuel) line i args s n)) (h, e)
        | inr ((w, rest), n) ↦
            let (token, marked) = mark_token hash sys w i s in
            let (stored, after) = store_token hash sys token i args marked in
            let e' = mark_token-IsEmpty w i s e in
            subst Good (sym (token_loop-next hash sys fuel line i args s w rest n)) (
              later_tokens fuel rest (i + 1) stored after (store_token-Starts token i args marked h)
                (store_token-IsEmpty token i args marked e'))
      ]

  -- `args` of a line as the command sees it.
  abbrev Silent : (ℕ → Option Word) → List (Option Word) × (ℕ × State hash.Table) → Type 0
  Silent stale (args, (i, s)) =
      (words hash sys (terminate hash sys stale (i - length args) args) ≡ []) × IsEmpty s

  terminate-Starts :
      (stale : ℕ → Option Word) (n : ℕ) (args : List (Option Word))
      → Starts args
      → words hash sys (terminate hash sys stale n args) ≡ []
  unfolding words terminate
  terminate-Starts stale zero [] h = absurd h
  terminate-Starts stale zero (none ∷ args) h = refl
  terminate-Starts stale zero (some w ∷ args) h = absurd h
  terminate-Starts stale (suc n) args h =
      terminate-Starts stale n (args ++ (stale (length args) ∷ []))
        (Starts-append args (stale (length args) ∷ []) h)

  no_words :
      (stale : ℕ → Option Word) (s : State hash.Table) → IsEmpty s → Silent stale ([], (0, s))
  unfolding words terminate
  no_words stale s e = (refl, e)

  Good-Silent :
      (stale : ℕ → Option Word) (r : List (Option Word) × (ℕ × State hash.Table))
      → Good r
      → Silent stale r
  Good-Silent stale (args, (i, s)) (h, e) = (terminate-Starts stale (i - length args) args h, e)

  line_tokens :
      (stale : ℕ → Option Word) (fuel : ℕ) (line : Word) (s : State hash.Table)
      → IsEmpty s
      → Silent stale (token_loop hash sys fuel line 0 [] s)
  line_tokens stale zero line s e =
      subst (Silent stale) (sym (token_loop-zero line 0 [] s)) (no_words stale s e)
  line_tokens stale (suc fuel) line s e =
      elim (Option-cases (strtok (b' ' ∷ b' ' ∷ 10 ∷ []) line)) [
        | inl n ↦
            subst (Silent stale) (sym (token_loop-end hash sys (suc fuel) line 0 [] s n))
              (no_words stale s e)
        | inr ((w, rest), n) ↦
            let (token, marked) = mark_token hash sys w 0 s in
            let (stored, after) = store_token hash sys token 0 [] marked in
            let e' = mark_token-IsEmpty w 0 s e in
            subst (Silent stale) (sym (token_loop-next hash sys fuel line 0 [] s w rest n)) (
              Good-Silent stale (token_loop hash sys fuel rest 1 stored after) (
                later_tokens fuel rest 1 stored after (first_token token marked e')
                  (store_token-IsEmpty token 0 [] marked e')))
      ]

  silent_line :
      (stale : ℕ → Option Word) (line : Word) (s : State hash.Table)
      → IsEmpty s
      → ((run_line hash sys stale line s).0 ≡ returned sys.stale_result)
        × IsEmpty (run_line hash sys stale line s).1
  unfolding run_line dispatch
  silent_line stale line s e =
      let (nothing, e') = line_tokens stale (length line) line s e in
      rw nothing (refl, end_display-IsEmpty _ e')

  complained :
      (ok : Bool) (s : State hash.Table)
      → IsEmpty s
      → IsEmpty (if not ok then emit command_failed s else s)
  unfolding IsIdle
  complained true s e = e
  complained false s (e, a, b, q) =
      (e, a, b, All-append IsIdle s.events (command_failed ∷ []) q (tt, tt))

  main_loop_next :
      (stale : ℕ → Option Word) (line : Word) (lines : List Word) (s : State hash.Table) (ok : Bool)
      → (run_line hash sys stale line s).0 ≡ returned ok
      → let after = (run_line hash sys stale line s).1 in
        main_loop hash sys stale (line ∷ lines) s
        ≡ main_loop hash sys stale lines (if not ok then emit command_failed after else after)
  unfolding main_loop
  main_loop_next stale line lines s ok e = rw (e, main_loop) refl

  abbrev Idle : ℤ × State hash.Table → Type 0
  Idle (code, s) = (code ≡ pos 0) × IsEmpty s

  -- With no variable set, whatever lines the shell reads, it never runs a command of its own or
  -- another program: no variable is set, it ends with the last line and the exit code 0, and all
  -- that it does is to open files for its input, to print the words for `-x`, and to complain.
  pub main_loop-IsEmpty :
      (stale : ℕ → Option Word) (lines : List Word) (s : State hash.Table)
      → IsEmpty s
      → ((main_loop hash sys stale lines s).0 ≡ pos 0)
        × IsEmpty (main_loop hash sys stale lines s).1
  unfolding main_loop
  main_loop-IsEmpty stale [] s e = (refl, e)
  main_loop-IsEmpty stale (line ∷ lines) s e =
      let (result, e') = silent_line stale line s e in
      let after = (run_line hash sys stale line s).1 in
      let ok = sys.stale_result in
      subst Idle (sym (main_loop_next stale line lines s ok result)) (
        main_loop-IsEmpty stale lines (if not ok then emit command_failed after else after)
          (complained ok after e'))
