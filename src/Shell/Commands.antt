-- ===== src/Shell/Commands.antt =====
-- xssh.c: the commands of the shell and of other programs, the words of a line, and `main`.
use operating_system_basics.Base.{
  ℕ, zero, suc, ◌+◌, ◌-◌, Bool, true, false, not, Option, none, some, List, [], ◌∷◌, ◌++◌, ◌==◌,
  if◌then◌else◌, length, get_elem?, ℤ, pos,
}
use operating_system_basics.Base.CString.{strtok, atoi}
use operating_system_basics.Shell.{
  Word, eq_word, HashTable, System, Event, opened, displayed, line_displayed, shown, exported,
  unexported, changed_dir, waited, executed, command_failed, Result, returned, exited,
  check_external, show_name, set_name, unset_name, export_name, unexport_name, chdir_name,
  exit_name, wait_name,
}
use operating_system_basics.Shell.Table.{add, remove_key, get_val}

-- The variables of the shell, its global flags, and what it has done so far. A position is none for -1.
-- `stdIN` and `stdOUT`, which nothing reads, are left out.
pub record State (T : Type 0) : Type 0 where
  pub env : T
  pub backgroundflag : Bool
  pub in_pos : Option ℕ
  pub out_pos : Option ℕ
  pub displayflag : Bool
  pub events : List Event

abbrev pub emit : {T : Type 0} → Event → State T → State T
emit e s = record s { events = s.events ++ (e ∷ []) }

module _ (hash : HashTable) (sys : System) where
  -- `runInternal` on `name` with the words after it.
  unfoldable pub run_set : List Word → State hash.Table → Result × State hash.Table
  run_set (k ∷ v ∷ rest) s = (returned true, record s { env = add hash k v s.env })
  run_set other s = (returned true, s)

  unfoldable pub run_unset : List Word → State hash.Table → Result × State hash.Table
  run_unset (k ∷ rest) s =
      let (ok, env) = remove_key hash k s.env in (returned ok, record s { env = env })
  run_unset [] s = (returned true, s)

  unfoldable pub run_export : List Word → State hash.Table → Result × State hash.Table
  run_export (k ∷ v ∷ rest) s =
      if not (sys.setenv_ok k v)
      then (returned false, s)
      else (returned true, emit (exported k v) (record s { env = add hash k v s.env }))
  run_export other s = (returned true, s)

  unfoldable pub run_unexport : List Word → State hash.Table → Result × State hash.Table
  run_unexport (k ∷ rest) s =
      if not (sys.unsetenv_ok k)
      then (returned false, s)
      else (returned true, emit (unexported k) (record s { env = (remove_key hash k s.env).1 }))
  run_unexport [] s = (returned true, s)

  unfoldable pub run_chdir : List Word → State hash.Table → Result × State hash.Table
  run_chdir (d ∷ rest) s =
      if not (sys.chdir_ok d) then (returned false, s) else (returned true, emit (changed_dir d) s)
  run_chdir [] s = (returned true, s)

  unfoldable pub run_exit : List Word → State hash.Table → Result × State hash.Table
  run_exit (n ∷ rest) s = (exited (atoi n), s)
  run_exit [] s = (exited (pos 0), s)

  -- A result of `main` fails if it is 1.
  unfoldable pub run_wait : State hash.Table → Result × State hash.Table
  run_wait s = (returned (not (sys.wait_status == 1)), emit waited s)

  unfoldable pub run_internal : Word → List Word → State hash.Table → Result × State hash.Table
  run_internal name rest s =
      if eq_word name show_name
      then (returned true, emit (shown rest) s)
      else if eq_word name set_name
      then run_set rest s
      else if eq_word name unset_name
      then run_unset rest s
      else if eq_word name export_name
      then run_export rest s
      else if eq_word name unexport_name
      then run_unexport rest s
      else if eq_word name chdir_name
      then run_chdir rest s
      else if eq_word name exit_name
      then run_exit rest s
      else if eq_word name wait_name
      then run_wait s
      else (returned true, s)

  -- `runExternal` in the parent: the block after `else if (pid > 0);` runs also where `fork` failed.
  unfoldable pub run_external : List Word → State hash.Table → Result × State hash.Table
  run_external args s =
      let named = record s { env = add hash (b'$' ∷ []) sys.getpid s.env } in
      let begun = if sys.forked then emit (executed args) named else named in
      if sys.stale_child
      then (returned false, begun)
      else if not s.backgroundflag
      then (returned true, record begun { env = add hash (b'?' ∷ []) sys.status begun.env })
      else (
        returned true,
        record begun { env = add hash (b'!' ∷ []) sys.pid begun.env; backgroundflag = false },
      )

  abbrev pub special : ℕ → Word → Bool
  special c w = eq_word w (c ∷ [])

  abbrev pub at_pos : Option ℕ → ℕ → Bool
  at_pos none i = false
  at_pos (some p) i = i == p

  abbrev pub look_up : Option Word → hash.Table → Option Word
  look_up none t = none
  look_up (some w) t = get_val hash w t

  -- A round of the `while` over the tokens: `i` words were seen, `args` are stored.
  unfoldable pub mark_token : Word → ℕ → State hash.Table → Option Word × State hash.Table
  mark_token w i s =
      if special b'&' w
      then (none, record s { backgroundflag = true })
      else if special b'<' w
      then (none, record s { in_pos = some (i + 1) })
      else if special b'>' w
      then (none, record s { out_pos = some (i + 1) })
      else (some w, s)

  -- The print of `args[i]` for `-x`, and the one after the words.
  abbrev pub show_stored : ℕ → List (Option Word) → State hash.Table → State hash.Table
  show_stored i stored s = if s.displayflag then emit (displayed (get_elem? stored i)) s else s

  abbrev pub end_display : State hash.Table → State hash.Table
  end_display s = if s.displayflag then emit line_displayed s else s

  unfoldable pub store_token :
      Option Word
      → ℕ
      → List (Option Word)
      → State hash.Table
      → List (Option Word) × State hash.Table
  store_token token i args s =
      if at_pos s.in_pos i
      then (args, emit (opened token) s)
      else if at_pos s.out_pos i
      then (args, s)
      else let stored = args ++ (look_up token s.env ∷ []) in (stored, show_stored i stored s)

  -- The tokens of a line, on fuel: its length is enough.
  unfoldable pub token_loop :
      ℕ
      → Word
      → ℕ
      → List (Option Word)
      → State hash.Table
      → List (Option Word) × (ℕ × State hash.Table)
  token_loop zero line i args s = (args, (i, s))
  token_loop (suc fuel) line i args s = elim (strtok (b' ' ∷ b' ' ∷ 10 ∷ []) line) [
    | none ↦ (args, (i, s))
    | some (w, rest) ↦
        let (token, marked) = mark_token w i s in
        let (stored, after) = store_token token i args marked in
        token_loop fuel rest (i + 1) stored after
  ]

  -- The words before the first NULL.
  unfoldable pub words : List (Option Word) → List Word
  words [] = []
  words (none ∷ args) = []
  words (some w ∷ args) = w ∷ words args

  -- `args[i] = NULL`, where `j` words are stored and the others up to `i` are what the array held.
  unfoldable pub terminate : (ℕ → Option Word) → ℕ → List (Option Word) → List (Option Word)
  terminate stale zero args = args ++ (none ∷ [])
  terminate stale (suc n) args = terminate stale n (args ++ (stale (length args) ∷ []))

  unfoldable pub dispatch : List Word → State hash.Table → Result × State hash.Table
  dispatch [] s = (returned sys.stale_result, s)
  dispatch (name ∷ rest) s =
      if check_external name then run_external (name ∷ rest) s else run_internal name rest s

  unfoldable pub run_line : (ℕ → Option Word) → Word → State hash.Table → Result × State hash.Table
  run_line stale line s =
      let (args, (i, after)) = token_loop (length line) line 0 [] s in
      dispatch (words (terminate stale (i - length args) args)) (end_display after)

  -- The `while` of `main`, and the exit code.
  unfoldable pub main_loop : (ℕ → Option Word) → List Word → State hash.Table → ℤ × State hash.Table
  main_loop stale [] s = (pos 0, s)
  main_loop stale (line ∷ lines) s =
      let (result, after) = run_line stale line s in
      elim result [
        | exited code ↦ (code, after)
        | returned ok ↦ main_loop stale lines (if not ok then emit command_failed after else after)
      ]
