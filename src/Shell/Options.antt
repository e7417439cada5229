-- ===== src/Shell/Options.antt =====
-- xssh.c: `main` up to its loop: what it makes of its options, and the variables 1 and 2.
use operating_system_basics.Base.{
  ℕ, ◌+◌, Bool, true, false, Option, none, some, List, [], ◌∷◌, ◌==◌, if◌then◌else◌, length,
  get_elem?, ℤ, pos,
}
use operating_system_basics.Shell.{Word, HashTable, System}
use operating_system_basics.Shell.Table.{add}
use operating_system_basics.Shell.Commands.{State, main_loop}

-- What a call of `getopt` returns; `other` is the question mark for an option that is unknown.
pub data Opt : Type 0 where
  file_opt : Word → Opt
  debug_opt : Word → Opt
  display_opt : Opt
  other : Opt

-- The local variables of `main` that the options set.
pub record Flags : Type 0 where
  pub fileflag : Bool
  pub displayflag : Bool
  pub place : ℕ

unfoldable pub read_option : Flags → Opt → Flags
read_option f (file_opt w) = record f { fileflag = true; place = f.place + 2 }
read_option f (debug_opt w) = record f { place = f.place + 2 }
read_option f display_opt = record f { displayflag = true; place = f.place + 1 }
read_option f other = f

unfoldable pub read_options : Flags → List Opt → Flags
read_options f [] = f
read_options f (o ∷ opts) = read_options (read_option f o) opts

-- `argv[i]`: NULL after the last argument; past it, what lies there in memory.
unfoldable pub argv_at : (ℕ → Option Word) → List Word → ℕ → Option Word
argv_at beyond argv i =
    if i == length argv then none else elim (get_elem? argv i) [ none ↦ beyond i | some w ↦ some w ]

module _ (hash : HashTable) (sys : System) where
  -- `add` of a variable where its value is not NULL.
  unfoldable pub add_given : Word → Option Word → State hash.Table → State hash.Table
  add_given key none s = s
  add_given key (some value) s = record s { env = add hash key value s.env }

  -- Where a file is named: the two variables, then the lines of the file; none is `fopen(NULL)`, and no
  -- lines are the exit with FAIL. `fopen` gives the lines of a file.
  unfoldable pub read_file :
      (Word → Option (List Word))
      → (ℕ → Option Word)
      → List Word
      → ℕ
      → State hash.Table
      → Option (Option (List Word) × State hash.Table)
  read_file fopen beyond argv place s = elim (argv_at beyond argv place) [
    | none ↦ none
    | some name ↦
        let one = add_given (b'1' ∷ []) (argv_at beyond argv (place + 1)) s in
        some (fopen name, add_given (b'2' ∷ []) (argv_at beyond argv (place + 2)) one)
  ]

  -- `main`, from the table that is empty at its start: the exit code, where it does not fault.
  unfoldable pub main :
      (Word → Option (List Word))
      → (ℕ → Option Word)
      → (ℕ → Option Word)
      → List Word
      → List Opt
      → List Word
      → State hash.Table
      → Option (ℤ × State hash.Table)
  main fopen beyond stale argv opts stdin s =
      let f = read_options (record { fileflag = false; displayflag = false; place = 0 }) opts in
      let s0 = record s { displayflag = f.displayflag } in
      if f.fileflag
      then elim (read_file fopen beyond argv f.place s0) [
        | none ↦ none
        | some (lines, s1) ↦ elim lines [
          | none ↦ some (pos 1, s1)
          | some ls ↦ some (main_loop hash sys stale ls s1)
        ]
      ]
      else some (main_loop hash sys stale stdin s0)
