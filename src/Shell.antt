-- ===== src/Shell.antt =====
-- "Simple XSSHell"/xssh.c and xssh.h: a shell that splits each line into words, replaces them by
-- variables, and runs a command of its own or another program. The hash table of uthash.h and the
-- system calls are parameters.
pub mod Table
pub mod Commands
pub mod Words
pub mod Startup
pub mod Options
pub mod Reference
mod Tests
use operating_system_basics.Base.{
  ℕ, zero, suc, ◌+◌, ◌-◌, ◌≡◌, ◌≢◌, Bool, true, false, not, ◌&&◌, ◌||◌, Option, none, some, List,
  [], ◌∷◌, ◌++◌, ◌==◌, if◌then◌else◌, length, drop, set, ℤ, pos, negsuc,
}
use operating_system_basics.Base.CString.{strtok, atoi}

abbrev pub Word : Type 0
Word = List ℕ

-- `!strcmp(v, w)`
abbrev pub eq_word : Word → Word → Bool
eq_word [] [] = true
eq_word [] (c ∷ w) = false
eq_word (c ∷ v) [] = false
eq_word (c ∷ v) (d ∷ w) = (c == d) && eq_word v w

-- The macros of uthash.h on `envHashTable`; `hash_store` is a `strcpy` into the entry that was found.
pub record HashTable : Type 1 where
  pub Table : Type 0
  pub hash_find : Word → Table → Option Word
  pub hash_add : Word → Word → Table → Table
  pub hash_store : Word → Word → Table → Table
  pub hash_del : Word → Table → Table

-- What the system does: which calls succeed, and the numbers that it gives, as `sprintf` prints
-- them. `stale_child` is whether the variable `child` that nobody set is -1, and `stale_result` what
-- `result` holds where no command ran.
pub record System : Type 0 where
  pub setenv_ok : Word → Word → Bool
  pub unsetenv_ok : Word → Bool
  pub chdir_ok : Word → Bool
  pub wait_status : ℕ
  pub getpid : Word
  pub forked : Bool
  pub pid : Word
  pub status : Word
  pub stale_child : Bool
  pub stale_result : Bool

-- What the shell does to the world. `displayed` is what `-x` prints for a word: an element of `args`, or
-- none for one that is not stored in this line. `line_displayed` is the end of that line.
pub data Event : Type 0 where
  opened : Option Word → Event
  displayed : Option (Option Word) → Event
  line_displayed : Event
  shown : List Word → Event
  exported : Word → Word → Event
  unexported : Word → Event
  changed_dir : Word → Event
  waited : Event
  executed : List Word → Event
  command_failed : Event

-- The exit code, or `return` with success or not.
pub data Result : Type 0 where
  returned : Bool → Result
  exited : ℤ → Result

abbrev pub show_name : Word
show_name = b's' ∷ b'h' ∷ b'o' ∷ b'w' ∷ []

abbrev pub set_name : Word
set_name = b's' ∷ b'e' ∷ b't' ∷ []

abbrev pub unset_name : Word
unset_name = b'u' ∷ b'n' ∷ set_name

abbrev pub export_name : Word
export_name = b'e' ∷ b'x' ∷ b'p' ∷ b'o' ∷ b'r' ∷ b't' ∷ []

abbrev pub unexport_name : Word
unexport_name = b'u' ∷ b'n' ∷ export_name

abbrev pub chdir_name : Word
chdir_name = b'c' ∷ b'h' ∷ b'd' ∷ b'i' ∷ b'r' ∷ []

abbrev pub exit_name : Word
exit_name = b'e' ∷ b'x' ∷ b'i' ∷ b't' ∷ []

abbrev pub wait_name : Word
wait_name = b'w' ∷ b'a' ∷ b'i' ∷ b't' ∷ []

unfoldable pub check_external : Word → Bool
check_external w = not (
    eq_word w show_name
    || eq_word w set_name
    || eq_word w unset_name
    || eq_word w export_name
    || eq_word w unexport_name
    || eq_word w chdir_name
    || eq_word w exit_name
    || eq_word w wait_name)
