-- ===== src/Shell/Tests.antt =====
-- Runs of "Simple XSSHell"/xssh.c, and each theorem at a small session.
use operating_system_basics.Base.{ℕ, ◌≡◌, refl, true, false, Option, none, some, List, [], ◌∷◌, pos}
use operating_system_basics.Shell.{Word, System}
use operating_system_basics.Shell.Table.{find, add, add_entry}
use operating_system_basics.Shell.Commands.{State, main_loop}
use operating_system_basics.Shell.Startup.{IsEmpty, main_loop-IsEmpty}
use operating_system_basics.Shell.Options.{
  display_opt, file_opt, read_option, read_options, argv_at, add_given, read_file,
}
use operating_system_basics.Shell.Reference.{reference}

abbrev sys : System
sys = record {
  setenv_ok = λ k v. true;
  unsetenv_ok = λ k. true;
  chdir_ok = λ d. true;
  wait_status = 0;
  getpid = b'7' ∷ [];
  forked = true;
  pid = b'8' ∷ [];
  status = b'0' ∷ [];
  stale_child = false;
  stale_result = true;
}

abbrev begin : State reference.Table
begin = record {
  env = [];
  backgroundflag = false;
  in_pos = none;
  out_pos = none;
  displayflag = false;
  events = [];
}

-- "show hi".
abbrev line : Word
line = b's' ∷ b'h' ∷ b'o' ∷ b'w' ∷ b' ' ∷ b'h' ∷ b'i' ∷ 10 ∷ []

abbrev stale : ℕ → Option Word
stale i = none

main_loop-IsEmpty_example :
    let r = main_loop reference sys stale (line ∷ line ∷ []) begin in
    (r.0 ≡ pos 0) × IsEmpty reference sys r.1
unfolding find
main_loop-IsEmpty_example =
    main_loop-IsEmpty reference sys stale (line ∷ line ∷ []) begin (λ k. refl, tt, tt, tt)

-- The variable 2 after `xssh -f s`, where the word `E` lies after the NULL at the end of `argv`.
variable_2 : Option (Option (List Word) × State reference.Table) → Option Word
variable_2 none = none
variable_2 (some (lines, s)) = find reference (b'2' ∷ []) s.env

file_run :
    variable_2 (
      read_file reference sys
        (λ w. some [])
        (λ i. some (b'E' ∷ []))
        ((b'x' ∷ []) ∷ (b'-' ∷ b'f' ∷ []) ∷ (b's' ∷ []) ∷ [])
        2
        begin)
    ≡ some (b'E' ∷ [])
unfolding variable_2 read_file argv_at add_given add add_entry find
file_run = refl

options_run :
    (read_options
      (record { fileflag = false; displayflag = false; place = 0 })
      (display_opt ∷ file_opt (b's' ∷ []) ∷ [])).place
    ≡ 3
unfolding read_options read_option
options_run = refl
