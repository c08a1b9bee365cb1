-- ===== src/Scaffold.antt =====
-- src/scaffold.rs: the definition that is proposed for a program, from its help text. The run of the
-- program is outside: its output is given, or nothing where it cannot be run or hangs.
pub mod Valid
pub mod Examples
use flint_init.Prelude.{
  ℕ, ◌+◌, Text, text, nat_beq, Bool, true, false, ◌&&◌, ◌||◌, Option, none, some, List, [], ◌∷◌,
  ◌++◌, leb, if◌then◌else◌,
}
use flint_init.Prelude.Strings.{contains_str}

abbrev pub foreground_flags : List Text
foreground_flags =
    text "--foreground"
    ∷ text "--no-daemon"
    ∷ text "--nodaemon"
    ∷ text "--no-fork"
    ∷ text "--nofork"
    ∷ text "-f"
    ∷ []

-- `find` of the first flag that the text contains.
unfoldable pub find_flag : Text → List Text → Option Text
unfolding contains_str
find_flag help [] = none
find_flag help (f ∷ fs) =
    let rest = find_flag help fs in if contains_str f help then some f else rest

unfoldable pub detect_foreground_flag : Text → Option Text
unfolding find_flag
detect_foreground_flag help_output = find_flag help_output foreground_flags

-- The lower case of the characters whose lower case is a letter of ASCII, which are the capital
-- letters of ASCII and the sign of Kelvin; no other character matters to the words below.
unfoldable pub to_lowercase : Text → Text
to_lowercase [] = []
to_lowercase (c ∷ s) =
    (if leb 65 c && leb c 90 then c + 32 else if nat_beq c 8490 then 107 else c) ∷ to_lowercase s

unfoldable pub socket_path : Text → Text
socket_path name = text "/run/" ++ (name ++ text ".sock")

unfoldable pub pid_path : Text → Text
pid_path name = text "/run/" ++ (name ++ (text "/" ++ (name ++ text ".pid")))

-- The text of the section `[ready]`, as `format!` makes it of the name: TOML with the path between
-- quotes, and nothing in the name is escaped.
unfoldable pub ready_text : (strategy path : Text) → Text
ready_text strategy path =
    text "[ready]\nstrategy = \""
    ++ (strategy ++ (text "\"\npath = \"" ++ (path ++ text "\"   # verify path")))

unfoldable pub detect_readiness_block : Text → Text → Option Text
unfolding to_lowercase contains_str socket_path pid_path ready_text
detect_readiness_block name help_output =
    let lower = to_lowercase help_output in
    if contains_str (text "socket") lower
    then some (ready_text (text "socket") (socket_path name))
    else if contains_str (text "pidfile") lower
        || (contains_str (text "pid-file") lower || contains_str (text "pid file") lower)
    then some (ready_text (text "pidfile") (pid_path name))
    else none

-- What is printed, but for the fixed text and the comments: the command is commented out where the
-- program could not be run.
pub record Proposal : Type 0 where
  pub exec : Option Text
  pub ready : Option Text

unfoldable pub exec_of : Text → Text → Text
unfolding detect_foreground_flag
exec_of binary output = elim (detect_foreground_flag output) [
  | some flag ↦ binary ++ (text " " ++ flag)
  | none ↦ binary
]

unfoldable pub print_scaffold : Option Text → Text → Text → Proposal
unfolding exec_of detect_readiness_block
print_scaffold help name binary = elim help [
  | none ↦ record { exec = none; ready = none }
  | some output ↦ record {
    exec = some (exec_of binary output);
    ready = detect_readiness_block name output;
  }
]
