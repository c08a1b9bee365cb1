-- ===== src/Check/Preflight.antt =====
-- src/check.rs: the preflight of the service files. A message is a value of `Issue`, and the messages
-- of one service, which the source joins by "; ", are a list.
pub mod Sound
pub mod Exact
pub mod Ready
use flint_init.Prelude.{
  ℕ, Text, text, text_beq, text_eq, nat_eq, ◌==◌, Bool, true, false, ◌&&◌, ◌||◌, not, Option, none,
  some, List, [], ◌∷◌, ◌++◌, contains, if◌then◌else◌,
}
use Prim.Native.Nat.{bit_and}
use flint_init.Prelude.Sort.{text_leb, sort}
use flint_init.Prelude.Strings.{starts_with, split_whitespace, path_join, path_parent}
use flint_init.Service.{
  ServiceDef, ValidateError, Validation, valid, invalid, name_of, validate, ready_path,
}
use flint_init.Graph.{needs_of, after_of}
use flint_init.Cache.{Disk, DirEntry, is_toml, trim_end_nul}
use flint_init.Check.{name_set, has_cycle}
use flint_init.Check.Audit.{toml_stem}

-- `metadata` of a path.
pub record Metadata : Type 0 where
  pub is_file : Bool
  pub mode : ℕ

-- `listing` is what `read_dir` of the services directory gives, with `none` for an entry that cannot be
-- read; `dir_entries` of the disk is the listing for those who stop at such an entry.
pub record Host : Type 0 where
  pub disk : Disk
  pub listing : Option (List (Option DirEntry))
  pub dir_exists : Bool
  pub metadata : Text → Option Metadata

pub data Issue : Type 0 where
  read_error parse_error : Issue
  refused : ValidateError → Issue
  not_found : (binary : Text) → Issue
  broken_needs unknown_after : (dep : Text) → Issue
  not_writable : (path : Text) → Issue
  cycle_detected : Issue

-- The name of a service or a file, and its issues.
abbrev pub Finding : Type 0
Finding = Text × List Issue

pub record PreflightResult : Type 0 where
  pub ok : List Text
  pub warnings : List Finding
  pub errors : List Finding

unfoldable pub is_ephemeral_path : Text → Bool
unfolding starts_with
is_ephemeral_path path =
    starts_with (text "/run/") path
    || (starts_with (text "/var/run/") path || starts_with (text "/dev/") path)

unfoldable pub is_executable : Host → Text → Bool
is_executable host path = elim (host.metadata path) [
  | none ↦ false
  | some m ↦ m.is_file && not (bit_and m.mode 0o111 == 0)
]

-- What the first loop makes of a file: its definition, or the issue.
pub data Scanned : Type 0 where
  parsed : ServiceDef → Scanned
  broken : Issue → Scanned

unfoldable pub scan_file : Disk → Text → Text → Scanned
unfolding trim_end_nul path_join validate
scan_file disk dir name = elim (disk.read (path_join dir name)) [
  | none ↦ broken read_error
  | some content ↦ elim (disk.parse (trim_end_nul content)) [
    | none ↦ broken parse_error
    | some def ↦ elim (validate def) [ valid ↦ parsed def | invalid e ↦ broken (refused e) ]
  ]
]

-- The errors and the services of the first loop.
pub record Scan : Type 0 where
  pub errors : List Finding
  pub services : List ServiceDef

-- The body of the first loop, on what the later entries give.
unfoldable pub scan_one : Text → Scanned → Scan → Scan
unfolding toml_stem
scan_one name (parsed def) rest = record rest { services = def ∷ rest.services }
scan_one name (broken issue) rest = record rest {
  errors = (toml_stem name, issue ∷ []) ∷ rest.errors;
}

unfoldable pub scan : Disk → Text → List DirEntry → Scan
unfolding is_toml scan_one scan_file
scan disk dir [] = record { errors = []; services = [] }
scan disk dir (e ∷ es) =
    let rest = scan disk dir es in
    if is_toml e.name then scan_one e.name (scan_file disk dir e.name) rest else rest

-- The first word of `exec`, or nothing.
unfoldable pub exec_bin : ServiceDef → Text
unfolding split_whitespace
exec_bin svc = elim (split_whitespace svc.service.exec) [ [] ↦ [] | bin ∷ more ↦ bin ]

unfoldable pub exec_warnings : Host → ServiceDef → List Issue
unfolding exec_bin is_executable
exec_warnings host svc =
    let bin = exec_bin svc in
    if not (text_beq bin []) && not (is_executable host bin) then not_found bin ∷ [] else []

-- The loop over `needs`.
unfoldable pub needs_errors : List Text → List Text → List Issue
unfolding contains
needs_errors names [] = []
needs_errors names (dep ∷ deps) =
    let rest = needs_errors names deps in
    if contains names dep then rest else broken_needs dep ∷ rest

-- The loop over `after`.
unfoldable pub after_warnings : List Text → List Text → List Issue
unfolding contains
after_warnings names [] = []
after_warnings names (dep ∷ deps) =
    let rest = after_warnings names deps in
    if contains names dep then rest else unknown_after dep ∷ rest

-- The test of the directory of a ready path.
unfoldable pub path_warnings : Host → Text → List Issue
unfolding is_ephemeral_path path_parent
path_warnings host path = if is_ephemeral_path path then [] else elim (path_parent path) [
  | none ↦ []
  | some parent ↦ elim (host.metadata parent) [
    | none ↦ []
    | some m ↦ if bit_and m.mode 0o200 == 0 then not_writable path ∷ [] else []
  ]
]

unfoldable pub ready_warnings : Host → ServiceDef → List Issue
unfolding path_warnings
ready_warnings host svc = elim (ready_path svc) [ none ↦ [] | some path ↦ path_warnings host path ]

-- `svc_errors` and `svc_warnings`.
unfoldable pub errors_of : List Text → ServiceDef → List Issue
unfolding needs_errors
errors_of names svc = needs_errors names (needs_of svc)

unfoldable pub warnings_of : Host → List Text → ServiceDef → List Issue
unfolding exec_warnings after_warnings ready_warnings
warnings_of host names svc =
    exec_warnings host svc ++ (after_warnings names (after_of svc) ++ ready_warnings host svc)

-- The end of the second loop's body: a service goes to one list.
unfoldable pub place : Text → List Issue → List Issue → PreflightResult → PreflightResult
place name (e ∷ es) warnings result = record result {
  errors = result.errors ++ (name, e ∷ es) ∷ [];
}
place name [] (w ∷ ws) result = record result { warnings = result.warnings ++ (name, w ∷ ws) ∷ [] }
place name [] [] result = record result { ok = result.ok ++ name ∷ [] }

unfoldable pub inspect_all : Host → List Text → List ServiceDef → PreflightResult → PreflightResult
unfolding errors_of warnings_of place
inspect_all host names [] result = result
inspect_all host names (svc ∷ rest) result =
    inspect_all host names rest
      (place (name_of svc) (errors_of names svc) (warnings_of host names svc) result)

-- A stable sort by the name.
unfoldable pub insert_by_name : Finding → List Finding → List Finding
unfolding text_leb
insert_by_name f [] = f ∷ []
insert_by_name f (g ∷ gs) =
    let rest = insert_by_name f gs in if text_leb f.0 g.0 then f ∷ g ∷ gs else g ∷ rest

unfoldable pub sort_by_name : List Finding → List Finding
unfolding insert_by_name
sort_by_name [] = []
sort_by_name (f ∷ fs) = insert_by_name f (sort_by_name fs)

unfoldable pub sort_result : PreflightResult → PreflightResult
unfolding sort sort_by_name
sort_result result = record {
  ok = sort result.ok;
  warnings = sort_by_name result.warnings;
  errors = sort_by_name result.errors;
}

unfoldable pub add_cycle : Bool → PreflightResult → PreflightResult
add_cycle false result = result
add_cycle true result = record result {
  errors = result.errors ++ (text "(graph)", cycle_detected ∷ []) ∷ [];
}

-- The result for the files of the directory; `none` means that the search for a cycle ran out of
-- fuel.
unfoldable pub preflight_files : Host → Text → List DirEntry → Option PreflightResult
unfolding scan name_set has_cycle inspect_all add_cycle sort_result
preflight_files host dir entries =
    let found = scan host.disk dir entries in
    elim (has_cycle found.services) [
      | none ↦ none
      | some cycle ↦ some (
          sort_result (
            add_cycle cycle (
              inspect_all host (name_set found.services) found.services
                (record { ok = []; warnings = []; errors = found.errors }))))
    ]

-- `entries.flatten()`, which skips the entries that cannot be read.
unfoldable pub flatten : List (Option DirEntry) → List DirEntry
flatten [] = []
flatten (none ∷ es) = flatten es
flatten (some e ∷ es) = e ∷ flatten es

unfoldable pub run_preflight : Host → Text → Option PreflightResult
unfolding flatten preflight_files
run_preflight host dir = elim host.listing [
  | none ↦ some (record { ok = []; warnings = []; errors = [] })
  | some found ↦ preflight_files host dir (flatten found)
]

abbrev pub no_findings : List Finding → Bool
no_findings [] = true
no_findings (f ∷ fs) = false

-- The answer of `run_check`: whether there are no errors. What it prints is not modelled, and the
-- audit before the preflight only prints.
unfoldable pub run_check : Host → Text → Option Bool
unfolding run_preflight
run_check host dir =
    if host.dir_exists
    then elim (run_preflight host dir) [
      | none ↦ none
      | some result ↦ some (no_findings result.errors)
    ]
    else some true
