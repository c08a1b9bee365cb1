-- ===== src/FlintCtl.antt =====
-- src/bin/flint_ctl.rs: the choice of the command, and the fetching and installing of services. The
-- lines that the user will type are the list `answers`; what is printed is not modelled.
pub mod Missing
pub mod Install
pub mod Examples
use flint_init.Prelude.{
  ℕ, zero, suc, ◌+◌, Text, text, text_beq, text_eq, nat_eq, ◌==◌, Bool, true, false, ◌&&◌, ◌||◌,
  not, Option, none, some, List, [], ◌∷◌, ◌++◌, contains, length, leb, if◌then◌else◌,
}
use Prim.Native.Nat.{bit_and}
use flint_init.Prelude.Map
use flint_init.Prelude.Sort.{sort}
use flint_init.Prelude.Strings.{split, trim, path_join}
use flint_init.Control.{Request, status, stop, start_service, restart_service, reload_service}
use flint_init.Check.Preflight.{Metadata}
use flint_init.Catalog.{Net, Catalog, CatalogEntry, fetch_catalog, fetch_service_toml, missing_deps}

abbrev pub services_dir : Text
services_dir = text "/etc/flint/services"

-- What the arguments ask for.
pub data Action : Type 0 where
  get_list : Action
  check : (dir : Text) → Action
  get scaffold contribute : (name : Text) → Action
  send : Request → Action
  usage : Action

-- The requests with a service, in the second `match`.
unfoldable pub request_of : Text → Text → Action
unfolding text_beq
request_of cmd svc =
    if text_beq cmd (text "stop")
    then send (stop svc)
    else if text_beq cmd (text "start")
    then send (start_service svc)
    else if text_beq cmd (text "restart")
    then send (restart_service svc)
    else if text_beq cmd (text "reload")
    then send (reload_service svc)
    else usage

-- Two arguments.
unfoldable pub action_of_two : Text → Text → Action
unfolding text_beq request_of
action_of_two cmd name =
    if text_beq cmd (text "get") && text_beq name (text "--list")
    then get_list
    else if text_beq cmd (text "get")
    then get name
    else if text_beq cmd (text "scaffold")
    then scaffold name
    else if text_beq cmd (text "contribute")
    then contribute name
    else request_of cmd name

-- The start of `main`, up to the connection.
unfoldable pub action_of : List Text → Action
unfolding text_beq action_of_two
action_of (cmd ∷ []) =
    if text_beq cmd (text "check")
    then check services_dir
    else if text_beq cmd (text "status")
    then send status
    else usage
action_of (cmd ∷ name ∷ []) = action_of_two cmd name
action_of (cmd ∷ flag ∷ path ∷ []) =
    if text_beq cmd (text "check") && text_beq flag (text "--services-dir")
    then check path
    else usage
action_of _ = usage

-- The directories of PATH, in their order.
unfoldable pub find_in_dirs : (Text → Option Metadata) → Text → List Text → Option Text
unfolding path_join
find_in_dirs metadata name [] = none
find_in_dirs metadata name (dir ∷ dirs) =
    let candidate = path_join dir name in
    let rest = find_in_dirs metadata name dirs in
    elim (metadata candidate) [
      | none ↦ rest
      | some m ↦ if m.is_file && not (bit_and m.mode 0o111 == 0) then some candidate else rest
    ]

unfoldable pub find_in_path : (Text → Option Metadata) → Text → Text → Option Text
unfolding find_in_dirs split
find_in_path metadata path_var name = find_in_dirs metadata name (split 58 path_var)

-- The letters of ASCII in lower case; no other character has `y`, `e` or `s` as its lower case.
unfoldable pub to_lowercase : Text → Text
to_lowercase [] = []
to_lowercase (c ∷ s) = (if leb 65 c && leb c 90 then c + 32 else c) ∷ to_lowercase s

unfoldable pub is_yes : Text → Bool
unfolding trim to_lowercase text_beq
is_yes line =
    let answer = to_lowercase (trim line) in
    text_beq answer (text "y") || text_beq answer (text "yes")

-- The distribution has the entry.
unfoldable pub is_available : Text → CatalogEntry → Bool
unfolding contains text_beq
is_available distro entry = elim entry.distros [
  | none ↦ true
  | some distros ↦ contains distros distro
]

unfoldable pub available_names : Text → Catalog → List Text
unfolding is_available
available_names distro [] = []
available_names distro ((name, entry) ∷ rest) =
    let others = available_names distro rest in
    if is_available distro entry then name ∷ others else others

-- The names that `get --list` prints; `none` stands for the exit with an error.
unfoldable pub cmd_get_list : Net → Text → Option (List Text)
unfolding fetch_catalog available_names sort
cmd_get_list net distro = elim (fetch_catalog net).result [
  | none ↦ none
  | some cat ↦ some (sort (available_names distro cat))
]

-- What the installing changes and uses up: the lines that are not read, the files that are written,
-- each with its text, the latest one first, and the files whose overwriting the user has agreed to.
pub record Session : Type 0 where
  pub answers : List Text
  pub written : List (Text × Text)
  pub agreed : List Text

-- The machine: which paths exist before, the network, and whether the directory can be made and a file
-- be written.
pub record Machine : Type 0 where
  pub net : Net
  pub exists : Text → Bool
  pub creates : Bool
  pub writes : Text → Bool

pub data Step : Type 0 where
  goes_on : Session → Step
  exits : Session → Step

-- `prompt`; without a line there is no yes.
unfoldable pub prompt : Session → Bool × Session
unfolding is_yes
prompt s = elim s.answers [
  | [] ↦ (false, s)
  | line ∷ rest ↦ (is_yes line, record s { answers = rest })
]

unfoldable pub path_exists : Machine → Session → Text → Bool
unfolding text_beq
path_exists m s path = Map.contains_key s.written path || m.exists path

abbrev pub dest_of : Text → Text
dest_of name = path_join services_dir (name ++ text ".toml")

-- The first test: the session after the prompt, and whether to go on.
unfoldable pub may_write : Machine → Text → Session → Bool × Session
unfolding path_exists path_join prompt
may_write m name s =
    if path_exists m s (dest_of name)
    then (let (agrees, t) = prompt s in
        (agrees, if agrees then record t { agreed = dest_of name ∷ t.agreed } else t))
    else (true, s)

-- The loop over the missing services, with the recursion as an argument.
unfoldable pub install_missing : (Text → Session → Option Step) → List Text → Session → Option Step
unfolding prompt
install_missing install [] s = some (goes_on s)
install_missing install (dep ∷ deps) s =
    let (wants, t) = prompt s in
    elim wants [
      | false ↦ install_missing install deps t
      | true ↦ elim (install dep t) [
        | none ↦ none
        | some (exits u) ↦ some (exits u)
        | some (goes_on u) ↦ install_missing install deps u
      ]
    ]

-- From the fetched text on.
unfoldable pub install_toml :
    (Text → Session → Option Step) → Machine → Text → Text → Session → Option Step
unfolding missing_deps path_exists path_join install_missing
install_toml install m name toml_str s =
    elim (missing_deps m.net (path_exists m s) toml_str services_dir) [
      | none ↦ some (exits s)
      | some missing ↦
          if m.creates && m.writes (dest_of name)
          then install_missing install missing
              (record s { written = (dest_of name, toml_str) ∷ s.written })
          else some (exits s)
    ]

-- `fetch_and_install`; `none` means that the fuel ran out.
unfoldable pub fetch_and_install : ℕ → Machine → Text → Text → Session → Option Step
unfolding may_write fetch_service_toml install_toml
fetch_and_install zero m distro name s = none
fetch_and_install (suc fuel) m distro name s =
    let (allowed, t) = may_write m name s in
    elim allowed [
      | false ↦ some (goes_on t)
      | true ↦ elim (fetch_service_toml m.net distro name) [
        | none ↦ some (exits t)
        | some toml_str ↦
            install_toml (λ dep. fetch_and_install fuel m distro dep) m name toml_str t
      ]
    ]

-- Each service that is installed inside of another one uses up a line of the user.
unfoldable pub cmd_get : Machine → Text → Text → Session → Option Step
unfolding fetch_catalog is_available fetch_and_install
cmd_get m distro name s = elim (fetch_catalog m.net).result [
  | none ↦ some (exits s)
  | some cat ↦ elim (Map.get cat name) [
    | none ↦ some (exits s)
    | some entry ↦
        if is_available distro entry
        then fetch_and_install (suc (length s.answers)) m distro name s
        else some (exits s)
  ]
]
