-- ===== src/Executor.antt =====
-- src/executor.rs: the states of services, the state of the executor, and how it starts a process.
-- What the operating system decides (user lookups and forks) is the parameter `Os`.
pub mod Mirror
pub mod Sound
pub mod Commands
pub mod Launch
pub mod Reap
pub mod Stop
pub mod Run
pub mod Spawned
pub mod Total
pub mod Examples
use flint_init.Prelude.{
  ℕ, zero, suc, ◌+◌, ◌≤◌, Text, text, text_beq, text_eq, nat_eq, ◌==◌, Bool, true, false, ◌&&◌,
  ◌||◌, not, Option, none, some, List, [], ◌∷◌, ◌++◌, contains, if◌then◌else◌, ltb,
}
use flint_init.Prelude.Int.{ℤ, pos, is_zero}
use flint_init.Prelude.Map
use flint_init.Prelude.Map.{Map}
use flint_init.Prelude.Strings.{split_whitespace}
use flint_init.Service.{ServiceDef, RestartPolicy, always, on_failure, never, name_of}
use flint_init.Graph.{ServiceGraph}
use flint_init.Control.{ServiceInfo, SharedState}

abbrev pub max_restarts : ℕ
max_restarts = 5

pub data ServiceState : Type 0 where
  pending : ServiceState
  running : (pid : ℕ) → ServiceState
  ready : ServiceState
  exited : (code : ℤ) → ServiceState
  failed : ServiceState

pub data ExecutorError : Type 0 where
  fork_failed : ExecutorError
  empty_exec : (service : Text) → ExecutorError
  unknown_user : (service user : Text) → ExecutorError

-- A step that gives a value, returns an error, or panics.
pub data Outcome {ℓ} (A : Type ℓ) : Type ℓ where
  done : A → Outcome A
  fail : ExecutorError → Outcome A
  panic : Outcome A

-- `CString::new`, which refuses a NUL byte.
unfoldable pub cstring : Text → Option Text
unfolding contains
cstring s = if contains s 0 then none else some s

-- `CString::new` of each item, where the first refusal has the given outcome.
unfoldable pub cstrings : Outcome (List Text) → List Text → Outcome (List Text)
unfolding cstring
cstrings refusal [] = done []
cstrings refusal (s ∷ ss) =
    let rest = cstrings refusal ss in
    elim (cstring s) [
      | none ↦ refusal
      | some c ↦ elim rest [ done cs ↦ done (c ∷ cs) | fail e ↦ fail e | panic ↦ panic ]
    ]

-- The path and the arguments of `execv`.
pub record ExecArgs : Type 0 where
  pub path : Text
  pub argv : List Text

-- The branch with `args`: `exec` is the binary.
unfoldable pub explicit_args : Text → Text → List Text → Outcome ExecArgs
unfolding cstring cstrings
explicit_args name exec args = elim exec [
  | [] ↦ fail (empty_exec name)
  | c ∷ cs ↦ elim (cstring (c ∷ cs)) [
    | none ↦ fail (empty_exec name)
    | some path ↦ elim (cstrings (fail (empty_exec name)) args) [
      | done argv ↦ done (record { path = path; argv = path ∷ argv })
      | fail e ↦ fail e
      | panic ↦ panic
    ]
  ]
]

-- The branch without `args`, where `unwrap` panics on a NUL byte.
unfoldable pub split_args : Text → Text → Outcome ExecArgs
unfolding cstrings split_whitespace
split_args name exec = elim (cstrings panic (split_whitespace exec)) [
  | done [] ↦ fail (empty_exec name)
  | done (path ∷ argv) ↦ done (record { path = path; argv = path ∷ argv })
  | fail e ↦ fail e
  | panic ↦ panic
]

unfoldable pub build_exec_args : ServiceDef → Outcome ExecArgs
unfolding explicit_args split_args
build_exec_args def = elim def.service.args [
  | some args ↦ explicit_args (name_of def) def.service.exec args
  | none ↦ split_args (name_of def) def.service.exec
]

-- `User::from_name`.
pub data UserLookup : Type 0 where
  found : (uid gid : ℕ) → UserLookup
  absent lookup_failed : UserLookup

-- The operating system: the users, and the pid of the fork at each attempt to start a
-- process, counted from the first, where the fork does not fail.
pub record Os : Type 0 where
  pub user : Text → UserLookup
  pub fork : ℕ → Option ℕ

-- What the child does before it runs the service.
pub data ChildAction : Type 0 where
  write_oom_score_adj : ℤ → ChildAction
  setgid setuid : ℕ → ChildAction
  execv : ExecArgs → ChildAction
  exit : ℕ → ChildAction

abbrev pub Creds : Type 0
Creds = Option (ℕ × ℕ)

unfoldable pub credentials : Os → ServiceDef → Outcome Creds
credentials os def = elim def.service.user [
  | none ↦ done none
  | some user ↦ elim (os.user user) [
    | found uid gid ↦ done (some (uid, gid))
    | absent ↦ fail (unknown_user (name_of def) user)
    | lookup_failed ↦ fail (unknown_user (name_of def) user)
  ]
]

-- The child: its score, then the group, then the user, then the program; `exit` is reached only if
-- `execv` fails.
unfoldable pub child_actions : ServiceDef → Creds → ExecArgs → List ChildAction
child_actions def creds args =
    elim def.resources [
      | none ↦ []
      | some r ↦ elim r.oom_score_adj [ none ↦ [] | some adj ↦ write_oom_score_adj adj ∷ [] ]
    ]
    ++ (elim creds [ none ↦ [] | some (uid, gid) ↦ setgid gid ∷ setuid uid ∷ [] ]
        ++ (execv args ∷ exit 127 ∷ []))

-- A child that was made: its pid and what it does.
pub record Child : Type 0 where
  pub pid : ℕ
  pub actions : List ChildAction

-- `spawn_service`, at the given number of earlier attempts.
unfoldable pub spawn_service : Os → ℕ → ServiceDef → Outcome Child
unfolding build_exec_args credentials child_actions
spawn_service os forks def = elim (build_exec_args def) [
  | fail e ↦ fail e
  | panic ↦ panic
  | done args ↦ elim (credentials os def) [
    | fail e ↦ fail e
    | panic ↦ panic
    | done creds ↦ elim (os.fork forks) [
      | none ↦ fail fork_failed
      | some pid ↦ done (record { pid = pid; actions = child_actions def creds args })
    ]
  ]
]

unfoldable pub should_restart : Option RestartPolicy → ℤ → Bool → Bool
should_restart (some always) code is_signal = true
should_restart (some on_failure) code is_signal = not (is_zero code) || is_signal
should_restart (some never) code is_signal = false
should_restart none code is_signal = false

-- The text and the pid that `sync_state` writes over an entry.
unfoldable pub show_state : ServiceState → ServiceInfo → ServiceInfo
show_state pending info = record info { state = text "pending"; pid = none }
show_state (running pid) info = record info { state = text "running"; pid = some pid }
show_state ready info = record info { state = text "ready" }
show_state (exited code) info = record info { state = text "exited"; pid = none }
show_state failed info = record info { state = text "failed"; pid = none }

unfoldable pub sync_state : Text → ServiceState → SharedState → SharedState
unfolding show_state
sync_state name st shared =
    Map.insert name
      (show_state st
        (Map.get_or shared name (record { name = name; state = text "pending"; pid = none })))
      shared

pub data Signal : Type 0 where
  sigterm sigkill sighup : Signal

-- The errors that a command is answered with.
pub data ReplyError : Type 0 where
  already_running unknown_service : (service : Text) → ReplyError
  spawn_failed : ExecutorError → ReplyError
  cannot_read parse_error : (path : Text) → ReplyError

-- What the executor does to the outside, in its order.
pub data Effect : Type 0 where
  spawn : (name : Text) → Child → Effect
  kill : (pid : ℕ) → Signal → Effect
  reply_ok : (reply : ℕ) → Effect
  reply_err : (reply : ℕ) → ReplyError → Effect
  remove_file : (path : Text) → Effect
  write_marker : (path : Text) → Effect

-- The local variables of `run_with_marker`, the count of attempts to start a process and the
-- effects.
pub record State : Type 0 where
  pub graph : ServiceGraph
  pub svc_by_name : Map Text ServiceDef
  pub pid_to_name : Map ℕ Text
  pub ready_reported : List Text
  pub blocked_services : List Text
  pub restart_counts : Map Text ℕ
  pub service_states : Map Text ServiceState
  pub pending_restart : List Text
  pub restart_replies : Map Text ℕ
  pub service_raw : Map Text Text
  pub to_start : List Text
  pub completed : ℕ
  pub shared : SharedState
  pub forks : ℕ
  pub effects : List Effect

-- `service_states.insert` and `sync_state`, which stand together throughout.
unfoldable pub set_state : Text → ServiceState → State → State
unfolding sync_state
set_state name st s = record s {
  service_states = Map.insert name st s.service_states;
  shared = sync_state name st s.shared;
}

unfoldable pub emit : Effect → State → State
emit effect s = record s { effects = s.effects ++ effect ∷ [] }

-- An attempt to start a process is counted, whether it succeeds or not.
unfoldable pub count_fork : State → State
count_fork s = record s { forks = s.forks + 1 }

-- What follows a spawn: the state `Running`, and the pid under the name.
unfoldable pub track : Text → Child → State → State
unfolding set_state emit
track name child s =
    let s' = set_state name (running child.pid) (emit (spawn name child) s) in
    record s' { pid_to_name = Map.insert child.pid name s'.pid_to_name }

-- `pid_to_name.iter().find(|(_, n)| n == name)`.
unfoldable pub find_pid : Map ℕ Text → Text → Option ℕ
find_pid [] name = none
find_pid ((pid, n) ∷ m) name = let rest = find_pid m name in if n == name then some pid else rest

-- `HashSet::insert`: the set, and whether the item is new.
unfoldable pub set_insert : Text → List Text → List Text × Bool
unfolding contains
set_insert x xs = if contains xs x then (xs, false) else (xs ++ x ∷ [], true)

-- `extend` of the blocked services by the dependents.
unfoldable pub block_all : List Text → List Text → List Text
unfolding set_insert
block_all [] blocked = blocked
block_all (n ∷ ns) blocked = block_all ns (set_insert n blocked).0
