-- ===== src/Service.antt =====
-- src/service.rs: the service definition, field for field, and the check of its ready path.
pub mod Validate
pub mod Load
pub mod Examples
use flint_init.Prelude.{
  Text, text, text_beq, Bool, true, false, ◌||◌, not, Option, none, some, List, [], ◌∷◌, contains,
  text_eq, if◌then◌else◌,
}
use flint_init.Prelude.Int.{ℤ}
use flint_init.Prelude.Strings.{starts_with, split}

pub data RestartPolicy : Type 0 where
  always on_failure never : RestartPolicy

pub record ServiceSection : Type 0 where
  pub name : Text
  pub exec : Text
  pub restart : Option RestartPolicy
  pub user : Option Text
  pub args : Option (List Text)

pub record DepsSection : Type 0 where
  pub after : List Text
  pub needs : List Text

pub data ReadyStrategy : Type 0 where
  pidfile socket : ReadyStrategy

pub record ReadySection : Type 0 where
  pub strategy : ReadyStrategy
  pub path : Option Text

pub record ResourcesSection : Type 0 where
  pub oom_score_adj : Option ℤ

pub record ServiceDef : Type 0 where
  pub service : ServiceSection
  pub deps : Option DepsSection
  pub ready : Option ReadySection
  pub resources : Option ResourcesSection

-- The three messages of `validate`, each with the service and the path that it names.
pub data ValidateError : Type 0 where
  not_absolute traversal outside_run : (service path : Text) → ValidateError

pub data Validation : Type 0 where
  valid : Validation
  invalid : ValidateError → Validation

-- `service.name`.
abbrev pub name_of : ServiceDef → Text
name_of def = def.service.name

-- `Path::is_absolute`, and `components().any(|c| c == ParentDir)`, on Unix.
unfoldable pub is_absolute : Text → Bool
unfolding starts_with
is_absolute path = starts_with (text "/") path

unfoldable pub has_parent_dir : Text → Bool
unfolding split contains text_beq
has_parent_dir path = contains (split 47 path) (text "..")

-- The body of `validate` where a path is given.
unfoldable pub validate_path : Text → Text → Validation
validate_path name path =
    if not (is_absolute path)
    then invalid (not_absolute name path)
    else if has_parent_dir path
    then invalid (traversal name path)
    else if starts_with (text "/run/") path || starts_with (text "/var/run/") path
    then valid
    else invalid (outside_run name path)

-- `ready.path`, where there is one.
abbrev pub ready_path : ServiceDef → Option Text
ready_path def = elim def.ready [ none ↦ none | some ready ↦ ready.path ]

unfoldable pub validate : ServiceDef → Validation
unfolding validate_path
validate def = elim (ready_path def) [ none ↦ valid | some path ↦ validate_path (name_of def) path ]
