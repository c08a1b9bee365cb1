-- ===== src/Config.antt =====
-- src/config.rs: the session user, which stands for `%U` in the definitions of services. Reading the
-- file is outside; a missing or a wrong file gives the default, which is empty.
pub mod Users
mod Examples
use flint_init.Prelude.{
  Text, text, text_beq, Bool, true, false, Option, none, some, List, [], ◌∷◌, if◌then◌else◌,
}
use flint_init.Service.{ServiceDef}

pub record GlobalSection : Type 0 where
  pub session_user : Option Text

pub record FlintConfig : Type 0 where
  pub global : Option GlobalSection

-- The method `session_user`.
unfoldable pub user_of_session : FlintConfig → Option Text
user_of_session config = elim config.global [ none ↦ none | some section ↦ section.session_user ]

-- `user.as_deref() == Some("%U")`.
unfoldable pub is_placeholder : Option Text → Bool
unfolding text_beq
is_placeholder none = false
is_placeholder (some user) = text_beq user (text "%U")

-- The body of the loop.
unfoldable pub apply_one : FlintConfig → ServiceDef → ServiceDef
unfolding is_placeholder user_of_session
apply_one config svc =
    if is_placeholder svc.service.user
    then record svc { service = record svc.service { user = user_of_session config } }
    else svc

unfoldable pub apply_to : FlintConfig → List ServiceDef → List ServiceDef
unfolding apply_one
apply_to config [] = []
apply_to config (svc ∷ services) = apply_one config svc ∷ apply_to config services
