-- ===== src/Config/Users.antt =====
-- src/config.rs, `apply_to`: what it does to users, and that the graph of the services is the same.
use flint_init.Prelude.{
  ℕ, Text, text, Bool, false, ◌||◌, some, List, [], ◌∷◌, ◌≡◌, ◌≢◌, refl, arith, Bool-cases, inl,
  inr, text_eq,
}
use flint_init.Service.{ServiceDef}
use flint_init.Config.{FlintConfig, user_of_session, is_placeholder, apply_one, apply_to}
use flint_init.Graph.Build.{names_of}
use flint_init.Graph.Acyclic.{RankedFrom}

-- Whether a service is to run as `%U`.
abbrev pub any_placeholder : List ServiceDef → Bool
any_placeholder [] = false
any_placeholder (svc ∷ services) = is_placeholder svc.service.user || any_placeholder services

apply_one-user :
    (config : FlintConfig) (svc : ServiceDef)
    → is_placeholder (user_of_session config) ≡ false
    → is_placeholder (apply_one config svc).service.user ≡ false
unfolding apply_one
apply_one-user config svc h = ground (arith, h)

pub apply_to-users :
    (config : FlintConfig) (services : List ServiceDef)
    → is_placeholder (user_of_session config) ≡ false
    → any_placeholder (apply_to config services) ≡ false
unfolding apply_to
apply_to-users config [] h = refl
apply_to-users config (svc ∷ services) h =
    ground (arith, apply_one-user config svc h, apply_to-users config services h)

pub names_of-apply_to :
    (config : FlintConfig) (services : List ServiceDef)
    → names_of (apply_to config services) ≡ names_of services
unfolding apply_to apply_one
names_of-apply_to config [] = refl
names_of-apply_to config (svc ∷ services) = ground (arith, names_of-apply_to config services)

pub RankedFrom-apply_to :
    (config : FlintConfig) (names : List Text) (rank : Text → ℕ) (services : List ServiceDef)
    → RankedFrom names rank services
    → RankedFrom names rank (apply_to config services)
unfolding apply_to apply_one
RankedFrom-apply_to config names rank [] h = tt
RankedFrom-apply_to config names rank (svc ∷ services) (here, rest) =
    elim (Bool-cases (is_placeholder svc.service.user)) [
      | inl e ↦ rw (apply_one, e) (here, RankedFrom-apply_to config names rank services rest)
      | inr e ↦ rw (apply_one, e) (here, RankedFrom-apply_to config names rank services rest)
    ]

-- What is to become of one definition: the user `%U` is replaced by the session user, which may be
-- none, another user stays, and so does the rest of the definition.
abbrev pub Substituted : FlintConfig → ServiceDef → ServiceDef → Type 0
Substituted config svc new =
    (svc.service.user ≡ some (text "%U") → new.service.user ≡ user_of_session config)
    × (svc.service.user ≢ some (text "%U") → new.service.user ≡ svc.service.user)
    × (new ≡ record svc { service = record svc.service { user = new.service.user } })

-- The lists are as long as one another, and so at each place.
abbrev pub AllSubstituted : FlintConfig → List ServiceDef → List ServiceDef → Type 0
AllSubstituted config [] [] = Unit
AllSubstituted config (svc ∷ services) (new ∷ news) =
    Substituted config svc new × AllSubstituted config services news
AllSubstituted config _ _ = ⊥
