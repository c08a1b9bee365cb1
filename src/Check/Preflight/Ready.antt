-- ===== src/Check/Preflight/Ready.antt =====
-- src/check.rs: the test whether the directory of a ready path can be written, on services that
-- src/service.rs accepts.
use flint_init.Prelude.{Text, text, true, [], ◌≡◌, ◌⊎◌, arith, Option-cases, inl, inr, refl}
use flint_init.Prelude.Strings.{starts_with}
use flint_init.Service.{ServiceDef, name_of, validate, valid, ready_path}
use flint_init.Service.Validate.{accepted}
use flint_init.Check.Preflight.{Host, is_ephemeral_path, path_warnings, ready_warnings}

ephemeral :
    (path : Text)
    → (starts_with (text "/run/") path ≡ true) ⊎ (starts_with (text "/var/run/") path ≡ true)
    → is_ephemeral_path path ≡ true
unfolding is_ephemeral_path
ephemeral path (inl run) = rw run refl
ephemeral path (inr var) = ground (arith, var)

-- For a service that `validate` accepts, the preflight never warns that the directory of the ready
-- path cannot be written, whatever the metadata of that directory.
pub ready_warnings-validate :
    (host : Host) (svc : ServiceDef) → validate svc ≡ valid → ready_warnings host svc ≡ []
unfolding validate ready_warnings
ready_warnings-validate host svc h = elim (Option-cases (ready_path svc)) [
  | inl none ↦ rw (ready_warnings, none) refl
  | inr (path, e) ↦
      let (clean, under) = accepted (name_of svc) path (rw (e, validate) at h) in
      rw (ready_warnings, e, path_warnings, ephemeral path under) refl
]
