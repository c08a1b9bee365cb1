-- ===== src/Catalog/Examples.antt =====
-- src/catalog.rs: the cases of the unit tests.
use flint_init.Prelude.{
  Text, text, text_beq, text_eq, Bool, true, none, some, List, [], ◌∷◌, ◌≡◌, refl, contains, count,
  if◌then◌else◌,
}
use flint_init.Prelude.Strings.{strip_prefix, split, path_join}
use flint_init.Graph.Examples.{make_service}
use flint_init.Catalog.{
  Net, body, status, allowed_distros, detect_distro_from, fetch_service_toml, missing_deps,
  distro_url,
}
use flint_init.Catalog.Laws.{has_file, detect_distro_from-allowed, missing_deps_lem}

-- The directory of the distribution has no file, the global one has.
abbrev net : Net
net = record {
  get = λ url.
      if text_beq url (distro_url (text "void") (text "sshd"))
      then status 404
      else body (some (text "global"));
  cache_age = none;
  cache = none;
  works = λ s. true;
  catalog = λ content. none;
  service = λ content. some (make_service "networkmanager" [] (text "dbus" ∷ text "udev" ∷ []));
}

abbrev exists : Text → Bool
exists path = text_beq path (text "d/dbus.toml")

program : Unit {0}
unfolding detect_distro_from text_beq strip_prefix split contains fetch_service_toml missing_deps
    path_join
program = tt

quotes : detect_distro_from (some (text "NAME=x\nID=\"arch\"\n")) ≡ text "arch"
unfolding program
quotes = refl

traversal : detect_distro_from (some (text "ID=../../../etc/passwd\n")) ≡ text "artix"
unfolding program
traversal = refl

global : fetch_service_toml net (text "void") (text "sshd") ≡ some (text "global")
unfolding program
global = refl

missing : missing_deps net exists (text "toml") (text "d") ≡ some (text "udev" ∷ [])
unfolding program
missing = refl

detect_distro_from-allowed_example :
    contains allowed_distros (detect_distro_from (some (text "ID=ubuntu\n"))) ≡ true
detect_distro_from-allowed_example = detect_distro_from-allowed (some (text "ID=ubuntu\n"))

missing_deps_example :
    (missing : List Text) × (missing_deps net exists (text "toml") (text "d") ≡ some missing)
    × ((dep : Text)
        → count dep missing ≡ (
            if has_file exists (text "d") dep
            then 0
            else count dep (text "dbus" ∷ text "udev" ∷ [])))
missing_deps_example =
    missing_deps_lem net exists (text "toml") (text "d")
      (make_service "networkmanager" [] (text "dbus" ∷ text "udev" ∷ [])) refl
