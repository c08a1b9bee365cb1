-- ===== src/Catalog/Laws.antt =====
-- src/catalog.rs: the distribution and the missing dependencies.
use flint_init.Prelude.{
  Text, text, text_beq, text_beq_iff, text_eq, Bool, true, Option, none, some, List, [], ◌∷◌, ◌++◌,
  ◌≡◌, refl, ap, arith, contains, count, if◌then◌else◌, Bool-cases, Option-cases, inl, inr,
}
use flint_init.Prelude.Strings.{strip_prefix, path_join}
use flint_init.Service.{ServiceDef}
use flint_init.Graph.{needs_of}
use flint_init.Fstab.{lines}
use flint_init.Catalog.{
  Net, allowed_distros, trim_quotes, distro_of_lines, detect_distro_from, without_file,
  missing_deps,
}

distro_of_lines-allowed : (ls : List Text) → contains allowed_distros (distro_of_lines ls) ≡ true
unfolding distro_of_lines contains text_beq
distro_of_lines-allowed [] = refl
distro_of_lines-allowed (line ∷ ls) = elim (Option-cases (strip_prefix (text "ID=") line)) [
  | inl e ↦ rw (distro_of_lines, e) (distro_of_lines-allowed ls)
  | inr (val, e) ↦ elim (Bool-cases (contains allowed_distros (trim_quotes val))) [
    | inl good ↦ rw (distro_of_lines, e, good) good
    | inr bad ↦ rw (distro_of_lines, e, bad) refl
  ]
]

-- Whatever the file holds, and also where it cannot be read, the distribution is one of those that
-- the catalogue knows.
pub detect_distro_from-allowed :
    (content : Option Text) → contains allowed_distros (detect_distro_from content) ≡ true
unfolding detect_distro_from contains text_beq
detect_distro_from-allowed none = refl
detect_distro_from-allowed (some content) = distro_of_lines-allowed (lines content)

-- Whether the services directory has a file for a dependency.
abbrev pub has_file : (Text → Bool) → Text → Text → Bool
has_file exists services_dir dep = exists (path_join services_dir (dep ++ text ".toml"))

count-without_file :
    (exists : Text → Bool) (dir : Text) (deps : List Text) (dep : Text)
    → count dep (without_file exists dir deps)
      ≡ (if has_file exists dir dep then 0 else count dep deps)
unfolding without_file count
count-without_file exists dir [] dep = ground arith
count-without_file exists dir (d ∷ deps) dep = elim (Bool-cases (text_beq d dep)) [
  | inr other ↦ ground (arith, other, count-without_file exists dir deps dep)
  | inl same ↦
      let e : d ≡ dep = (text_beq_iff d dep).0 same in
      let file : has_file exists dir d ≡ has_file exists dir dep = ap (has_file exists dir) e in
      ground (arith, same, file, count-without_file exists dir deps dep)
]

-- Where the text can be parsed, what `missing_deps` gives is what the service needs and the directory
-- has no file for, each as often as the service names it, and nothing else.
pub missing_deps_lem :
    (net : Net) (exists : Text → Bool) (toml_str services_dir : Text) (def : ServiceDef)
    → net.service toml_str ≡ some def
    → (missing : List Text) × (missing_deps net exists toml_str services_dir ≡ some missing)
      × ((dep : Text)
          → count dep missing
            ≡ (if has_file exists services_dir dep then 0 else count dep (needs_of def)))
unfolding missing_deps
missing_deps_lem net exists toml_str services_dir def e = (
  without_file exists services_dir (needs_of def),
  rw (missing_deps, e) refl,
  count-without_file exists services_dir (needs_of def),
)
