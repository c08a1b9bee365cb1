-- ===== src/Cache/Warm/Examples.antt =====
-- src/cache.rs: a directory with one service and no manifest, and a serializer for one manifest only.
use flint_init.Prelude.{
  Text, text, text_beq, text_beq_iff, text_eq, nat_eq, ◌==◌, Bool, true, false, ◌&&◌, Option, none,
  some, List, [], ◌∷◌, ◌≡◌, refl, sym, ◌∙◌, ap, arith, count, IsDistinct, if◌then◌else◌, Bool-cases,
  inl, inr,
}
use flint_init.Prelude.Int.{pos}
use flint_init.Prelude.Strings.{path_join}
use flint_init.Service.{ServiceDef}
use flint_init.Cache.{
  Disk, DirEntry, Manifest, ManifestEntry, Loaded, not_found, load_services_cached, names,
  scan_toml_files, parse_toml,
}
use flint_init.Cache.Examples.{def_named}
use flint_init.Cache.Load.{unwritten}
use flint_init.Cache.Warm.Again.{after, load-warm}

abbrev is_none {ℓ} : {A : Type ℓ} → Option A → Bool
is_none none = true
is_none (some x) = false

none_eq {ℓ} : {A : Type ℓ} (o : Option A) → is_none o ≡ true → o ≡ none
none_eq none h = refl
none_eq (some x) h = absurd (ground (arith, h))

abbrev def : ServiceDef
def = def_named (text "d/a.toml")

abbrev entry : ManifestEntry
entry = record { filename = text "a.toml"; mtime_secs = 9; def = def }

abbrev fixed : Manifest
fixed = record { version = 1; entries = entry ∷ [] }

abbrev is_def : ServiceDef → Bool
is_def d =
    (text_beq d.service.name (text "d/a.toml") && text_beq d.service.exec (text "/bin/true"))
    && ((is_none d.service.restart && is_none d.service.user)
        && ((is_none d.service.args && is_none d.deps) && (is_none d.ready && is_none d.resources)))

is_def-eq : (d : ServiceDef) → is_def d ≡ true → d ≡ def
is_def-eq d h =
    let name : d.service.name ≡ text "d/a.toml" =
      (text_beq_iff d.service.name (text "d/a.toml")).0 (ground (arith, h)) in
    let exec : d.service.exec ≡ text "/bin/true" =
      (text_beq_iff d.service.exec (text "/bin/true")).0 (ground (arith, h)) in
    let restart = none_eq d.service.restart (ground (arith, h)) in
    let user = none_eq d.service.user (ground (arith, h)) in
    let args = none_eq d.service.args (ground (arith, h)) in
    let deps = none_eq d.deps (ground (arith, h)) in
    let ready = none_eq d.ready (ground (arith, h)) in
    let resources = none_eq d.resources (ground (arith, h)) in
    λ i. record {
      service = record {
        name = name i;
        exec = exec i;
        restart = restart i;
        user = user i;
        args = args i;
      };
      deps = deps i;
      ready = ready i;
      resources = resources i;
    }

abbrev is_fixed_entry : ManifestEntry → Bool
is_fixed_entry e = text_beq e.filename (text "a.toml") && ((e.mtime_secs == 9) && is_def e.def)

is_fixed_entry-eq : (e : ManifestEntry) → is_fixed_entry e ≡ true → e ≡ entry
is_fixed_entry-eq e h =
    let filename : e.filename ≡ text "a.toml" =
      (text_beq_iff e.filename (text "a.toml")).0 (ground (arith, h)) in
    let secs : e.mtime_secs ≡ 9 = ground (arith, h) in
    let same : e.def ≡ def = is_def-eq e.def (ground (arith, h)) in
    λ i. record { filename = filename i; mtime_secs = secs i; def = same i }

abbrev is_fixed : Manifest → Bool
is_fixed m = elim m.entries [ e ∷ [] ↦ (m.version == 1) && is_fixed_entry e | _ ↦ false ]

is_fixed-eq : (m : Manifest) → is_fixed m ≡ true → m ≡ fixed
is_fixed-eq m h = by_entries m.entries refl h
  where
    by_entries : (es : List ManifestEntry) → m.entries ≡ es → is_fixed m ≡ true → m ≡ fixed
    by_entries [] e h = absurd (ground (arith, h, e))
    by_entries (x ∷ y ∷ es) e h = absurd (ground (arith, h, e))
    by_entries (x ∷ []) e h =
        let version : m.version ≡ 1 = ground (arith, h, e) in
        let same : x ≡ entry = is_fixed_entry-eq x (ground (arith, h, e)) in
        let entries : m.entries ≡ entry ∷ [] = e ∙ ap (λ y. y ∷ []) same in
        λ i. record { version = version i; entries = entries i }

abbrev files : List DirEntry
files = record { name = text "a.toml"; mtime = pos 9 } ∷ []

abbrev disk : Disk
disk = record {
  dir_entries = some files;
  read = λ path. some path;
  parse = λ raw. some (def_named raw);
  manifest_file = not_found;
  deserialize = λ bytes. some fixed;
  serialize = λ manifest. if is_fixed manifest then some (text "new") else none;
  writes = λ bytes. true;
}

reads_back :
    (manifest : Manifest) (bytes : Text)
    → disk.serialize manifest ≡ some bytes
    → disk.deserialize bytes ≡ some manifest
reads_back manifest bytes h = elim (Bool-cases (is_fixed manifest)) [
  | inl good ↦ ap some (sym (is_fixed-eq manifest good))
  | inr bad ↦ absurd (ground (arith, h, bad))
]

files-IsDistinct : IsDistinct (names files)
unfolding count
files-IsDistinct n = ground arith

abbrev loaded : Loaded
loaded = record { entries = entry ∷ []; written = some (text "new") }

program : Unit {0}
unfolding load_services_cached parse_toml text_beq path_join
program = tt

loads : load_services_cached disk (text "d") ≡ some loaded
unfolding program
loads = refl

scanned : scan_toml_files disk ≡ some files
unfolding program
scanned = refl

load-warm_example :
    load_services_cached (after disk loaded) (text "d") ≡ some (unwritten (entry ∷ []))
load-warm_example = load-warm disk (text "d") files loaded scanned files-IsDistinct reads_back loads
