-- ===== src/Cache.antt =====
-- src/cache.rs: the binary manifest of service definitions and the loading of services through it.
-- The directory, the files, the TOML parser and the serializer are the parameter `Disk`.
pub mod Fresh
pub mod Load
pub mod Warm
pub mod Examples
use flint_init.Prelude.{
  ℕ, Text, text, text_beq, text_eq, nat_eq, ◌==◌, Bool, true, false, ◌||◌, not, Option, none, some,
  List, [], ◌∷◌, contains, length, if◌then◌else◌,
}
use flint_init.Prelude.Int.{ℤ, pos, negsuc}
use flint_init.Prelude.Strings.{path_join}
use flint_init.Service.{ServiceDef}

abbrev pub manifest_version : ℕ
manifest_version = 1

pub record ManifestEntry : Type 0 where
  pub filename : Text
  pub mtime_secs : ℕ
  pub def : ServiceDef

pub record Manifest : Type 0 where
  pub version : ℕ
  pub entries : List ManifestEntry

-- What `fs::read` of the manifest gives.
pub data ManifestFile : Type 0 where
  not_found : ManifestFile
  unreadable : ManifestFile
  holds : (bytes : Text) → ManifestFile

-- A directory entry: its name, and the seconds of its modification time from the epoch on, which
-- may be before it.
pub record DirEntry : Type 0 where
  pub name : Text
  pub mtime : ℤ

-- The world of one call: the directory where it can be listed, the texts of the files that can be
-- read, the TOML parser, the file of the manifest, the serializer and whether the manifest can be
-- written.
pub record Disk : Type 0 where
  pub dir_entries : Option (List DirEntry)
  pub read : Text → Option Text
  pub parse : Text → Option ServiceDef
  pub manifest_file : ManifestFile
  pub deserialize : Text → Option Manifest
  pub serialize : Manifest → Option Text
  pub writes : Text → Bool

-- The bytes that are written, where serializing and writing succeed.
unfoldable pub write_manifest : Disk → Manifest → Option Text
write_manifest disk manifest = elim (disk.serialize manifest) [
  | none ↦ none
  | some bytes ↦ if disk.writes bytes then some bytes else none
]

-- The error, or the manifest if there is one of this version.
unfoldable pub read_manifest : Disk → Option (Option Manifest)
read_manifest disk = elim disk.manifest_file [
  | not_found ↦ some none
  | unreadable ↦ none
  | holds bytes ↦ elim (disk.deserialize bytes) [
    | none ↦ some none
    | some m ↦ some (if m.version == manifest_version then some m else none)
  ]
]

unfoldable pub ends_with : Text → Text → Bool
ends_with suffix [] = text_beq [] suffix
ends_with suffix (c ∷ cs) = let rest = ends_with suffix cs in text_beq (c ∷ cs) suffix || rest

-- `path.extension() == Some("toml")`: a name that is `.toml` only has no extension.
unfoldable pub is_toml : Text → Bool
unfolding ends_with
is_toml [] = false
is_toml (c ∷ cs) = ends_with (text ".toml") cs

unfoldable pub toml_entries : List DirEntry → List DirEntry
unfolding is_toml
toml_entries [] = []
toml_entries (e ∷ es) = let rest = toml_entries es in if is_toml e.name then e ∷ rest else rest

unfoldable pub scan_toml_files : Disk → Option (List DirEntry)
unfolding toml_entries
scan_toml_files disk = elim disk.dir_entries [ none ↦ none | some es ↦ some (toml_entries es) ]

-- `trim_end_matches('\0')`.
unfoldable pub trim_end_nul : Text → Text
trim_end_nul [] = []
trim_end_nul (c ∷ cs) = elim (trim_end_nul cs) [
  | [] ↦ if c == 0 then [] else c ∷ []
  | d ∷ ds ↦ c ∷ d ∷ ds
]

unfoldable pub parse_toml : Disk → Text → Text → Option ServiceDef
unfolding trim_end_nul path_join
parse_toml disk dir filename = elim (disk.read (path_join dir filename)) [
  | none ↦ none
  | some content ↦ disk.parse (trim_end_nul content)
]

-- `mtime.duration_since(UNIX_EPOCH)?.as_secs()`.
unfoldable pub since_epoch : ℤ → Option ℕ
since_epoch (pos n) = some n
since_epoch (negsuc n) = none

unfoldable pub build_entries : Disk → Text → List DirEntry → Option (List ManifestEntry)
unfolding since_epoch parse_toml
build_entries disk dir [] = some []
build_entries disk dir (e ∷ es) =
    let rest = build_entries disk dir es in
    elim (since_epoch e.mtime) [
      | none ↦ none
      | some secs ↦ elim (parse_toml disk dir e.name) [
        | none ↦ none
        | some def ↦ elim rest [
          | none ↦ none
          | some entries ↦
              some (record { filename = e.name; mtime_secs = secs; def = def } ∷ entries)
        ]
      ]
    ]

unfoldable pub build_manifest : Disk → Text → List DirEntry → Option Manifest
unfolding build_entries
build_manifest disk dir es = elim (build_entries disk dir es) [
  | none ↦ none
  | some entries ↦ some (record { version = manifest_version; entries = entries })
]

abbrev pub names : List DirEntry → List Text
names [] = []
names (e ∷ es) = e.name ∷ names es

-- `retain` of the entries whose files are there.
unfoldable pub retain : List Text → List ManifestEntry → List ManifestEntry
unfolding contains
retain on_disk [] = []
retain on_disk (e ∷ es) =
    let rest = retain on_disk es in if contains on_disk e.filename then e ∷ rest else rest

-- `cached_mtime`: the time of the first entry of a file.
unfoldable pub mtime_of : List ManifestEntry → Text → Option ℕ
mtime_of [] f = none
mtime_of (e ∷ es) f =
    let rest = mtime_of es f in if text_beq e.filename f then some e.mtime_secs else rest

-- The first entry of the file is overwritten, or a new one is pushed.
unfoldable pub upsert : Text → ℕ → ServiceDef → List ManifestEntry → List ManifestEntry
upsert f secs def [] = record { filename = f; mtime_secs = secs; def = def } ∷ []
upsert f secs def (e ∷ es) =
    let rest = upsert f secs def es in
    if text_beq e.filename f then record e { mtime_secs = secs; def = def } ∷ es else e ∷ rest

abbrev pub is_time : Option ℕ → ℕ → Bool
is_time none secs = false
is_time (some t) secs = t == secs

-- The loop over the files, with the flag `changed`.
unfoldable pub refresh :
    Disk → Text → List DirEntry → List ManifestEntry → Bool → Option (List ManifestEntry × Bool)
unfolding since_epoch parse_toml mtime_of upsert
refresh disk dir [] entries changed = some (entries, changed)
refresh disk dir (e ∷ es) entries changed = elim (since_epoch e.mtime) [
  | none ↦ none
  | some secs ↦ elim (is_time (mtime_of entries e.name) secs) [
    | true ↦ refresh disk dir es entries changed
    | false ↦ elim (parse_toml disk dir e.name) [
      | none ↦ none
      | some def ↦ refresh disk dir es (upsert e.name secs def entries) true
    ]
  ]
]

-- The manifest after the load, and the bytes if it was written.
pub record Loaded : Type 0 where
  pub entries : List ManifestEntry
  pub written : Option Text

unfoldable pub save : Disk → Manifest → Option Loaded
unfolding write_manifest
save disk manifest = elim (write_manifest disk manifest) [
  | none ↦ none
  | some bytes ↦ some (record { entries = manifest.entries; written = some bytes })
]

-- The branch with a manifest.
unfoldable pub update : Disk → Text → List DirEntry → Manifest → Option Loaded
unfolding retain refresh save
update disk dir files manifest =
    let kept = retain (names files) manifest.entries in
    let dropped = not (length kept == length manifest.entries) in
    elim (refresh disk dir files kept dropped) [
      | none ↦ none
      | some (entries, true) ↦ save disk (record manifest { entries = entries })
      | some (entries, false) ↦ some (record { entries = entries; written = none })
    ]

unfoldable pub rebuild : Disk → Text → List DirEntry → Option Loaded
unfolding build_manifest save
rebuild disk dir files = elim (build_manifest disk dir files) [
  | none ↦ none
  | some manifest ↦ save disk manifest
]

-- `load_services_cached`; the definitions that it returns are those of the entries.
unfoldable pub load_services_cached : Disk → Text → Option Loaded
unfolding scan_toml_files read_manifest update rebuild
load_services_cached disk dir = elim (scan_toml_files disk) [
  | none ↦ none
  | some files ↦ elim (read_manifest disk) [
    | none ↦ none
    | some (some manifest) ↦ update disk dir files manifest
    | some none ↦ rebuild disk dir files
  ]
]

unfoldable pub services_of : List ManifestEntry → List ServiceDef
services_of [] = []
services_of (e ∷ es) = e.def ∷ services_of es
