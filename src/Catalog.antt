-- ===== src/Catalog.antt =====
-- src/catalog.rs: the catalogue of service definitions. What the network answers, the files, the
-- clock and the TOML parser are the parameter `Net`.
pub mod Laws
pub mod Examples
use flint_init.Prelude.{
  ℕ, Text, text, text_beq, text_eq, nat_eq, ◌==◌, Bool, true, false, ◌&&◌, not, Option, none, some,
  List, [], ◌∷◌, ◌++◌, contains, ltb, if◌then◌else◌,
}
use mathlib.Core.List.{reverse}
use flint_init.Prelude.Map.{Map}
use flint_init.Prelude.Strings.{strip_prefix, path_join}
use flint_init.Service.{ServiceDef}
use flint_init.Graph.{needs_of}
use flint_init.Fstab.{lines}

pub record CatalogEntry : Type 0 where
  pub description : Text
  pub distros : Option (List Text)

abbrev pub Catalog : Type 0
Catalog = Map Text CatalogEntry

abbrev pub allowed_distros : List Text
allowed_distros = text "arch" ∷ text "artix" ∷ text "void" ∷ text "gentoo" ∷ []

unfoldable pub trim_start_quotes : Text → Text
trim_start_quotes [] = []
trim_start_quotes (c ∷ s) = let rest = trim_start_quotes s in if c == 34 then rest else c ∷ s

-- `trim_matches('"')`.
unfoldable pub trim_quotes : Text → Text
unfolding trim_start_quotes
trim_quotes s = reverse (trim_start_quotes (reverse (trim_start_quotes s)))

-- The loop over the lines: the first one with an ID decides.
unfoldable pub distro_of_lines : List Text → Text
unfolding strip_prefix trim_quotes contains text_beq
distro_of_lines [] = text "artix"
distro_of_lines (line ∷ ls) = elim (strip_prefix (text "ID=") line) [
  | none ↦ distro_of_lines ls
  | some val ↦ if contains allowed_distros (trim_quotes val) then trim_quotes val else text "artix"
]

-- The argument is the text of the file, where it can be read.
unfoldable pub detect_distro_from : Option Text → Text
unfolding distro_of_lines lines
detect_distro_from none = text "artix"
detect_distro_from (some content) = distro_of_lines (lines content)

-- The answer to a request: the body (`none` where it is no text), a status that is an error, or no
-- answer.
pub data Download : Type 0 where
  body : Option Text → Download
  status : ℕ → Download
  no_answer : Download

-- Where a write of the cache can fail.
pub data CacheStep : Type 0 where
  create_parent set_parent_mode write_tmp set_tmp_mode rename_tmp : CacheStep

pub record Net : Type 0 where
  pub get : (url : Text) → Download
  -- The age of the cache in seconds, where there is a cache, and `none` inside for a time to come.
  pub cache_age : Option (Option ℕ)
  pub cache : Option Text
  pub works : CacheStep → Bool
  pub catalog : Text → Option Catalog
  pub service : Text → Option ServiceDef

-- An effect on the disk, with the mode that is set.
pub data CacheEffect : Type 0 where
  made_parent : CacheEffect
  parent_mode : ℕ → CacheEffect
  tmp_holds : Text → CacheEffect
  tmp_mode : ℕ → CacheEffect
  renamed : CacheEffect

abbrev pub effect_of : Text → CacheStep → CacheEffect
effect_of content create_parent = made_parent
effect_of content set_parent_mode = parent_mode 0o700
effect_of content write_tmp = tmp_holds content
effect_of content set_tmp_mode = tmp_mode 0o600
effect_of content rename_tmp = renamed

-- The steps up to the first one that fails.
unfoldable pub run_steps : Net → Text → List CacheStep → List CacheEffect
run_steps net content [] = []
run_steps net content (s ∷ ss) =
    let rest = run_steps net content ss in if net.works s then effect_of content s ∷ rest else []

unfoldable pub write_catalog_cache : Net → Text → List CacheEffect
unfolding run_steps
write_catalog_cache net content =
    run_steps net content
      (create_parent ∷ set_parent_mode ∷ write_tmp ∷ set_tmp_mode ∷ rename_tmp ∷ [])

abbrev pub catalog_url : Text
catalog_url = text "https://raw.githubusercontent.com/RicePollution/flint-init/main/catalog.toml"

abbrev pub cache_ttl_secs : ℕ
cache_ttl_secs = 86400

-- The cache is younger than a day; `elapsed` fails for a time to come.
unfoldable pub is_current : Option (Option ℕ) → Bool
is_current (some (some age)) = ltb age cache_ttl_secs
is_current _ = false

-- The catalogue, and what is done to the cache.
pub record Fetched : Type 0 where
  pub result : Option Catalog
  pub effects : List CacheEffect

unfoldable pub parse_cached : Net → Option Text → Option Catalog
parse_cached net none = none
parse_cached net (some content) = net.catalog content

unfoldable pub fetch_catalog : Net → Fetched
unfolding is_current parse_cached write_catalog_cache
fetch_catalog net =
    if is_current net.cache_age
    then record { result = parse_cached net net.cache; effects = [] }
    else elim (net.get catalog_url) [
      | body (some content) ↦ record {
        result = net.catalog content;
        effects = write_catalog_cache net content;
      }
      | _ ↦ record { result = none; effects = [] }
    ]

abbrev pub services_url : Text
services_url = text "https://raw.githubusercontent.com/RicePollution/flint-init/main/services/"

abbrev pub distro_url : Text → Text → Text
distro_url distro name = services_url ++ (distro ++ (text "/" ++ (name ++ text ".toml")))

abbrev pub global_url : Text → Text
global_url name = services_url ++ (text "global/" ++ (name ++ text ".toml"))

unfoldable pub body_of : Download → Option Text
body_of (body content) = content
body_of _ = none

-- What the first request decides; only the status 404 asks for the second one.
unfoldable pub fetch_service_toml : Net → Text → Text → Option Text
unfolding body_of
fetch_service_toml net distro name = elim (net.get (distro_url distro name)) [
  | body content ↦ content
  | status code ↦ if code == 404 then body_of (net.get (global_url name)) else none
  | no_answer ↦ none
]

-- `filter` of the names without a file.
unfoldable pub without_file : (Text → Bool) → Text → List Text → List Text
unfolding path_join
without_file exists services_dir [] = []
without_file exists services_dir (dep ∷ deps) =
    let rest = without_file exists services_dir deps in
    if exists (path_join services_dir (dep ++ text ".toml")) then rest else dep ∷ rest

unfoldable pub missing_deps : Net → (Text → Bool) → Text → Text → Option (List Text)
unfolding without_file
missing_deps net exists toml_str services_dir = elim (net.service toml_str) [
  | none ↦ none
  | some def ↦ some (without_file exists services_dir (needs_of def))
]
