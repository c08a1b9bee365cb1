-- ===== src/Cache/Examples.antt =====
-- src/cache.rs: a directory with two services, and a manifest in which the entry of one is current.
use flint_init.Prelude.{
  subst, ap, Text, text, text_beq, text_beq_iff, Bool, true, false, Option, none, some, List, [],
  ◌∷◌, ◌≡◌, refl, arith, count, contains, IsDistinct, text_eq,
}
use flint_init.Prelude.Map
use flint_init.Prelude.Int.{pos}
use flint_init.Prelude.Strings.{path_join}
use flint_init.Service.{ServiceDef}
use flint_init.Cache.{
  Disk, DirEntry, Manifest, Loaded, holds, load_services_cached, names, scan_toml_files,
  read_manifest, services_of, parse_toml, mtime_of, trim_end_nul,
}
use flint_init.Cache.Fresh.{IsFresh, IsHonest, filenames, time_on_disk, def_of}
use flint_init.Cache.Load.{load-IsFresh}

abbrev pub def_named : Text → ServiceDef
def_named name = record {
  service = record {
    name = name;
    exec = text "/bin/true";
    restart = none;
    user = none;
    args = none;
  };
  deps = none;
  ready = none;
  resources = none;
}

abbrev pub old : Manifest
old = record {
  version = 1;
  entries =
      record { filename = text "a.toml"; mtime_secs = 7; def = def_named (text "old") }
      ∷ record { filename = text "b.toml"; mtime_secs = 4; def = def_named (text "d/b.toml") }
      ∷ [];
}

abbrev files : List DirEntry
files =
    record { name = text "a.toml"; mtime = pos 9 }
    ∷ record { name = text "b.toml"; mtime = pos 4 }
    ∷ []

-- A file holds the name of its service, and so does the manifest when it is written.
abbrev pub disk : Disk
disk = record {
  dir_entries = some (record { name = text "README"; mtime = pos 3 } ∷ files);
  read = λ path. some path;
  parse = λ raw. some (def_named raw);
  manifest_file = holds (text "old");
  deserialize = λ bytes. some old;
  serialize = λ manifest. some (text "new");
  writes = λ bytes. true;
}

program : Unit {0}
unfolding load_services_cached services_of parse_toml contains text_beq path_join mtime_of
program = tt

abbrev loaded : Loaded
loaded = record {
  entries =
      record { filename = text "a.toml"; mtime_secs = 9; def = def_named (text "d/a.toml") }
      ∷ record { filename = text "b.toml"; mtime_secs = 4; def = def_named (text "d/b.toml") }
      ∷ [];
  written = some (text "new");
}

loads : load_services_cached disk (text "d") ≡ some loaded
unfolding program
loads = refl

scanned : scan_toml_files disk ≡ some files
unfolding program
scanned = refl

files-IsDistinct : IsDistinct (names files)
unfolding count
files-IsDistinct n = ground (arith, text_beq_iff (text "a.toml") n, text_beq_iff (text "b.toml") n)

old-IsDistinct : IsDistinct (filenames old.entries)
unfolding count
old-IsDistinct n = ground (arith, text_beq_iff (text "a.toml") n, text_beq_iff (text "b.toml") n)

-- The entry of `a.toml` is older than its file, and that of `b.toml` is current.
old-IsHonest : IsHonest disk (text "d") files old.entries
unfolding time_on_disk mtime_of def_of parse_toml path_join trim_end_nul text_beq
old-IsHonest f secs t m = by_name (text_beq (text "b.toml") f) refl
  where
    by_name :
        (b : Bool)
        → text_beq (text "b.toml") f ≡ b
        → def_of old.entries f ≡ parse_toml disk (text "d") f
    by_name true e =
        subst (λ g. def_of old.entries g ≡ parse_toml disk (text "d") g)
          ((text_beq_iff (text "b.toml") f).0 e) refl
    by_name false e = absurd (ground (arith, t, m, e))

old_good :
    (manifest : Manifest)
    → read_manifest disk ≡ some (some manifest)
    → IsDistinct (filenames manifest.entries) × IsHonest disk (text "d") files manifest.entries
unfolding program read_manifest
old_good manifest e =
    subst
      (λ (m : Manifest).
        IsDistinct (filenames m.entries) × IsHonest disk (text "d") files m.entries)
      (ap (λ (o : Option (Option Manifest)). Map.unwrap_or (Map.unwrap_or o none) old) e)
      (old-IsDistinct, old-IsHonest)

load-IsFresh_example : IsFresh disk (text "d") files loaded.entries
load-IsFresh_example =
    load-IsFresh disk (text "d") files loaded scanned files-IsDistinct old_good loads
