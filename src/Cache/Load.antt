-- ===== src/Cache/Load.antt =====
-- src/cache.rs, `load_services_cached`: what the load gives in the end.
use flint_init.Prelude.{
  ℕ, Text, text_beq_iff, text_eq, Bool, true, false, not, Option, none, some, List, [], ◌∷◌, ◌≡◌,
  refl, arith, contains, contains-eq-has_count, count, length, IsDistinct, Option-cases, inl, inr,
  subst, ◌==◌, nat_eq,
}
use flint_init.Prelude.Int.{pos}
use flint_init.Service.{ServiceDef}
use flint_init.Cache.{
  ManifestEntry, Manifest, DirEntry, Disk, Loaded, names, retain, refresh, since_epoch, parse_toml,
  build_entries, build_manifest, save, write_manifest, update, rebuild, load_services_cached,
  scan_toml_files, read_manifest, manifest_version,
}
use flint_init.Cache.Fresh.{
  def_of, filenames, IsHonest, IsFresh, def_of-retain, mtime_of-retain, count-retain, listed,
  refresh_lem, Refreshed, head_once, rest-IsDistinct,
}

save-entries :
    (disk : Disk) (manifest : Manifest) (loaded : Loaded)
    → save disk manifest ≡ some loaded
    → manifest.entries ≡ loaded.entries
unfolding save
save-entries disk manifest loaded h = elim (Option-cases (write_manifest disk manifest)) [
  | inl e ↦ absurd (ground (arith, h, e))
  | inr (bytes, e) ↦ ground (arith, h, e)
]

abbrev pub unwritten : List ManifestEntry → Loaded
unwritten entries = record { entries = entries; written = none }

unsaved :
    (entries : List ManifestEntry) (loaded : Loaded)
    → some (unwritten entries) ≡ some loaded
    → entries ≡ loaded.entries
unsaved entries loaded h = ground (arith, h)

module _ (disk : Disk) (dir : Text) (files : List DirEntry)
    (distinct : IsDistinct (names files)) where
  retain-IsHonest :
      (entries : List ManifestEntry)
      → IsHonest disk dir files entries
      → IsHonest disk dir files (retain (names files) entries)
  retain-IsHonest entries h f secs t m = ground (
    arith,
    listed files f (pos secs) t,
    mtime_of-retain (names files) entries f,
    def_of-retain (names files) entries f,
    h f secs t,
    m,
  )

  Refreshed-IsFresh :
      (entries entries' : List ManifestEntry)
      → IsDistinct (filenames entries)
      → Refreshed disk dir files (retain (names files) entries) entries'
      → IsFresh disk dir files entries'
  Refreshed-IsFresh entries entries' once r = record {
    defs = λ f. ground (arith, r.defs f, def_of-retain (names files) entries f);
    once = λ f. ground (
      arith,
      r.counts f,
      once f,
      count-retain (names files) entries f,
      contains-eq-has_count f (filenames (retain (names files) entries)),
    );
  }

  update-IsFresh :
      (manifest : Manifest) (loaded : Loaded)
      → IsDistinct (filenames manifest.entries)
      → IsHonest disk dir files manifest.entries
      → update disk dir files manifest ≡ some loaded
      → IsFresh disk dir files loaded.entries
  unfolding update
  update-IsFresh manifest loaded once honest h =
      let kept = retain (names files) manifest.entries in
      let dropped = not (length kept == length manifest.entries) in
      elim (Option-cases (refresh disk dir files kept dropped)) [
        | inl e ↦ absurd (ground (arith, h, e))
        | inr ((entries, changed), e) ↦
            subst (IsFresh disk dir files) (same kept dropped entries changed e h) (
              Refreshed-IsFresh manifest.entries entries once (
                refresh_lem disk dir files kept dropped (entries, changed) distinct
                  (retain-IsHonest manifest.entries honest) e))
      ]
    where
      same :
          (kept : List ManifestEntry) (dropped : Bool) (entries : List ManifestEntry)
          (changed : Bool)
          → refresh disk dir files kept dropped ≡ some (entries, changed)
          → elim (refresh disk dir files kept dropped) [
            | none ↦ none
            | some (entries, true) ↦ save disk (record manifest { entries = entries })
            | some (entries, false) ↦ some (record { entries = entries; written = none })
          ]
            ≡ some loaded
          → entries ≡ loaded.entries
      same kept dropped entries true e k =
          save-entries disk (record manifest { entries = entries }) loaded
            (subst
              (λ (o : Option (List ManifestEntry × Bool)).
                elim o [
                  | none ↦ none
                  | some (entries, true) ↦ save disk (record manifest { entries = entries })
                  | some (entries, false) ↦ some (record { entries = entries; written = none })
                ]
                ≡ some loaded)
              e k)
      same kept dropped entries false e k = unsaved entries loaded (
          subst
            (λ (o : Option (List ManifestEntry × Bool)).
              elim o [
                | none ↦ none
                | some (entries, true) ↦ save disk (record manifest { entries = entries })
                | some (entries, false) ↦ some (record { entries = entries; written = none })
              ]
              ≡ some loaded)
            e k)

cons-IsFresh :
    (disk : Disk) (dir : Text) (e : DirEntry) (es : List DirEntry) (rest : List ManifestEntry)
    (secs : ℕ) (def : ServiceDef)
    → IsDistinct (names (e ∷ es))
    → parse_toml disk dir e.name ≡ some def
    → IsFresh disk dir es rest
    → IsFresh disk dir (e ∷ es) (record { filename = e.name; mtime_secs = secs; def = def } ∷ rest)
unfolding def_of contains count
cons-IsFresh disk dir e es rest secs def distinct p fresh = record {
  defs = λ f. ground (arith, fresh.defs f, text_beq_iff e.name f, p);
  once = λ f. ground (arith, fresh.once f, text_beq_iff e.name f, head_once e es distinct);
}

build_entries_lem :
    (disk : Disk) (dir : Text) (files : List DirEntry) (entries : List ManifestEntry)
    → IsDistinct (names files)
    → build_entries disk dir files ≡ some entries
    → IsFresh disk dir files entries
unfolding build_entries def_of contains count
build_entries_lem disk dir [] entries distinct h = record {
  defs = λ f. ground (arith, h);
  once = λ f. ground (arith, h);
}
build_entries_lem disk dir (e ∷ es) entries distinct h = elim (Option-cases (since_epoch e.mtime)) [
  | inl t ↦ absurd (ground (arith, h, t))
  | inr (secs, t) ↦ elim (Option-cases (parse_toml disk dir e.name)) [
    | inl p ↦ absurd (ground (arith, h, t, p))
    | inr (def, p) ↦ elim (Option-cases (build_entries disk dir es)) [
      | inl q ↦ absurd (ground (arith, h, t, p, q))
      | inr (rest, q) ↦
          let fresh = build_entries_lem disk dir es rest (rest-IsDistinct e es distinct) q in
          let entry : ManifestEntry = record { filename = e.name; mtime_secs = secs; def = def } in
          let all : entry ∷ rest ≡ entries = ground (arith, h, t, p, q) in
          subst (IsFresh disk dir (e ∷ es)) all
            (cons-IsFresh disk dir e es rest secs def distinct p fresh)
    ]
  ]
]

rebuild-IsFresh :
    (disk : Disk) (dir : Text) (files : List DirEntry)
    → IsDistinct (names files)
    → (loaded : Loaded) → rebuild disk dir files ≡ some loaded
    → IsFresh disk dir files loaded.entries
unfolding rebuild build_manifest
rebuild-IsFresh disk dir files distinct loaded h =
    elim (Option-cases (build_entries disk dir files)) [
      | inl e ↦ absurd (ground (arith, h, e))
      | inr (entries, e) ↦
          subst (IsFresh disk dir files)
            (save-entries disk (record { version = manifest_version; entries = entries }) loaded
              (subst (λ o. o ≡ some loaded) (rw (rebuild, build_manifest, e) refl) h))
            (build_entries_lem disk dir files entries distinct e)
    ]

-- What the load gives is what the files of the directory hold: one entry for each TOML file and
-- nothing else, with the definition that its file holds, whatever the manifest was before. A
-- manifest has each file once, and where the time of an entry is the time of the file, the entry has
-- the definition that the file holds; the directory lists each name once.
pub load-IsFresh :
    (disk : Disk) (dir : Text) (files : List DirEntry) (loaded : Loaded)
    → scan_toml_files disk ≡ some files
    → IsDistinct (names files)
    → ((manifest : Manifest)
        → read_manifest disk ≡ some (some manifest)
        → IsDistinct (filenames manifest.entries) × IsHonest disk dir files manifest.entries)
    → load_services_cached disk dir ≡ some loaded
    → IsFresh disk dir files loaded.entries
unfolding load_services_cached
load-IsFresh disk dir files loaded scanned distinct good h =
    elim (Option-cases (read_manifest disk)) [
      | inl e ↦ absurd (ground (arith, h, scanned, e))
      | inr (some manifest, e) ↦
          update-IsFresh disk dir files distinct manifest loaded (good manifest e).0
            (good manifest e).1
            (subst (λ o. o ≡ some loaded) (rw (load_services_cached, scanned, e) refl) h)
      | inr (none, e) ↦
          rebuild-IsFresh disk dir files distinct loaded
            (subst (λ o. o ≡ some loaded) (rw (load_services_cached, scanned, e) refl) h)
    ]
