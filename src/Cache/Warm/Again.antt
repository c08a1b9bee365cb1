-- ===== src/Cache/Warm/Again.antt =====
-- src/cache.rs: a second load, over the manifest that the first one wrote.
use flint_init.Prelude.{
  Text, text_eq, Bool, true, false, not, none, some, List, ◌≡◌, ◌⊎◌, refl, sym, ap, ◌∙◌, arith,
  length, IsDistinct, Bool-cases, Option-cases, inl, inr, subst, ◌==◌, nat_eq, eq_refl,
}
use flint_init.Cache.{
  ManifestEntry, Manifest, DirEntry, Disk, Loaded, holds, not_found, unreadable, ManifestFile,
  names, retain, refresh, build_entries, build_manifest, save, write_manifest, update, rebuild,
  load_services_cached, scan_toml_files, read_manifest, manifest_version,
}
use flint_init.Cache.Load.{unwritten}
use flint_init.Cache.Warm.{IsWarm, Timed, refresh-Timed, refresh-IsWarm}
use flint_init.Cache.Warm.Kept.{
  all_kept, retain-all_kept, all_kept-retain, refresh-all_kept, build_entries-IsWarm,
}

-- The disk after a load.
abbrev pub after : Disk → Loaded → Disk
after disk loaded = elim loaded.written [
  | none ↦ disk
  | some bytes ↦ record disk { manifest_file = holds bytes }
]

-- What was written is a manifest with the entries.
record Saved (disk : Disk) (loaded : Loaded) : Type 0 where
  bytes : Text
  manifest : Manifest
  written : loaded.written ≡ some bytes
  serialized : disk.serialize manifest ≡ some bytes
  current : manifest.version ≡ 1
  entries : manifest.entries ≡ loaded.entries

-- What a load leaves.
record Settled (disk : Disk) (files : List DirEntry) (loaded : Loaded) : Type 0 where
  warm : IsWarm files loaded.entries
  kept : all_kept (names files) loaded.entries ≡ true
  how : (loaded.written ≡ none) ⊎ Saved disk loaded

save-Saved :
    (disk : Disk) (manifest : Manifest) (loaded : Loaded)
    → manifest.version ≡ 1
    → save disk manifest ≡ some loaded
    → Saved disk loaded × (manifest.entries ≡ loaded.entries)
unfolding save write_manifest
save-Saved disk manifest loaded v h = elim (Option-cases (disk.serialize manifest)) [
  | inl e ↦ absurd (ground (arith, h, e))
  | inr (bytes, e) ↦ elim (Bool-cases (disk.writes bytes)) [
    | inr bad ↦ absurd (ground (arith, h, e, bad))
    | inl good ↦
        let saved : some (record { entries = manifest.entries; written = some bytes })
            ≡ some loaded =
          subst (λ o. o ≡ some loaded) (rw (save, write_manifest, e, good) refl) h in
        (
          record {
            bytes = bytes;
            manifest = manifest;
            written = ground (arith, saved);
            serialized = e;
            current = v;
            entries = ground (arith, saved);
          },
          ground (arith, saved),
        )
  ]
]

Saved-Settled :
    (disk : Disk) (files : List DirEntry) (loaded : Loaded) (entries : List ManifestEntry)
    → IsWarm files entries
    → all_kept (names files) entries ≡ true
    → entries ≡ loaded.entries
    → (loaded.written ≡ none) ⊎ Saved disk loaded
    → Settled disk files loaded
Saved-Settled disk files loaded entries warm kept e how = record {
  warm = subst (IsWarm files) e warm;
  kept = ap (all_kept (names files)) (sym e) ∙ kept;
  how = how;
}

module _ (disk : Disk) (dir : Text) (files : List DirEntry)
    (distinct : IsDistinct (names files)) where
  rebuild-Settled :
      (loaded : Loaded) → rebuild disk dir files ≡ some loaded → Settled disk files loaded
  unfolding rebuild build_manifest
  rebuild-Settled loaded h = elim (Option-cases (build_entries disk dir files)) [
    | inl e ↦ absurd (ground (arith, h, e))
    | inr (entries, e) ↦
        let manifest : Manifest = record { version = manifest_version; entries = entries } in
        let (warm, kept) = build_entries-IsWarm (names files) disk dir files entries (λ f k. k) e in
        let w : Saved disk loaded × (entries ≡ loaded.entries) =
          save-Saved disk manifest loaded refl
            (subst (λ o. o ≡ some loaded) (rw (rebuild, build_manifest, e) refl) h) in
        Saved-Settled disk files loaded entries warm kept w.1 (inr w.0)
  ]

  -- A manifest with the entries of a load is left as it is.
  update-again :
      (manifest : Manifest)
      → IsWarm files manifest.entries
      → all_kept (names files) manifest.entries ≡ true
      → update disk dir files manifest ≡ some (unwritten manifest.entries)
  unfolding update
  update-again manifest warm kept =
      rw
        (
          update,
          retain-all_kept (names files) manifest.entries kept,
          eq_refl (length manifest.entries),
          refresh-IsWarm disk dir files manifest.entries distinct warm,
        )
        refl

  abbrev dropped : Manifest → Bool
  dropped manifest = not (length (retain (names files) manifest.entries) == length manifest.entries)

  update-done :
      (manifest : Manifest) (loaded : Loaded) (entries : List ManifestEntry) (changed : Bool)
      → manifest.version ≡ 1
      → refresh disk dir files (retain (names files) manifest.entries) (dropped manifest)
        ≡ some (entries, changed)
      → update disk dir files manifest ≡ some loaded
      → ((loaded.written ≡ none) ⊎ Saved disk loaded) × (entries ≡ loaded.entries)
  unfolding update
  update-done manifest loaded entries true v e h =
      let (w, same) =
        save-Saved disk (record manifest { entries = entries }) loaded v
          (subst (λ o. o ≡ some loaded) (rw (update, e) refl) h) in
      (inr w, same)
  update-done manifest loaded entries false v e h =
      let kept : some (unwritten entries) ≡ some loaded =
        subst (λ o. o ≡ some loaded) (rw (update, e) refl) h in
      (inl (ground (arith, kept)), ground (arith, kept))

  update-Settled :
      (manifest : Manifest) (loaded : Loaded)
      → manifest.version ≡ 1
      → update disk dir files manifest ≡ some loaded
      → Settled disk files loaded
  unfolding update
  update-Settled manifest loaded v h =
      let kept = retain (names files) manifest.entries in
      elim (Option-cases (refresh disk dir files kept (dropped manifest))) [
        | inl e ↦ absurd (ground (arith, h, e))
        | inr ((entries, changed), e) ↦
            let (how, same) = update-done manifest loaded entries changed v e h in
            let timed : Timed files kept entries =
              refresh-Timed disk dir files kept (dropped manifest) (entries, changed) distinct e in
            Saved-Settled disk files loaded entries timed.warm
              (refresh-all_kept (names files) disk dir files kept (dropped manifest)
                (entries, changed) (λ f k. k) (all_kept-retain (names files) manifest.entries) e)
              same how
      ]

version_read :
    (disk : Disk) (manifest : Manifest)
    → read_manifest disk ≡ some (some manifest)
    → manifest.version ≡ 1
unfolding read_manifest
version_read disk manifest h = by_file disk.manifest_file refl
  where
    by_file : (file : ManifestFile) → disk.manifest_file ≡ file → manifest.version ≡ 1
    by_file not_found e = absurd (ground (arith, h, e))
    by_file unreadable e = absurd (ground (arith, h, e))
    by_file (holds bytes) e = elim (Option-cases (disk.deserialize bytes)) [
      | inl d ↦ absurd (ground (arith, h, e, d))
      | inr (m, d) ↦ ground (arith, h, e, d)
    ]

load-Settled :
    (disk : Disk) (dir : Text) (files : List DirEntry) (loaded : Loaded)
    → scan_toml_files disk ≡ some files
    → IsDistinct (names files)
    → load_services_cached disk dir ≡ some loaded
    → Settled disk files loaded
unfolding load_services_cached
load-Settled disk dir files loaded scanned distinct h = elim (Option-cases (read_manifest disk)) [
  | inl e ↦ absurd (ground (arith, h, scanned, e))
  | inr (some manifest, e) ↦
      update-Settled disk dir files distinct manifest loaded (version_read disk manifest e)
        (subst (λ o. o ≡ some loaded) (rw (load_services_cached, scanned, e) refl) h)
  | inr (none, e) ↦
      rebuild-Settled disk dir files distinct loaded
        (subst (λ o. o ≡ some loaded) (rw (load_services_cached, scanned, e) refl) h)
]

load_written :
    (disk : Disk) (dir : Text) (files : List DirEntry) (bytes : Text) (manifest : Manifest)
    → scan_toml_files disk ≡ some files
    → IsDistinct (names files)
    → disk.deserialize bytes ≡ some manifest
    → manifest.version ≡ 1
    → IsWarm files manifest.entries
    → all_kept (names files) manifest.entries ≡ true
    → load_services_cached (record disk { manifest_file = holds bytes }) dir
      ≡ some (unwritten manifest.entries)
unfolding load_services_cached scan_toml_files read_manifest
load_written disk dir files bytes manifest scanned distinct read version warm kept =
    let again : Disk = record disk { manifest_file = holds bytes } in
    let current : (manifest.version == manifest_version) ≡ true = ground (arith, version) in
    let listing : scan_toml_files again ≡ some files = scanned in
    let found : read_manifest again ≡ some (some manifest) = ground (arith, read, current) in
    let loads : load_services_cached again dir ≡ update again dir files manifest =
      rw (load_services_cached, listing, found) refl in
    loads ∙ update-again again dir files distinct manifest warm kept

-- A load that succeeds makes the next one cheap: over the same directory, and the manifest that the
-- first load has written, if it has, a second load gives the same entries and writes nothing. The
-- bytes of a manifest are read as that manifest, and the directory lists each name once.
pub load-warm :
    (disk : Disk) (dir : Text) (files : List DirEntry) (loaded : Loaded)
    → scan_toml_files disk ≡ some files
    → IsDistinct (names files)
    → ((manifest : Manifest) (bytes : Text)
        → disk.serialize manifest ≡ some bytes
        → disk.deserialize bytes ≡ some manifest)
    → load_services_cached disk dir ≡ some loaded
    → load_services_cached (after disk loaded) dir ≡ some (unwritten loaded.entries)
load-warm disk dir files loaded scanned distinct reads h =
    let settled = load-Settled disk dir files loaded scanned distinct h in
    elim settled.how [
      | inl unsaved ↦
          let same : loaded ≡ unwritten loaded.entries =
            ap (λ w. record loaded { written = w }) unsaved in
          rw unsaved (h ∙ ap some same)
      | inr w ↦
          let warm : IsWarm files w.manifest.entries =
            subst (IsWarm files) (sym w.entries) settled.warm in
          let kept : all_kept (names files) w.manifest.entries ≡ true =
            ap (all_kept (names files)) w.entries ∙ settled.kept in
          rw w.written (
            load_written disk dir files w.bytes w.manifest scanned distinct
              (reads w.manifest w.bytes w.serialized) w.current warm kept
            ∙ ap (λ es. some (unwritten es)) w.entries)
    ]
