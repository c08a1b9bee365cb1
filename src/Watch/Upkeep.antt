-- ===== src/Watch/Upkeep.antt =====
-- src/bin/flint_watch.rs: what an event does to the manifest.
use flint_init.Prelude.{
  ℕ, Text, text_beq, text_beq_iff, text_eq, Option, none, some, List, [], ◌∷◌, ◌≡◌, refl, arith,
  if◌then◌else◌, Option-cases, inl, inr,
}
use flint_init.Prelude.Int.{ℤ, pos, negsuc}
use flint_init.Prelude.Strings.{path_join}
use flint_init.Service.{ServiceDef}
use flint_init.Cache.{Disk, ManifestEntry, upsert, trim_end_nul, parse_toml, since_epoch}
use flint_init.Watch.{FileChange, deleted, written, parse_and_stat, drop_entry, update_entries}

-- The definition and the time in the first entry of a file.
unfoldable pub entry_of : List ManifestEntry → Text → Option (ServiceDef × ℕ)
entry_of [] f = none
entry_of (e ∷ es) f =
    let rest = entry_of es f in if text_beq e.filename f then some (e.def, e.mtime_secs) else rest

entry_of-drop_entry :
    (f g : Text) (es : List ManifestEntry)
    → entry_of (drop_entry f es) g ≡ (if text_beq f g then none else entry_of es g)
unfolding entry_of drop_entry
entry_of-drop_entry f g [] = ground arith
entry_of-drop_entry f g (e ∷ es) = ground (
  arith,
  text_beq_iff f g,
  text_beq_iff e.filename f,
  text_beq_iff e.filename g,
  entry_of-drop_entry f g es,
)

entry_of-upsert :
    (f g : Text) (secs : ℕ) (def : ServiceDef) (es : List ManifestEntry)
    → entry_of (upsert f secs def es) g ≡ (if text_beq f g then some (def, secs) else entry_of es g)
unfolding entry_of upsert
entry_of-upsert f g secs def [] = refl
entry_of-upsert f g secs def (e ∷ es) = ground (
  arith,
  text_beq_iff f g,
  text_beq_iff e.filename f,
  text_beq_iff e.filename g,
  entry_of-upsert f g secs def es,
)

-- What the entry of a file is to be after an event for it: none where the file is deleted; else the
-- definition that the text of the file parses to, without the NUL characters at its end, with the
-- seconds of the time of the file, where all of this can be had; else what it was.
abbrev pub expected :
    Disk → Text → Option ℤ → FileChange → Text → Option (ServiceDef × ℕ) → Option (ServiceDef × ℕ)
expected disk dir mtime deleted name old = none
expected disk dir mtime written name old = elim (disk.read (path_join dir name)) [
  | none ↦ old
  | some content ↦ elim (disk.parse (trim_end_nul content)) [
    | none ↦ old
    | some def ↦ elim mtime [
      | none ↦ old
      | some (pos secs) ↦ some (def, secs)
      | some (negsuc n) ↦ old
    ]
  ]
]

-- An event for a file sets the entry of that file: to nothing where it is deleted, to the definition
-- that the file holds and the seconds of its time where the file can be read and parsed and has a time
-- from the epoch on, and else not at all; the entries of the other files stay.
pub update_entries_lem :
    (disk : Disk) (dir : Text) (mtime : Option ℤ) (mask : FileChange) (name f : Text)
    (entries : List ManifestEntry)
    → entry_of (update_entries disk dir mtime mask name entries) f ≡ (
        if text_beq name f
        then expected disk dir mtime mask name (entry_of entries name)
        else entry_of entries f)
unfolding update_entries
update_entries_lem disk dir mtime deleted name f entries =
    ground (arith, entry_of-drop_entry name f entries)
update_entries_lem disk dir mtime written name f entries =
    by_read (disk.read (path_join dir name)) refl
  where
    stays : Option (ServiceDef × ℕ)
    stays = if text_beq name f then entry_of entries name else entry_of entries f

    same : entry_of entries f ≡ stays
    same = ground (arith, text_beq_iff name f)

    by_time :
        (content : Text) (def : ServiceDef) (t : Option ℤ)
        → disk.read (path_join dir name) ≡ some content
        → disk.parse (trim_end_nul content) ≡ some def
        → entry_of (update_entries disk dir t written name entries) f ≡ (
            if text_beq name f
            then expected disk dir t written name (entry_of entries name)
            else entry_of entries f)
    by_time content def none r p =
        rw (update_entries, parse_and_stat, parse_toml, expected, r, p) same
    by_time content def (some (negsuc n)) r p =
        rw (update_entries, parse_and_stat, parse_toml, since_epoch, expected, r, p) same
    by_time content def (some (pos secs)) r p =
        rw (update_entries, parse_and_stat, parse_toml, since_epoch, expected, r, p)
          (entry_of-upsert name f secs def entries)

    by_read :
        (r : Option Text)
        → disk.read (path_join dir name) ≡ r
        → entry_of (update_entries disk dir mtime written name entries) f ≡ (
            if text_beq name f
            then expected disk dir mtime written name (entry_of entries name)
            else entry_of entries f)
    by_read none r = rw (update_entries, parse_and_stat, parse_toml, expected, r) same
    by_read (some content) r = elim (Option-cases (disk.parse (trim_end_nul content))) [
      | inl p ↦ rw (update_entries, parse_and_stat, parse_toml, expected, r, p) same
      | inr (def, p) ↦ by_time content def mtime r p
    ]
