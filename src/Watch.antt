-- ===== src/Watch.antt =====
-- src/bin/flint_watch.rs: the watcher, which keeps the manifest up to date. The events come from
-- inotify and the state of the files at an event is a `Disk` of Cache.
pub mod Upkeep
mod Examples
use flint_init.Prelude.{
  ℕ, Text, text, text_beq, text_eq, Bool, true, false, not, Option, none, some, List, [], ◌∷◌,
  if◌then◌else◌,
}
use flint_init.Prelude.Map
use flint_init.Prelude.Int.{ℤ}
use flint_init.Service.{ServiceDef}
use flint_init.Cache.{
  Disk, Manifest, ManifestEntry, manifest_version, ends_with, parse_toml, since_epoch, upsert,
  read_manifest, write_manifest,
}

-- `DELETE`, and `CLOSE_WRITE` or `MOVED_TO`.
pub data FileChange : Type 0 where
  deleted written : FileChange

-- An event: the directory is gone, or a file that may have a name changed.
pub data Event : Type 0 where
  directory_gone : Event
  changed : FileChange → (name : Option Text) → Event

-- What an event comes to: an error or the exit of the process, nothing, or a manifest with the bytes
-- that are written.
pub data Handled : Type 0 where
  stopped skipped : Handled
  wrote : Manifest → (bytes : Text) → Handled

-- `parse_and_stat`: `mtime` is the time of the file, where it can be asked for.
unfoldable pub parse_and_stat : Disk → Text → Option ℤ → Text → Option (ServiceDef × ℕ)
unfolding parse_toml since_epoch
parse_and_stat disk dir mtime name = elim (parse_toml disk dir name) [
  | none ↦ none
  | some def ↦ elim mtime [
    | none ↦ none
    | some t ↦ elim (since_epoch t) [ none ↦ none | some secs ↦ some (def, secs) ]
  ]
]

-- `retain(|e| e.filename != name)`.
unfoldable pub drop_entry : Text → List ManifestEntry → List ManifestEntry
drop_entry name [] = []
drop_entry name (e ∷ es) =
    let rest = drop_entry name es in if text_beq e.filename name then rest else e ∷ rest

-- The entries after an event for a file. A file that cannot be parsed leaves its old entry.
unfoldable pub update_entries :
    Disk → Text → Option ℤ → FileChange → Text → List ManifestEntry → List ManifestEntry
unfolding parse_and_stat drop_entry upsert
update_entries disk dir mtime deleted name entries = drop_entry name entries
update_entries disk dir mtime written name entries = elim (parse_and_stat disk dir mtime name) [
  | none ↦ entries
  | some (def, secs) ↦ upsert name secs def entries
]

unfoldable pub empty_manifest : Manifest
empty_manifest = record { version = manifest_version; entries = [] }

-- The part of the loop's body behind the test of the name.
unfoldable pub handle_file : Disk → Text → Option ℤ → FileChange → Text → Handled
unfolding read_manifest update_entries write_manifest empty_manifest
handle_file disk dir mtime mask name = elim (read_manifest disk) [
  | none ↦ stopped
  | some found ↦
      let old = Map.unwrap_or found empty_manifest in
      let new : Manifest = record old {
        entries = update_entries disk dir mtime mask name old.entries;
      } in
      elim (write_manifest disk new) [ none ↦ stopped | some bytes ↦ wrote new bytes ]
]

-- The body of the loop over the events.
unfoldable pub handle_event : Disk → Text → Option ℤ → Event → Handled
unfolding ends_with handle_file
handle_event disk dir mtime directory_gone = stopped
handle_event disk dir mtime (changed mask none) = skipped
handle_event disk dir mtime (changed mask (some name)) =
    if ends_with (text ".toml") name then handle_file disk dir mtime mask name else skipped
