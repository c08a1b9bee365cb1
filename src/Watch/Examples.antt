-- ===== src/Watch/Examples.antt =====
-- src/bin/flint_watch.rs: an event for a file of the example of Cache.
use flint_init.Prelude.{text, text_beq, ◌≡◌, some, if◌then◌else◌}
use flint_init.Prelude.Int.{pos}
use flint_init.Cache.Examples.{disk, old}
use flint_init.Watch.{written, update_entries}
use flint_init.Watch.Upkeep.{entry_of, expected, update_entries_lem}

update_entries_example :
    entry_of
      (update_entries disk (text "d") (some (pos 9)) written (text "a.toml") old.entries)
      (text "a.toml")
    ≡ (if text_beq (text "a.toml") (text "a.toml")
        then expected disk
            (text "d")
            (some (pos 9))
            written
            (text "a.toml")
            (entry_of old.entries (text "a.toml"))
        else entry_of old.entries (text "a.toml"))
update_entries_example =
    update_entries_lem disk (text "d") (some (pos 9)) written (text "a.toml") (text "a.toml")
      old.entries
