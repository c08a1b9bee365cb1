-- ===== src/Ready/Timeline.antt =====
-- src/ready.rs: no creation of the readiness file is missed, whenever it happens.
use flint_init.Prelude.{
  Text, Bool, true, false, ◌&&◌, Option, some, List, [], ◌∷◌, ◌++◌, ◌≡◌, refl, ap, ◌∙◌, arith,
  if◌then◌else◌, Bool-cases, ◌⊎◌, inl, inr, text_refl,
}
use flint_init.Prelude.Strings.{path_parent, path_file_name}
use flint_init.Ready.{
  EventKind, create, moved_to, kind_beq, has_kind, watch_mask, FileEvent, Kernel, Watched, done,
  maybe_probe, signal, is_creation, any_creation, watch_events, watch_created, watch_dir,
  watch_once,
}

-- When the file appears: before the first test, before the watch is there, before the second test, or
-- later.
pub data Stage : Type 0 where
  at_start before_watch before_second_test later : Stage

abbrev pub shows_first : Stage → Bool
shows_first at_start = true
shows_first _ = false

abbrev pub shows_second : Stage → Bool
shows_second later = false
shows_second _ = true

-- Reads of events that all succeed.
abbrev pub succeed : List (List FileEvent) → List (Option (List FileEvent))
succeed [] = []
succeed (events ∷ reads) = some events ∷ succeed reads

-- The reads hold the event: they succeed up to it, and the reads before and after it and the other
-- events are free.
pub record Holds (event : FileEvent) (reads : List (Option (List FileEvent))) : Type 0 where
  pub earlier : List (List FileEvent)
  pub before : List FileEvent
  pub behind : List FileEvent
  pub more : List (Option (List FileEvent))
  pub split : reads ≡ succeed earlier ++ some (before ++ event ∷ behind) ∷ more

-- What the kernel shows of a file that appears at this stage, made in the directory or moved into it:
-- the tests see it from then on, and if it appears after the watch is there, inotify reports its event
-- to a watch whose mask has the kind of the event.
pub record IsTimeline (filename : Text) (stage : Stage) (k : Kernel) : Type 0 where
  pub first : k.exists_first ≡ shows_first stage
  pub second : k.exists_second ≡ shows_second stage
  pub event : FileEvent
  pub named : event.name ≡ some filename
  pub appears : (event.kind ≡ create) ⊎ (event.kind ≡ moved_to)
  pub reported :
      stage ≡ later
      → (mask : List EventKind) → has_kind mask event.kind ≡ true
      → Holds event (k.reads mask)

-- The mask of the watch and the test of an event let both ways to appear through.
is_creation-appears :
    (filename : Text) (event : FileEvent)
    → event.name ≡ some filename
    → (event.kind ≡ create) ⊎ (event.kind ≡ moved_to)
    → (is_creation filename event ≡ true) × (has_kind watch_mask event.kind ≡ true)
unfolding is_creation has_kind watch_mask kind_beq
is_creation-appears filename event named (inl made) =
    (rw (is_creation, named, made, text_refl filename) refl, rw made refl)
is_creation-appears filename event named (inr moved) =
    (rw (is_creation, named, moved, text_refl filename) refl, rw moved refl)

any_creation-middle :
    (filename : Text) (before : List FileEvent) (creation : FileEvent) (behind : List FileEvent)
    → is_creation filename creation ≡ true
    → any_creation filename (before ++ creation ∷ behind) ≡ true
unfolding any_creation
any_creation-middle filename [] creation behind h = ground (arith, h)
any_creation-middle filename (e ∷ before) creation behind h =
    ground (arith, any_creation-middle filename before creation behind h)

watch_events-signal :
    (k : Kernel) (filename service_name : Text) (probe : Bool) (earlier : List (List FileEvent))
    (events : List FileEvent) (more : List (Option (List FileEvent)))
    → any_creation filename events ≡ true
    → watch_events k filename service_name probe (succeed earlier ++ some events ∷ more)
      ≡ signal k service_name probe
unfolding watch_events
watch_events-signal k filename service_name probe [] events more h = rw (watch_events, h) refl
watch_events-signal k filename service_name probe (es ∷ earlier) events more h =
    elim (Bool-cases (any_creation filename es)) [
      | inl sooner ↦ rw (watch_events, sooner) refl
      | inr not_yet ↦
          rw (watch_events, not_yet)
            (watch_events-signal k filename service_name probe earlier events more h)
    ]

-- Whenever the readiness file of a service appears, made or moved into its directory, before, between
-- or after the tests, the watcher sends the name of the service exactly once and ends, also where the
-- probe of the socket fails, if the path has a directory and a name, the watch can be set, the receiver
-- is there, the reads of events up to that of the file succeed, and inotify reports what the mask of a
-- watch asks for.
pub watch_once_lem :
    (k : Kernel) (path parent filename service_name : Text) (probe : Bool) (stage : Stage)
    → path_parent path ≡ some parent
    → path_file_name path ≡ some filename
    → (k.init && k.add_watch parent watch_mask) ≡ true
    → k.receives ≡ true
    → IsTimeline filename stage k
    → watch_once k path service_name probe
      ≡ record { sent = service_name ∷ []; probed = maybe_probe k probe; outcome = done }
unfolding watch_once signal watch_dir watch_created
watch_once_lem k path parent filename service_name probe stage p f set receives t =
    by_stage stage refl
  where
    sends : Watched
    sends = record { sent = service_name ∷ []; probed = maybe_probe k probe; outcome = done }

    signals : signal k service_name probe ≡ sends
    signals = rw (signal, receives) refl

    sees :
        (b : Bool)
        → k.exists_first ≡ b
        → (if b then signal k service_name probe else watch_dir k path service_name probe) ≡ sends
        → watch_once k path service_name probe ≡ sends
    sees b e h = rw (watch_once, e) h

    watches : watch_dir k path service_name probe ≡ watch_created k filename service_name probe
    watches = rw (watch_dir, p, f, set) refl

    by_stage : (s : Stage) → stage ≡ s → watch_once k path service_name probe ≡ sends
    by_stage at_start e = sees true (t.first ∙ ap shows_first e) signals
    by_stage before_watch e =
        sees false (t.first ∙ ap shows_first e)
          (watches ∙ rw (watch_created, t.second ∙ ap shows_second e) signals)
    by_stage before_second_test e =
        sees false (t.first ∙ ap shows_first e)
          (watches ∙ rw (watch_created, t.second ∙ ap shows_second e) signals)
    by_stage later e =
        let passes = is_creation-appears filename t.event t.named t.appears in
        let seen = t.reported e watch_mask passes.1 in
        sees false (t.first ∙ ap shows_first e) (
          watches
          ∙ rw (watch_created, t.second ∙ ap shows_second e, seen.split)
              (watch_events-signal k filename service_name probe seen.earlier
                  (seen.before ++ t.event ∷ seen.behind) seen.more
                  (any_creation-middle filename seen.before t.event seen.behind passes.0)
                ∙ signals))
