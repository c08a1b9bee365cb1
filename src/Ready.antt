-- ===== src/Ready.antt =====
-- src/ready.rs: the watching for the readiness file of a service. What the file system shows at the
-- two tests, and what inotify reports, is the parameter `Kernel`.
pub mod Timeline
pub mod Examples
use flint_init.Prelude.{
  Text, text, text_beq, Bool, true, false, ◌&&◌, ◌||◌, Option, none, some, List, [], ◌∷◌,
  if◌then◌else◌,
}
use flint_init.Prelude.Strings.{path_parent, path_file_name}

-- The bits of `WatchMask` and `EventMask` that matter here, and some that the source leaves out.
pub data EventKind : Type 0 where
  create moved_to close_write modify delete moved_from : EventKind

unfoldable pub kind_beq : EventKind → EventKind → Bool
kind_beq create create = true
kind_beq moved_to moved_to = true
kind_beq close_write close_write = true
kind_beq modify modify = true
kind_beq delete delete = true
kind_beq moved_from moved_from = true
kind_beq _ _ = false

-- A mask with these bits has the bit of the kind.
unfoldable pub has_kind : List EventKind → EventKind → Bool
unfolding kind_beq
has_kind [] kind = false
has_kind (k ∷ ks) kind = kind_beq k kind || has_kind ks kind

-- An event of inotify has one bit.
pub record FileEvent : Type 0 where
  pub name : Option Text
  pub kind : EventKind

-- Whether the path exists at the first and at the second test, what the calls of inotify answer, the
-- reads of events so far for the mask that is watched, whether the socket accepts a connection, and
-- whether the receiver of the channel is there.
pub record Kernel : Type 0 where
  pub exists_first : Bool
  pub exists_second : Bool
  pub init : Bool
  pub add_watch : (parent : Text) → List EventKind → Bool
  pub reads : (mask : List EventKind) → List (Option (List FileEvent))
  pub connects : Bool
  pub receives : Bool

-- The mask of the watch.
unfoldable pub watch_mask : List EventKind
watch_mask = create ∷ moved_to ∷ close_write ∷ []

pub data WatchOutcome : Type 0 where
  done failed : WatchOutcome
  still_watching : WatchOutcome

-- The names that are sent, what the probe of the socket found, where there was one, and how the
-- watching ends, if it does.
pub record Watched : Type 0 where
  pub sent : List Text
  pub probed : Option Bool
  pub outcome : WatchOutcome

unfoldable pub maybe_probe : Kernel → Bool → Option Bool
maybe_probe k probe = if probe then some k.connects else none

-- The probe and the send, which are the same at three places.
unfoldable pub signal : Kernel → Text → Bool → Watched
unfolding maybe_probe
signal k service_name probe =
    let probed = maybe_probe k probe in
    if k.receives
    then record { sent = service_name ∷ []; probed = probed; outcome = done }
    else record { sent = []; probed = probed; outcome = failed }

abbrev pub nothing_sent : WatchOutcome → Watched
nothing_sent outcome = record { sent = []; probed = none; outcome = outcome }

unfoldable pub is_creation : Text → FileEvent → Bool
unfolding text_beq kind_beq
is_creation filename event = elim event.name [
  | none ↦ false
  | some name ↦
      text_beq name filename
      && (kind_beq event.kind create
          || (kind_beq event.kind moved_to || kind_beq event.kind close_write))
]

-- The loop over the events of one read, which the first event of the file ends.
unfoldable pub any_creation : Text → List FileEvent → Bool
unfolding is_creation
any_creation filename [] = false
any_creation filename (event ∷ events) = is_creation filename event || any_creation filename events

-- The loop over the reads.
unfoldable pub watch_events : Kernel → Text → Text → Bool → List (Option (List FileEvent)) → Watched
unfolding signal any_creation
watch_events k filename service_name probe [] = nothing_sent still_watching
watch_events k filename service_name probe (none ∷ reads) = nothing_sent failed
watch_events k filename service_name probe (some events ∷ reads) =
    let rest = watch_events k filename service_name probe reads in
    if any_creation filename events then signal k service_name probe else rest

-- After the watch is added.
unfoldable pub watch_created : Kernel → Text → Text → Bool → Watched
unfolding signal watch_events watch_mask
watch_created k filename service_name probe =
    if k.exists_second
    then signal k service_name probe
    else watch_events k filename service_name probe (k.reads watch_mask)

-- Where the file is not there at first.
unfoldable pub watch_dir : Kernel → Text → Text → Bool → Watched
unfolding path_parent path_file_name watch_created watch_mask
watch_dir k path service_name probe = elim (path_parent path) [
  | none ↦ nothing_sent failed
  | some parent ↦ elim (path_file_name path) [
    | none ↦ nothing_sent failed
    | some filename ↦
        if k.init && k.add_watch parent watch_mask
        then watch_created k filename service_name probe
        else nothing_sent failed
  ]
]

unfoldable pub watch_once : Kernel → Text → Text → Bool → Watched
unfolding signal watch_dir
watch_once k path service_name probe =
    if k.exists_first then signal k service_name probe else watch_dir k path service_name probe

-- The bodies of the two threads.
unfoldable pub watch_pidfile : Kernel → Text → Text → Watched
unfolding watch_once
watch_pidfile k path service_name = watch_once k path service_name false

unfoldable pub watch_socket : Kernel → Text → Text → Watched
unfolding watch_once
watch_socket k path service_name = watch_once k path service_name true
