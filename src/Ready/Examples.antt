-- ===== src/Ready/Examples.antt =====
-- src/ready.rs: a socket that appears while the watcher reads events.
use flint_init.Prelude.{
  Text, text, text_beq, true, false, some, List, [], ◌∷◌, ◌≡◌, refl, inr, if◌then◌else◌,
}
use flint_init.Prelude.Strings.{path_parent, path_file_name}
use flint_init.Ready.{
  EventKind, moved_to, has_kind, kind_beq, watch_mask, FileEvent, Kernel, watch_once, watch_socket,
  is_creation, any_creation, maybe_probe, done,
}
use flint_init.Ready.Timeline.{Holds, IsTimeline, later, watch_once_lem}

abbrev event_of : Text → FileEvent
event_of name = record { name = some name; kind = moved_to }

abbrev kernel : Kernel
kernel = record {
  exists_first = false;
  exists_second = false;
  init = true;
  add_watch = λ parent mask. text_beq parent (text "/run/dbus");
  reads = λ mask.
      if has_kind mask moved_to
      then some (event_of (text "pid") ∷ [])
        ∷ some (event_of (text "lock") ∷ event_of (text "socket") ∷ [])
        ∷ []
      else [];
  connects = false;
  receives = true;
}

program : Unit {0}
unfolding watch_socket path_parent path_file_name is_creation any_creation text_beq maybe_probe
    has_kind kind_beq watch_mask
program = tt

-- The socket is moved into its directory.
reported :
    (mask : List EventKind)
    → has_kind mask moved_to ≡ true
    → Holds (event_of (text "socket")) (kernel.reads mask)
reported mask e = record {
  earlier = (event_of (text "pid") ∷ []) ∷ [];
  before = event_of (text "lock") ∷ [];
  behind = [];
  more = [];
  split = rw e refl;
}

timeline : IsTimeline (text "socket") later kernel
timeline = record {
  first = refl;
  second = refl;
  event = event_of (text "socket");
  named = refl;
  appears = inr refl;
  reported = λ e. reported;
}

parent_is : path_parent (text "/run/dbus/socket") ≡ some (text "/run/dbus")
unfolding program
parent_is = refl

name_is : path_file_name (text "/run/dbus/socket") ≡ some (text "socket")
unfolding program
name_is = refl

sent_once :
    watch_socket kernel (text "/run/dbus/socket") (text "dbus")
    ≡ record { sent = text "dbus" ∷ []; probed = some false; outcome = done }
unfolding program
sent_once = refl

can_watch : kernel.add_watch (text "/run/dbus") watch_mask ≡ true
unfolding program
can_watch = refl

watch_once_example :
    watch_once kernel (text "/run/dbus/socket") (text "dbus") true
    ≡ record { sent = text "dbus" ∷ []; probed = maybe_probe kernel true; outcome = done }
watch_once_example =
    watch_once_lem kernel (text "/run/dbus/socket") (text "/run/dbus") (text "socket") (text "dbus")
      true later parent_is name_is can_watch refl timeline
