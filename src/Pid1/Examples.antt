-- ===== src/Pid1/Examples.antt =====
-- src/pid1.rs: a machine with one file of tmpfiles.d and two file systems, one below the other.
use flint_init.Prelude.{
  Text, text, text_beq, text_eq, true, false, none, some, List, [], ◌∷◌, ◌++◌, ◌≡◌, refl, contains,
  if◌then◌else◌,
}
use mathlib.Core.Bool.{Bool-set}
use mathlib.Core.List.{Pairwise-pair}
use flint_init.Prelude.Strings.{
  split_whitespace, is_whitespace, trim, split, starts_with, path_join,
}
use flint_init.Fstab.{lines}
use flint_init.Pid1.{
  World, make_dir, umount, sync, reboot, halt_system, mounted, busy, apply_tmpfiles, parse_octal,
  mountpoints, umounts, unmount_all, setup, supervise_forever,
}
use flint_init.Pid1.Tmpfiles.Declared.{AllDeclared, apply_tmpfiles-AllDeclared}
use flint_init.Pid1.Setup.{
  dirs_after_run, setup-dirs_after_run, can_set_up, targets, all_targets, setup_lem,
}
use flint_init.Pid1.Unmount.{
  is_below, ParentsFirst, ChildrenFirst, unmount_all_lem, synced, supervise_forever-synced,
}

abbrev table : Text
table =
    text
      "/dev/sda1 / ext4 rw 0 0\n/dev/sda2 /home ext4 rw 0 0\n/dev/sdb1 /home/media ext4 rw 0 0\nproc /proc proc rw 0 0\n"

abbrev pub machine : World
machine = record {
  pid = 1;
  creates = λ path. true;
  mounts = λ target. if text_beq target (text "/dev") then busy else mounted;
  list =
      λ path. if text_beq path (text "/etc/tmpfiles.d") then some (text "dbus.conf" ∷ []) else none;
  read = λ path.
      if text_beq path (text "/proc/mounts")
      then some table
      else if text_beq path (text "/etc/tmpfiles.d/dbus.conf")
      then some (text "# dbus\nd /run/dbus 0750 root root -\nD /run/lock - - - -\n")
      else none;
  kmsg = true;
  reboots = λ mode. false;
}

program : Unit {0}
unfolding apply_tmpfiles parse_octal text_beq split_whitespace trim split starts_with is_whitespace
    path_join lines mountpoints contains unmount_all supervise_forever umounts
program = tt

makes_dirs :
    apply_tmpfiles machine
    ≡ make_dir (text "/run/dbus") 0o750 ∷ make_dir (text "/run/lock") 0o755 ∷ []
unfolding program
makes_dirs = refl

ends :
    supervise_forever machine none false
    ≡ umount (text "/home/media") ∷ umount (text "/home") ∷ sync ∷ reboot halt_system ∷ []
unfolding program
ends = refl

reads : machine.read (text "/proc/mounts") ≡ some table
unfolding program
reads = refl

points : mountpoints (lines table) ≡ text "/home" ∷ text "/home/media" ∷ []
unfolding program
points = refl

ordered : ParentsFirst (mountpoints (lines table))
unfolding program
ordered = (Pairwise-pair (λ p q. Bool-set (is_below q p) false)).1 refl

apply_tmpfiles-AllDeclared_example : AllDeclared machine (apply_tmpfiles machine)
apply_tmpfiles-AllDeclared_example = apply_tmpfiles-AllDeclared machine

setup-dirs_after_run_example : dirs_after_run machine false (setup machine).calls ≡ true
setup-dirs_after_run_example = setup-dirs_after_run machine

setup_example :
    ((setup machine).ok ≡ can_set_up machine)
    × ((setup machine).ok ≡ true → targets (setup machine).calls ≡ all_targets machine)
setup_example = setup_lem machine refl

unmount_all_example :
    (paths : List Text) × (unmount_all machine ≡ umounts paths ++ sync ∷ [])
    × ChildrenFirst paths
    × (contains paths (text "/") ≡ false)
unmount_all_example = unmount_all_lem machine table reads ordered

supervise_forever-synced_example :
    synced false (supervise_forever machine (some (text "reboot")) true) ≡ true
supervise_forever-synced_example =
    supervise_forever-synced machine table (some (text "reboot")) true reads
