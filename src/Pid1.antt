-- ===== src/Pid1.antt =====
-- src/pid1.rs: the set-up of process 1 and its end. A function gives the system calls that it makes,
-- in their order; what they answer, the files and the environment are the parameter `World`.
pub mod Tmpfiles
pub mod Setup
pub mod Unmount
pub mod Examples
use flint_init.Prelude.{
  ℕ, ◌+◌, ◌-◌, ◌*◌, ◌^◌, Text, text, text_beq, text_eq, nat_eq, ◌==◌, Bool, true, false, ◌&&◌, ◌||◌,
  not, Option, none, some, List, [], ◌∷◌, ◌++◌, contains, leb, ltb, if◌then◌else◌,
}
use mathlib.Core.List.{reverse}
use flint_init.Prelude.Map
use flint_init.Prelude.Strings.{starts_with, trim, split_whitespace, path_join}
use flint_init.Cache.{ends_with}
use flint_init.Fstab.{Mount, lines, is_root, mount_all}

pub data RebootMode : Type 0 where
  halt_system autoboot : RebootMode

-- A system call, or what stands for a few of them.
pub data Call : Type 0 where
  create_dir_all : (path : Text) → Call
  mount : (source target fstype : Text) → (options : Option Text) → Call
  make_dir : (path : Text) → (mode : ℕ) → Call
  symlink : (original link : Text) → Call
  redirect_stderr : Call
  mount_entry : Mount → Call
  umount : (path : Text) → Call
  sync : Call
  reboot : RebootMode → Call

pub data MountResult : Type 0 where
  mounted busy mount_failed : MountResult

pub record World : Type 0 where
  pub pid : ℕ
  pub creates : Text → Bool
  pub mounts : (target : Text) → MountResult
  pub list : Text → Option (List Text)
  pub read : Text → Option Text
  pub kmsg : Bool
  pub reboots : RebootMode → Bool

-- The digits of a number to the base 8; `none` where one is none, or the number needs more than 32
-- bits.
unfoldable pub octal_digits : ℕ → Text → Option ℕ
octal_digits n [] = some n
octal_digits n (c ∷ cs) =
    let m = n * 8 + (c - 48) in
    let rest = octal_digits m cs in if leb 48 c && (leb c 55 && ltb m (2 ^ 32)) then rest else none

unfoldable pub digits_or_none : Text → Option ℕ
unfolding octal_digits
digits_or_none [] = none
digits_or_none (c ∷ cs) = octal_digits 0 (c ∷ cs)

-- `u32::from_str_radix(m, 8)`.
unfoldable pub parse_octal : Text → Option ℕ
unfolding digits_or_none
parse_octal [] = none
parse_octal (c ∷ cs) = if c == 43 then digits_or_none cs else digits_or_none (c ∷ cs)

-- The third word of a line, where it is a mode.
unfoldable pub mode_of : List Text → ℕ
unfolding parse_octal
mode_of [] = 0o755
mode_of (m ∷ more) = Map.unwrap_or (parse_octal m) 0o755

-- The words of a line that declares a directory.
unfoldable pub directory_of : List Text → Option Call
unfolding text_beq mode_of
directory_of (kind ∷ dir_path ∷ parts) =
    if text_beq kind (text "d") || text_beq kind (text "D")
    then some (make_dir dir_path (mode_of parts))
    else none
directory_of _ = none

-- The body of the loop over the lines of a file.
unfoldable pub apply_line : Text → List Call
unfolding trim starts_with text_beq split_whitespace directory_of
apply_line line =
    let line = trim line in
    if starts_with (text "#") line || text_beq line []
    then []
    else elim (directory_of (split_whitespace line)) [ none ↦ [] | some call ↦ call ∷ [] ]

unfoldable pub apply_lines : List Text → List Call
unfolding apply_line
apply_lines [] = []
apply_lines (l ∷ ls) = apply_line l ++ apply_lines ls

-- The extension of a file is `conf`.
unfoldable pub is_conf : Text → Bool
unfolding ends_with
is_conf [] = false
is_conf (c ∷ cs) = ends_with (text ".conf") cs

-- The loop over the entries of a directory.
unfoldable pub apply_files : World → Text → List Text → List Call
unfolding is_conf path_join apply_lines lines
apply_files w conf_dir [] = []
apply_files w conf_dir (name ∷ names) =
    let rest = apply_files w conf_dir names in
    if is_conf name
    then elim (w.read (path_join conf_dir name)) [
      | none ↦ rest
      | some content ↦ apply_lines (lines content) ++ rest
    ]
    else rest

unfoldable pub apply_dirs : World → List Text → List Call
unfolding apply_files
apply_dirs w [] = []
apply_dirs w (conf_dir ∷ dirs) = elim (w.list conf_dir) [
  | none ↦ apply_dirs w dirs
  | some names ↦ apply_files w conf_dir names ++ apply_dirs w dirs
]

abbrev pub conf_dirs : List Text
conf_dirs = text "/usr/lib/tmpfiles.d" ∷ text "/etc/tmpfiles.d" ∷ []

unfoldable pub apply_tmpfiles : World → List Call
unfolding apply_dirs
apply_tmpfiles w = apply_dirs w conf_dirs

-- The calls so far, and whether no error has ended the set-up.
pub record Steps : Type 0 where
  pub calls : List Call
  pub ok : Bool

-- `?` between two parts.
unfoldable pub and_then : Steps → Steps → Steps
and_then first next = record {
  calls = if first.ok then first.calls ++ next.calls else first.calls;
  ok = first.ok && next.ok;
}

unfoldable pub always : List Call → Steps
always calls = record { calls = calls; ok = true }

unfoldable pub create : World → Text → Steps
create w path = record { calls = create_dir_all path ∷ []; ok = w.creates path }

abbrev pub is_fine : MountResult → Bool
is_fine mount_failed = false
is_fine _ = true

-- A mount after its directory; a file system that is mounted already is no error.
unfoldable pub mount_required : World → (fstype target : Text) → Option Text → Steps
unfolding and_then create
mount_required w fstype target options =
    and_then (create w target)
      (record { calls = mount fstype target fstype options ∷ []; ok = is_fine (w.mounts target) })

-- The mount of the control groups, whose error is printed only.
unfoldable pub mount_optional : World → (fstype target : Text) → Steps
unfolding and_then create always
mount_optional w fstype target =
    and_then (create w target) (always (mount fstype target fstype none ∷ []))

abbrev pub symlinks : List Call
symlinks =
    symlink (text "/proc/self/fd") (text "/dev/fd")
    ∷ symlink (text "/proc/self/fd/0") (text "/dev/stdin")
    ∷ symlink (text "/proc/self/fd/1") (text "/dev/stdout")
    ∷ symlink (text "/proc/self/fd/2") (text "/dev/stderr")
    ∷ []

abbrev pub entries_of : List Mount → List Call
entries_of [] = []
entries_of (m ∷ ms) = mount_entry m ∷ entries_of ms

-- From the symbolic links on.
unfoldable pub last_steps : World → Steps
unfolding mount_all always
last_steps w = always (
    symlinks
    ++ ((if w.kmsg then redirect_stderr ∷ [] else [])
        ++ entries_of (mount_all (w.read (text "/etc/fstab")))))

-- From `apply_tmpfiles` on.
unfoldable pub after_run : World → Steps
unfolding and_then mount_required mount_optional apply_tmpfiles always last_steps
after_run w = and_then (always (apply_tmpfiles w)) (
    and_then (mount_optional w (text "cgroup2") (text "/sys/fs/cgroup"))
      (and_then (mount_required w (text "devtmpfs") (text "/dev") none) (last_steps w)))

abbrev pub run_options : Option Text
run_options = some (text "mode=755,size=128m")

unfoldable pub setup_steps : World → Steps
unfolding and_then mount_required after_run
setup_steps w = and_then (mount_required w (text "proc") (text "/proc") none) (
    and_then (mount_required w (text "sysfs") (text "/sys") none)
      (and_then (mount_required w (text "tmpfs") (text "/run") run_options) (after_run w)))

unfoldable pub setup : World → Steps
unfolding setup_steps always
setup w = if w.pid == 1 then setup_steps w else always []

abbrev pub skip_types : List Text
skip_types =
    text "proc"
    ∷ text "sysfs"
    ∷ text "devtmpfs"
    ∷ text "devpts"
    ∷ text "cgroup"
    ∷ text "cgroup2"
    ∷ text "tmpfs"
    ∷ text "efivarfs"
    ∷ text "bpf"
    ∷ text "debugfs"
    ∷ text "pstore"
    ∷ text "securityfs"
    ∷ text "hugetlbfs"
    ∷ text "mqueue"
    ∷ text "tracefs"
    ∷ text "fusectl"
    ∷ text "rootfs"
    ∷ []

-- The mount point of a line of `/proc/mounts`, and whether it is unmounted.
unfoldable pub mountpoint : List Text → Option Text
unfolding is_root contains text_beq
mountpoint (device ∷ point ∷ vfstype ∷ more) =
    if is_root point then none else if contains skip_types vfstype then none else some point
mountpoint _ = none

unfoldable pub mountpoints : List Text → List Text
unfolding mountpoint split_whitespace
mountpoints [] = []
mountpoints (l ∷ ls) = elim (mountpoint (split_whitespace l)) [
  | none ↦ mountpoints ls
  | some path ↦ path ∷ mountpoints ls
]

unfoldable pub umounts : List Text → List Call
umounts [] = []
umounts (path ∷ paths) = umount path ∷ umounts paths

unfoldable pub unmount_all : World → List Call
unfolding umounts mountpoints lines
unmount_all w = elim (w.read (text "/proc/mounts")) [
  | none ↦ []
  | some mounts ↦ umounts (reverse (mountpoints (lines mounts))) ++ sync ∷ []
]

-- The value of FLINT_ON_EXIT decides how the system ends.
unfoldable pub exit_mode : Option Text → RebootMode
unfolding text_beq
exit_mode none = halt_system
exit_mode (some v) = if text_beq v (text "reboot") then autoboot else halt_system

-- The calls of `supervise_forever` before its last loop, which only reaps; a call of `reboot` that
-- succeeds does not return.
unfoldable pub supervise_forever : World → Option Text → Bool → List Call
unfolding unmount_all exit_mode
supervise_forever w on_exit wants_reboot =
    let end = unmount_all w ++ reboot (exit_mode on_exit) ∷ [] in
    if wants_reboot
    then unmount_all w ++ (reboot autoboot ∷ (if w.reboots autoboot then [] else end))
    else end
