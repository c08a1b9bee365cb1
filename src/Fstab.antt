-- ===== src/Fstab.antt =====
-- src/fstab.rs: the table of file systems and the mounts that it asks for. `MsFlags` of the crate
-- `nix` is a record of the bits that the source sets.
pub mod Mounts
pub mod Flags
pub mod Examples
use flint_init.Prelude.{
  ℕ, Text, text, text_beq, text_eq, nat_eq, ◌==◌, Bool, true, false, ◌&&◌, ◌||◌, not, Option, none,
  some, List, [], ◌∷◌, ◌++◌, contains, if◌then◌else◌,
}
use flint_init.Prelude.Strings.{
  starts_with, strip_prefix, split, join, trim, trim_start, split_whitespace, path_join,
}

pub record FstabEntry : Type 0 where
  pub spec : Text
  pub file : Text
  pub vfstype : Text
  pub options : Text

abbrev pub virtual_types : List Text
virtual_types =
    text "proc"
    ∷ text "sysfs"
    ∷ text "devtmpfs"
    ∷ text "devpts"
    ∷ text "tmpfs"
    ∷ text "cgroup"
    ∷ text "cgroup2"
    ∷ text "efivarfs"
    ∷ text "bpf"
    ∷ text "debugfs"
    ∷ text "pstore"
    ∷ text "securityfs"
    ∷ text "hugetlbfs"
    ∷ text "mqueue"
    ∷ text "tracefs"
    ∷ text "fusectl"
    ∷ text "rootfs"
    ∷ []

-- A line without the `\r` before its `\n`.
unfoldable pub strip_cr : Text → Text
strip_cr [] = []
strip_cr (c ∷ []) = if c == 13 then [] else c ∷ []
strip_cr (c ∷ d ∷ s) = c ∷ strip_cr (d ∷ s)

-- The pieces between the `\n`s as lines: the last one counts only where it is not empty.
unfoldable pub lines_of : List Text → List Text
unfolding strip_cr
lines_of [] = []
lines_of (l ∷ []) = elim l [ [] ↦ [] | c ∷ s ↦ (c ∷ s) ∷ [] ]
lines_of (l ∷ m ∷ ls) = strip_cr l ∷ lines_of (m ∷ ls)

-- `str::lines`.
unfoldable pub lines : Text → List Text
unfolding lines_of split
lines s = lines_of (split 10 s)

-- Neither a comment nor blank.
unfoldable pub is_entry : Text → Bool
unfolding starts_with trim trim_start text_beq
is_entry line = not (starts_with (text "#") (trim_start line)) && not (text_beq (trim line) [])

unfoldable pub parse_line : Text → Option FstabEntry
unfolding split_whitespace
parse_line line = elim (split_whitespace line) [
  | spec ∷ file ∷ vfstype ∷ options ∷ more ↦
      some (record { spec = spec; file = file; vfstype = vfstype; options = options })
  | _ ↦ none
]

unfoldable pub parse_lines : List Text → List FstabEntry
unfolding is_entry parse_line
parse_lines [] = []
parse_lines (l ∷ ls) =
    let rest = parse_lines ls in
    if is_entry l then elim (parse_line l) [ none ↦ rest | some entry ↦ entry ∷ rest ] else rest

unfoldable pub parse_fstab : Text → List FstabEntry
unfolding parse_lines lines
parse_fstab content = parse_lines (lines content)

-- `map(trim)` over the options.
unfoldable pub trimmed : List Text → List Text
unfolding trim
trimmed [] = []
trimmed (o ∷ os) = trim o ∷ trimmed os

-- The options of an entry.
unfoldable pub options_of : Text → List Text
unfolding split trimmed
options_of options = trimmed (split 44 options)

unfoldable pub is_virtual : Text → Bool
unfolding contains text_beq
is_virtual vfstype = contains virtual_types vfstype

unfoldable pub is_noauto : Text → Bool
unfolding contains text_beq options_of
is_noauto options = contains (options_of options) (text "noauto")

unfoldable pub is_root : Text → Bool
unfolding text_beq
is_root file = text_beq file (text "/")

unfoldable pub should_mount : FstabEntry → Bool
should_mount entry =
    if is_root entry.file
    then false
    else if is_noauto entry.options
    then false
    else not (is_virtual entry.vfstype)

unfoldable pub resolve_spec : Text → Text
unfolding strip_prefix path_join
resolve_spec spec = elim (strip_prefix (text "UUID=") spec) [
  | some uuid ↦ path_join (text "/dev/disk/by-uuid") uuid
  | none ↦ elim (strip_prefix (text "LABEL=") spec) [
    | some label ↦ path_join (text "/dev/disk/by-label") label
    | none ↦ spec
  ]
]

-- The flags of `MsFlags` that an option can set.
pub data MsFlag : Type 0 where
  rdonly noexec nosuid nodev relatime strictatime synchronous : MsFlag

abbrev pub flag_text : MsFlag → Text
flag_text rdonly = text "ro"
flag_text noexec = text "noexec"
flag_text nosuid = text "nosuid"
flag_text nodev = text "nodev"
flag_text relatime = text "relatime"
flag_text strictatime = text "strictatime"
flag_text synchronous = text "sync"

-- `MsFlags`, as far as it is set here.
pub record MsFlags : Type 0 where
  pub rdonly_set : Bool
  pub noexec_set : Bool
  pub nosuid_set : Bool
  pub nodev_set : Bool
  pub relatime_set : Bool
  pub strictatime_set : Bool
  pub synchronous_set : Bool

-- `MsFlags::empty()`.
abbrev pub no_flags : MsFlags
no_flags = record {
  rdonly_set = false;
  noexec_set = false;
  nosuid_set = false;
  nodev_set = false;
  relatime_set = false;
  strictatime_set = false;
  synchronous_set = false;
}

-- `contains` of one flag.
unfoldable pub has_flag : MsFlags → MsFlag → Bool
has_flag flags rdonly = flags.rdonly_set
has_flag flags noexec = flags.noexec_set
has_flag flags nosuid = flags.nosuid_set
has_flag flags nodev = flags.nodev_set
has_flag flags relatime = flags.relatime_set
has_flag flags strictatime = flags.strictatime_set
has_flag flags synchronous = flags.synchronous_set

-- `flags |= f`.
unfoldable pub set_flag : MsFlag → MsFlags → MsFlags
set_flag rdonly flags = record flags { rdonly_set = true }
set_flag noexec flags = record flags { noexec_set = true }
set_flag nosuid flags = record flags { nosuid_set = true }
set_flag nodev flags = record flags { nodev_set = true }
set_flag relatime flags = record flags { relatime_set = true }
set_flag strictatime flags = record flags { strictatime_set = true }
set_flag synchronous flags = record flags { synchronous_set = true }

-- What one trimmed option is: a flag, a word without effect, or data of the file system.
pub data OptionKind : Type 0 where
  flag : MsFlag → OptionKind
  ignored data_item : OptionKind

unfoldable pub kind_of : Text → OptionKind
unfolding text_beq contains
kind_of o =
    if text_beq o (text "ro")
    then flag rdonly
    else if contains (text "rw" ∷ text "defaults" ∷ text "auto" ∷ text "noauto" ∷ []) o
    then ignored
    else if text_beq o (text "noexec")
    then flag noexec
    else if text_beq o (text "nosuid")
    then flag nosuid
    else if text_beq o (text "nodev")
    then flag nodev
    else if text_beq o (text "relatime")
    then flag relatime
    else if text_beq o (text "strictatime")
    then flag strictatime
    else if text_beq o (text "sync")
    then flag synchronous
    else if text_beq o []
    then ignored
    else data_item

-- The loop over the options, with the flags and the data so far.
unfoldable pub sort_options : List Text → MsFlags → List Text → MsFlags × List Text
unfolding kind_of set_flag
sort_options [] flags data_items = (flags, data_items)
sort_options (o ∷ os) flags data_items = elim (kind_of o) [
  | flag f ↦ sort_options os (set_flag f flags) data_items
  | ignored ↦ sort_options os flags data_items
  | data_item ↦ sort_options os flags (data_items ++ o ∷ [])
]

unfoldable pub parse_flags : Text → MsFlags × Text
unfolding sort_options options_of join
parse_flags options =
    let (flags, data_items) = sort_options (options_of options) no_flags [] in
    (flags, join (text ",") data_items)

-- One call of `mount`.
pub record Mount : Type 0 where
  pub device : Text
  pub file : Text
  pub vfstype : Text
  pub flags : MsFlags
  pub fs_data : Option Text

unfoldable pub mount_of : FstabEntry → Mount
unfolding resolve_spec parse_flags
mount_of entry =
    let (flags, fs_data) = parse_flags entry.options in
    record {
      device = resolve_spec entry.spec;
      file = entry.file;
      vfstype = entry.vfstype;
      flags = flags;
      fs_data = elim fs_data [ [] ↦ none | c ∷ s ↦ some (c ∷ s) ];
    }

-- The loop over the entries. Its effects are the calls of `mount`, each after the directory of its
-- file is made; an error of either is printed only.
unfoldable pub mount_entries : List FstabEntry → List Mount
unfolding should_mount mount_of
mount_entries [] = []
mount_entries (e ∷ es) =
    let rest = mount_entries es in if should_mount e then mount_of e ∷ rest else rest

-- The table is `none` where it cannot be read.
unfoldable pub mount_all : Option Text → List Mount
unfolding parse_fstab mount_entries
mount_all none = []
mount_all (some content) = mount_entries (parse_fstab content)
