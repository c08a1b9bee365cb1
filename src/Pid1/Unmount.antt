-- ===== src/Pid1/Unmount.antt =====
-- src/pid1.rs: the order in which the end of process 1 unmounts, and that it syncs.
use flint_init.Prelude.{
  Text, text, text_beq, text_eq, Bool, true, false, ◌&&◌, Option, none, some, List, [], ◌∷◌, ◌++◌,
  ◌≡◌, refl, ap, ◌∙◌, arith, contains-append, contains, if◌then◌else◌, Bool-cases, Option-cases,
  inl, inr,
}
use mathlib.Core.Bool.{Bool-set}
use mathlib.Core.List.{reverse, reverse-cons, append_assoc, Pairwise, Pairwise-reverse}
use flint_init.Prelude.Strings.{starts_with, split_whitespace}
use flint_init.Fstab.{lines, is_root}
use flint_init.Pid1.{
  World, Call, skip_types, autoboot, sync, reboot, mountpoint, mountpoints, umounts, unmount_all,
  exit_mode, supervise_forever,
}

-- The second path leads below the first.
abbrev pub is_below : Text → Text → Bool
is_below dir path = starts_with (dir ++ text "/") path

-- The mount points in the order of the table: none lies above an earlier one.
abbrev pub ParentsFirst : List Text → Type 0
ParentsFirst = Pairwise (λ p q. is_below q p ≡ false)

-- The order of unmounting: none lies below an earlier one.
abbrev pub ChildrenFirst : List Text → Type 0
ChildrenFirst = Pairwise (λ p q. is_below p q ≡ false)

reverse-ChildrenFirst : (ps : List Text) → ParentsFirst ps → ChildrenFirst (reverse ps)
reverse-ChildrenFirst ps h = (Pairwise-reverse (λ p q. Bool-set (is_below p q) false)).1 h

mountpoint-not_root : (ws : List Text) (p : Text) → mountpoint ws ≡ some p → is_root p ≡ false
unfolding mountpoint
mountpoint-not_root (device ∷ point ∷ vfstype ∷ more) p h = elim (Bool-cases (is_root point)) [
  | inl root ↦ let no : none ≡ some p = rw (mountpoint, root) at h in absurd (ground (arith, no))
  | inr other ↦ elim (Bool-cases (contains skip_types vfstype)) [
    | inl skip ↦
        let no : none ≡ some p = rw (mountpoint, other, skip) at h in absurd (ground (arith, no))
    | inr keep ↦
        let same : some point ≡ some p = rw (mountpoint, other, keep) at h in
        let point_p : point ≡ p = ground (arith, same) in rw⁻¹ point_p other
  ]
]
mountpoint-not_root (device ∷ point ∷ []) p h = absurd (ground (arith, h))
mountpoint-not_root (device ∷ []) p h = absurd (ground (arith, h))
mountpoint-not_root [] p h = absurd (ground (arith, h))

mountpoints-not_root : (ls : List Text) → contains (mountpoints ls) (text "/") ≡ false
unfolding mountpoints contains
mountpoints-not_root [] = refl
mountpoints-not_root (l ∷ ls) = elim (Option-cases (mountpoint (split_whitespace l))) [
  | inl e ↦ rw (mountpoints, e) (mountpoints-not_root ls)
  | inr (p, e) ↦
      let other : text_beq p (text "/") ≡ false = mountpoint-not_root (split_whitespace l) p e in
      rw (mountpoints, e, contains, other) (mountpoints-not_root ls)
]

contains-reverse : (ps : List Text) (p : Text) → contains (reverse ps) p ≡ contains ps p
unfolding contains
contains-reverse [] p = refl
contains-reverse (q ∷ ps) p = ground (
  arith,
  ap (λ xs. contains xs p) (reverse-cons q ps),
  contains-append (reverse ps) (q ∷ []) p,
  contains-reverse ps p,
)

-- Where the table of mounts can be read and lists no file system above one that it lists earlier,
-- the end of process 1 unmounts no file system before those below it, never the root, and then
-- syncs.
pub unmount_all_lem :
    (w : World) (table : Text)
    → w.read (text "/proc/mounts") ≡ some table
    → ParentsFirst (mountpoints (lines table))
    → (paths : List Text) × (unmount_all w ≡ umounts paths ++ sync ∷ [])
      × ChildrenFirst paths
      × (contains paths (text "/") ≡ false)
unfolding unmount_all
unmount_all_lem w table e ordered =
    let points = mountpoints (lines table) in
    (
      reverse points,
      rw (unmount_all, e) refl,
      reverse-ChildrenFirst points ordered,
      contains-reverse points (text "/") ∙ mountpoints-not_root (lines table),
    )

-- Each call of `reboot` comes directly after a `sync`; the flag tells whether the call before was one.
abbrev pub synced : Bool → List Call → Bool
synced before [] = true
synced before (reboot mode ∷ calls) = before && synced false calls
synced before (sync ∷ calls) = synced true calls
synced before (_ ∷ calls) = synced false calls

synced-umounts :
    (ps : List Text) (calls : List Call) (before : Bool)
    → synced before (umounts ps ++ sync ∷ calls) ≡ synced true calls
unfolding umounts
synced-umounts [] calls before = refl
synced-umounts (p ∷ ps) calls before = synced-umounts ps calls false

synced-unmount_all :
    (w : World) (table : Text) (calls : List Call) (before : Bool)
    → w.read (text "/proc/mounts") ≡ some table
    → synced before (unmount_all w ++ calls) ≡ synced true calls
unfolding unmount_all
synced-unmount_all w table calls before e =
    let points = mountpoints (lines table) in
    ap
      (λ o. synced before (
        (elim o [ none ↦ [] | some t ↦ umounts (reverse (mountpoints (lines t))) ++ sync ∷ [] ])
        ++ calls))
      e
    ∙ (ap (synced before) (append_assoc (umounts (reverse points)) (sync ∷ []) calls)
        ∙ synced-umounts (reverse points) calls before)

-- Where the table of mounts can be read, the system is never halted or rebooted but directly after a
-- `sync`, whatever the environment asks for and whichever call of `reboot` fails.
pub supervise_forever-synced :
    (w : World) (table : Text) (on_exit : Option Text) (wants_reboot : Bool)
    → w.read (text "/proc/mounts") ≡ some table
    → synced false (supervise_forever w on_exit wants_reboot) ≡ true
unfolding supervise_forever
supervise_forever-synced w table on_exit false e =
    synced-unmount_all w table (reboot (exit_mode on_exit) ∷ []) false e
supervise_forever-synced w table on_exit true e =
    let end = unmount_all w ++ reboot (exit_mode on_exit) ∷ [] in
    synced-unmount_all w table (reboot autoboot ∷ (if w.reboots autoboot then [] else end)) false e
    ∙ again (w.reboots autoboot)
  where
    again :
        (done : Bool)
        → synced false (if done then [] else unmount_all w ++ reboot (exit_mode on_exit) ∷ [])
          ≡ true
    again true = refl
    again false = synced-unmount_all w table (reboot (exit_mode on_exit) ∷ []) false e
