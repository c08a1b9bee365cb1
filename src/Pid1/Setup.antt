-- ===== src/Pid1/Setup.antt =====
-- src/pid1.rs: what `setup` mounts, and when it makes the directories of tmpfiles.d.
use flint_init.Prelude.{
  Text, text, text_beq, Bool, true, false, ◌&&◌, ◌||◌, Option, none, List, [], ◌∷◌, ◌++◌, ◌≡◌, refl,
  ap, sym, ◌∙◌, arith, nat_eq, ◌==◌, Bool-cases, inl, inr,
}
use mathlib.Core.List.{append_assoc}
use flint_init.Fstab.{Mount, mount_all}
use flint_init.Pid1.{
  World, Call, mount, mount_entry, make_dir, is_fine, Steps, and_then, always, create,
  mount_required, mount_optional, entries_of, last_steps, after_run, run_options, setup_steps,
  setup, apply_tmpfiles,
}
use flint_init.Pid1.Tmpfiles.{only_dirs, apply_tmpfiles-only_dirs}

-- Whether `/run` has a file system after a call.
abbrev pub has_run : World → Bool → Call → Bool
has_run w before (mount source target fstype options) =
    before || (text_beq target (text "/run") && is_fine (w.mounts target))
has_run w before _ = before

-- Whether a call is allowed, where the flag tells whether `/run` has a file system.
abbrev pub dir_allowed : Bool → Call → Bool
dir_allowed before (make_dir path mode) = before
dir_allowed before _ = true

-- Directories of tmpfiles.d are made only where `/run` has a file system.
abbrev pub dirs_after_run : World → Bool → List Call → Bool
dirs_after_run w before [] = true
dirs_after_run w before (call ∷ calls) =
    dir_allowed before call && dirs_after_run w (has_run w before call) calls

has_run-true : (w : World) (call : Call) → has_run w true call ≡ true
has_run-true w (mount source target fstype options) = refl
has_run-true w call = ground arith

dir_allowed-true : (call : Call) → dir_allowed true call ≡ true
dir_allowed-true call = ground arith

dirs_after_run-true : (w : World) (calls : List Call) → dirs_after_run w true calls ≡ true
dirs_after_run-true w [] = refl
dirs_after_run-true w (call ∷ calls) = rw (dir_allowed-true call) (dirs_after_run-true w calls)

-- A part that only mounts, before one that keeps the order.
before_run :
    (w : World) (fstype target : Text) (options : Option Text) (next : Steps)
    → dirs_after_run w false next.calls ≡ true
    → dirs_after_run w false (and_then (mount_required w fstype target options) next).calls ≡ true
unfolding and_then mount_required create
before_run w fstype target options next h =
    elim (Bool-cases (text_beq target (text "/run") && is_fine (w.mounts target))) [
      | inl run ↦ ground (arith, run, h, dirs_after_run-true w next.calls)
      | inr other ↦ ground (arith, other, h)
    ]

at_run :
    (w : World) (fstype : Text) (options : Option Text) (next : Steps)
    → dirs_after_run w false (and_then (mount_required w fstype (text "/run") options) next).calls
      ≡ true
unfolding and_then mount_required create text_beq
at_run w fstype options next = ground (arith, dirs_after_run-true w next.calls)

-- In every run of `setup`, also in one that fails, a directory of tmpfiles.d is made only after a
-- file system has been mounted on /run, or one was there when `setup` came to mount it.
pub setup-dirs_after_run : (w : World) → dirs_after_run w false (setup w).calls ≡ true
unfolding setup setup_steps always
setup-dirs_after_run w = elim (Bool-cases (w.pid == 1)) [
  | inr other ↦ rw (setup, other) refl
  | inl one ↦
      let run =
        and_then (mount_required w (text "tmpfs") (text "/run") run_options) (after_run w) in
      let sys = and_then (mount_required w (text "sysfs") (text "/sys") none) run in
      rw (setup, one)
        (before_run w (text "proc") (text "/proc") none sys (
          before_run w (text "sysfs") (text "/sys") none run
            (at_run w (text "tmpfs") run_options (after_run w))))
]

-- Where the calls mount, in their order.
abbrev pub target_of : Call → List Text
target_of (mount source target fstype options) = target ∷ []
target_of (mount_entry m) = m.file ∷ []
target_of _ = []

abbrev pub targets : List Call → List Text
targets [] = []
targets (call ∷ calls) = target_of call ++ targets calls

abbrev pub files_of : List Mount → List Text
files_of [] = []
files_of (m ∷ ms) = m.file ∷ files_of ms

-- The directories can be made, and the file systems that the set-up insists on can be mounted or are.
abbrev pub can_set_up : World → Bool
can_set_up w =
    (w.creates (text "/proc") && is_fine (w.mounts (text "/proc")))
    && ((w.creates (text "/sys") && is_fine (w.mounts (text "/sys")))
        && ((w.creates (text "/run") && is_fine (w.mounts (text "/run")))
            && (w.creates (text "/sys/fs/cgroup")
                && (w.creates (text "/dev") && is_fine (w.mounts (text "/dev"))))))

setup_steps-ok : (w : World) → (setup_steps w).ok ≡ can_set_up w
unfolding setup_steps and_then mount_required mount_optional create always last_steps after_run
setup_steps-ok w = ground arith

targets-append : (xs ys : List Call) → targets (xs ++ ys) ≡ targets xs ++ targets ys
targets-append [] ys = refl
targets-append (x ∷ xs) ys =
    ap (λ ts. target_of x ++ ts) (targets-append xs ys)
    ∙ sym (append_assoc (target_of x) (targets xs) (targets ys))

targets-entries_of : (ms : List Mount) → targets (entries_of ms) ≡ files_of ms
targets-entries_of [] = refl
targets-entries_of (m ∷ ms) = ap (λ ts. m.file ∷ ts) (targets-entries_of ms)

targets-only_dirs : (calls : List Call) → only_dirs calls ≡ true → targets calls ≡ []
targets-only_dirs [] h = refl
targets-only_dirs (make_dir path mode ∷ calls) h = targets-only_dirs calls (ground (arith, h))
targets-only_dirs (_ ∷ calls) h = absurd (ground (arith, h))

targets-and_then :
    (first next : Steps)
    → first.ok ≡ true
    → targets (and_then first next).calls ≡ targets first.calls ++ targets next.calls
unfolding and_then
targets-and_then first next h = rw (and_then, h) (targets-append first.calls next.calls)

targets-mount_required :
    (w : World) (fstype target : Text) (options : Option Text) (next : Steps)
    → (w.creates target && is_fine (w.mounts target)) ≡ true
    → targets (and_then (mount_required w fstype target options) next).calls
      ≡ target ∷ targets next.calls
unfolding and_then mount_required create
targets-mount_required w fstype target options next h = ground (arith, h)

targets-mount_optional :
    (w : World) (fstype target : Text) (next : Steps)
    → w.creates target ≡ true
    → targets (and_then (mount_optional w fstype target) next).calls ≡ target ∷ targets next.calls
unfolding and_then mount_optional create always
targets-mount_optional w fstype target next h = ground (arith, h)

targets-last_steps :
    (w : World) → targets (last_steps w).calls ≡ files_of (mount_all (w.read (text "/etc/fstab")))
unfolding last_steps always
targets-last_steps w = elim (Bool-cases w.kmsg) [
  | inl e ↦ rw e (targets-entries_of (mount_all (w.read (text "/etc/fstab"))))
  | inr e ↦ rw e (targets-entries_of (mount_all (w.read (text "/etc/fstab"))))
]

abbrev pub all_targets : World → List Text
all_targets w =
    text "/proc"
    ∷ text "/sys"
    ∷ text "/run"
    ∷ text "/sys/fs/cgroup"
    ∷ text "/dev"
    ∷ files_of (mount_all (w.read (text "/etc/fstab")))

targets-after_run :
    (w : World)
    → (w.creates (text "/sys/fs/cgroup")
        && (w.creates (text "/dev") && is_fine (w.mounts (text "/dev"))))
      ≡ true
    → targets (after_run w).calls
      ≡ text "/sys/fs/cgroup" ∷ text "/dev" ∷ files_of (mount_all (w.read (text "/etc/fstab")))
unfolding after_run always
targets-after_run w h =
    let dev = and_then (mount_required w (text "devtmpfs") (text "/dev") none) (last_steps w) in
    let cgroup = and_then (mount_optional w (text "cgroup2") (text "/sys/fs/cgroup")) dev in
    targets-and_then (always (apply_tmpfiles w)) cgroup refl
    ∙ (ap (λ ts. ts ++ targets cgroup.calls)
          (targets-only_dirs (apply_tmpfiles w) (apply_tmpfiles-only_dirs w))
        ∙ (targets-mount_optional w (text "cgroup2") (text "/sys/fs/cgroup") dev (ground (arith, h))
            ∙ ap (λ ts. text "/sys/fs/cgroup" ∷ ts)
                (targets-mount_required w (text "devtmpfs") (text "/dev") none (last_steps w)
                    (ground (arith, h))
                  ∙ ap (λ ts. text "/dev" ∷ ts) (targets-last_steps w))))

targets-setup_steps :
    (w : World) → can_set_up w ≡ true → targets (setup_steps w).calls ≡ all_targets w
unfolding setup_steps
targets-setup_steps w h =
    let run = and_then (mount_required w (text "tmpfs") (text "/run") run_options) (after_run w) in
    let sys = and_then (mount_required w (text "sysfs") (text "/sys") none) run in
    targets-mount_required w (text "proc") (text "/proc") none sys (ground (arith, h))
    ∙ ap (λ ts. text "/proc" ∷ ts)
        (targets-mount_required w (text "sysfs") (text "/sys") none run (ground (arith, h))
          ∙ ap (λ ts. text "/sys" ∷ ts)
              (targets-mount_required w (text "tmpfs") (text "/run") run_options (after_run w)
                  (ground (arith, h))
                ∙ ap (λ ts. text "/run" ∷ ts) (targets-after_run w (ground (arith, h)))))

-- `setup` of process 1 succeeds exactly where each of its directories can be made and each file
-- system but that of the control groups is mounted or can be; and then it has called `mount` for
-- /proc, /sys, /run, /sys/fs/cgroup and /dev in this order, and after them for what the table of file
-- systems asks for.
pub setup_lem :
    (w : World)
    → w.pid ≡ 1
    → ((setup w).ok ≡ can_set_up w)
      × ((setup w).ok ≡ true → targets (setup w).calls ≡ all_targets w)
unfolding setup
setup_lem w h =
    let one : (w.pid == 1) ≡ true = ground (arith, h) in
    let same : setup w ≡ setup_steps w = rw (setup, one) refl in
    let ok : (setup w).ok ≡ can_set_up w = ap (λ (s : Steps). s.ok) same ∙ setup_steps-ok w in
    (ok, λ good. ap (λ (s : Steps). targets s.calls) same ∙ targets-setup_steps w (sym ok ∙ good))
