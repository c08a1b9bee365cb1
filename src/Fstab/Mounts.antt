-- ===== src/Fstab/Mounts.antt =====
-- src/fstab.rs: which entries of the table are mounted, and where.
use flint_init.Prelude.{
  Text, text, text_beq_iff, text_eq, true, false, some, List, [], ◌∷◌, ◌≡◌, ◌≢◌, ◌⊎◌, refl, arith,
  contains, Bool-cases, inl, inr,
}
use flint_init.Fstab.{
  FstabEntry, Mount, MsFlag, flag_text, has_flag, virtual_types, options_of, resolve_spec, is_root,
  is_noauto, is_virtual, should_mount, mount_of, mount_entries, mount_all, parse_fstab,
}
use flint_init.Fstab.Flags.{parse_flags_lem}

-- An entry that is not to be mounted: the root, what is not automatic, and the virtual types.
abbrev pub LeftOut : FstabEntry → Type 0
LeftOut e =
    (e.file ≡ text "/")
    ⊎ ((contains (options_of e.options) (text "noauto") ≡ true)
        ⊎ (contains virtual_types e.vfstype ≡ true))

-- The mount of an entry: its device, its directory, its type and the flags that it names.
pub record MountOf (e : FstabEntry) (m : Mount) : Type 0 where
  pub device : m.device ≡ resolve_spec e.spec
  pub file : m.file ≡ e.file
  pub vfstype : m.vfstype ≡ e.vfstype
  pub flags : (f : MsFlag) → has_flag m.flags f ≡ contains (options_of e.options) (flag_text f)

-- The mounts are those of the entries that are not left out, one for each and in their order.
pub data Selects : List FstabEntry → List Mount → Type 0 where
  at_end : Selects [] []
  mounts :
      {e : FstabEntry} {m : Mount} {es : List FstabEntry} {ms : List Mount}
      → e.file ≢ text "/"
      → contains (options_of e.options) (text "noauto") ≡ false
      → contains virtual_types e.vfstype ≡ false
      → MountOf e m
      → Selects es ms
      → Selects (e ∷ es) (m ∷ ms)
  leaves :
      {e : FstabEntry} {es : List FstabEntry} {ms : List Mount}
      → LeftOut e
      → Selects es ms
      → Selects (e ∷ es) ms

mount_of-MountOf : (e : FstabEntry) → MountOf e (mount_of e)
unfolding mount_of
mount_of-MountOf e = record {
  device = refl;
  file = refl;
  vfstype = refl;
  flags = λ f. (parse_flags_lem e.options f).0;
}

mount_entries-Selects : (es : List FstabEntry) → Selects es (mount_entries es)
unfolding mount_entries should_mount is_root is_noauto is_virtual
mount_entries-Selects [] = at_end
mount_entries-Selects (e ∷ es) = elim (Bool-cases (is_root e.file)) [
  | inl root ↦
      rw (mount_entries, should_mount, root)
        (leaves (inl ((text_beq_iff e.file (text "/")).0 root)) (mount_entries-Selects es))
  | inr below ↦ elim (Bool-cases (is_noauto e.options)) [
    | inl noauto ↦
        rw (mount_entries, should_mount, below, noauto)
          (leaves (inr (inl noauto)) (mount_entries-Selects es))
    | inr auto ↦ elim (Bool-cases (is_virtual e.vfstype)) [
      | inl found ↦
          rw (mount_entries, should_mount, below, auto, found)
            (leaves (inr (inr found)) (mount_entries-Selects es))
      | inr real ↦
          rw (mount_entries, should_mount, below, auto, real)
            (mounts
              (λ root.
                let is = (text_beq_iff e.file (text "/")).1 root in
                absurd (ground (arith, is, below)))
              auto real (mount_of-MountOf e) (mount_entries-Selects es))
    ]
  ]
]

-- For the entries of a table in their order, exactly those are mounted whose directory is not written
-- `/`, whose options do not name noauto and whose type is not a virtual one; each once, from the
-- device of its specification to its directory, with its type and with the flags that its options
-- name.
pub mount_all_lem : (content : Text) → Selects (parse_fstab content) (mount_all (some content))
unfolding mount_all
mount_all_lem content = mount_entries-Selects (parse_fstab content)
