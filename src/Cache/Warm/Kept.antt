-- ===== src/Cache/Warm/Kept.antt =====
-- src/cache.rs: the entries that a load leaves are those of files that are there.
use flint_init.Prelude.{
  ℕ, Text, text_beq, text_eq, text_refl, Bool, true, ◌&&◌, some, List, [], ◌∷◌, ◌≡◌, refl, sym, ap,
  ◌∙◌, arith, contains, Bool-cases, Option-cases, inl, inr, subst, nat_eq,
}
use flint_init.Service.{ServiceDef}
use flint_init.Cache.{
  ManifestEntry, DirEntry, Disk, names, retain, refresh, since_epoch, mtime_of, is_time, upsert,
  parse_toml, build_entries,
}
use flint_init.Cache.Fresh.{time_on_disk}
use flint_init.Cache.Warm.{IsWarm}

-- All entries are of these files.
abbrev pub all_kept : List Text → List ManifestEntry → Bool
all_kept on_disk [] = true
all_kept on_disk (e ∷ es) = contains on_disk e.filename && all_kept on_disk es

pub retain-all_kept :
    (on_disk : List Text) (es : List ManifestEntry)
    → all_kept on_disk es ≡ true
    → retain on_disk es ≡ es
unfolding retain
retain-all_kept on_disk [] h = refl
retain-all_kept on_disk (e ∷ es) h =
    let here : contains on_disk e.filename ≡ true = ground (arith, h) in
    rw (retain, here) (ap (λ rest. e ∷ rest) (retain-all_kept on_disk es (ground (arith, h))))

pub all_kept-retain :
    (on_disk : List Text) (es : List ManifestEntry) → all_kept on_disk (retain on_disk es) ≡ true
unfolding retain
all_kept-retain on_disk [] = refl
all_kept-retain on_disk (e ∷ es) = ground (arith, all_kept-retain on_disk es)

all_kept-upsert :
    (on_disk : List Text) (f : Text) (secs : ℕ) (def : ServiceDef) (es : List ManifestEntry)
    → contains on_disk f ≡ true
    → all_kept on_disk es ≡ true
    → all_kept on_disk (upsert f secs def es) ≡ true
unfolding upsert
all_kept-upsert on_disk f secs def [] here h = ground (arith, here)
all_kept-upsert on_disk f secs def (e ∷ es) here h =
    ground (arith, here, h, all_kept-upsert on_disk f secs def es here)

pub refresh-all_kept :
    (on_disk : List Text) (disk : Disk) (dir : Text) (files : List DirEntry)
    (entries : List ManifestEntry) (changed : Bool) (result : List ManifestEntry × Bool)
    → ((f : Text) → contains (names files) f ≡ true → contains on_disk f ≡ true)
    → all_kept on_disk entries ≡ true
    → refresh disk dir files entries changed ≡ some result
    → all_kept on_disk result.0 ≡ true
unfolding refresh contains
refresh-all_kept on_disk disk dir [] entries changed result known h q = ground (arith, h, q)
refresh-all_kept on_disk disk dir (e ∷ es) entries changed result known h q =
    let later : ((f : Text) → contains (names es) f ≡ true → contains on_disk f ≡ true) =
      λ f here. known f (ground (arith, here)) in
    elim (Option-cases (since_epoch e.mtime)) [
      | inl t ↦ absurd (ground (arith, q, t))
      | inr (secs, t) ↦ elim (Bool-cases (is_time (mtime_of entries e.name) secs)) [
        | inl same ↦
            refresh-all_kept on_disk disk dir es entries changed result later h
              (subst (λ o. o ≡ some result) (rw (refresh, t, same) refl) q)
        | inr stale ↦ elim (Option-cases (parse_toml disk dir e.name)) [
          | inl p ↦ absurd (ground (arith, q, t, stale, p))
          | inr (def, p) ↦
              refresh-all_kept on_disk disk dir es (upsert e.name secs def entries) true result
                later
                (all_kept-upsert on_disk e.name secs def entries
                  (known e.name (ground (arith, text_refl e.name))) h)
                (subst (λ o. o ≡ some result) (rw (refresh, t, stale, p) refl) q)
        ]
      ]
    ]

cons-IsWarm :
    (e : DirEntry) (es : List DirEntry) (entry : ManifestEntry) (rest : List ManifestEntry)
    → entry.filename ≡ e.name
    → since_epoch e.mtime ≡ some entry.mtime_secs
    → IsWarm es rest
    → IsWarm (e ∷ es) (entry ∷ rest)
unfolding time_on_disk mtime_of
cons-IsWarm e es entry rest name q warm f t h = elim (Bool-cases (text_beq e.name f)) [
  | inl same ↦
      let time : e.mtime ≡ t = ground (arith, h, same) in
      (
        entry.mtime_secs,
        ap since_epoch (sym time) ∙ q,
        ground (arith, ap (λ n. text_beq n f) name, same),
      )
  | inr other ↦
      let (secs, s, m) = warm f t (ground (arith, h, other)) in
      (secs, s, ground (arith, ap (λ n. text_beq n f) name, other, m))
]

-- What `build_entries` gives has the times of the files and no other entries.
pub build_entries-IsWarm :
    (on_disk : List Text) (disk : Disk) (dir : Text) (files : List DirEntry)
    (entries : List ManifestEntry)
    → ((f : Text) → contains (names files) f ≡ true → contains on_disk f ≡ true)
    → build_entries disk dir files ≡ some entries
    → IsWarm files entries × (all_kept on_disk entries ≡ true)
unfolding build_entries contains time_on_disk
build_entries-IsWarm on_disk disk dir [] entries known h =
    (λ f t no. absurd (ground (arith, no)), ground (arith, h))
build_entries-IsWarm on_disk disk dir (e ∷ es) entries known h =
    elim (Option-cases (since_epoch e.mtime)) [
      | inl t ↦ absurd (ground (arith, h, t))
      | inr (secs, t) ↦ elim (Option-cases (parse_toml disk dir e.name)) [
        | inl p ↦ absurd (ground (arith, h, t, p))
        | inr (def, p) ↦ elim (Option-cases (build_entries disk dir es)) [
          | inl q ↦ absurd (ground (arith, h, t, p, q))
          | inr (rest, q) ↦
              let (warm, kept) =
                build_entries-IsWarm on_disk disk dir es rest
                  (λ f here. known f (ground (arith, here))) q in
              let entry : ManifestEntry = record {
                filename = e.name;
                mtime_secs = secs;
                def = def;
              } in
              let all : entry ∷ rest ≡ entries = ground (arith, h, t, p, q) in
              let here : contains on_disk e.name ≡ true =
                known e.name (ground (arith, text_refl e.name)) in
              (
                subst (IsWarm (e ∷ es)) all (cons-IsWarm e es entry rest refl t warm),
                ap (all_kept on_disk) (sym all) ∙ ground (arith, here, kept),
              )
        ]
      ]
    ]
