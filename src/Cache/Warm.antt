-- ===== src/Cache/Warm.antt =====
-- src/cache.rs: the times that a load leaves in the entries.
pub mod Kept
pub mod Again
pub mod Examples
use flint_init.Prelude.{
  ℕ, Text, text_beq, text_beq_iff, text_eq, text_refl, Bool, true, false, ◌&&◌, not, Option, none,
  some, List, [], ◌∷◌, ◌≡◌, refl, sym, ap, ◌∙◌, arith, contains, contains-eq-has_count, count,
  length, IsDistinct, Bool-cases, Option-cases, inl, inr, subst, ◌==◌, nat_eq, if◌then◌else◌,
}
use flint_init.Prelude.Int.{ℤ}
use flint_init.Service.{ServiceDef}
use flint_init.Cache.{
  ManifestEntry, Manifest, DirEntry, Disk, Loaded, holds, names, retain, refresh, since_epoch,
  mtime_of, is_time, upsert, parse_toml, build_entries, build_manifest, save, write_manifest,
  update, rebuild, load_services_cached, scan_toml_files, read_manifest, manifest_version,
}
use flint_init.Cache.Fresh.{
  time_on_disk, listed, head_once, rest-IsDistinct, mtime_of-upsert, is_time-some, filenames,
}
use flint_init.Cache.Load.{unwritten}

-- The entry of each file has the time of the file.
abbrev pub IsWarm : List DirEntry → List ManifestEntry → Type 0
IsWarm files entries =
    (f : Text) (t : ℤ)
    → time_on_disk files f ≡ some t
    → (secs : ℕ) × (since_epoch t ≡ some secs) × (mtime_of entries f ≡ some secs)

-- What a pass over files does to the times.
pub record Timed (files : List DirEntry) (entries entries' : List ManifestEntry) : Type 0 where
  pub warm : IsWarm files entries'
  pub kept :
      (f : Text) → contains (names files) f ≡ false → mtime_of entries' f ≡ mtime_of entries f

cons-Timed :
    (e : DirEntry) (es : List DirEntry) (entries now entries' : List ManifestEntry) (secs : ℕ)
    → contains (names es) e.name ≡ false
    → since_epoch e.mtime ≡ some secs
    → mtime_of now e.name ≡ some secs
    → ((f : Text) → text_beq e.name f ≡ false → mtime_of now f ≡ mtime_of entries f)
    → Timed es now entries'
    → Timed (e ∷ es) entries entries'
unfolding time_on_disk contains
cons-Timed e es entries now entries' secs away q here others timed = record {
  warm = λ f t h. elim (Bool-cases (text_beq e.name f)) [
    | inl same ↦
        let name : e.name ≡ f = (text_beq_iff e.name f).0 same in
        let time : e.mtime ≡ t = ground (arith, h, same) in
        (
          secs,
          ap since_epoch (sym time) ∙ q,
          ap (mtime_of entries') (sym name) ∙ (timed.kept e.name away ∙ here),
        )
    | inr other ↦ timed.warm f t (ground (arith, h, other))
  ];
  kept = λ f out. ground (arith, out, timed.kept f, others f);
}

pub refresh-Timed :
    (disk : Disk) (dir : Text) (files : List DirEntry) (entries : List ManifestEntry)
    (changed : Bool) (result : List ManifestEntry × Bool)
    → IsDistinct (names files)
    → refresh disk dir files entries changed ≡ some result
    → Timed files entries result.0
unfolding refresh time_on_disk
refresh-Timed disk dir [] entries changed result distinct q = record {
  warm = λ f t h. absurd (ground (arith, h));
  kept = λ f out. ground (arith, q);
}
refresh-Timed disk dir (e ∷ es) entries changed result distinct q =
    elim (Option-cases (since_epoch e.mtime)) [
      | inl t ↦ absurd (ground (arith, q, t))
      | inr (secs, t) ↦ elim (Bool-cases (is_time (mtime_of entries e.name) secs)) [
        | inl same ↦
            cons-Timed e es entries entries result.0 secs (head_once e es distinct) t
              (is_time-some (mtime_of entries e.name) secs same) (λ f other. refl)
              (refresh-Timed disk dir es entries changed result (rest-IsDistinct e es distinct)
                (subst (λ o. o ≡ some result) (rw (refresh, t, same) refl) q))
        | inr stale ↦ elim (Option-cases (parse_toml disk dir e.name)) [
          | inl p ↦ absurd (ground (arith, q, t, stale, p))
          | inr (def, p) ↦
              cons-Timed e es entries (upsert e.name secs def entries) result.0 secs
                (head_once e es distinct) t
                (ground (arith, mtime_of-upsert e.name e.name secs def entries, text_refl e.name))
                (λ f other. ground (arith, mtime_of-upsert e.name f secs def entries, other))
                (refresh-Timed disk dir es (upsert e.name secs def entries) true result
                  (rest-IsDistinct e es distinct)
                  (subst (λ o. o ≡ some result) (rw (refresh, t, stale, p) refl) q))
        ]
      ]
    ]

-- Over entries with the times of the files, the loop changes nothing.
pub refresh-IsWarm :
    (disk : Disk) (dir : Text) (files : List DirEntry) (entries : List ManifestEntry)
    → IsDistinct (names files)
    → IsWarm files entries
    → refresh disk dir files entries false ≡ some (entries, false)
unfolding refresh time_on_disk
refresh-IsWarm disk dir [] entries distinct warm = refl
refresh-IsWarm disk dir (e ∷ es) entries distinct warm =
    let (secs, t, m) = warm e.name e.mtime (ground (arith, text_refl e.name)) in
    let current : is_time (mtime_of entries e.name) secs ≡ true = ground (arith, m) in
    let rest : IsWarm es entries = λ f u h.
      warm f u
        (ground (arith, listed es f u h, head_once e es distinct, text_beq_iff e.name f, h)) in
    rw (refresh, t, current)
      (refresh-IsWarm disk dir es entries (rest-IsDistinct e es distinct) rest)
