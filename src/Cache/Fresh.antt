-- ===== src/Cache/Fresh.antt =====
-- src/cache.rs: what is loaded through the manifest is what the files hold.
use flint_init.Prelude.{
  ℕ, ◌+◌, Text, text_beq, text_beq_iff, text_eq, text_refl, Bool, true, false, Option, none, some,
  List, [], ◌∷◌, ◌≡◌, refl, ap, arith, contains, contains-eq-has_count, count, IsDistinct,
  if◌then◌else◌, Bool-cases, Option-cases, inl, inr, subst, nat_eq,
}
use flint_init.Prelude.Int.{ℤ, pos, negsuc}
use flint_init.Service.{ServiceDef}
use flint_init.Cache.{
  ManifestEntry, DirEntry, Disk, names, retain, mtime_of, upsert, refresh, is_time, since_epoch,
  parse_toml,
}

-- The definition in the first entry of a file.
unfoldable pub def_of : List ManifestEntry → Text → Option ServiceDef
def_of [] f = none
def_of (e ∷ es) f = let rest = def_of es f in if text_beq e.filename f then some e.def else rest

abbrev pub filenames : List ManifestEntry → List Text
filenames [] = []
filenames (e ∷ es) = e.filename ∷ filenames es

-- The modification time of a file of the directory.
unfoldable pub time_on_disk : List DirEntry → Text → Option ℤ
time_on_disk [] f = none
time_on_disk (e ∷ es) f =
    let rest = time_on_disk es f in if text_beq e.name f then some e.mtime else rest

-- An entry whose time is that of its file has the definition that the file holds.
abbrev pub IsHonest : Disk → Text → List DirEntry → List ManifestEntry → Type 0
IsHonest disk dir files entries =
    (f : Text) (secs : ℕ)
    → time_on_disk files f ≡ some (pos secs)
    → mtime_of entries f ≡ some secs
    → def_of entries f ≡ parse_toml disk dir f

-- The entries are those of the files of the directory, one for each, with what the files hold.
pub record IsFresh (disk : Disk) (dir : Text) (files : List DirEntry) (entries : List ManifestEntry)
    : Type 0 where
  pub defs :
      (f : Text)
      → def_of entries f ≡ (if contains (names files) f then parse_toml disk dir f else none)
  pub once : (f : Text) → count f (filenames entries) ≡ (if contains (names files) f then 1 else 0)

pub def_of-upsert :
    (f g : Text) (secs : ℕ) (def : ServiceDef) (es : List ManifestEntry)
    → def_of (upsert f secs def es) g ≡ (if text_beq f g then some def else def_of es g)
unfolding def_of upsert
def_of-upsert f g secs def [] = refl
def_of-upsert f g secs def (e ∷ es) = ground (
  arith,
  text_beq_iff f g,
  text_beq_iff e.filename f,
  text_beq_iff e.filename g,
  def_of-upsert f g secs def es,
)

pub mtime_of-upsert :
    (f g : Text) (secs : ℕ) (def : ServiceDef) (es : List ManifestEntry)
    → mtime_of (upsert f secs def es) g ≡ (if text_beq f g then some secs else mtime_of es g)
unfolding mtime_of upsert
mtime_of-upsert f g secs def [] = refl
mtime_of-upsert f g secs def (e ∷ es) = ground (
  arith,
  text_beq_iff f g,
  text_beq_iff e.filename f,
  text_beq_iff e.filename g,
  mtime_of-upsert f g secs def es,
)

pub count-upsert :
    (f g : Text) (secs : ℕ) (def : ServiceDef) (es : List ManifestEntry)
    → count g (filenames (upsert f secs def es))
      ≡ count g (filenames es)
        + (if text_beq f g then (if contains (filenames es) f then 0 else 1) else 0)
unfolding count upsert contains
count-upsert f g secs def [] = ground arith
count-upsert f g secs def (e ∷ es) = ground (
  arith,
  text_beq_iff f g,
  text_beq_iff e.filename f,
  text_beq_iff e.filename g,
  count-upsert f g secs def es,
)

pub def_of-retain :
    (kept : List Text) (es : List ManifestEntry) (f : Text)
    → def_of (retain kept es) f ≡ (if contains kept f then def_of es f else none)
unfolding def_of retain
def_of-retain kept [] f = ground arith
def_of-retain kept (e ∷ es) f = ground (arith, text_beq_iff e.filename f, def_of-retain kept es f)

pub mtime_of-retain :
    (kept : List Text) (es : List ManifestEntry) (f : Text)
    → mtime_of (retain kept es) f ≡ (if contains kept f then mtime_of es f else none)
unfolding mtime_of retain
mtime_of-retain kept [] f = ground arith
mtime_of-retain kept (e ∷ es) f =
    ground (arith, text_beq_iff e.filename f, mtime_of-retain kept es f)

pub count-retain :
    (kept : List Text) (es : List ManifestEntry) (f : Text)
    → count f (filenames (retain kept es)) ≡ (if contains kept f then count f (filenames es) else 0)
unfolding count retain
count-retain kept [] f = ground arith
count-retain kept (e ∷ es) f = ground (arith, text_beq_iff e.filename f, count-retain kept es f)

pub listed :
    (files : List DirEntry) (f : Text) (t : ℤ)
    → time_on_disk files f ≡ some t
    → contains (names files) f ≡ true
unfolding time_on_disk contains
listed [] f t h = absurd (ground (arith, h))
listed (e ∷ es) f t h = ground (arith, listed es f t)

pub has_entry :
    (es : List ManifestEntry) (f : Text) (secs : ℕ)
    → mtime_of es f ≡ some secs
    → contains (filenames es) f ≡ true
unfolding mtime_of contains
has_entry [] f secs h = absurd (ground (arith, h))
has_entry (e ∷ es) f secs h = ground (arith, has_entry es f secs)

pub is_time-some : (o : Option ℕ) (secs : ℕ) → is_time o secs ≡ true → o ≡ some secs
is_time-some none secs h = absurd (ground (arith, h))
is_time-some (some t) secs h = ap some (ground (arith, h))

since_epoch-pos : (t : ℤ) (secs : ℕ) → since_epoch t ≡ some secs → t ≡ pos secs
unfolding since_epoch
since_epoch-pos (pos n) secs h = ground (arith, h)
since_epoch-pos (negsuc n) secs h = absurd (ground (arith, h))

pub head_once :
    (e : DirEntry) (es : List DirEntry)
    → IsDistinct (names (e ∷ es))
    → contains (names es) e.name ≡ false
unfolding count
head_once e es h =
    ground (arith, h e.name, text_refl e.name, contains-eq-has_count e.name (names es))

pub rest-IsDistinct :
    (e : DirEntry) (es : List DirEntry) → IsDistinct (names (e ∷ es)) → IsDistinct (names es)
unfolding count
rest-IsDistinct e es h f = omega (arith, h f)

-- What a pass over files leaves.
pub record Refreshed (disk : Disk) (dir : Text) (files : List DirEntry)
    (entries entries' : List ManifestEntry) : Type 0 where
  pub defs :
      (f : Text)
      → def_of entries' f
        ≡ (if contains (names files) f then parse_toml disk dir f else def_of entries f)
  pub counts :
      (f : Text)
      → count f (filenames entries')
        ≡ count f (filenames entries)
          + (if contains (names files) f
              then (if contains (filenames entries) f then 0 else 1)
              else 0)

module _ (disk : Disk) (dir : Text) (e : DirEntry) (es : List DirEntry)
    (distinct : IsDistinct (names (e ∷ es))) where
  IsHonest-rest :
      (entries : List ManifestEntry)
      → IsHonest disk dir (e ∷ es) entries
      → IsHonest disk dir es entries
  unfolding time_on_disk
  IsHonest-rest entries h f secs t =
      h f secs (
        ground (arith, listed es f (pos secs) t, head_once e es distinct, text_beq_iff e.name f, t))

  IsHonest-upsert :
      (entries : List ManifestEntry) (secs : ℕ) (def : ServiceDef)
      → IsHonest disk dir (e ∷ es) entries
      → IsHonest disk dir es (upsert e.name secs def entries)
  IsHonest-upsert entries secs def h f s t m = ground (
    arith,
    listed es f (pos s) t,
    head_once e es distinct,
    text_beq_iff e.name f,
    mtime_of-upsert e.name f secs def entries,
    def_of-upsert e.name f secs def entries,
    m,
    IsHonest-rest entries h f s t,
  )

  after_fresh :
      (entries entries' : List ManifestEntry) (secs : ℕ)
      → IsHonest disk dir (e ∷ es) entries
      → since_epoch e.mtime ≡ some secs
      → is_time (mtime_of entries e.name) secs ≡ true
      → Refreshed disk dir es entries entries'
      → Refreshed disk dir (e ∷ es) entries entries'
  unfolding contains time_on_disk
  after_fresh entries entries' secs h q fresh r =
      let m = is_time-some (mtime_of entries e.name) secs fresh in
      let here =
        h e.name secs (ground (arith, text_refl e.name, since_epoch-pos e.mtime secs q)) m in
      record {
        defs = λ f. ground (arith, r.defs f, text_beq_iff e.name f, here);
        counts = λ f. ground (
          arith,
          r.counts f,
          text_beq_iff e.name f,
          has_entry entries e.name secs m,
          head_once e es distinct,
        );
      }

  after_upsert :
      (entries entries' : List ManifestEntry) (secs : ℕ) (def : ServiceDef)
      → parse_toml disk dir e.name ≡ some def
      → Refreshed disk dir es (upsert e.name secs def entries) entries'
      → Refreshed disk dir (e ∷ es) entries entries'
  unfolding contains
  after_upsert entries entries' secs def parsed r = record {
    defs = λ f.
        ground
          (arith, r.defs f, text_beq_iff e.name f, def_of-upsert e.name f secs def entries, parsed);
    counts = λ f. ground (
      arith,
      r.counts f,
      text_beq_iff e.name f,
      head_once e es distinct,
      count-upsert e.name f secs def entries,
      contains-eq-has_count f (filenames (upsert e.name secs def entries)),
      contains-eq-has_count f (filenames entries),
    );
  }

pub refresh_lem :
    (disk : Disk) (dir : Text) (files : List DirEntry) (entries : List ManifestEntry)
    (changed : Bool) (result : List ManifestEntry × Bool)
    → IsDistinct (names files)
    → IsHonest disk dir files entries
    → refresh disk dir files entries changed ≡ some result
    → Refreshed disk dir files entries result.0
unfolding refresh contains
refresh_lem disk dir [] entries changed result distinct h q = record {
  defs = λ f. ground (arith, ap (λ (o : Option (List ManifestEntry × Bool)). o) q);
  counts = λ f. ground (arith, q);
}
refresh_lem disk dir (e ∷ es) entries changed result distinct h q =
    elim (Option-cases (since_epoch e.mtime)) [
      | inl t ↦ absurd (ground (arith, q, t))
      | inr (secs, t) ↦ elim (Bool-cases (is_time (mtime_of entries e.name) secs)) [
        | inl same ↦ after_fresh disk dir e es distinct entries result.0 secs h t same (
            refresh_lem disk dir es entries changed result (rest-IsDistinct e es distinct)
              (IsHonest-rest disk dir e es distinct entries h)
              (subst (λ o. o ≡ some result) (rw (refresh, t, same) refl) q))
        | inr stale ↦ elim (Option-cases (parse_toml disk dir e.name)) [
          | inl p ↦ absurd (ground (arith, q, t, stale, p))
          | inr (def, p) ↦ after_upsert disk dir e es distinct entries result.0 secs def p (
              refresh_lem disk dir es (upsert e.name secs def entries) true result
                (rest-IsDistinct e es distinct)
                (IsHonest-upsert disk dir e es distinct entries secs def h)
                (subst (λ o. o ≡ some result) (rw (refresh, t, stale, p) refl) q))
        ]
      ]
    ]
