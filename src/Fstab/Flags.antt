-- ===== src/Fstab/Flags.antt =====
-- src/fstab.rs: the flags and the data of a mount against the words of its options.
use flint_init.Prelude.{
  Text, text, text_beq, text_beq_iff, text_eq, Bool, true, false, ◌||◌, not, List, [], ◌∷◌, ◌++◌,
  ◌≡◌, refl, sym, ap, ◌∙◌, arith, contains, Bool-cases, inl, inr, if◌then◌else◌,
}
use mathlib.Core.List.{append-nil, append_assoc}
use flint_init.Prelude.Strings.{join}
use flint_init.Fstab.{
  MsFlag, rdonly, noexec, nosuid, nodev, relatime, strictatime, synchronous, flag_text, OptionKind,
  flag, ignored, data_item, kind_of, MsFlags, no_flags, has_flag, set_flag, sort_options,
  options_of, parse_flags,
}

kind_of-flag_text : (f : MsFlag) → kind_of (flag_text f) ≡ flag f
unfolding kind_of text_beq contains
kind_of-flag_text rdonly = refl
kind_of-flag_text noexec = refl
kind_of-flag_text nosuid = refl
kind_of-flag_text nodev = refl
kind_of-flag_text relatime = refl
kind_of-flag_text strictatime = refl
kind_of-flag_text synchronous = refl

-- The chain of tests on their answers.
abbrev choose : (ro other_word exec suid dev rel strict sync_word blank : Bool) → OptionKind
choose ro other_word exec suid dev rel strict sync_word blank =
    if ro
    then flag rdonly
    else if other_word
    then ignored
    else if exec
    then flag noexec
    else if suid
    then flag nosuid
    else if dev
    then flag nodev
    else if rel
    then flag relatime
    else if strict
    then flag strictatime
    else if sync_word
    then flag synchronous
    else if blank
    then ignored
    else data_item

-- The answer that stands for a flag.
abbrev answer_of : (ro exec suid dev rel strict sync_word : Bool) → MsFlag → Bool
answer_of ro exec suid dev rel strict sync_word rdonly = ro
answer_of ro exec suid dev rel strict sync_word noexec = exec
answer_of ro exec suid dev rel strict sync_word nosuid = suid
answer_of ro exec suid dev rel strict sync_word nodev = dev
answer_of ro exec suid dev rel strict sync_word relatime = rel
answer_of ro exec suid dev rel strict sync_word strictatime = strict
answer_of ro exec suid dev rel strict sync_word synchronous = sync_word

choose-answer_of :
    (ro other_word exec suid dev rel strict sync_word blank : Bool) (f : MsFlag)
    → choose ro other_word exec suid dev rel strict sync_word blank ≡ flag f
    → answer_of ro exec suid dev rel strict sync_word f ≡ true
choose-answer_of ro other_word exec suid dev rel strict sync_word blank f h = ground (arith, h)

-- What is taken for a flag is written as that flag.
kind_of-text : (o : Text) (f : MsFlag) → kind_of o ≡ flag f → text_beq o (flag_text f) ≡ true
unfolding kind_of
kind_of-text o f h = by_flag f (
    choose-answer_of (text_beq o (text "ro"))
      (contains (text "rw" ∷ text "defaults" ∷ text "auto" ∷ text "noauto" ∷ []) o)
      (text_beq o (text "noexec")) (text_beq o (text "nosuid")) (text_beq o (text "nodev"))
      (text_beq o (text "relatime")) (text_beq o (text "strictatime")) (text_beq o (text "sync"))
      (text_beq o []) f h)
  where
    by_flag :
        (g : MsFlag)
        → answer_of
            (text_beq o (text "ro"))
            (text_beq o (text "noexec"))
            (text_beq o (text "nosuid"))
            (text_beq o (text "nodev"))
            (text_beq o (text "relatime"))
            (text_beq o (text "strictatime"))
            (text_beq o (text "sync"))
            g
          ≡ true
        → text_beq o (flag_text g) ≡ true
    by_flag rdonly e = e
    by_flag noexec e = e
    by_flag nosuid e = e
    by_flag nodev e = e
    by_flag relatime e = e
    by_flag strictatime e = e
    by_flag synchronous e = e

other_kind :
    (o : Text) (f : MsFlag) (k : OptionKind)
    → kind_of o ≡ k
    → (k ≡ flag f → ⊥)
    → text_beq o (flag_text f) ≡ false
other_kind o f k e different = elim (Bool-cases (text_beq o (flag_text f))) [
  | inr other ↦ other
  | inl same ↦
      let written : o ≡ flag_text f = (text_beq_iff o (flag_text f)).0 same in
      absurd (different (sym e ∙ (ap kind_of written ∙ kind_of-flag_text f)))
]

-- The flags are told from one another by their words.
has_flag-set_flag :
    (g f : MsFlag) (flags : MsFlags)
    → has_flag (set_flag g flags) f ≡ (text_beq (flag_text g) (flag_text f) || has_flag flags f)
unfolding has_flag set_flag text_beq
has_flag-set_flag rdonly rdonly flags = refl
has_flag-set_flag rdonly _ flags = refl
has_flag-set_flag noexec noexec flags = refl
has_flag-set_flag noexec _ flags = refl
has_flag-set_flag nosuid nosuid flags = refl
has_flag-set_flag nosuid _ flags = refl
has_flag-set_flag nodev nodev flags = refl
has_flag-set_flag nodev _ flags = refl
has_flag-set_flag relatime relatime flags = refl
has_flag-set_flag relatime _ flags = refl
has_flag-set_flag strictatime strictatime flags = refl
has_flag-set_flag strictatime _ flags = refl
has_flag-set_flag synchronous synchronous flags = refl
has_flag-set_flag synchronous _ flags = refl

-- The words that are no data of the file system.
abbrev pub known_words : List Text
known_words =
    text "ro"
    ∷ text "rw"
    ∷ text "defaults"
    ∷ text "auto"
    ∷ text "noauto"
    ∷ text "noexec"
    ∷ text "nosuid"
    ∷ text "nodev"
    ∷ text "relatime"
    ∷ text "strictatime"
    ∷ text "sync"
    ∷ []
    ∷ []

-- The options that are none of these words, in their order.
abbrev pub unknown_words : List Text → List Text
unknown_words [] = []
unknown_words (o ∷ os) =
    let rest = unknown_words os in if contains known_words o then rest else o ∷ rest

-- Whether an option is data.
abbrev is_data : OptionKind → Bool
is_data data_item = true
is_data _ = false

text_beq_comm : (s t : Text) → text_beq s t ≡ text_beq t s
text_beq_comm s t = ground (arith, text_beq_iff s t, text_beq_iff t s)

choose-is_data :
    (ro rw_word def_word auto_word noauto_word exec suid dev rel strict sync_word blank : Bool)
    → is_data (
        choose ro
          (rw_word || (def_word || (auto_word || (noauto_word || false))))
          exec
          suid
          dev
          rel
          strict
          sync_word
          blank)
      ≡ not (
          ro
          || (rw_word
              || (def_word
                  || (auto_word
                      || (noauto_word
                          || (exec
                              || (suid
                                  || (dev
                                      || (rel
                                          || (strict || (sync_word || (blank || false))))))))))))
choose-is_data true rw_word def_word auto_word noauto_word exec suid dev rel strict sync_word
      blank =
    refl
choose-is_data false true def_word auto_word noauto_word exec suid dev rel strict sync_word blank =
    refl
choose-is_data false false true auto_word noauto_word exec suid dev rel strict sync_word blank =
    refl
choose-is_data false false false true noauto_word exec suid dev rel strict sync_word blank = refl
choose-is_data false false false false true exec suid dev rel strict sync_word blank = refl
choose-is_data false false false false false true suid dev rel strict sync_word blank = refl
choose-is_data false false false false false false true dev rel strict sync_word blank = refl
choose-is_data false false false false false false false true rel strict sync_word blank = refl
choose-is_data false false false false false false false false true strict sync_word blank = refl
choose-is_data false false false false false false false false false true sync_word blank = refl
choose-is_data false false false false false false false false false false true blank = refl
choose-is_data false false false false false false false false false false false true = refl
choose-is_data false false false false false false false false false false false false = refl

is_data-kind_of : (o : Text) → is_data (kind_of o) ≡ not (contains known_words o)
unfolding kind_of contains
is_data-kind_of o =
    rw
      (
        text_beq_comm o (text "ro"),
        text_beq_comm o (text "noexec"),
        text_beq_comm o (text "nosuid"),
        text_beq_comm o (text "nodev"),
        text_beq_comm o (text "relatime"),
        text_beq_comm o (text "strictatime"),
        text_beq_comm o (text "sync"),
        text_beq_comm o [],
      )
      (choose-is_data (text_beq (text "ro") o) (text_beq (text "rw") o)
        (text_beq (text "defaults") o) (text_beq (text "auto") o) (text_beq (text "noauto") o)
        (text_beq (text "noexec") o) (text_beq (text "nosuid") o) (text_beq (text "nodev") o)
        (text_beq (text "relatime") o) (text_beq (text "strictatime") o) (text_beq (text "sync") o)
        (text_beq [] o))

not_flip : (a b : Bool) → a ≡ not b → b ≡ not a
not_flip true true h = h
not_flip true false h = refl
not_flip false true h = refl
not_flip false false h = h

-- Whether an option is a known word, from its kind.
known_iff : (o : Text) (k : OptionKind) → kind_of o ≡ k → contains known_words o ≡ not (is_data k)
known_iff o k e =
    not_flip (is_data k) (contains known_words o) (sym (ap is_data e) ∙ is_data-kind_of o)

or_swap : (a b c : Bool) → (b || (a || c)) ≡ ((a || b) || c)
or_swap true true c = refl
or_swap true false c = refl
or_swap false b c = ground arith

-- The loop, from what it has so far.
sort_options_lem :
    (os : List Text) (flags : MsFlags) (data_items : List Text) (f : MsFlag)
    → (has_flag (sort_options os flags data_items).0 f
        ≡ (contains os (flag_text f) || has_flag flags f))
      × ((sort_options os flags data_items).1 ≡ data_items ++ unknown_words os)
unfolding sort_options contains
sort_options_lem [] flags data_items f = (refl, sym (append-nil data_items))
sort_options_lem (o ∷ os) flags data_items f =
    by_kind (kind_of o) refl (λ flags' data_items'. sort_options_lem os flags' data_items' f)
  where
    by_kind :
        (k : OptionKind)
        → kind_of o ≡ k
        → ((flags' : MsFlags) (data_items' : List Text)
            → (has_flag (sort_options os flags' data_items').0 f
                ≡ (contains os (flag_text f) || has_flag flags' f))
              × ((sort_options os flags' data_items').1 ≡ data_items' ++ unknown_words os))
        → (has_flag (sort_options (o ∷ os) flags data_items).0 f
            ≡ (contains (o ∷ os) (flag_text f) || has_flag flags f))
          × ((sort_options (o ∷ os) flags data_items).1 ≡ data_items ++ unknown_words (o ∷ os))
    by_kind (flag g) e ih =
        let written : o ≡ flag_text g = (text_beq_iff o (flag_text g)).0 (kind_of-text o g e) in
        let known = known_iff o (flag g) e in
        let (flags_are, data_are) = ih (set_flag g flags) data_items in
        let set = has_flag-set_flag g f flags in
        let same : text_beq o (flag_text f) ≡ text_beq (flag_text g) (flag_text f) =
          ap (λ w. text_beq w (flag_text f)) written in
        (
          rw (sort_options, e, same)
              (flags_are
                ∙ (ap (λ (b : Bool). contains os (flag_text f) || b) set
                    ∙ or_swap (text_beq (flag_text g) (flag_text f)) (contains os (flag_text f))
                        (has_flag flags f))),
          rw (sort_options, e, unknown_words, known) data_are,
        )
    by_kind ignored e ih =
        let other = other_kind o f ignored e (λ no. absurd (ground (arith, no))) in
        let known = known_iff o ignored e in
        let (flags_are, data_are) = ih flags data_items in
        (rw (sort_options, e, other) flags_are, rw (sort_options, e, unknown_words, known) data_are)
    by_kind data_item e ih =
        let other = other_kind o f data_item e (λ no. absurd (ground (arith, no))) in
        let unknown = known_iff o data_item e in
        let (flags_are, data_are) = ih flags (data_items ++ o ∷ []) in
        (
          rw (sort_options, e, other) flags_are,
          rw (sort_options, e, unknown_words, unknown)
              (data_are ∙ append_assoc data_items (o ∷ []) (unknown_words os)),
        )

no_flag : (b : Bool) (f : MsFlag) → (b || has_flag no_flags f) ≡ b
unfolding has_flag
no_flag true f = refl
no_flag false rdonly = refl
no_flag false _ = refl

-- A mount has a flag exactly where its options, split at the commas and trimmed, name it; its data
-- are the options that are no known word, joined by commas in their order.
pub parse_flags_lem :
    (options : Text) (f : MsFlag)
    → (has_flag (parse_flags options).0 f ≡ contains (options_of options) (flag_text f))
      × ((parse_flags options).1 ≡ join (text ",") (unknown_words (options_of options)))
unfolding parse_flags
parse_flags_lem options f =
    let (flags_are, data_are) = sort_options_lem (options_of options) no_flags [] f in
    (
      flags_are ∙ no_flag (contains (options_of options) (flag_text f)) f,
      ap (join (text ",")) data_are,
    )
