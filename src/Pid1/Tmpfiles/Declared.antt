-- ===== src/Pid1/Tmpfiles/Declared.antt =====
-- src/pid1.rs: each directory that `apply_tmpfiles` makes is declared in a file of tmpfiles.d.
use flint_init.Prelude.{
  ℕ, Text, text, text_beq, text_beq_iff, text_refl, text_eq, true, false, ◌||◌, some, List, [], ◌∷◌,
  ◌++◌, ◌≡◌, ◌⊎◌, refl, arith, contains, Bool-cases, Option-cases, inl, inr,
}
use flint_init.Prelude.Strings.{trim, split_whitespace, path_join, starts_with}
use flint_init.Fstab.{lines}
use flint_init.Pid1.{
  is_conf, conf_dirs, World, Call, make_dir, mode_of, directory_of, apply_line, apply_lines,
  apply_files, apply_dirs, apply_tmpfiles,
}

-- A line that declares the directory with the mode: its first word is d or D, its second is the
-- directory, and the mode is that of the words behind.
pub record IsDeclaration (line path : Text) (mode : ℕ) : Type 0 where
  pub kind : Text
  pub parts : List Text
  pub comment : starts_with (text "#") (trim line) ≡ false
  pub words : split_whitespace (trim line) ≡ kind ∷ path ∷ parts
  pub kinds : (kind ≡ text "d") ⊎ (kind ≡ text "D")
  pub mode_is : mode ≡ mode_of parts

-- A call that makes a directory which one of the lines declares.
abbrev pub InLines : List Text → Call → Type 0
InLines ls (make_dir path mode) =
    (line : Text) × (contains ls line ≡ true) × IsDeclaration line path mode
InLines ls _ = ⊥

-- The same for the files of a directory that can be read and have the extension conf.
abbrev pub InFiles : World → Text → List Text → Call → Type 0
InFiles w dir names call =
    (name content : Text) × (contains names name ≡ true)
    × (is_conf name ≡ true)
    × (w.read (path_join dir name) ≡ some content)
    × InLines (lines content) call

abbrev pub InDirs : World → List Text → Call → Type 0
InDirs w dirs call =
    (dir : Text) × (names : List Text) × (contains dirs dir ≡ true)
    × (w.list dir ≡ some names)
    × InFiles w dir names call

abbrev pub Each : (Call → Type 0) → List Call → Type 0
Each P [] = Unit
Each P (call ∷ calls) = P call × Each P calls

-- Every call makes a directory that is declared below one of the two places.
abbrev pub AllDeclared : World → List Call → Type 0
AllDeclared w calls =
    Each (InDirs w (text "/usr/lib/tmpfiles.d" ∷ text "/etc/tmpfiles.d" ∷ [])) calls

Each-append : (P : Call → Type 0) (xs ys : List Call) → Each P xs → Each P ys → Each P (xs ++ ys)
Each-append P [] ys hx hy = hy
Each-append P (x ∷ xs) ys hx hy = (hx.0, Each-append P xs ys hx.1 hy)

Each-map :
    (P Q : Call → Type 0) (xs : List Call)
    → ((call : Call) → P call → Q call)
    → Each P xs
    → Each Q xs
Each-map P Q [] f h = tt
Each-map P Q (x ∷ xs) f h = (f x h.0, Each-map P Q xs f h.1)

later_line : (l : Text) (ls : List Text) (call : Call) → InLines ls call → InLines (l ∷ ls) call
unfolding contains
later_line l ls (make_dir path mode) (line, there, is) = (line, ground (arith, there), is)
later_line l ls _ h = absurd h

declared :
    (line kind path : Text) (parts rest : List Text)
    → starts_with (text "#") (trim line) ≡ false
    → split_whitespace (trim line) ≡ kind ∷ path ∷ parts
    → (text_beq kind (text "d") || text_beq kind (text "D")) ≡ true
    → InLines (line ∷ rest) (make_dir path (mode_of parts))
unfolding contains
declared line kind path parts rest comment words is = (
  line,
  ground (arith, text_refl line),
  record {
    kind = kind;
    parts = parts;
    comment = comment;
    words = words;
    kinds = elim (Bool-cases (text_beq kind (text "d"))) [
      | inl small ↦ inl ((text_beq_iff kind (text "d")).0 small)
      | inr other ↦ inr ((text_beq_iff kind (text "D")).0 (ground (arith, is, other)))
    ];
    mode_is = refl;
  },
)

apply_line-InLines :
    (line : Text) (rest : List Text) → Each (InLines (line ∷ rest)) (apply_line line)
unfolding apply_line directory_of
apply_line-InLines line rest = elim (Bool-cases (starts_with (text "#") (trim line))) [
  | inl comment ↦ rw (apply_line, comment) tt
  | inr code ↦ elim (Bool-cases (text_beq (trim line) [])) [
    | inl blank ↦ rw (apply_line, code, blank) tt
    | inr full ↦ by_words (split_whitespace (trim line)) refl code full
  ]
]
  where
    by_words :
        (ws : List Text)
        → split_whitespace (trim line) ≡ ws
        → starts_with (text "#") (trim line) ≡ false
        → text_beq (trim line) [] ≡ false
        → Each (InLines (line ∷ rest)) (apply_line line)
    by_words [] e code full = rw (apply_line, code, full, e) tt
    by_words (kind ∷ []) e code full = rw (apply_line, code, full, e) tt
    by_words (kind ∷ path ∷ parts) e code full =
        elim (Bool-cases (text_beq kind (text "d") || text_beq kind (text "D"))) [
          | inl is ↦
              rw (apply_line, code, full, e, directory_of, is)
                (declared line kind path parts rest code e is, tt)
          | inr other ↦ rw (apply_line, code, full, e, directory_of, other) tt
        ]

apply_lines-InLines : (ls : List Text) → Each (InLines ls) (apply_lines ls)
unfolding apply_lines
apply_lines-InLines [] = tt
apply_lines-InLines (l ∷ ls) =
    Each-append (InLines (l ∷ ls)) (apply_line l) (apply_lines ls) (apply_line-InLines l ls) (
      Each-map (InLines ls) (InLines (l ∷ ls)) (apply_lines ls) (later_line l ls)
        (apply_lines-InLines ls))

apply_files-InFiles :
    (w : World) (dir : Text) (names : List Text)
    → Each (InFiles w dir names) (apply_files w dir names)
unfolding apply_files contains
apply_files-InFiles w dir [] = tt
apply_files-InFiles w dir (name ∷ names) =
    let later =
      Each-map (InFiles w dir names) (InFiles w dir (name ∷ names)) (apply_files w dir names)
        (λ call (n, content, there, conf, e, rest).
          (n, content, ground (arith, there), conf, e, rest))
        (apply_files-InFiles w dir names) in
    elim (Bool-cases (is_conf name)) [
      | inr other ↦ rw (apply_files, other) later
      | inl conf ↦ elim (Option-cases (w.read (path_join dir name))) [
        | inl e ↦ rw (apply_files, conf, e) later
        | inr (content, e) ↦
            rw (apply_files, conf, e)
              (Each-append (InFiles w dir (name ∷ names)) (apply_lines (lines content))
                (apply_files w dir names)
                (Each-map (InLines (lines content)) (InFiles w dir (name ∷ names))
                  (apply_lines (lines content))
                  (λ call h. (name, content, ground (arith, text_refl name), conf, e, h))
                  (apply_lines-InLines (lines content)))
                later)
      ]
    ]

apply_dirs-InDirs : (w : World) (dirs : List Text) → Each (InDirs w dirs) (apply_dirs w dirs)
unfolding apply_dirs contains
apply_dirs-InDirs w [] = tt
apply_dirs-InDirs w (dir ∷ dirs) =
    let later =
      Each-map (InDirs w dirs) (InDirs w (dir ∷ dirs)) (apply_dirs w dirs)
        (λ call (d, names, there, e, rest). (d, names, ground (arith, there), e, rest))
        (apply_dirs-InDirs w dirs) in
    elim (Option-cases (w.list dir)) [
      | inl e ↦ rw (apply_dirs, e) later
      | inr (names, e) ↦
          rw (apply_dirs, e)
            (Each-append (InDirs w (dir ∷ dirs)) (apply_files w dir names) (apply_dirs w dirs)
              (Each-map (InFiles w dir names) (InDirs w (dir ∷ dirs)) (apply_files w dir names)
                (λ call h. (dir, names, ground (arith, text_refl dir), e, h))
                (apply_files-InFiles w dir names))
              later)
    ]

-- Each call of `apply_tmpfiles` makes a directory which a line of a file of /usr/lib/tmpfiles.d or
-- /etc/tmpfiles.d declares, that can be read and whose name has the extension conf: the line is no
-- comment, its first word is d or D and its second the directory, and the mode is that of the words
-- behind.
pub apply_tmpfiles-AllDeclared : (w : World) → AllDeclared w (apply_tmpfiles w)
unfolding apply_tmpfiles
apply_tmpfiles-AllDeclared w = apply_dirs-InDirs w conf_dirs
