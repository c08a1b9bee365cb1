-- ===== src/Scaffold/Valid.antt =====
-- src/scaffold.rs: src/service.rs accepts the ready path that is proposed.
use flint_init.Prelude.{
  ℕ, ◌==◌, leb, not, ◌&&◌, Option, eq_refl, Text, text_eq, nat_eq, Bool, true, false, some, [], ◌∷◌,
  ◌++◌, ◌≡◌, refl, arith, contains,
}
use flint_init.Prelude.Strings.{split}
use flint_init.Service.{valid, validate_path}

pub split_first :
    (separator : ℕ) (s rest : Text)
    → contains s separator ≡ false
    → split separator (s ++ separator ∷ rest) ≡ s ∷ split separator rest
unfolding split contains
split_first separator [] rest h = rw (split, eq_refl separator) refl
split_first separator (c ∷ s) rest h =
    ground (arith, h, split_first separator s rest (ground (arith, h)))

-- A text that stands between the quotes of a basic string of TOML as it is: no quote, no backslash and
-- no control character.
abbrev pub is_plain : Text → Bool
is_plain [] = true
is_plain (c ∷ s) = (not (c == 34) && (not (c == 92) && (leb 32 c && not (c == 127)))) && is_plain s

-- The path that is read from the proposal, and that it is accepted.
abbrev pub ReadsValid : (Text → Option Text) → Text → Text → Type 0
ReadsValid ready_path_in service block =
    (path : Text) × (ready_path_in block ≡ some path) × (validate_path service path ≡ valid)
