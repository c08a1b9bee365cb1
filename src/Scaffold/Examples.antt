-- ===== src/Scaffold/Examples.antt =====
-- src/scaffold.rs: the help texts of the unit tests.
use flint_init.Prelude.{
  Text, text, text_beq, text_eq, nat_eq, Option, none, some, List, ◌∷◌, ◌≡◌, refl, contains,
}
use flint_init.Prelude.Strings.{split}
use flint_init.Scaffold.{detect_foreground_flag, print_scaffold}

program : Unit {0}
unfolding print_scaffold contains text_beq detect_foreground_flag
program = tt

no_fork : detect_foreground_flag (text "  --nofork   Do not fork\n") ≡ some (text "--nofork")
unfolding program
no_fork = refl

-- `-f` is found inside of another flag, which has nothing to do with the foreground.
wrong_flag : detect_foreground_flag (text "  --no-file   Read no file\n") ≡ some (text "-f")
unfolding program
wrong_flag = refl

-- A reader that is right for the proposals: what stands between the third and the fourth quote.
abbrev between_quotes : List Text → Option Text
between_quotes (head ∷ strategy ∷ middle ∷ path ∷ rest) = some path
between_quotes _ = none

abbrev read_path : Text → Option Text
read_path s = between_quotes (split 34 s)
