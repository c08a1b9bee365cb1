-- ===== src/FlintCtl/Missing.antt =====
-- src/bin/flint_ctl.rs: the prompts, and the loop over the missing services.
use flint_init.Prelude.{
  ℕ, suc, ◌+◌, ◌≤◌, ◌<◌, Text, text, text_eq, text_beq, nat_beq, Bool, true, false, ◌&&◌, ◌||◌,
  Option, some, List, [], ◌∷◌, ◌≡◌, refl, ap, subst, ◌∙◌, arith, count, length, Bool-cases, inl,
  inr, if◌then◌else◌,
}
use flint_init.Prelude.Map
use flint_init.Prelude.Strings.{trim}
use flint_init.FlintCtl.{
  Session, Machine, Step, goes_on, exits, prompt, is_yes, to_lowercase, install_missing,
}

abbrev pub session_of : Step → Session
session_of (goes_on s) = s
session_of (exits s) = s

-- A path is written at most once for each consent, and once more where it was not there before.
abbrev pub IsConsented : Machine → Session → Type 0
IsConsented m s =
    (p : Text)
    → count p (Map.keys s.written) + (if m.exists p then 1 else 0) ≤ suc (count p s.agreed)

-- A letter of ASCII in either case.
abbrev is_letter : ℕ → ℕ → ℕ → Bool
is_letter small capital c = nat_beq c small || nat_beq c capital

-- The words for a consent: y and yes, whatever the case of their letters.
abbrev pub is_consent_word : Text → Bool
is_consent_word (c ∷ []) = is_letter 121 89 c
is_consent_word (c ∷ d ∷ e ∷ []) = is_letter 121 89 c && (is_letter 101 69 d && is_letter 115 83 e)
is_consent_word _ = false

-- The typed lines that are such a word between blanks.
unfoldable pub consents : List Text → ℕ
consents [] = 0
consents (line ∷ lines) = (if is_consent_word (trim line) then 1 else 0) + consents lines

-- The consents that were taken and those that can still come.
abbrev pub all_consents : Session → ℕ
all_consents s = length s.agreed + consents s.answers

is_consent_word-to_lowercase :
    (s : Text)
    → (text_beq (to_lowercase s) (text "y") || text_beq (to_lowercase s) (text "yes")) ≡ true
    → is_consent_word s ≡ true
unfolding to_lowercase text_beq
is_consent_word-to_lowercase [] h = absurd (ground (arith, h))
is_consent_word-to_lowercase (c ∷ []) h = ground (arith, h)
is_consent_word-to_lowercase (c ∷ d ∷ []) h = absurd (ground (arith, h))
is_consent_word-to_lowercase (c ∷ d ∷ e ∷ []) h = ground (arith, h)
is_consent_word-to_lowercase (c ∷ d ∷ e ∷ f ∷ s) h = absurd (ground (arith, h))

consent_counts :
    (line : Text) (lines : List Text)
    → consents lines + (if is_yes line then 1 else 0) ≤ consents (line ∷ lines)
unfolding consents is_yes
consent_counts line lines = elim (Bool-cases (is_yes line)) [
  | inl e ↦ let word = is_consent_word-to_lowercase (trim line) e in rw (e, word) (omega arith)
  | inr e ↦ rw e (omega arith)
]

-- The step is found, no line comes back, and no write lacks a consent.
pub record Fine (m : Machine) (s : Session) (result : Option Step) : Type 0 where
  pub step : Step
  pub found : result ≡ some step
  pub fewer : length (session_of step).answers ≤ length s.answers
  pub spent : all_consents (session_of step) ≤ all_consents s
  pub consented : IsConsented m s → IsConsented m (session_of step)

-- What a prompt does: a yes uses up a line, and nothing else changes.
pub record Prompted (s : Session) : Type 0 where
  pub shorter : length (prompt s).1.answers + (if (prompt s).0 then 1 else 0) ≤ length s.answers
  pub paid : consents (prompt s).1.answers + (if (prompt s).0 then 1 else 0) ≤ consents s.answers
  pub written : (prompt s).1.written ≡ s.written
  pub agreed : (prompt s).1.agreed ≡ s.agreed

pub prompt-Prompted : (s : Session) → Prompted s
unfolding prompt
prompt-Prompted s = by_answers s.answers refl
  where
    by_answers : (lines : List Text) → s.answers ≡ lines → Prompted s
    by_answers [] e = record {
      shorter = rw (prompt, e) (omega (arith, ap length e));
      paid = rw (prompt, e) (omega (arith, ap consents e));
      written = rw (prompt, e) refl;
      agreed = rw (prompt, e) refl;
    }
    by_answers (line ∷ rest) e = record {
      shorter = rw (prompt, e) (ground arith);
      paid = rw (prompt, e) (consent_counts line rest);
      written = rw (prompt, e) refl;
      agreed = rw (prompt, e) refl;
    }

abbrev pub asked : Session → Session
asked s = (prompt s).1

pub prompt-spent :
    (s : Session) → all_consents (asked s) + (if (prompt s).0 then 1 else 0) ≤ all_consents s
prompt-spent s = let q = prompt-Prompted s in omega (arith, q.paid, ap length q.agreed)

pub prompt-IsConsented : (m : Machine) (s : Session) → IsConsented m s → IsConsented m (asked s)
prompt-IsConsented m s h p =
    let q = prompt-Prompted s in
    ground (
      arith,
      h p,
      ap (λ (w : List (Text × Text)). count p (Map.keys w)) q.written,
      ap (count p) q.agreed,
    )

module _ (m : Machine) (fuel : ℕ) (install : Text → Session → Option Step)
    (installs : (dep : Text) (t : Session)
      → length t.answers < fuel
      → Fine m t (install dep t)) where
  after_one :
      (dep : Text) (deps : List Text) (s : Session) (st : Step)
      → length s.answers ≤ fuel
      → ((u : Session) → length u.answers ≤ fuel → Fine m u (install_missing install deps u))
      → (prompt s).0 ≡ true
      → (one : Fine m (asked s) (install dep (asked s))) → one.step ≡ st
      → Fine m s (install_missing install (dep ∷ deps) s)
  unfolding install_missing
  after_one dep deps s (exits u) room later wants one e =
      let q = prompt-Prompted s in
      let found : install dep (asked s) ≡ some (exits u) = one.found ∙ ap some e in
      let fewer : length u.answers ≤ length (asked s).answers =
        subst (λ x. length (session_of x).answers ≤ length (asked s).answers) e one.fewer in
      record {
        step = exits u;
        found = rw (install_missing, wants, found) refl;
        fewer = omega (arith, q.shorter, fewer);
        spent = omega (
          arith,
          prompt-spent s,
          subst (λ x. all_consents (session_of x) ≤ all_consents (asked s)) e one.spent,
        );
        consented = λ h.
            subst (λ x. IsConsented m (session_of x)) e (one.consented (prompt-IsConsented m s h));
      }
  after_one dep deps s (goes_on u) room later wants one e =
      let q = prompt-Prompted s in
      let found : install dep (asked s) ≡ some (goes_on u) = one.found ∙ ap some e in
      let fewer : length u.answers ≤ length (asked s).answers =
        subst (λ x. length (session_of x).answers ≤ length (asked s).answers) e one.fewer in
      let rest = later u (omega (arith, room, q.shorter, fewer)) in
      record {
        step = rest.step;
        found = rw (install_missing, wants, found) rest.found;
        fewer = omega (arith, q.shorter, fewer, rest.fewer);
        spent = omega (
          arith,
          prompt-spent s,
          rest.spent,
          subst (λ x. all_consents (session_of x) ≤ all_consents (asked s)) e one.spent,
        );
        consented = λ h. rest.consented (
            subst (λ x. IsConsented m (session_of x)) e (one.consented (prompt-IsConsented m s h)));
      }

  pub install_missing-Fine :
      (deps : List Text) (s : Session)
      → length s.answers ≤ fuel
      → Fine m s (install_missing install deps s)
  unfolding install_missing
  install_missing-Fine [] s room = record {
    step = goes_on s;
    found = refl;
    fewer = omega arith;
    spent = omega arith;
    consented = λ h. h;
  }
  install_missing-Fine (dep ∷ deps) s room = elim (Bool-cases (prompt s).0) [
    | inr no_thanks ↦
        let q = prompt-Prompted s in
        let rest = install_missing-Fine deps (asked s) (omega (arith, q.shorter)) in
        record {
          step = rest.step;
          found = rw (install_missing, no_thanks) rest.found;
          fewer = omega (arith, q.shorter, rest.fewer);
          spent = omega (arith, prompt-spent s, rest.spent);
          consented = λ h. rest.consented (prompt-IsConsented m s h);
        }
    | inl wants ↦
        let q = prompt-Prompted s in
        let one = installs dep (asked s) (ground (arith, q.shorter, wants)) in
        after_one dep deps s one.step room (λ u r. install_missing-Fine deps u r) wants one refl
  ]
