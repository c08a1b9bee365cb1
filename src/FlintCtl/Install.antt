-- ===== src/FlintCtl/Install.antt =====
-- src/bin/flint_ctl.rs: the fetching and installing of services ends, and overwrites no file without
-- the user's consent.
use flint_init.Prelude.{
  ℕ, zero, suc, ◌+◌, ◌≤◌, ◌<◌, Text, text_beq, text_eq, Bool, true, false, ◌&&◌, Option, some, List,
  [], ◌∷◌, ◌≡◌, refl, subst, text_refl, text_beq_iff, arith, count, length, Bool-cases,
  Option-cases, inl, inr, if◌then◌else◌,
}
use flint_init.Prelude.Map
use flint_init.Catalog.{fetch_service_toml, missing_deps, fetch_catalog}
use flint_init.FlintCtl.{
  Session, Machine, Step, goes_on, exits, prompt, path_exists, dest_of, may_write, install_toml,
  fetch_and_install, cmd_get, services_dir, is_available,
}
use flint_init.FlintCtl.Missing.{
  session_of, IsConsented, Fine, prompt-Prompted, asked, prompt-IsConsented, prompt-spent,
  all_consents, consents, install_missing-Fine,
}

-- A session in which a file may be written once more.
abbrev HasConsent : Machine → Text → Session → Type 0
HasConsent m name s =
    count (dest_of name) (Map.keys s.written) + (if m.exists (dest_of name) then 1 else 0)
    ≤ count (dest_of name) s.agreed

-- What the first test gives, and the session after it.
record Allowed (m : Machine) (name : Text) (s : Session) (result : Bool × Session) : Type 0 where
  fewer : length result.1.answers ≤ length s.answers
  spent : all_consents result.1 ≤ all_consents s
  consented : IsConsented m s → IsConsented m result.1
  consent : IsConsented m s → result.0 ≡ true → HasConsent m name result.1

free-Allowed :
    (m : Machine) (name : Text) (s : Session)
    → path_exists m s (dest_of name) ≡ false
    → Allowed m name s (true, s)
unfolding path_exists
free-Allowed m name s free = record {
  fewer = omega arith;
  spent = omega arith;
  consented = λ h. h;
  consent = λ h e. ground (arith, free, Map.count-keys (dest_of name) s.written);
}

agreed-Allowed :
    (m : Machine) (name : Text) (s : Session)
    → (prompt s).0 ≡ true
    → Allowed m name s (true, record (asked s) { agreed = dest_of name ∷ (asked s).agreed })
unfolding count
agreed-Allowed m name s agrees =
    let q = prompt-Prompted s in
    record {
      fewer = omega (arith, q.shorter);
      spent = ground (arith, prompt-spent s, agrees);
      consented = λ h p. omega (arith, prompt-IsConsented m s h p);
      consent =
          λ h e. ground (arith, prompt-IsConsented m s h (dest_of name), text_refl (dest_of name));
    }

refused-Allowed : (m : Machine) (name : Text) (s : Session) → Allowed m name s (false, asked s)
refused-Allowed m name s =
    let q = prompt-Prompted s in
    record {
      fewer = omega (arith, q.shorter);
      spent = omega (arith, prompt-spent s);
      consented = prompt-IsConsented m s;
      consent = λ h e. absurd (ground (arith, e));
    }

may_write-Allowed :
    (m : Machine) (name : Text) (s : Session) → Allowed m name s (may_write m name s)
unfolding may_write
may_write-Allowed m name s = elim (Bool-cases (path_exists m s (dest_of name))) [
  | inr free ↦ subst (Allowed m name s) (rw (may_write, free) refl) (free-Allowed m name s free)
  | inl taken ↦ elim (Bool-cases (prompt s).0) [
    | inl agrees ↦
        subst (Allowed m name s) (rw (may_write, taken, agrees) refl)
          (agreed-Allowed m name s agrees)
    | inr refuses ↦
        subst (Allowed m name s) (rw (may_write, taken, refuses) refl) (refused-Allowed m name s)
  ]
]

-- A file is written where there is a consent for it.
write-IsConsented :
    (m : Machine) (name toml_str : Text) (s : Session)
    → IsConsented m s
    → HasConsent m name s
    → IsConsented m (record s { written = (dest_of name, toml_str) ∷ s.written })
unfolding count
write-IsConsented m name toml_str s h room p = elim (Bool-cases (text_beq (dest_of name) p)) [
  | inr other ↦ ground (arith, other, h p)
  | inl same ↦
      let e : dest_of name ≡ p = (text_beq_iff (dest_of name) p).0 same in
      let there : count p (Map.keys s.written) + (if m.exists p then 1 else 0) ≤ count p s.agreed =
        subst (λ q. count q (Map.keys s.written) + (if m.exists q then 1 else 0) ≤ count q s.agreed)
          e room in
      ground (arith, same, there)
]

-- What `install_toml` does, where there is a consent for its file.
record Installed (m : Machine) (name : Text) (s : Session) (result : Option Step) : Type 0 where
  step : Step
  found : result ≡ some step
  fewer : length (session_of step).answers ≤ length s.answers
  spent : all_consents (session_of step) ≤ all_consents s
  consented : IsConsented m s → HasConsent m name s → IsConsented m (session_of step)

stays :
    (m : Machine) (name : Text) (s : Session) (result : Option Step)
    → result ≡ some (exits s)
    → Installed m name s result
stays m name s result found = record {
  step = exits s;
  found = found;
  fewer = omega arith;
  spent = omega arith;
  consented = λ h room. h;
}

install_toml-Installed :
    (m : Machine) (fuel : ℕ) (install : Text → Session → Option Step)
    → ((dep : Text) (t : Session) → length t.answers < fuel → Fine m t (install dep t))
    → (name toml_str : Text) (s : Session) → length s.answers ≤ fuel
    → Installed m name s (install_toml install m name toml_str s)
unfolding install_toml
install_toml-Installed m fuel install installs name toml_str s room =
    elim (Option-cases (missing_deps m.net (path_exists m s) toml_str services_dir)) [
      | inl e ↦ stays m name s (install_toml install m name toml_str s) (rw (install_toml, e) refl)
      | inr (missing, e) ↦ elim (Bool-cases (m.creates && m.writes (dest_of name))) [
        | inr fails ↦
            stays m name s (install_toml install m name toml_str s)
              (rw (install_toml, e, fails) refl)
        | inl works ↦
            let written : Session = record s { written = (dest_of name, toml_str) ∷ s.written } in
            let rest = install_missing-Fine m fuel install installs missing written room in
            record {
              step = rest.step;
              found = rw (install_toml, e, works) rest.found;
              fewer = rest.fewer;
              spent = rest.spent;
              consented = λ h ready. rest.consented (write-IsConsented m name toml_str s h ready);
            }
      ]
    ]

fetch_and_install-Fine :
    (fuel : ℕ) (m : Machine) (distro name : Text) (s : Session)
    → length s.answers < fuel
    → Fine m s (fetch_and_install fuel m distro name s)
unfolding fetch_and_install
fetch_and_install-Fine zero m distro name s room = absurd (omega (arith, room))
fetch_and_install-Fine (suc fuel) m distro name s room =
    let a = may_write-Allowed m name s in
    let t = (may_write m name s).1 in
    elim (Bool-cases (may_write m name s).0) [
      | inr refused ↦ record {
        step = goes_on t;
        found = rw (fetch_and_install, refused) refl;
        fewer = a.fewer;
        spent = a.spent;
        consented = a.consented;
      }
      | inl allowed ↦ elim (Option-cases (fetch_service_toml m.net distro name)) [
        | inl e ↦ record {
          step = exits t;
          found = rw (fetch_and_install, allowed, e) refl;
          fewer = a.fewer;
          spent = a.spent;
          consented = a.consented;
        }
        | inr (toml_str, e) ↦
            let done =
              install_toml-Installed m fuel (λ dep. fetch_and_install fuel m distro dep)
                (λ dep u r. fetch_and_install-Fine fuel m distro dep u r) name toml_str t
                (omega (arith, a.fewer, room)) in
            record {
              step = done.step;
              found = rw (fetch_and_install, allowed, e) done.found;
              fewer = omega (arith, a.fewer, done.fewer);
              spent = omega (arith, a.spent, done.spent);
              consented = λ h. done.consented (a.consented h) (a.consent h allowed);
            }
      ]
    ]

stay-Fine :
    (m : Machine) (s : Session) (result : Option Step) → result ≡ some (exits s) → Fine m s result
stay-Fine m s result found = record {
  step = exits s;
  found = found;
  fewer = omega arith;
  spent = omega arith;
  consented = λ h. h;
}

cmd_get-Fine : (m : Machine) (distro name : Text) (s : Session) → Fine m s (cmd_get m distro name s)
unfolding cmd_get
cmd_get-Fine m distro name s = elim (Option-cases (fetch_catalog m.net).result) [
  | inl e ↦ stay-Fine m s (cmd_get m distro name s) (rw (cmd_get, e) refl)
  | inr (cat, e) ↦ elim (Option-cases (Map.get cat name)) [
    | inl f ↦ stay-Fine m s (cmd_get m distro name s) (rw (cmd_get, e, f) refl)
    | inr (entry, f) ↦ elim (Bool-cases (is_available distro entry)) [
      | inr no_entry ↦ stay-Fine m s (cmd_get m distro name s) (rw (cmd_get, e, f, no_entry) refl)
      | inl there ↦
          let fine : Fine m s (fetch_and_install (suc (length s.answers)) m distro name s) =
            fetch_and_install-Fine (suc (length s.answers)) m distro name s (omega arith) in
          record {
            step = fine.step;
            found = rw (cmd_get, e, f, there) fine.found;
            fewer = fine.fewer;
            spent = fine.spent;
            consented = fine.consented;
          }
    ]
  ]
]

-- Whatever the network gives and the user types, the installing of a service and of what it needs
-- ends; each path has been written at most once for each consent to overwrite it, and once more where
-- it was not there before, so that no file that was there is overwritten without a consent; and there
-- are no more consents than lines which the user typed and did not leave unread that say y or yes.
pub cmd_get_total :
    (m : Machine) (distro name : Text) (answers : List Text)
    → (step : Step) × (cmd_get m distro name
          (record { answers = answers; written = []; agreed = [] })
        ≡ some step)
      × IsConsented m (session_of step)
      × (length (session_of step).agreed + consents (session_of step).answers ≤ consents answers)
unfolding count
cmd_get_total m distro name answers =
    let start : Session = record { answers = answers; written = []; agreed = [] } in
    let fine = cmd_get-Fine m distro name start in
    (fine.step, fine.found, fine.consented (λ p. ground arith), omega (arith, fine.spent))
