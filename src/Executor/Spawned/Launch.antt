-- ===== src/Executor/Spawned/Launch.antt =====
-- src/executor.rs: the launch and the shutdown keep the account of the starts.
use flint_init.Prelude.{
  ℕ, zero, suc, ◌+◌, Text, text_eq, nat_eq, Bool, Option, none, some, List, [], ◌∷◌, ◌≡◌, refl,
  arith, ap, Bool-cases, Option-cases, inl, inr, contains, count,
}
use flint_init.Prelude.Map.{Map, get}
use flint_init.Service.{ServiceDef, ready_path}
use flint_init.Graph.{needs_dependents}
use flint_init.Executor.{
  Os, State, failed, Outcome, done, fail, panic, spawn_service, set_state, find_pid, kill, sigterm,
  sigkill, block_all, remove_file,
}
use flint_init.Executor.Sound.{OnDone, Outcome-cases}
use flint_init.Executor.Launch.{
  pop, skip_blocked, remove_stale, launch_one, launch_step, launch_loop, launch_fuel, launch,
}
use flint_init.Executor.Reap.{forget_pid}
use flint_init.Executor.Stop.{terminate, stop_one, stop_all, stop_stragglers}
use flint_init.Executor.Spawned.{
  named, IsPaid, drop_credit, set_state-IsPaid, emit-IsPaid, track-IsPaid,
  release_dependents-IsPaid,
}

-- The items of what `pop` gives.
abbrev popped : Text → Option (List Text × Text) → ℕ
popped n none = 0
popped n (some (rest, name)) = count n rest + named name n

count-pop : (n : Text) (names : List Text) → count n names ≡ popped n (pop names)
unfolding pop count
count-pop n [] = refl
count-pop n (x ∷ xs) = one_more (pop xs) (count-pop n xs)
  where
    one_more :
        (o : Option (List Text × Text))
        → count n xs ≡ popped n o
        → named x n + count n xs
          ≡ popped n (elim o [ none ↦ some ([], x) | some (rest, last) ↦ some (x ∷ rest, last) ])
    one_more none e = omega (arith, e)
    one_more (some (rest, last)) e = omega (arith, e)

module _ (n : Text) (budget : ℕ) where
  pub forget_pid-IsPaid :
      (pid : ℕ) (s : State) → IsPaid n 0 budget s → IsPaid n 0 budget (forget_pid pid s)
  unfolding forget_pid
  forget_pid-IsPaid pid s h = record { paid = h.paid; bounded = h.bounded }

  skip_blocked-IsPaid :
      (name : Text) (s : State) → IsPaid n 0 budget s → IsPaid n 0 budget (skip_blocked name s)
  unfolding skip_blocked
  skip_blocked-IsPaid name s h =
      let set = set_state-IsPaid n name failed 0 budget s h in
      let s' = set_state name failed s in
      let blocked : State = record s' {
        blocked_services = block_all (needs_dependents s'.graph name) s'.blocked_services;
      } in
      let after =
        release_dependents-IsPaid n name 0 budget blocked
          (record { paid = set.paid; bounded = set.bounded }) in
      record { paid = after.paid; bounded = after.bounded }

  remove_stale-IsPaid :
      (def : ServiceDef) (credit : ℕ) (s : State)
      → IsPaid n credit budget s
      → IsPaid n credit budget (remove_stale def s)
  unfolding remove_stale
  remove_stale-IsPaid def credit s h = elim (Option-cases (ready_path def)) [
    | inl e ↦ rw (remove_stale, e) h
    | inr (path, e) ↦ rw (remove_stale, e) (emit-IsPaid n (remove_file path) credit budget s refl h)
  ]

  terminate-IsPaid :
      (stays : ℕ → Bool) (pid : ℕ) (s : State)
      → IsPaid n 0 budget s
      → IsPaid n 0 budget (terminate stays pid s)
  unfolding terminate
  terminate-IsPaid stays pid s h =
      let asked = emit-IsPaid n (kill pid sigterm) 0 budget s refl h in
      elim (Bool-cases (stays pid)) [
        | inl e ↦ rw (terminate, e) (emit-IsPaid n (kill pid sigkill) 0 budget _ refl asked)
        | inr e ↦ rw (terminate, e) asked
      ]

  stop_one-IsPaid :
      (stays : ℕ → Bool) (name : Text) (s : State)
      → IsPaid n 0 budget s
      → IsPaid n 0 budget (stop_one stays name s)
  unfolding stop_one
  stop_one-IsPaid stays name s h = elim (Option-cases (find_pid s.pid_to_name name)) [
    | inl e ↦ rw (stop_one, e) h
    | inr (pid, e) ↦
        rw (stop_one, e)
          (forget_pid-IsPaid pid (terminate stays pid s) (terminate-IsPaid stays pid s h))
  ]

  pub stop_all-IsPaid :
      (stays : ℕ → Bool) (names : List Text) (s : State)
      → IsPaid n 0 budget s
      → IsPaid n 0 budget (stop_all stays names s)
  unfolding stop_all
  stop_all-IsPaid stays [] s h = h
  stop_all-IsPaid stays (name ∷ names) s h =
      stop_all-IsPaid stays names (stop_one stays name s) (stop_one-IsPaid stays name s h)

  pub stop_stragglers-IsPaid :
      (stays : ℕ → Bool) (m : Map ℕ Text) (s : State)
      → IsPaid n 0 budget s
      → IsPaid n 0 budget (stop_stragglers stays m s)
  unfolding stop_stragglers
  stop_stragglers-IsPaid stays [] s h = h
  stop_stragglers-IsPaid stays ((pid, name) ∷ m) s h =
      stop_stragglers-IsPaid stays m (terminate stays pid s) (terminate-IsPaid stays pid s h)

  module _ (os : Os) where
    launch_one-IsPaid :
        (name : Text) (s : State)
        → IsPaid n (named name n) budget s
        → OnDone (IsPaid n 0 budget) (launch_one os name s)
    unfolding launch_one
    launch_one-IsPaid name s h = elim (Option-cases (get s.svc_by_name name)) [
      | inl e ↦ rw (launch_one, e) (drop_credit n (named name n) budget s h)
      | inr (def, e) ↦ elim (Outcome-cases (spawn_service os (remove_stale def s).forks def)) [
        | inl (child, q) ↦
            rw (launch_one, e, q)
              (track-IsPaid n name child budget (remove_stale def s)
                (remove_stale-IsPaid def (named name n) s h))
        | inr (inl (x, q)) ↦ rw (launch_one, e, q) tt
        | inr (inr q) ↦ rw (launch_one, e, q) tt
      ]
    ]

    launch_step-IsPaid :
        (name : Text) (s : State)
        → IsPaid n (named name n) budget s
        → OnDone (IsPaid n 0 budget) (launch_step os name s)
    unfolding launch_step
    launch_step-IsPaid name s h = elim (Bool-cases (contains s.blocked_services name)) [
      | inl e ↦
          rw (launch_step, e) (skip_blocked-IsPaid name s (drop_credit n (named name n) budget s h))
      | inr e ↦ rw (launch_step, e) (launch_one-IsPaid name s h)
    ]

    abbrev pub OnLaunch : Option (Outcome State) → Type 0
    OnLaunch none = Unit
    OnLaunch (some o) = OnDone (IsPaid n 0 budget) o

    launch_bind :
        (o : Outcome State) (f : State → Option (Outcome State))
        → OnDone (IsPaid n 0 budget) o
        → ((s : State) → IsPaid n 0 budget s → OnLaunch (f s))
        → OnLaunch (elim o [ done s ↦ f s | fail e ↦ some (fail e) | panic ↦ some panic ])
    launch_bind (done s) f h k = k s h
    launch_bind (fail e) f h k = tt
    launch_bind panic f h k = tt

    launch_loop-IsPaid :
        (fuel : ℕ) (s : State) → IsPaid n 0 budget s → OnLaunch (launch_loop os fuel s)
    unfolding launch_loop
    launch_loop-IsPaid zero s h = tt
    launch_loop-IsPaid (suc fuel) s h = elim (Option-cases (pop s.to_start)) [
      | inl e ↦ rw (launch_loop, e) h
      | inr ((rest, name), e) ↦
          rw (launch_loop, e)
            (launch_bind (launch_step os name (record s { to_start = rest })) (launch_loop os fuel)
              (launch_step-IsPaid name (record s { to_start = rest })
                (record {
                  paid = omega (arith, h.paid, count-pop n s.to_start, ap (popped n) e);
                  bounded = h.bounded;
                }))
              (λ s' h'. launch_loop-IsPaid fuel s' h'))
    ]

    pub launch-IsPaid : (s : State) → IsPaid n 0 budget s → OnLaunch (launch os s)
    unfolding launch
    launch-IsPaid s h = launch_loop-IsPaid (launch_fuel s) s h
