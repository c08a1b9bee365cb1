-- ===== src/Executor/Stop/Kills.antt =====
-- src/executor.rs, the graceful shutdown: whom it signals, and how often.
use flint_init.Prelude.{
  ℕ, ◌+◌, ◌-◌, ◌≤◌, ◌<◌, Text, text_eq, nat_eq, ◌==◌, Bool, some, List, [], ◌∷◌, ◌++◌, ◌≡◌, refl,
  arith, ap, if◌then◌else◌, Option-cases, inl, inr, count, IsDistinct, ◌∙◌,
}
use flint_init.Prelude.Map
use flint_init.Prelude.Map.{Map, get, count-keys-remove}
use flint_init.Graph.{collect_set}
use flint_init.Graph.Shutdown.{shutdown_order}
use flint_init.Graph.Shutdown.Total.{shutdown_order_total}
use flint_init.Executor.{State, Effect, Signal, emit, find_pid, kill, sigterm, sigkill}
use flint_init.Executor.Reap.{forget_pid}
use flint_init.Executor.Stop.{values, terminate, stop_one, stop_all, stop_stragglers, stop_services}

-- How often a process is sent a signal by an effect.
abbrev sends : Signal → ℕ → Effect → ℕ
sends sigterm pid (kill p sigterm) = if p == pid then 1 else 0
sends sigkill pid (kill p sigkill) = if p == pid then 1 else 0
sends _ pid _ = 0

abbrev pub sent : Signal → ℕ → List Effect → ℕ
sent sig pid [] = 0
sent sig pid (effect ∷ effects) = sends sig pid effect + sent sig pid effects

sent-append :
    (sig : Signal) (pid : ℕ) (xs : List Effect) (effect : Effect)
    → sent sig pid (xs ++ effect ∷ []) ≡ sent sig pid xs + sends sig pid effect
sent-append sig pid [] effect = omega arith
sent-append sig pid (x ∷ xs) effect = omega (arith, sent-append sig pid xs effect)

-- The shutdown has sent SIGTERM to a process `due` times, and SIGKILL as often where it stays.
record Sent (stays : ℕ → Bool) (pid due : ℕ) (s s' : State) : Type 0 where
  terms : sent sigterm pid s'.effects ≡ sent sigterm pid s.effects + due
  kills : sent sigkill pid s'.effects ≡ sent sigkill pid s.effects + (if stays pid then due else 0)

terminate-Sent :
    (stays : ℕ → Bool) (p pid : ℕ) (s : State)
    → Sent stays pid (if p == pid then 1 else 0) s (terminate stays p s)
unfolding terminate emit
terminate-Sent stays p pid s =
    let s' = s.effects ++ kill p sigterm ∷ [] in
    record {
      terms = ground (
        arith,
        sent-append sigterm pid s.effects (kill p sigterm),
        sent-append sigterm pid s' (kill p sigkill),
      );
      kills = ground (
        arith,
        nat_eq.decides p pid,
        sent-append sigkill pid s.effects (kill p sigterm),
        sent-append sigkill pid s' (kill p sigkill),
      );
    }

Sent-trans :
    (stays : ℕ → Bool) (pid a b n : ℕ) (s t u : State)
    → Sent stays pid a s t
    → Sent stays pid b t u
    → a + b ≡ n
    → Sent stays pid n s u
Sent-trans stays pid a b n s t u h k e = record {
  terms = omega (arith, h.terms, k.terms, e);
  kills = ground (arith, h.kills, k.kills, e);
}

stop_stragglers-Sent :
    (stays : ℕ → Bool) (pid : ℕ) (m : Map ℕ Text) (s : State)
    → Sent stays pid (count pid (Map.keys m)) s (stop_stragglers stays m s)
unfolding stop_stragglers count
stop_stragglers-Sent stays pid [] s = record { terms = omega arith; kills = ground arith }
stop_stragglers-Sent stays pid ((p, name) ∷ m) s =
    Sent-trans stays pid (if p == pid then 1 else 0) (count pid (Map.keys m))
      ((if p == pid then 1 else 0) + count pid (Map.keys m)) s (terminate stays p s)
      (stop_stragglers stays m (terminate stays p s)) (terminate-Sent stays p pid s)
      (stop_stragglers-Sent stays pid m (terminate stays p s)) refl

find_pid-tracked :
    (m : Map ℕ Text) (name : Text) (pid : ℕ)
    → find_pid m name ≡ some pid
    → 0 < count pid (Map.keys m)
unfolding find_pid count
find_pid-tracked [] name pid h = absurd (ground (arith, h))
find_pid-tracked ((p, n) ∷ m) name pid h =
    ground (arith, find_pid-tracked m name pid, nat_eq.decides p pid, h)

terminate-pids :
    (stays : ℕ → Bool) (p : ℕ) (s : State) → (terminate stays p s).pid_to_name ≡ s.pid_to_name
unfolding terminate emit
terminate-pids stays p s = ground arith

-- How often a process is tracked.
abbrev tracked : ℕ → State → ℕ
tracked pid s = count pid (Map.keys s.pid_to_name)

-- What a part of the shutdown does to the effects and to the tracked processes.
record Stopped (stays : ℕ → Bool) (pid : ℕ) (s s' : State) : Type 0 where
  sends : Sent stays pid (tracked pid s - tracked pid s') s s'
  fewer : tracked pid s' ≤ tracked pid s

forget-tracked :
    (stays : ℕ → Bool) (p pid : ℕ) (s : State)
    → tracked pid (forget_pid p (terminate stays p s)) ≡ (if p == pid then 0 else tracked pid s)
unfolding forget_pid
forget-tracked stays p pid s =
    count-keys-remove p pid (terminate stays p s).pid_to_name
    ∙ ap (λ (m : Map ℕ Text). if p == pid then 0 else count pid (Map.keys m))
        (terminate-pids stays p s)

forget-Stopped :
    (stays : ℕ → Bool) (name : Text) (p pid : ℕ) (s : State)
    → IsDistinct (Map.keys s.pid_to_name)
    → find_pid s.pid_to_name name ≡ some p
    → Stopped stays pid s (forget_pid p (terminate stays p s))
unfolding forget_pid
forget-Stopped stays name p pid s distinct e =
    let left = forget-tracked stays p pid s in
    let one = find_pid-tracked s.pid_to_name name p e in
    let sent_p = terminate-Sent stays p pid s in
    record {
      sends = record {
        terms = ground (arith, left, one, nat_eq.decides p pid, distinct pid, sent_p.terms);
        kills = ground (arith, left, one, nat_eq.decides p pid, distinct pid, sent_p.kills);
      };
      fewer = ground (arith, left);
    }

stop_one-Stopped :
    (stays : ℕ → Bool) (name : Text) (pid : ℕ) (s : State)
    → IsDistinct (Map.keys s.pid_to_name)
    → Stopped stays pid s (stop_one stays name s)
unfolding stop_one forget_pid
stop_one-Stopped stays name pid s distinct = elim (Option-cases (find_pid s.pid_to_name name)) [
  | inl e ↦
      rw (stop_one, e)
        (record {
          sends = record { terms = omega arith; kills = ground arith };
          fewer = omega arith;
        })
  | inr (p, e) ↦ rw (stop_one, e) (forget-Stopped stays name p pid s distinct e)
]

stop_one-IsDistinct :
    (stays : ℕ → Bool) (name : Text) (s : State)
    → IsDistinct (Map.keys s.pid_to_name)
    → IsDistinct (Map.keys (stop_one stays name s).pid_to_name)
stop_one-IsDistinct stays name s distinct pid =
    omega (arith, (stop_one-Stopped stays name pid s distinct).fewer, distinct pid)

stop_all-Stopped :
    (stays : ℕ → Bool) (names : List Text) (pid : ℕ) (s : State)
    → IsDistinct (Map.keys s.pid_to_name)
    → Stopped stays pid s (stop_all stays names s)
unfolding stop_all
stop_all-Stopped stays [] pid s distinct = record {
  sends = record { terms = omega arith; kills = ground arith };
  fewer = omega arith;
}
stop_all-Stopped stays (name ∷ names) pid s distinct =
    let t = stop_one stays name s in
    let u = stop_all stays names t in
    let one = stop_one-Stopped stays name pid s distinct in
    let rest = stop_all-Stopped stays names pid t (stop_one-IsDistinct stays name s distinct) in
    record {
      sends =
          Sent-trans stays pid (tracked pid s - tracked pid t) (tracked pid t - tracked pid u)
            (tracked pid s - tracked pid u) s t u one.sends rest.sends
            (omega (arith, one.fewer, rest.fewer));
      fewer = omega (arith, one.fewer, rest.fewer);
    }

-- The shutdown ends, in any graph, and sends SIGTERM once to each process that is tracked and to no
-- other; SIGKILL is sent once to each of these that outlives its time, and to no other. The map of
-- the processes has each pid once.
pub stop_services_lem :
    (stays : ℕ → Bool) (s : State)
    → IsDistinct (Map.keys s.pid_to_name)
    → (s' : State) × (stop_services stays s ≡ some s')
      × ((pid : ℕ)
          → (sent sigterm pid s'.effects
              ≡ sent sigterm pid s.effects + count pid (Map.keys s.pid_to_name))
            × (sent sigkill pid s'.effects
                ≡ sent sigkill pid s.effects
                  + (if stays pid then count pid (Map.keys s.pid_to_name) else 0)))
unfolding stop_services
stop_services_lem stays s distinct =
    elim (Option-cases (shutdown_order s.graph (collect_set (values s.pid_to_name)))) [
      | inl e ↦
          absurd
            (ground (arith, shutdown_order_total s.graph (collect_set (values s.pid_to_name)), e))
      | inr (order, e) ↦
          let t = stop_all stays order s in
          let u = stop_stragglers stays t.pid_to_name t in
          (
            u,
            rw (stop_services, e) refl,
            λ pid.
                let first = stop_all-Stopped stays order pid s distinct in
                let whole =
                  Sent-trans stays pid (tracked pid s - tracked pid t) (tracked pid t)
                    (tracked pid s) s t u first.sends
                    (stop_stragglers-Sent stays pid t.pid_to_name t) (omega (arith, first.fewer)) in
                (whole.terms, whole.kills),
          )
    ]
