-- ===== src/Graph/Kahn.antt =====
-- src/graph.rs, `build`: the loop of Kahn's algorithm over consistent maps. `rest` holds the nodes
-- that have not been visited, with the edges that start at them.
use flint_init.Prelude.{
  ℕ, zero, suc, ◌+◌, ◌-◌, ◌≤◌, ◌<◌, Text, text_beq, text_beq_iff, text_eq, true, false, List, [],
  ◌∷◌, count, count-append, length, ◌≡◌, refl, arith, some, ap, ◌∙◌, if◌then◌else◌, ◌&&◌,
  List-cases, ltb, text_refl, inl, inr, ◌==◌, nat_eq,
}
use flint_init.Prelude.Map
use flint_init.Prelude.Map.{Map, get, insert, remove}
use flint_init.Graph.{Search, usize_pred, relax, relax_all, kahn}
use flint_init.Graph.Edges.{total_in, edges, total_in-remove}
use flint_init.Graph.Build.{degree}

-- No degree is decremented at zero, so `usize_pred` never wraps.
degree-relax :
    (dep n : Text) (s : Search)
    → 0 < degree s.tmp_degree dep
    → degree (relax dep s).tmp_degree n ≡ degree s.tmp_degree n - (if text_beq dep n then 1 else 0)
unfolding relax usize_pred
degree-relax dep n s h =
    ground
      (arith, Map.get-insert dep n (degree s.tmp_degree dep - 1) s.tmp_degree, text_beq_iff dep n)

relax_queue :
    (dep n : Text) (s : Search)
    → 0 < degree s.tmp_degree dep
    → count n (relax dep s).queue
      ≡ count n s.queue + (if text_beq dep n && (degree s.tmp_degree dep == 1) then 1 else 0)
unfolding relax usize_pred count
relax_queue dep n s h = ground (arith, count-append n s.queue (dep ∷ []), text_beq_iff dep n)

-- No dependent is taken from a degree more often than the degree has room.
abbrev pub HasRoom : List Text → Search → Type 0
HasRoom deps s = (k : Text) → count k deps ≤ degree s.tmp_degree k

pub head_room :
    (dep : Text) (deps : List Text) (s : Search)
    → HasRoom (dep ∷ deps) s
    → 0 < degree s.tmp_degree dep
unfolding count
head_room dep deps s h = ground (arith, h dep, text_refl dep)

pub tail_room :
    (dep : Text) (deps : List Text) (s : Search)
    → HasRoom (dep ∷ deps) s
    → HasRoom deps (relax dep s)
unfolding count
tail_room dep deps s h k = ground (arith, h k, degree-relax dep k s (head_room dep deps s h))

-- The loop over the dependents takes each from its degree as often as it stands there.
degree-relax_all :
    (deps : List Text) (s : Search) (n : Text)
    → HasRoom deps s
    → degree (relax_all deps s).tmp_degree n ≡ degree s.tmp_degree n - count n deps
unfolding relax_all count
degree-relax_all [] s n h = omega arith
degree-relax_all (dep ∷ deps) s n h = ground (
  arith,
  degree-relax_all deps (relax dep s) n (tail_room dep deps s h),
  degree-relax dep n s (head_room dep deps s h),
)

-- It queues those that come down to zero.
relax_all_queue :
    (deps : List Text) (s : Search) (n : Text)
    → HasRoom deps s
    → count n (relax_all deps s).queue
      ≡ count n s.queue
        + (if ltb 0 (count n deps) && (degree s.tmp_degree n == count n deps) then 1 else 0)
unfolding relax_all count
relax_all_queue [] s n h = ground arith
relax_all_queue (dep ∷ deps) s n h = ground (
  arith,
  relax_all_queue deps (relax dep s) n (tail_room dep deps s h),
  degree-relax dep n s (head_room dep deps s h),
  relax_queue dep n s (head_room dep deps s h),
  text_beq_iff dep n,
  h n,
)

relax_all_visited : (deps : List Text) (s : Search) → (relax_all deps s).visited ≡ s.visited
unfolding relax_all relax
relax_all_visited [] s = refl
relax_all_visited (dep ∷ deps) s = relax_all_visited deps (relax dep s)

module _ (dependents : Map Text (List Text)) where
  pub record Inv (s : Search) (rest : Map Text (List Text)) : Type 0 where
    pub degrees : (n : Text) → degree s.tmp_degree n ≡ total_in rest n
    pub same : (k : Text) → Map.contains_key rest k ≡ true → get dependents k ≡ get rest k
    pub distinct : (n : Text) → count n (Map.keys rest) ≤ 1
    pub queued :
        (n : Text)
        → count n s.queue ≡ (if Map.contains_key rest n && (total_in rest n == 0) then 1 else 0)
    pub gone : (n : Text) → Map.contains_key rest n ≡ false → total_in rest n ≡ 0

  -- The state behind `pop_front` and the count of the visit.
  abbrev pub popped : List Text → Search → Search
  popped queue s = record s { queue = queue; visited = s.visited + 1 }

  -- One round, for the node at the head of the queue.
  unfoldable pub visit : Text → List Text → Search → Search
  visit node queue s = relax_all (Map.get_or dependents node []) (popped queue s)

  module _ (s : Search) (node : Text) (queue : List Text) (rest : Map Text (List Text))
      (e : s.queue ≡ node ∷ queue) (h : Inv s rest) where
    node_ready : (Map.contains_key rest node ≡ true) × (total_in rest node ≡ 0)
    unfolding count
    node_ready = ground (arith, h.queued node, ap (count node) e, text_refl node)

    edges_same : (n : Text) → edges dependents node n ≡ edges rest node n
    edges_same n = ground (arith, h.same node, node_ready)

    taken : (n : Text) → total_in (remove node rest) n + edges dependents node n ≡ total_in rest n
    taken n = omega (arith, total_in-remove node rest n (h.distinct node), edges_same n)

    pub room : HasRoom (Map.get_or dependents node []) (popped queue s)
    room k = omega (arith, taken k, h.degrees k)

    has_rest :
        (n : Text)
        → Map.contains_key (remove node rest) n
          ≡ (if text_beq node n then false else Map.contains_key rest n)
    has_rest n = ground (arith, Map.get-remove node n rest)

    front : (n : Text) → count n s.queue ≡ (if text_beq node n then 1 else 0) + count n queue
    unfolding count
    front n = ground (arith, ap (count n) e)

    visit_queued :
        (n : Text)
        → count n (visit node queue s).queue ≡ (
            if Map.contains_key (remove node rest) n && (total_in (remove node rest) n == 0)
            then 1
            else 0)
    unfolding visit
    visit_queued n = ground (
      arith,
      relax_all_queue (Map.get_or dependents node []) (popped queue s) n room,
      front n,
      taken n,
      h.queued n,
      h.degrees n,
      h.gone n,
      node_ready,
      has_rest n,
      text_beq_iff node n,
    )

    pub visit-Inv : Inv (visit node queue s) (remove node rest)
    unfolding visit
    visit-Inv = record {
      degrees = λ n. omega (
        arith,
        degree-relax_all (Map.get_or dependents node []) (popped queue s) n room,
        taken n,
        h.degrees n,
      );
      same = λ k key. ground (arith, Map.get-remove node k rest, h.same k);
      distinct = λ n. ground (arith, Map.count-keys-remove node n rest, h.distinct n);
      queued = visit_queued;
      gone =
          λ n out. ground (arith, has_rest n, taken n, h.gone n, node_ready, text_beq_iff node n);
    }

    node_count : count node (Map.keys rest) ≡ 1
    node_count = ground (arith, h.distinct node, Map.count-keys node rest, node_ready)

    shorter : suc (length (remove node rest)) ≡ length rest
    shorter = omega (arith, Map.length-remove node rest, node_count)

    visit_count : (visit node queue s).visited + length (remove node rest) ≡ s.visited + length rest
    unfolding visit
    visit_count =
        omega (arith, relax_all_visited (Map.get_or dependents node []) (popped queue s), shorter)

    kahn_step :
        (fuel : ℕ) → kahn dependents (suc fuel) s ≡ kahn dependents fuel (visit node queue s)
    unfolding kahn visit
    kahn_step fuel = ground arith

kahn_stop :
    (dependents : Map Text (List Text)) (fuel : ℕ) (s : Search)
    → s.queue ≡ []
    → kahn dependents (suc fuel) s ≡ some s
unfolding kahn
kahn_stop dependents fuel s e = ground arith

-- The nodes of `order` are visited one after the other: each is there and has no edge left that
-- leads to it. `left` is what they leave.
abbrev pub Peels : Map Text (List Text) → List Text → Map Text (List Text) → Type 0
Peels rest [] left = rest ≡ left
Peels rest (n ∷ order) left =
    (Map.contains_key rest n ≡ true) × (total_in rest n ≡ 0) × Peels (remove n rest) order left

-- How the loop ends.
pub record Ends (dependents : Map Text (List Text)) (s : Search) (rest : Map Text (List Text))
    (fuel : ℕ) : Type 0 where
  pub final : Search
  pub left : Map Text (List Text)
  pub order : List Text
  pub ends : kahn dependents fuel s ≡ some final
  pub empty : final.queue ≡ []
  pub inv : Inv dependents final left
  pub peels : Peels rest order left
  pub visited : final.visited + length left ≡ s.visited + length rest

-- With fuel for the nodes that are left the loop comes to its end.
pub kahn_ends :
    (dependents : Map Text (List Text)) (fuel : ℕ) (s : Search) (rest : Map Text (List Text))
    → Inv dependents s rest
    → length rest < fuel
    → Ends dependents s rest fuel
kahn_ends dependents zero s rest h f = absurd (omega arith)
kahn_ends dependents (suc fuel) s rest h f = elim (List-cases s.queue) [
  | inl e ↦ record {
    final = s;
    left = rest;
    order = [];
    ends = kahn_stop dependents fuel s e;
    empty = e;
    inv = h;
    peels = refl;
    visited = refl;
  }
  | inr (node, queue, e) ↦
      let ready = node_ready dependents s node queue rest e h in
      let counted = visit_count dependents s node queue rest e h in
      let later =
        kahn_ends dependents fuel (visit dependents node queue s) (remove node rest)
          (visit-Inv dependents s node queue rest e h)
          (omega (arith, shorter dependents s node queue rest e h)) in
      record {
        final = later.final;
        left = later.left;
        order = node ∷ later.order;
        ends = kahn_step dependents s node queue rest e h fuel ∙ later.ends;
        empty = later.empty;
        inv = later.inv;
        peels = (ready.0, ready.1, later.peels);
        visited = omega (arith, later.visited, counted);
      }
]
