-- ===== src/Graph/Ready/Boot/Refine.antt =====
-- src/graph.rs: what a boot promises, without the counting of degrees, and that the graph keeps it.
use flint_init.Prelude.{
  ◌<◌, Text, text_beq, text_beq_iff, text_eq, true, false, List, [], ◌∷◌, ◌++◌, contains,
  contains-eq-has_count, ◌≡◌, ◌↔◌, ap, text_refl, ◌∙◌, arith, Bool-cases, inl, inr, ◌==◌, nat_eq,
}
use flint_init.Service.{ServiceDef}
use flint_init.Graph.{ServiceGraph, built, build, initially_ready, mark_ready}
use flint_init.Graph.Edges.{total_in, edge_source}
use flint_init.Graph.Build.{known_deps, names_of, edges-tables}
use flint_init.Graph.Ready.Boot.{
  Boot, start, mark, Inv, left, not_left, edges_left, waiting_ordered, reached,
}

-- A service may be marked next: it is known, not marked, and all that its `after` and `needs` name of
-- the known services is marked.
pub record IsEnabled (services : List ServiceDef) (marked : List Text) (n : Text) : Type 0 where
  pub known : contains (names_of services) n ≡ true
  pub unready : contains marked n ≡ false
  pub ordered : (d : Text) → 0 < known_deps services d n → contains marked d ≡ true

-- The abstract boot: its state is only what is marked.
pub data AbstractBoot (services : List ServiceDef) : List Text → Type 0 where
  begin : AbstractBoot services []
  step :
      {marked : List Text}
      → AbstractBoot services marked
      → (n : Text) → IsEnabled services marked n
      → AbstractBoot services (n ∷ marked)

contains-split :
    (xs : List Text) (n : Text)
    → contains xs n ≡ true
    → (before : List Text) × (behind : List Text) × (xs ≡ before ++ n ∷ behind)
unfolding contains
contains-split [] n h = absurd (ground (arith, h))
contains-split (x ∷ xs) n h = elim (Bool-cases (text_beq x n)) [
  | inl same ↦ ([], xs, ap (λ y. y ∷ xs) ((text_beq_iff x n).0 same))
  | inr other ↦
      let (before, behind, e) = contains-split xs n (ground (arith, h, other)) in
      (x ∷ before, behind, ap (λ ys. x ∷ ys) e)
]

module _ (services : List ServiceDef) {g : ServiceGraph} {waiting marked : List Text}
    (h : Inv services g waiting marked) where
  waiting-IsEnabled : (n : Text) → contains waiting n ≡ true → IsEnabled services marked n
  waiting-IsEnabled n here = record {
    known = ground (arith, h.released n, h.once n, contains-eq-has_count n waiting, here);
    unready = ground (
      arith,
      h.released n,
      h.once n,
      contains-eq-has_count n waiting,
      contains-eq-has_count n marked,
      here,
    );
    ordered = λ d. waiting_ordered services h n d here;
  }

  IsEnabled-no_edges :
      (n : Text) → IsEnabled services marked n → total_in (left services marked) n ≡ 0
  IsEnabled-no_edges n enabled = elim (Bool-cases (total_in (left services marked) n == 0)) [
    | inl none ↦ ground (arith, none)
    | inr more ↦
        let (d, there, some_edge) =
          edge_source (left services marked) n h.distinct (ground (arith, more)) in
        absurd (
          ground (
            arith,
            enabled.ordered d
                (ground (arith, edges-tables services d n, edges_left services h d n there)),
            h.once d,
            there,
            contains-eq-has_count d marked,
          ))
  ]

  IsEnabled-waiting : (n : Text) → IsEnabled services marked n → contains waiting n ≡ true
  IsEnabled-waiting n enabled = ground (
    arith,
    h.released n,
    not_left services h n enabled.known enabled.unready,
    IsEnabled-no_edges n enabled,
    contains-eq-has_count n waiting,
  )

contains-middle :
    (before : List Text) (n : Text) (behind : List Text) → contains (before ++ n ∷ behind) n ≡ true
unfolding contains
contains-middle [] n behind = ground (arith, text_refl n)
contains-middle (x ∷ before) n behind = ground (arith, contains-middle before n behind)

module _ (services : List ServiceDef) (first : ServiceGraph)
    (accepted : build services ≡ built first) where
  Boot-AbstractBoot :
      {g : ServiceGraph} {waiting marked : List Text}
      → Boot first g waiting marked
      → AbstractBoot services marked
  Boot-AbstractBoot start = begin
  Boot-AbstractBoot (mark {g} {waiting} {marked} b before name behind e) =
      let here : contains waiting name ≡ true =
        ap (λ xs. contains xs name) e ∙ contains-middle before name behind in
      step (Boot-AbstractBoot b) name
        (waiting-IsEnabled services (reached services first g waiting marked accepted b) name here)

  AbstractBoot-Boot :
      {marked : List Text}
      → AbstractBoot services marked
      → (g : ServiceGraph) × (waiting : List Text) × Boot first g waiting marked
  AbstractBoot-Boot begin = (first, initially_ready first, start)
  AbstractBoot-Boot (step {marked} a n enabled) =
      let (g, waiting, b) = AbstractBoot-Boot a in
      let here =
        IsEnabled-waiting services (reached services first g waiting marked accepted b) n enabled in
      let (before, behind, e) = contains-split waiting n here in
      ((mark_ready n g).0, (before ++ behind) ++ (mark_ready n g).1, mark b before n behind e)

  -- For an accepted list of definitions the graph implements the abstract boot: what a boot of the
  -- graph marks, the abstract boot may mark, the services that it releases are at all times exactly
  -- those that the abstract boot may mark next, and every run of the abstract boot is one of the
  -- graph.
  pub Boot-refines :
      ((g : ServiceGraph) (waiting marked : List Text)
        → Boot first g waiting marked
        → AbstractBoot services marked
          × ((n : Text) → (contains waiting n ≡ true) ↔ IsEnabled services marked n))
      × ((marked : List Text)
          → AbstractBoot services marked
          → (g : ServiceGraph) × (waiting : List Text) × Boot first g waiting marked)
  Boot-refines = (
    λ g waiting marked b.
        let h = reached services first g waiting marked accepted b in
        (
          Boot-AbstractBoot b,
          λ n. (waiting-IsEnabled services h n, IsEnabled-waiting services h n),
        ),
    λ marked a. AbstractBoot-Boot a,
  )
