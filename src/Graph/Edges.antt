-- ===== src/Graph/Edges.antt =====
-- What the graph that `Build` makes says of two feeds, by the index.

use metalife_pub.Prelude.{
  [], ◌∷◌, Option, none, some, true, false, not, ◌&&◌, ◌||◌, if◌then◌else◌, ◌≡◌, inl, inr, refl,
  subst, ◌∙◌, arith, Bool-cases, Option-cases, String, eqb, eqb_iff, string_eq, nat_eq, list_eq,
  pair_eq, bool_eq, is_some,
}
use metalife_pub.GoMap.{GoMap, lookup}
use metalife_pub.GoMap.Laws.{lookup-insert, Distinct, lookup-cons, lookup-nil}
use metalife_pub.FeedSet.{add_ref, has_ref}
use metalife_pub.FeedSet.Laws.{has-add_ref}
use metalife_pub.Graph.{
  Relation, rel_none, rel_following, rel_blocking, rel_metafeed, Weight, one, infinity, tenth,
  Graph, add_entry, add_entries, get_edge,
}

abbrev pub empty_graph : Graph
empty_graph = record { nodes = []; edges = [] }

-- The edge for a relation, over the edge that was there.
abbrev pub edge_for : Option Relation → Option Weight → Option Weight
edge_for none o = o
edge_for (some rel_none) o = o
edge_for (some rel_following) o = some one
edge_for (some rel_blocking) o = some infinity
edge_for (some rel_metafeed) o = some tenth

edges-add_entry :
    (a b from to : String) (rel : Relation) (dg : Graph)
    → eqb a b ≡ false
    → lookup (a, b) (add_entry from to rel dg).edges ≡ (
        if eqb from a && eqb to b
        then edge_for (some rel) (lookup (a, b) dg.edges)
        else lookup (a, b) dg.edges)
unfolding add_entry
edges-add_entry a b from to rel_none dg h = ground (arith)
edges-add_entry a b from to rel_following dg h = ground (
  arith,
  lookup-insert (from, to) (a, b) one dg.edges,
  eqb_iff from a,
  eqb_iff to b,
  eqb_iff from to,
  eqb_iff a b,
)
edges-add_entry a b from to rel_blocking dg h = ground (
  arith,
  lookup-insert (from, to) (a, b) infinity dg.edges,
  eqb_iff from a,
  eqb_iff to b,
  eqb_iff from to,
  eqb_iff a b,
)
edges-add_entry a b from to rel_metafeed dg h = ground (
  arith,
  lookup-insert (from, to) (a, b) tenth dg.edges,
  eqb_iff from a,
  eqb_iff to b,
  eqb_iff from to,
  eqb_iff a b,
)

edges-add_entries :
    (a b : String) (m : GoMap (String × String) Relation) (dg : Graph)
    → Distinct m
    → eqb a b ≡ false
    → lookup (a, b) (add_entries m dg).edges ≡ edge_for (lookup (a, b) m) (lookup (a, b) dg.edges)
unfolding add_entries
edges-add_entries a b [] dg d h =
    ground (arith, lookup-nil {K = String × String} {V = Relation} (a, b))
edges-add_entries a b (((from, to), rel) ∷ m) dg d h =
    let rest = edges-add_entries a b m (add_entry from to rel dg) d.1 h in
    ground (
      arith,
      rest,
      edges-add_entry a b from to rel dg h,
      lookup-cons (a, b) (from, to) rel m,
      eqb_iff from a,
      eqb_iff to b,
      d.0,
    )

no_self_edge :
    (a from to : String) (rel : Relation) (dg : Graph)
    → lookup (a, a) (add_entry from to rel dg).edges ≡ lookup (a, a) dg.edges
unfolding add_entry
no_self_edge a from to rel_none dg = ground arith
no_self_edge a from to rel_following dg = ground (
  arith,
  lookup-insert (from, to) (a, a) one dg.edges,
  eqb_iff from a,
  eqb_iff to a,
  eqb_iff from to,
)
no_self_edge a from to rel_blocking dg = ground (
  arith,
  lookup-insert (from, to) (a, a) infinity dg.edges,
  eqb_iff from a,
  eqb_iff to a,
  eqb_iff from to,
)
no_self_edge a from to rel_metafeed dg = ground (
  arith,
  lookup-insert (from, to) (a, a) tenth dg.edges,
  eqb_iff from a,
  eqb_iff to a,
  eqb_iff from to,
)

no_self_edges :
    (a : String) (m : GoMap (String × String) Relation) (dg : Graph)
    → lookup (a, a) (add_entries m dg).edges ≡ lookup (a, a) dg.edges
unfolding add_entries
no_self_edges a [] dg = refl
no_self_edges a (((from, to), rel) ∷ m) dg =
    no_self_edges a m (add_entry from to rel dg) ∙ no_self_edge a from to rel dg

-- Both ends of an edge are nodes.
abbrev pub HasEnds : Graph → Type 0
HasEnds g =
    (a b : String)
    → is_some (lookup (a, b) g.edges) ≡ true
    → (has_ref g.nodes a ≡ true) × (has_ref g.nodes b ≡ true)

nodes-add_entry :
    (c from to : String) (rel : Relation) (dg : Graph)
    → has_ref (add_entry from to rel dg).nodes c
      ≡ (not (eqb from to) && (eqb from c || eqb to c) || has_ref dg.nodes c)
unfolding add_entry
nodes-add_entry c from to rel_none dg =
    ground (arith, has-add_ref to c (add_ref from dg.nodes), has-add_ref from c dg.nodes)
nodes-add_entry c from to rel_following dg =
    ground (arith, has-add_ref to c (add_ref from dg.nodes), has-add_ref from c dg.nodes)
nodes-add_entry c from to rel_blocking dg =
    ground (arith, has-add_ref to c (add_ref from dg.nodes), has-add_ref from c dg.nodes)
nodes-add_entry c from to rel_metafeed dg =
    ground (arith, has-add_ref to c (add_ref from dg.nodes), has-add_ref from c dg.nodes)

add_entry-HasEnds :
    (from to : String) (rel : Relation) (dg : Graph)
    → HasEnds dg
    → HasEnds (add_entry from to rel dg)
add_entry-HasEnds from to rel dg h a b e = elim (Bool-cases (eqb a b)) [
  | inl same ↦
      let here : is_some (lookup (a, b) dg.edges) ≡ true =
        ground (arith, eqb_iff a b, no_self_edge a from to rel dg) in
      ground (arith, h a b here, nodes-add_entry a from to rel dg, nodes-add_entry b from to rel dg)
  | inr other ↦ elim (Bool-cases (eqb from a && eqb to b)) [
    | inl this ↦ ground (
      arith,
      nodes-add_entry a from to rel dg,
      nodes-add_entry b from to rel dg,
      eqb_iff from to,
      eqb_iff from a,
      eqb_iff to b,
      eqb_iff a b,
    )
    | inr that ↦ ground (
      arith,
      edges-add_entry a b from to rel dg other,
      h a b,
      nodes-add_entry a from to rel dg,
      nodes-add_entry b from to rel dg,
    )
  ]
]

pub add_entries-HasEnds :
    (m : GoMap (String × String) Relation) (dg : Graph) → HasEnds dg → HasEnds (add_entries m dg)
unfolding add_entries
add_entries-HasEnds [] dg h = h
add_entries-HasEnds (((from, to), rel) ∷ m) dg h =
    add_entries-HasEnds m (add_entry from to rel dg) (add_entry-HasEnds from to rel dg h)

pub get_edge-HasEnds :
    (g : Graph) → HasEnds g → (a b : String) → get_edge a b g ≡ lookup (a, b) g.edges
unfolding get_edge
get_edge-HasEnds g h a b = elim (Option-cases (lookup (a, b) g.edges)) [
  | inl absent ↦ ground (arith, absent)
  | inr (w, there) ↦ ground (arith, there, h a b (rw there))
]

abbrev pub built : GoMap (String × String) Relation → Graph
built m = add_entries m empty_graph

-- The edges of the graph that is built, by the index.
pub built_edge :
    (a b : String) (m : GoMap (String × String) Relation)
    → Distinct m
    → get_edge a b (built m) ≡ (if eqb a b then none else edge_for (lookup (a, b) m) none)
built_edge a b m d =
    let found =
      get_edge-HasEnds (built m)
        (add_entries-HasEnds m empty_graph
          (λ x y h. ground (arith, lookup-nil {K = String × String} {V = Weight} (x, y))))
        a b in
    elim (Bool-cases (eqb a b)) [
      | inl same ↦ rw same (
          found
          ∙ subst (λ y. lookup (a, y) (built m).edges ≡ none) ((eqb_iff a b).0 same)
              (no_self_edges a m empty_graph
                ∙ lookup-nil {K = String × String} {V = Weight} (a, a)))
      | inr other ↦ rw other (
          found
          ∙ (edges-add_entries a b m empty_graph d other
              ∙ rw (lookup-nil {K = String × String} {V = Weight} (a, b))))
    ]
